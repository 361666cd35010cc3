-- ===== src/Lib.antt =====
-- subgen: a subscription server for mihomo (Clash.Meta) on top of 3x-ui panels.
--
-- An operator edits one routing config: proxy-groups, routing rules, rule-providers and a base YAML.
-- The save handler decodes the request, validates the draft and stores it; a request of a subscriber
-- renders the stored config with that subscriber's proxies.
--
-- - Prelude: tests, results, integers, lists, maps and the functions of Go's package strings.
-- - Mihomo (internal/mihomo): Errors, RuleType, PolicyRef, ProxyGroup, RoutingRule and Draft are the
--   data of errors.go, routing_rule.go, policy_ref.go, proxy_group.go, routing.go, profile.go and
--   draft.go. A Go string type with constants is a data type with a constructor `unknown` for other
--   texts; a pointer is an Option; a struct that holds a list of itself is a record of its other
--   fields and a list type of its own. Decode is decode.go, Validate, Groups and Cycle are
--   validate.go, one function for each function and loop there. Shape says without the code what a
--   well-formed draft is.
-- - Entity (internal/entity): the types that the parts share, Node, Panel, User and Fleet.
-- - Render (internal/mihomo/render): Resolver is policy.go, Groups, Rules, Providers and Proxies the
--   files of those names, Document is render.go. A call of slog.Error is an event in a list beside
--   the result.
-- - Provision (internal/service/provisioning): Targets has the checks and the resolution of the input,
--   Sync `syncPanels`, Service the guard and the operations. Act is contract.go: an operation is a
--   function on a world of any type, in which each call of the repositories and of the panel client may
--   do and answer anything; the calls that write, or that read a panel, are recorded in a list.
-- - Fleet (internal/service/fleet): Build is buildFleet of build.go, Hysteria addHysteria2Inbounds,
--   Fetch is fetch of fleet.go; Outage is about the panels that do not answer.
-- - Nodes (internal/service/nodes, internal/handlers/node_save and node_delete): Text has the tests on
--   names, hosts, URLs and bandwidths, Validate is validate.go, Service is service.go with the two
--   handlers. Names and Accepts say what is accepted, Kept what reaches the repository, Answers what
--   the form is told, Label how labels clash.
-- - Store (internal/repository/routing): Tables are the tables as lists of rows, Save is
--   save_mihomo_config.go and Load the files that read. Order is about WHERE and ORDER BY; Refs, Rows,
--   Forest, Reload and Rules follow the rule tree through its rows, Members and Groups the groups;
--   Saved, Roundtrip and Frame put them together. Fits, Names and Succeeds are about which drafts are
--   saved, Consistent and Clean about how a saved draft is rendered, Providers about its rule-providers.
--   Clone is clone_config.go, Copied what a copy adds, Uncopied what deleting it leaves; Carried,
--   Copies, Cloned and Copy are about what it holds.
-- - Configs (internal/repository/configs): the table subscription_configs and its functions, Create is
--   create_user_config.go; Owners is about whose the configs are.
-- - Customs (internal/handlers/custom_create and custom_delete): the two handlers; Undone is about one
--   after the other, Refused about who has a config.
-- - ConfigSave (internal/handlers/config_save): Messages has the texts, ConfigSave the handler over the
--   tables, Shapes and Accepted are about which requests are saved, Replaces about when one is.
-- - Serve (internal/handlers/sub, internal/token, internal/service/sublinks): Token is token.go, Mihomo
--   mihomo_renderer.go, Handler handler.go, Links sublinks.go; Owner is about whose subscription is
--   served, Resolves about which tokens are resolved, Saved about a request to save followed by a
--   subscription, Offered and Titles about the links.
-- - Ruleset (internal/service/ruleset, internal/handlers/rules): Mirror has the state, the functions and
--   a relation of the steps that the goroutines make; Sources is about the state after any steps, Served
--   about what is served. Check is check.go, the probe of a URL, and Checked what the probe accepts.
-- - Tests: runs of the model, and the theorems at concrete inputs.
--
-- Results of fallible functions are values of Result; a Go `error` alone is Check. Go's int and int64
-- are ℤ. The modelled code adds two of them for the traffic counters and multiplies one by a second for
-- the interval of a mirror; the wrap-around is written out there.
-- The recursion of cyclicGroups has fuel, the number of groups: each call colours one
-- more group, and a theorem shows that the fuel is enough. Linking the rule rows into a tree has as fuel
-- the number of rows, which is at least the depth. The order in which the keys of a Go map are
-- visited is a function of the keys that the backend has.
--
-- Parameters, since their code is not here: json.Unmarshal, yaml.Unmarshal, yaml.Marshal,
-- strings.ToLower where a name is validated, net.ParseIP, url.Parse and strconv.Atoi, the HMAC of a
-- token, the numbers, quoted texts and Base64 that the headers of a subscription hold, url.QueryEscape,
-- the HTTP replies of upstream, the answers that the fleet service gets, the repositories of users and
-- nodes, and the panel client. Of a rule-set file: its text when its bytes are UTF-8. Of the database:
-- the ids that the rows of an INSERT are assigned, and the order in which it sorts texts. A transaction
-- that fails leaves the tables as they were: the rollback is the database's, and no result says anything
-- of it. Not modelled: that a DELETE is refused since a row of another config refers to a deleted group
-- or rule-provider, as the code never writes such a row; the other HTTP handlers and the generated API
-- (internal/handlers, internal/oas), the SQL of users and nodes, the HTTP clients, the web panel,
-- configuration, the commands, and the tests of the API.
pub mod Prelude
pub mod Mihomo
pub mod Entity
pub mod Render
pub mod Tests
pub mod Provision
pub mod Fleet
pub mod Nodes
pub mod Ruleset
pub mod Store
pub mod Configs
pub mod ConfigSave
pub mod Customs
pub mod Serve
