-- ===== src/Render/Groups.antt =====
-- internal/mihomo/render/groups.go: the proxy-groups of the document.
pub mod Integrity
use subgen.Prelude.Int.{ℤ}
use subgen.Prelude.{
  String, Bool, true, false, ◌&&◌, not, List, [], ◌∷◌, ◌++◌, Option, none, some, ◌==◌, string_eq,
  if◌then◌else◌,
}
use subgen.Mihomo.PolicyRef.{PolicyRef, is_inbound}
use subgen.Mihomo.ProxyGroup
use subgen.Mihomo.ProxyGroup.{ProxyGroup, ProxyGroupType, uses_health_check}
use subgen.Render.Value.{
  Value, text, num, flag, texts, Fields, end, put, LogEvent, member_unresolved,
}
use subgen.Render.Resolver.{EntityNameResolver, resolve}

-- What the loop does for the result of `resolve`: the name to append, or the event to log.
abbrev pub keep : Option String → List String → List String
keep none names = names
keep (some name) names = name ∷ names

abbrev pub log_member : String → PolicyRef → Option String → List LogEvent → List LogEvent
log_member group m (some name) log = log
log_member group m none log =
    if is_inbound m.kind then log else member_unresolved group m.kind ∷ log

-- The names that the loop over the members collects, and the events that it logs.
unfoldable pub member_names : EntityNameResolver → List PolicyRef → List String
member_names res [] = []
member_names res (m ∷ ms) = keep (resolve res m) (member_names res ms)

unfoldable pub member_log : EntityNameResolver → String → List PolicyRef → List LogEvent
member_log res group [] = []
member_log res group (m ∷ ms) = log_member group m (resolve res m) (member_log res group ms)

abbrev pub or_direct : List String → List String
or_direct [] = "DIRECT" ∷ []
or_direct (name ∷ names) = name ∷ names

abbrev pub put_num : String → Option ℤ → Fields → Fields
put_num k none m = m
put_num k (some n) m = put k (num n) m

abbrev pub put_flag : String → Option Bool → Fields → Fields
put_flag k none m = m
put_flag k (some b) m = put k (flag b) m

-- m[k] = s, unless s is empty
abbrev pub put_text : String → String → Fields → Fields
put_text k s m = if s == "" then m else put k (text s) m

abbrev is_url_test : ProxyGroupType → Bool
is_url_test ProxyGroupType.url_test = true
is_url_test _ = false

-- The health-check options of a group.
unfoldable pub put_health_check : ProxyGroup → Fields → Fields
unfolding put uses_health_check
put_health_check g m =
    if uses_health_check g.type
    then put_flag "lazy" g.lazy (
        put_num "tolerance" (if is_url_test g.type then g.tolerance else none)
          (put_num "interval" g.interval (put_text "url" g.url m)))
    else m

-- The entry of one group.
unfoldable pub group_entry : EntityNameResolver → ProxyGroup → Fields
unfolding put put_health_check ProxyGroup.to_string
group_entry res g = put_health_check g (
    put "proxies" (texts (or_direct (member_names res g.members)))
      (put "type" (text (ProxyGroup.to_string g.type)) (put "name" (text g.name) end)))

-- buildGroups: the entries, and the events logged.
unfoldable pub build_groups : List ProxyGroup → EntityNameResolver → List Fields
unfolding group_entry
build_groups [] res = []
build_groups (g ∷ gs) res = group_entry res g ∷ build_groups gs res

unfoldable pub groups_log : List ProxyGroup → EntityNameResolver → List LogEvent
unfolding member_log
groups_log [] res = []
groups_log (g ∷ gs) res = member_log res g.name g.members ++ groups_log gs res
