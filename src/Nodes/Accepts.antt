-- ===== src/Nodes/Accepts.antt =====
-- internal/service/nodes/validate.go: the nodes that `validateNode` accepts.
use subgen.Prelude.Int.{ℤ, pos, negsuc, int_eq, int_eqb_iff}
use subgen.Prelude.Lists.{In}
use subgen.Prelude.Text.{trim_space}
use subgen.Prelude.{
  ℕ, ◌≤◌, ◌≡◌, ◌≢◌, ◌↔◌, ◌⊎◌, inl, inr, refl, sym, ap, arith, eq_iff, String, Bool, true, false,
  not, List, [], ◌∷◌, Option, none, some, Result, ok, err, ◌>>◌, reject_if, reject_iff, ◌==◌,
  string_eq, if◌then◌else◌, ◌∙◌, ◌&&◌, ◌||◌, subst,
}
use subgen.Mihomo.Validate.Accepts.{both_iff}
use subgen.Entity.Node.{Node, Inbound, Hysteria2Settings}
use subgen.Mihomo.PolicyRef.{differ}
use subgen.Nodes.Text.{
  Url, is_node_name, is_inbound_name, is_host_or_ip, valid_panel_url, is_bandwidth, bad_port,
}
use subgen.Nodes.Validate.{
  NodeError, seen_name, seen_port, normal_base_path, validate_settings, validate_hysteria2,
  validate_inbound_kind, validate_inbounds, validate_node, is_nil, NodeCheck,
}
use subgen.Nodes.Names.{AllChars, InboundChar, NodeChar, is_inbound_name_iff, is_node_name_iff}

seen_name_iff : (ys : List String) (x : String) → (seen_name ys x ≡ true) ↔ In x ys
unfolding seen_name
seen_name_iff [] x = ground arith
seen_name_iff (y ∷ ys) x = let rest = seen_name_iff ys x in ground (arith, eq_iff y x, rest)

seen_port_iff : (ys : List ℤ) (x : ℤ) → (seen_port ys x ≡ true) ↔ In x ys
unfolding seen_port
seen_port_iff [] x = ground arith
seen_port_iff (y ∷ ys) x = let rest = seen_port_iff ys x in ground (arith, int_eqb_iff y x, rest)

-- 1 to 65535
abbrev pub IsPort : ℤ → Type 0
IsPort p = (n : ℕ) × (p ≡ pos n) × (1 ≤ n) × (n ≤ 65535)

bad_port_iff : (p : ℤ) → (bad_port p ≡ false) ↔ IsPort p
bad_port_iff (pos n) = (
  (λ h. (n, refl, ground arith, ground arith)),
  (λ (m, e, a, b). let e' : n ≡ m = cc in ground arith),
)
bad_port_iff (negsuc n) = ((λ h. ground arith), (λ (m, e, a, b). cc))

vless_only : (s : String) → s ≡ "vless" → ¬ (s ≡ "hysteria2")
vless_only s e f = let g : "vless" ≡ "hysteria2" = sym e ∙ f in cc

not_both : (s : String) → s ≡ "" → ¬ (s ≡ "salamander")
not_both s e f = let g : "" ≡ "salamander" = sym e ∙ f in cc

-- The checks of validateHysteria2, for texts that are trimmed and tests that are made.
checks_iff :
    (p o q s : String) (up down host : Bool)
    → ((reject_if (p == "") NodeError.hysteria2_pass
          >> (reject_if (not (o == "") && not (o == "salamander")) NodeError.hysteria2_obfs
              >> (reject_if (differ (o == "") (q == "")) NodeError.hysteria2_obfs
                  >> (reject_if (not up || not down) NodeError.hysteria2_band
                      >> reject_if (not (s == "") && not host) NodeError.hysteria2_sni))))
        ≡ ok tt)
      ↔ ((p ≢ "")
          × (((o ≡ "") × (q ≡ "")) ⊎ ((o ≡ "salamander") × (q ≢ "")))
          × (up ≡ true)
          × (down ≡ true)
          × ((s ≡ "") ⊎ (host ≡ true)))
checks_iff p o q s up down host =
    let other = not_both o in
    ground (arith, eq_iff p "", eq_iff o "", eq_iff o "salamander", eq_iff q "", eq_iff s "", other)

branch_iff :
    (kind : String) (m : NodeCheck) (P : Type 0)
    → (m ≡ ok tt) ↔ P
    → ((if kind == "vless"
          then err NodeError.inbound_settings
          else if kind == "hysteria2"
          then m
          else err NodeError.inbound_kind)
        ≡ ok tt)
      ↔ ((kind ≡ "hysteria2") × P)
branch_iff kind m P h =
    let other = vless_only kind in
    ground (arith, eq_iff kind "vless", eq_iff kind "hysteria2", other, h)

module _ (is_ip : String → Bool) where
  abbrev pub SettingsShape : Hysteria2Settings → Type 0
  SettingsShape h =
      (trim_space h.password ≢ "")
      × (((trim_space h.obfs ≡ "") × (trim_space h.obfs_password ≡ ""))
          ⊎ ((trim_space h.obfs ≡ "salamander") × (trim_space h.obfs_password ≢ "")))
      × (is_bandwidth h.up ≡ true)
      × (is_bandwidth h.down ≡ true)
      × ((trim_space h.sni ≡ "") ⊎ (is_host_or_ip is_ip (trim_space h.sni) ≡ true))

  settings_iff : (h : Hysteria2Settings) → (validate_settings is_ip h ≡ ok tt) ↔ SettingsShape h
  unfolding validate_settings
  settings_iff h =
      checks_iff (trim_space h.password) (trim_space h.obfs) (trim_space h.obfs_password)
        (trim_space h.sni) (is_bandwidth h.up) (is_bandwidth h.down)
        (is_host_or_ip is_ip (trim_space h.sni))

  -- A VLESS inbound has no settings, and a hysteria2 inbound has valid ones.
  abbrev pub KindShape : String → Option Hysteria2Settings → Type 0
  KindShape kind settings =
      ((kind ≡ "vless") × (settings ≡ none))
      ⊎ ((kind ≡ "hysteria2") × ((h : Hysteria2Settings) × (settings ≡ some h) × SettingsShape h))

  kind_iff :
      (kind : String) (settings : Option Hysteria2Settings)
      → (validate_inbound_kind is_ip kind settings ≡ ok tt) ↔ KindShape kind settings
  unfolding validate_inbound_kind validate_hysteria2
  kind_iff kind none =
      let other = vless_only kind in
      ground (arith, eq_iff kind "vless", eq_iff kind "hysteria2", other)
  kind_iff kind (some h) =
      let inner = branch_iff kind (validate_settings is_ip h) (SettingsShape h) (settings_iff h) in
      (
        (λ r. let (e, g) = inner.0 r in inr (e, (h, refl, g))),
        (λ s. elim s [
          | inl (e, f) ↦ cc
          | inr (e, (k, f, g)) ↦ let same : k ≡ h = cc in inner.1 (e, subst SettingsShape same g)
        ]),
      )

  -- An inbound whose name and port none of the given ones has.
  abbrev pub InboundShape : List String → List ℤ → Inbound → Type 0
  InboundShape names ports i =
      ((i.name ≢ "") × AllChars InboundChar i.name)
      × IsPort i.port
      × (¬ In i.name names)
      × (¬ In i.port ports)
      × KindShape i.kind i.hysteria2

  -- Inbounds that differ from each other and from the given ones in name and port.
  unfoldable pub InboundsShape : List String → List ℤ → List Inbound → Type 0
  InboundsShape names ports [] = Unit
  InboundsShape names ports (i ∷ is) =
      InboundShape names ports i × InboundsShape (i.name ∷ names) (i.port ∷ ports) is

  passes_iff :
      {P : Type 0} (b : Bool) (e : NodeError) → (b ≡ true) ↔ P → (reject_if (not b) e ≡ ok tt) ↔ P
  passes_iff true e p = ((λ h. p.0 refl), (λ h. refl))
  passes_iff false e p = ((λ h. cc), (λ h. cc (p.1 h)))

  fails_iff :
      {P : Type 0} (b : Bool) (e : NodeError) → (b ≡ false) ↔ P → (reject_if b e ≡ ok tt) ↔ P
  fails_iff true e p = ((λ h. cc), (λ h. cc (p.1 h)))
  fails_iff false e p = ((λ h. p.0 refl), (λ h. refl))

  then_iff :
      {P Q : Type 0} (check : NodeCheck) (k : Result NodeError Node) (m : Node)
      → (check ≡ ok tt) ↔ P
      → (k ≡ ok m) ↔ Q
      → ((check >> k) ≡ ok m) ↔ (P × Q)
  then_iff (ok tt) k m p q = ((λ h. (p.0 refl, q.0 h)), (λ h. q.1 h.1))
  then_iff (err e) k m p q = ((λ h. cc), (λ h. cc (p.1 h.0)))

  inbounds_iff :
      (names : List String) (ports : List ℤ) (is : List Inbound)
      → (validate_inbounds is_ip names ports is ≡ ok tt) ↔ InboundsShape names ports is
  unfolding validate_inbounds InboundsShape
  inbounds_iff names ports [] = ((λ h. tt), (λ h. refl))
  inbounds_iff names ports (i ∷ is) =
      let whole =
        both_iff _ _
          (passes_iff (is_inbound_name i.name) NodeError.inbound_name (is_inbound_name_iff i.name))
          (both_iff _ _ (fails_iff (bad_port i.port) NodeError.inbound_port (bad_port_iff i.port)) (
            both_iff _ _
              (reject_iff (seen_name names i.name) NodeError.inbound_name_uq
                (seen_name_iff names i.name))
              (both_iff _ _
                (reject_iff (seen_port ports i.port) NodeError.inbound_port_uq
                  (seen_port_iff ports i.port))
                (both_iff _ _ (kind_iff i.kind i.hysteria2)
                  (inbounds_iff (i.name ∷ names) (i.port ∷ ports) is))))) in
      (
        (λ h. let (a, (b, (c, (d, (e, f))))) = whole.0 h in ((a, b, c, d, e), f)),
        (λ ((a, b, c, d, e), f). whole.1 (a, (b, (c, (d, (e, f)))))),
      )

  -- What validateNode asks of a node.
  abbrev pub NodeShape : (String → Option ℤ) → (String → Option Url) → Node → Type 0
  NodeShape atoi parse n =
      ((n.name ≢ "") × AllChars NodeChar n.name)
      × (is_host_or_ip is_ip n.vpn_host ≡ true)
      × (valid_panel_url is_ip atoi parse n.panel_base_url ≡ true)
      × (n.panel_base_path ≢ "")
      × (n.inbounds ≢ [])
      × InboundsShape [] [] n.inbounds

  none_iff : (is : List Inbound) → (is_nil is ≡ false) ↔ (is ≢ [])
  none_iff [] = ground arith
  none_iff (i ∷ is) = ((λ h e. cc), (λ h. refl))

  -- validateNode accepts a node exactly when its name is not empty and of allowed characters, the VPN host
  -- is a host or an IP, the panel URL is valid, the base path is not empty, and there are inbounds, of
  -- which each has a name that is not empty and of allowed characters, a port from 1 to 65535, a name and a
  -- port that no inbound before it has, and settings that fit its kind. It returns the node with its base
  -- path normalised.
  pub validate_node_iff :
      (atoi : String → Option ℤ) (parse : String → Option Url) (n m : Node)
      → (validate_node is_ip atoi parse n ≡ ok m) ↔ (
          NodeShape atoi parse n
          × ((record n { panel_base_path = normal_base_path n.panel_base_path }) ≡ m))
  unfolding validate_node
  validate_node_iff atoi parse n m =
      let whole =
        then_iff _ _ m (passes_iff (is_node_name n.name) NodeError.name (is_node_name_iff n.name)) (
          then_iff _ _ m
            (passes_iff (is_host_or_ip is_ip n.vpn_host) NodeError.host ((λ h. h), (λ h. h)))
            (then_iff _ _ m
              (passes_iff (valid_panel_url is_ip atoi parse n.panel_base_url) NodeError.panel_url
                ((λ h. h), (λ h. h)))
              (then_iff _ _ m
                (reject_iff (n.panel_base_path == "") NodeError.base_path
                  (eq_iff n.panel_base_path ""))
                (then_iff _ _ m
                  (fails_iff (is_nil n.inbounds) NodeError.no_inbounds (none_iff n.inbounds))
                  (then_iff (validate_inbounds is_ip [] [] n.inbounds)
                    (ok (record n { panel_base_path = normal_base_path n.panel_base_path })) m
                    (inbounds_iff [] [] n.inbounds) ((λ h. cc), (λ h. ap ok h))))))) in
      (
        (λ h. let (a, (b, (c, (d, (e, (f, g)))))) = whole.0 h in ((a, b, c, d, e, f), g)),
        (λ ((a, b, c, d, e, f), g). whole.1 (a, (b, (c, (d, (e, (f, g))))))),
      )
