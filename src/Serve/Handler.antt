-- ===== src/Serve/Handler.antt =====
-- internal/handlers/sub/handler.go: GET /sub/{kind}/{token}. The text that wraps an error is left out.
use Prim.Native.Nat.{◌/◌}
use subgen.Prelude.Int.{ℤ, pos, negsuc}
use subgen.Prelude.Text.{concat}
use subgen.Prelude.{
  zero, suc, String, Bool, List, [], ◌∷◌, Option, none, some, Result, ok, ◌>>=◌, ◌==◌, string_eq,
  if◌then◌else◌,
}
use subgen.Entity.Fleet.{Subscriber, Fleet, sub_of}
use subgen.Serve.Token.{matches}
use subgen.Serve.Mihomo.{RenderMeta}

-- What the standard library writes: a decimal number, Base64, and a quoted text.
pub record Formats : Type 0 where
  pub decimal : ℤ → String
  pub base64 : String → String
  pub quoted : String → String

-- SubOKHeaders but for its body.
pub record Headers : Type 0 where
  pub profile_update_interval : String
  pub profile_title : String
  pub content_disposition : String
  pub subscription_userinfo : String

-- SubRes
pub data SubRes (B : Type 0) : Type 0 where
  not_found : SubRes B
  served : Headers → B → SubRes B

-- usersRepo, configsRepo and fleetService: what their calls return.
pub record Backend (E : Type 0) : Type 0 where
  pub sub_ids : Result E (List String)
  pub id_by_sub_id : String → Result E ℤ
  pub user_config_id : ℤ → String → Result E (Option ℤ)
  pub base_config_id : String → Result E (Option ℤ)
  pub fleet : Result E Fleet

-- EngineRenderer.Render
abbrev pub Renderer : Type 0 → Type 0 → Type 0
Renderer E B = Subscriber → ℤ → Result E (B × RenderMeta)

abbrev expire : Formats → ℤ → String
expire fmt (pos zero) = ""
expire fmt (pos (suc n)) = concat ("; expire=" ∷ fmt.decimal (pos (suc n / 1000)) ∷ [])
expire fmt (negsuc n) = ""

-- userinfo
unfoldable pub userinfo : Formats → ℤ → ℤ → ℤ → ℤ → String
unfolding concat
userinfo fmt up down total expiry_ms = concat (
    "upload="
    ∷ fmt.decimal up
    ∷ "; download="
    ∷ fmt.decimal down
    ∷ "; total="
    ∷ fmt.decimal total
    ∷ expire fmt expiry_ms
    ∷ [])

-- The headers of the answer.
abbrev pub headers_of : Formats → Subscriber → RenderMeta → Headers
headers_of fmt sub meta = record {
  profile_update_interval = fmt.decimal meta.update_interval;
  profile_title = concat ("base64:" ∷ fmt.base64 meta.profile_title ∷ []);
  content_disposition = concat ("attachment; filename=" ∷ fmt.quoted meta.filename ∷ []);
  subscription_userinfo = userinfo fmt sub.up sub.down sub.total sub.expiry;
}

-- The subscriber of the fleet, or an empty one.
abbrev pub empty_subscriber : String → Subscriber
empty_subscriber sub_id = record {
  sub_id = sub_id;
  emails = [];
  proxies = [];
  up = pos 0;
  down = pos 0;
  total = pos 0;
  expiry = pos 0;
}

abbrev pub or_empty : String → Option Subscriber → Subscriber
or_empty sub_id none = empty_subscriber sub_id
or_empty sub_id (some s) = s

unfoldable pub subscriber_in : Fleet → String → Subscriber
unfolding sub_of
subscriber_in fleet sub_id = or_empty sub_id (sub_of (some fleet) sub_id)

-- The loop over the ids: the first one with the token, or the empty text.
unfoldable pub find_sub_id : (String → String → Bool) → String → List String → String
find_sub_id match token [] = ""
find_sub_id match token (id ∷ ids) = if match id token then id else find_sub_id match token ids

module _ {E : Type 0} (back : Backend E) where
  abbrev or_zero : Option ℤ → Result E ℤ
  or_zero none = ok (pos 0)
  or_zero (some id) = ok id

  abbrev or_base : String → Option ℤ → Result E ℤ
  or_base kind (some id) = ok id
  or_base kind none = back.base_config_id kind >>= or_zero

  -- Handler.configID
  unfoldable pub config_id : ℤ → String → Result E ℤ
  config_id user_id kind = back.user_config_id user_id kind >>= or_base kind

module _ {E B : Type 0} (hex : String → String → String) (secret : String) (fmt : Formats)
    (renderers : String → Option (Renderer E B)) (back : Backend E) where
  -- The answer for the user of a subscription id.
  abbrev pub serve : Renderer E B → String → String → Result E (SubRes B)
  serve renderer kind sub_id = do
    user_id ← back.id_by_sub_id sub_id
    config ← config_id back user_id kind
    fleet ← back.fleet
    (body, meta) ← renderer (subscriber_in fleet sub_id) config
    ok (served (headers_of fmt (subscriber_in fleet sub_id) meta) body)

  abbrev pub serve_found : Renderer E B → String → String → Result E (SubRes B)
  serve_found renderer kind sub_id =
      if sub_id == "" then ok not_found else serve renderer kind sub_id

  abbrev pub with_renderer : Option (Renderer E B) → String → String → Result E (SubRes B)
  with_renderer none kind token = ok not_found
  with_renderer (some renderer) kind token =
      if token == ""
      then ok not_found
      else back.sub_ids >>= λ ids.
          serve_found renderer kind (find_sub_id (matches hex secret) token ids)

  -- Handler.Sub
  unfoldable pub sub : String → String → Result E (SubRes B)
  unfolding find_sub_id matches config_id subscriber_in userinfo concat
  sub kind token = with_renderer (renderers kind) kind token
