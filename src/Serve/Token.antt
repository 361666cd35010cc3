-- ===== src/Serve/Token.antt =====
-- internal/token/token.go. `hex` is the hex text of the HMAC-SHA-256 of a text under a secret.
use Prim.Native.String.{[], ◌∷◌}
use subgen.Prelude.{ℕ, zero, suc, String, Bool, ◌==◌, string_eq}

-- s[:n], for a text of one-byte characters
unfoldable pub prefix : ℕ → String → String
prefix zero s = []
prefix (suc n) [] = []
prefix (suc n) (c ∷ s) = c ∷ prefix n s

module _ (hex : String → String → String) (secret : String) where
  -- Make
  unfoldable pub make : String → String
  unfolding prefix
  make sub_id = prefix 24 (hex secret sub_id)

  -- Match
  unfoldable pub matches : String → String → Bool
  unfolding make
  matches sub_id token = make sub_id == token
