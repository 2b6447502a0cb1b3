-- ===== src/Adapters/Signature.antt =====
-- The signature of a webhook's body: "sha256=" and the HMAC in hexadecimal.
use codereviewer.Prelude.{Bool, false, Option, none, some, Text, codes, text_eq, strip_prefix}
use codereviewer.Ports.{Result, ok, err}

-- what hashing and hexadecimal notation do
pub record Hashing : Type 0 where
  pub hmac_sha256 : Text → Text → Text
  pub decode_hex : Text → Result Text

module _ (hashing : Hashing) where
  abbrev pub matches_mac : Text → Text → Result Text → Bool
  matches_mac secret body (err e) = false
  matches_mac secret body (ok want) = text_eq (hashing.hmac_sha256 secret body) want

  abbrev pub matches_hex : Text → Text → Option Text → Bool
  matches_hex secret body none = false
  matches_hex secret body (some hex) = matches_mac secret body (hashing.decode_hex hex)

  -- whether the header signs the body
  unfoldable pub verify_signature : Text → Text → Text → Bool
  verify_signature secret body header =
      matches_hex secret body (strip_prefix header (codes "sha256="))
