-- ===== src/External.antt =====
-- What the code calls and does not implement: Unicode normalisation (golang.org/x/text), bcrypt
-- (golang.org/x/crypto), UUID parsing (github.com/google/uuid), and the standard library's parsers
-- of URLs, base64, ASN.1 and certificates.
use scim_server_impl_go.Base.{ℕ, Bool, Option, List}
use scim_server_impl_go.Text.{Text}

-- `asn1.RawValue`
pub record RawValue : Type 0 where
  pub class : ℕ
  pub tag : ℕ
  pub is_compound : Bool
  pub bytes : List ℕ
  pub full_bytes : List ℕ

pub record External : Type 0 where
  -- `norm.NFC.String`
  pub nfc : Text → Text
  -- `bcrypt.CompareHashAndPassword(hash, password) == nil`
  pub bcrypt_matches : Text → Text → Bool
  -- `bcrypt.GenerateFromPassword`
  pub bcrypt_generate : Text → Option Text
  -- `url.Parse` with no error
  pub url_parses : Text → Bool
  -- `uuid.Parse`, as the canonical text of the result
  pub uuid_parse : Text → Option Text
  -- `base64.StdEncoding.Strict().DecodeString`
  pub base64_strict : Text → Option (List ℕ)
  -- `asn1.Unmarshal` into a `RawValue`, with the bytes that are left
  pub asn1_unmarshal : List ℕ → Option (RawValue × List ℕ)
  -- `x509.ParseCertificate` with no error
  pub parses_certificate : List ℕ → Bool
