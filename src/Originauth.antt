-- ===== src/Originauth.antt =====
-- internal/originauth/hmac.go: the signature of a request to the origin. HMAC-SHA256 and the bytes
-- that the nonce source answers are arguments; of a request the method and the URL's escaped path and
-- raw query are read.
pub mod Canonical
use audistro_provider.Prelude.{
  ℕ, Bool, true, false, not, ◌&&◌, ◌||◌, Option, none, some, List, [], ◌∷◌, ◌++◌, Text, codes,
  length, ◌==◌, text_eq, if◌then◌else◌,
}
use audistro_provider.Go.Time.{Instant, unix}
use audistro_provider.Go.Strings.{trim_space, decimal, hex}

pub record Request : Type 0 where
  pub method : Text
  pub escaped_path : Text
  pub raw_query : Text

pub record HmacSigner : Type 0 where
  pub key_id : Text
  pub secret : Text
  pub provider_id : Text
  pub include_query : Bool

unfoldable pub new_hmac_signer : Text → Text → Text → Bool → HmacSigner
new_hmac_signer key_id secret provider_id include_query = record {
  key_id = if text_eq (trim_space key_id) [] then codes "v1" else key_id;
  secret = secret;
  provider_id = provider_id;
  include_query = include_query;
}

abbrev pub newline : ℕ
newline = 10

abbrev pub path_or_root : Text → Text
path_or_root path = if text_eq path [] then codes "/" else path

abbrev pub path_with_query : HmacSigner → Request → Text
path_with_query s req =
    if s.include_query && not (text_eq req.raw_query [])
    then path_or_root req.escaped_path ++ b'?' ∷ req.raw_query
    else path_or_root req.escaped_path

unfoldable pub canonical : HmacSigner → Request → Instant → Text → Text
canonical s req now nonce =
    req.method
    ++ (newline ∷ path_with_query s req
        ++ (newline ∷ decimal (unix now) ++ (newline ∷ hex nonce ++ (newline ∷ s.provider_id))))

-- The headers that are set, in order.
pub record Signature : Type 0 where
  pub key_id : Text
  pub timestamp : Text
  pub nonce : Text
  pub signature : Text
  pub provider_id : Text

-- `crypto/hmac` over SHA-256, of a key and a message.
abbrev pub Hmac : Type 0
Hmac = Text → Text → Text

abbrev pub is_signed_method : Text → Bool
is_signed_method method = text_eq method (codes "GET") || text_eq method (codes "HEAD")

unfoldable pub sign_with_nonce : Hmac → HmacSigner → Request → Instant → Text → Option Signature
sign_with_nonce hmac s req now nonce =
    if not (is_signed_method req.method)
    then none
    else if not (length nonce == 16)
    then none
    else some (record {
      key_id = s.key_id;
      timestamp = decimal (unix now);
      nonce = hex nonce;
      signature = hex (hmac s.secret (canonical s req now nonce));
      provider_id = s.provider_id;
    })

-- `Sign`, with what the nonce source answers; `none` is an error. A nil request does not occur.
unfoldable pub sign : Hmac → HmacSigner → Request → Instant → Option Text → Option Signature
unfolding sign_with_nonce
sign hmac s req now none = none
sign hmac s req now (some nonce) = sign_with_nonce hmac s req now nonce
