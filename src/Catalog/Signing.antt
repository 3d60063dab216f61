-- ===== src/Catalog/Signing.antt =====
-- internal/catalog/signing.go: the signed announcement. SHA-256, the Schnorr signature of the btcec
-- package and the source of nonces are arguments.
use audistro_provider.Prelude.{
  ◌≡◌, Bool, true, false, ◌||◌, Option, none, some, [], ◌∷◌, ◌++◌, Text, codes, ◌==◌, if◌then◌else◌,
  Bool-cases, inl, inr,
}
use audistro_provider.Go.Int64.{ℤ, pos, ◌*ℤ◌}
use audistro_provider.Go.Time.{Instant, add, unix, second}
use audistro_provider.Go.Strings.{trim_space, trim_right, decimal, hex}
use audistro_provider.Catalog.Client.{AnnounceRequest}

-- The fields of `config.Config` and of the identity that an announcement is made of.
pub record Announcer : Type 0 where
  pub provider_id : Text
  pub public_base_url : Text
  pub transport : Text
  pub announce_priority : ℤ
  pub announce_expires_seconds : ℤ

-- What the libraries answer for one announcement: the nonce bytes, and the signature of a hash.
pub record Crypto : Type 0 where
  pub nonce : Option Text
  pub sha256 : Text → Text
  pub sign : Text → Option Text

abbrev pub is_empty : Text → Bool
is_empty [] = true
is_empty (c ∷ s) = false

-- `strings.TrimSpace(s) == ""`.
abbrev pub is_blank : Text → Bool
is_blank s = is_empty (trim_space s)

unfoldable pub build_signature_message : Text → Text → Text → Text → ℤ → Text → Text
build_signature_message provider_id asset_id transport base_url expires_at nonce =
    provider_id
    ++ b'|' ∷ asset_id
    ++ b'|' ∷ transport
    ++ b'|' ∷ base_url
    ++ b'|' ∷ decimal expires_at
    ++ b'|' ∷ nonce

abbrev pub asset_url : Announcer → Text → Text
asset_url a asset_id = trim_right (λ c. c == b'/') a.public_base_url ++ codes "/assets/" ++ asset_id

abbrev pub expiry : Announcer → Instant → ℤ
expiry a now = unix (add now (a.announce_expires_seconds *ℤ pos second))

abbrev message_for : Announcer → Text → Instant → Text → Text
message_for a asset_id now nonce =
    build_signature_message a.provider_id asset_id a.transport (asset_url a asset_id) (expiry a now)
      (hex nonce)

abbrev request : Announcer → Text → Instant → Text → Text → AnnounceRequest
request a asset_id now nonce signature = record {
  asset_id = asset_id;
  transport = a.transport;
  base_url = asset_url a asset_id;
  priority = a.announce_priority;
  expires_in_seconds = a.announce_expires_seconds;
  expires_at = expiry a now;
  nonce = hex nonce;
  signature = hex signature;
}

abbrev signed : Announcer → Text → Instant → Text → Option Text → Option AnnounceRequest
signed a asset_id now nonce none = none
signed a asset_id now nonce (some signature) = some (request a asset_id now nonce signature)

abbrev with_nonce : Announcer → Crypto → Text → Instant → Option Text → Option AnnounceRequest
with_nonce a c asset_id now none = none
with_nonce a c asset_id now (some nonce) =
    signed a asset_id now nonce (c.sign (c.sha256 (message_for a asset_id now nonce)))

-- `BuildAnnouncement`; `none` is an error.
unfoldable pub build_announcement : Announcer → Crypto → Text → Instant → Option AnnounceRequest
unfolding build_signature_message
build_announcement a c asset_id now =
    if is_blank a.public_base_url || is_blank asset_id
    then none
    else with_nonce a c asset_id now c.nonce

signed-fields :
    (a : Announcer) (asset_id : Text) (now : Instant) (nonce : Text) (req : AnnounceRequest)
    (signature : Option Text)
    → signed a asset_id now nonce signature ≡ some req
    → (req.asset_id ≡ asset_id) × (req.expires_at ≡ expiry a now)
signed-fields a asset_id now nonce req none e = cc
signed-fields a asset_id now nonce req (some signature) e = (cc, cc)

with_nonce-fields :
    (a : Announcer) (c : Crypto) (asset_id : Text) (now : Instant) (req : AnnounceRequest)
    (nonce : Option Text)
    → with_nonce a c asset_id now nonce ≡ some req
    → (req.asset_id ≡ asset_id) × (req.expires_at ≡ expiry a now)
with_nonce-fields a c asset_id now req none e = cc
with_nonce-fields a c asset_id now req (some nonce) e = signed-fields a asset_id now nonce req _ e

-- The fields that the rest of the program reads back from an announcement.
pub build_announcement-fields :
    (a : Announcer) (c : Crypto) (asset_id : Text) (now : Instant) (req : AnnounceRequest)
    → build_announcement a c asset_id now ≡ some req
    → (req.asset_id ≡ asset_id) × (req.expires_at ≡ expiry a now)
unfolding build_announcement
build_announcement-fields a c asset_id now req e =
    elim (Bool-cases (is_blank a.public_base_url || is_blank asset_id)) [
      | inl blank ↦ cc (rw blank at e)
      | inr filled ↦ with_nonce-fields a c asset_id now req c.nonce (rw filled at e)
    ]
