-- ===== src/Identity.antt =====
-- internal/identity: the provider's identity and the file that keeps it. The curve, UUIDs, JSON and
-- the texts of times are arguments, and so is what the file system answers.
pub mod Restart
use audistro_provider.Prelude.{
  ℕ, ◌/◌, ◌*◌, ◌≡◌, Bool, true, false, not, ◌&&◌, ◌||◌, Option, none, some, List, [], ◌∷◌, Text,
  length, all, ltb, ◌==◌, text_eq, if◌then◌else◌,
}
use audistro_provider.Go.Time.{Instant, second}
use audistro_provider.Go.Strings.{hex}
use audistro_provider.Go.Strings.Hex.{decode_string}

pub record FileIdentity : Type 0 where
  pub provider_id : Text
  pub public_key : Text
  pub private_key : Text
  pub created_at : Text

pub record Identity (Uuid Priv Pub : Type 0) : Type 0 where
  pub provider_id : Uuid
  pub private_key : Priv
  pub public_key : Pub
  pub created_at : Instant

-- uuid.Parse and String; the keys of btcec, of which `parse_pub_key` says whether ParsePubKey works;
-- the JSON of the file, whose decoding takes no unknown field and nothing behind it; RFC 3339.
pub record Libraries (Uuid Priv Pub : Type 0) : Type 0 where
  pub parse_uuid : Text → Option Uuid
  pub uuid_text : Uuid → Text
  pub priv_of_bytes : Text → Priv
  pub is_zero : Priv → Bool
  pub serialize : Priv → Text
  pub pub_key : Priv → Pub
  pub serialize_compressed : Pub → Text
  pub parse_pub_key : Text → Bool
  pub encode_json : FileIdentity → Text
  pub decode_json : Text → Option FileIdentity
  pub format_time : Instant → Text
  pub parse_time : Text → Option Instant

infixl 5 ◌>>=◌ ◌>>◌
abbrev pub ◌>>=◌ : {A B : Type 0} → Option A → (A → Option B) → Option B
none >>= f = none
some a >>= f = f a

abbrev pub ◌>>◌ : {B : Type 0} → Option (Unit {0}) → Option B → Option B
m >> k = m >>= λ _. k

abbrev pub guard : Bool → Option (Unit {0})
guard true = some tt
guard false = none

-- What reading the file answers.
pub data FileAnswer : Type 0 where
  absent unreadable : FileAnswer
  content : Text → FileAnswer

pub data Loaded (A : Type 0) : Type 0 where
  loaded : A → Loaded A
  not_found failed : Loaded A

-- Whether each call of Save works, and whether the deferred Remove does.
pub record SaveCalls : Type 0 where
  pub mkdir : Bool
  pub create : Bool
  pub chmod_temp : Bool
  pub write : Bool
  pub sync : Bool
  pub close : Bool
  pub rename : Bool
  pub chmod : Bool
  pub remove : Bool

-- The file at the path, and whether a temporary file lies beside it.
pub record Files : Type 0 where
  pub file : FileAnswer
  pub temp : Bool

module _ {Uuid Priv Pub : Type 0} (lib : Libraries Uuid Priv Pub) where
  unfoldable pub parse_private_key_hex : Text → Option Priv
  parse_private_key_hex value = do
    bytes ← decode_string value
    guard (length bytes == 32)
    guard (not (lib.is_zero (lib.priv_of_bytes bytes)))
    some (lib.priv_of_bytes bytes)

  unfoldable pub parse_public_key_hex_compressed : Text → Option Text
  parse_public_key_hex_compressed value = do
    bytes ← decode_string value
    guard (length bytes == 33)
    guard (lib.parse_pub_key bytes)
    some bytes

  -- Load behind the decoding of the file.
  unfoldable pub parse_stored : FileIdentity → Option (Identity Uuid Priv Pub)
  unfolding parse_private_key_hex parse_public_key_hex_compressed
  parse_stored stored = do
    provider_id ← lib.parse_uuid stored.provider_id
    created_at ← lib.parse_time stored.created_at
    priv ← parse_private_key_hex stored.private_key
    bytes ← parse_public_key_hex_compressed stored.public_key
    guard (text_eq (lib.serialize_compressed (lib.pub_key priv)) bytes)
    some (record {
      provider_id = provider_id;
      private_key = priv;
      public_key = lib.pub_key priv;
      created_at = created_at;
    })

  abbrev pub loaded_or_failed : Option (Identity Uuid Priv Pub) → Loaded (Identity Uuid Priv Pub)
  loaded_or_failed none = failed
  loaded_or_failed (some id) = loaded id

  abbrev pub load_file : FileAnswer → Loaded (Identity Uuid Priv Pub)
  load_file absent = not_found
  load_file unreadable = failed
  load_file (content raw) = loaded_or_failed (do stored ← lib.decode_json raw; parse_stored stored)

  -- `Load` of the file store; `cancelled` says that the context is done.
  unfoldable pub load : Bool → FileAnswer → Loaded (Identity Uuid Priv Pub)
  unfolding parse_stored
  load cancelled file = if cancelled then failed else load_file file

  abbrev pub stored_of : Identity Uuid Priv Pub → FileIdentity
  stored_of id = record {
    provider_id = lib.uuid_text id.provider_id;
    public_key = hex (lib.serialize_compressed id.public_key);
    private_key = hex (lib.serialize id.private_key);
    created_at = lib.format_time id.created_at;
  }

  -- `Save` of the file store: whether it returns no error, and the files afterwards.
  unfoldable pub save : Bool → SaveCalls → Identity Uuid Priv Pub → Files → Bool × Files
  save cancelled calls id files =
      if cancelled || not calls.mkdir || not calls.create
      then (false, files)
      else if not (calls.chmod_temp && calls.write && calls.sync && calls.close && calls.rename)
      then (false, record files { temp = not calls.remove })
      else (
        calls.chmod,
        record { file = content (lib.encode_json (stored_of id)); temp = files.temp },
      )

  abbrev pub new_identity : Uuid → Priv → Instant → Identity Uuid Priv Pub
  new_identity uuid priv now = record {
    provider_id = uuid;
    private_key = priv;
    public_key = lib.pub_key priv;
    created_at = now;
  }

  abbrev pub created :
      Bool × Files → Identity Uuid Priv Pub → Option (Identity Uuid Priv Pub × Bool) × Files
  created (false, files) id = (none, files)
  created (true, files) id = (some (id, true), files)

  abbrev pub create :
      Bool
      → SaveCalls
      → Uuid
      → Option Priv
      → Instant
      → Files
      → Option (Identity Uuid Priv Pub × Bool) × Files
  create cancelled calls uuid none now files = (none, files)
  create cancelled calls uuid (some priv) now files =
      created (save cancelled calls (new_identity uuid priv now) files) (new_identity uuid priv now)

  abbrev pub after_load :
      Loaded (Identity Uuid Priv Pub)
      → Option (Identity Uuid Priv Pub × Bool) × Files
      → Files
      → Option (Identity Uuid Priv Pub × Bool) × Files
  after_load (loaded id) made files = (some (id, false), files)
  after_load not_found made files = made
  after_load failed made files = (none, files)

  -- `LoadOrCreate`, with the UUID, the key and the clock of the new identity: the identity and whether
  -- it was created, or an error, and the files afterwards.
  unfoldable pub load_or_create :
      Bool
      → SaveCalls
      → Uuid
      → Option Priv
      → Instant
      → Files
      → Option (Identity Uuid Priv Pub × Bool) × Files
  unfolding load save
  load_or_create cancelled calls uuid priv now files =
      after_load (load cancelled files.file) (create cancelled calls uuid priv now files) files
