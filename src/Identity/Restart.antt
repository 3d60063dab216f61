-- ===== src/Identity/Restart.antt =====
-- The identity over restarts of the program: what is saved is what is loaded.
use audistro_provider.Prelude.{
  ◌/◌, ◌*◌, ◌≡◌, ◌<◌, refl, ◌∙◌, ap, ◌⊎◌, inl, inr, Bool, true, false, not, ◌&&◌, ◌||◌, Option,
  some, Text, length, all, ltb, text_eq_refl, split_if,
}
use audistro_provider.Go.Time.{Instant, second, year_10000}
use audistro_provider.Go.Strings.{hex}
use audistro_provider.Go.Strings.Hex.{decode_string-hex, hex-ascii}
use audistro_provider.Identity.{
  FileIdentity, Identity, Libraries, absent, content, loaded, SaveCalls, Files,
  parse_private_key_hex, parse_public_key_hex_compressed, parse_stored, load, stored_of, save,
  new_identity, created, load_or_create,
}

abbrev pub is_ascii : Text → Bool
is_ascii s = all (λ c. ltb c 128) s

abbrev pub is_plain : FileIdentity → Bool
is_plain f =
    is_ascii f.provider_id
    && is_ascii f.public_key
    && is_ascii f.private_key
    && is_ascii f.created_at

-- What the libraries document: what they write they read back, a UUID, a time before year 10000 to the
-- second, and texts of ASCII in JSON; UUIDs and times are written in ASCII; a private key has 32 bytes
-- and a public key 33, which parse.
pub record IsSound {Uuid Priv Pub : Type 0} (lib : Libraries Uuid Priv Pub) : Type 0 where
  pub uuids : (u : Uuid) → lib.parse_uuid (lib.uuid_text u) ≡ some u
  pub times :
      (t : Instant)
      → t / second < year_10000
      → lib.parse_time (lib.format_time t) ≡ some (t / second * second)
  pub uuids_ascii : (u : Uuid) → is_ascii (lib.uuid_text u) ≡ true
  pub times_ascii : (t : Instant) → is_ascii (lib.format_time t) ≡ true
  pub files : (f : FileIdentity) → is_plain f ≡ true → lib.decode_json (lib.encode_json f) ≡ some f
  pub private_keys : (p : Priv) → lib.priv_of_bytes (lib.serialize p) ≡ p
  pub private_lengths : (p : Priv) → length (lib.serialize p) ≡ 32
  pub private_bytes : (p : Priv) → all (λ b. ltb b 256) (lib.serialize p) ≡ true
  pub public_lengths : (k : Pub) → length (lib.serialize_compressed k) ≡ 33
  pub public_bytes : (k : Pub) → all (λ b. ltb b 256) (lib.serialize_compressed k) ≡ true
  pub public_keys : (k : Pub) → lib.parse_pub_key (lib.serialize_compressed k) ≡ true

-- The identity with its time to the second.
abbrev pub to_second : {Uuid Priv Pub : Type 0} → Identity Uuid Priv Pub → Identity Uuid Priv Pub
to_second id = record id { created_at = id.created_at / second * second }

module _ {Uuid Priv Pub : Type 0} (lib : Libraries Uuid Priv Pub) (sound : IsSound lib) where
  parse_private-hex :
      (p : Priv)
      → lib.is_zero p ≡ false
      → parse_private_key_hex lib (hex (lib.serialize p)) ≡ some p
  unfolding parse_private_key_hex
  parse_private-hex p nonzero =
      rw
        (
          decode_string-hex (lib.serialize p) (sound.private_bytes p),
          sound.private_lengths p,
          sound.private_keys p,
          nonzero,
        )
        refl

  parse_public-hex :
      (k : Pub)
      → parse_public_key_hex_compressed lib (hex (lib.serialize_compressed k))
        ≡ some (lib.serialize_compressed k)
  unfolding parse_public_key_hex_compressed
  parse_public-hex k =
      rw
        (
          decode_string-hex (lib.serialize_compressed k) (sound.public_bytes k),
          sound.public_lengths k,
          sound.public_keys k,
        )
        refl

  parse_stored-stored_of :
      (id : Identity Uuid Priv Pub)
      → id.public_key ≡ lib.pub_key id.private_key
      → lib.is_zero id.private_key ≡ false
      → id.created_at / second < year_10000
      → parse_stored lib (stored_of lib id) ≡ some (to_second id)
  unfolding parse_stored
  parse_stored-stored_of id own nonzero early =
      rw
        (
          sound.uuids id.provider_id,
          sound.times id.created_at early,
          parse_private-hex id.private_key nonzero,
          parse_public-hex id.public_key,
          own,
          text_eq_refl (lib.serialize_compressed (lib.pub_key id.private_key)),
        )
        refl

  -- What is written to the file is ASCII.
  stored_of-plain : (id : Identity Uuid Priv Pub) → is_plain (stored_of lib id) ≡ true
  stored_of-plain id =
      rw
        (
          sound.uuids_ascii id.provider_id,
          hex-ascii (lib.serialize_compressed id.public_key) (sound.public_bytes id.public_key),
          hex-ascii (lib.serialize id.private_key) (sound.private_bytes id.private_key),
          sound.times_ascii id.created_at,
        )
        refl

  load-encoded :
      (id : Identity Uuid Priv Pub)
      → id.public_key ≡ lib.pub_key id.private_key
      → lib.is_zero id.private_key ≡ false
      → id.created_at / second < year_10000
      → load lib false (content (lib.encode_json (stored_of lib id))) ≡ loaded (to_second id)
  unfolding load
  load-encoded id own nonzero early =
      rw
        (
          sound.files (stored_of lib id) (stored_of-plain id),
          parse_stored-stored_of id own nonzero early,
        )
        refl

-- The two ways in which Save may end.
abbrev IsAtomic :
    {Uuid Priv Pub : Type 0}
    → Libraries Uuid Priv Pub
    → Identity Uuid Priv Pub
    → Files
    → Bool × Files
    → Type 0
IsAtomic lib id files r =
    ((r.1.file ≡ files.file) × (r.0 ≡ false))
    ⊎ ((r.1.file ≡ content (lib.encode_json (stored_of lib id))) × (r.1.temp ≡ files.temp))

-- Save leaves the file as it was, or holding the whole new identity; where it returns no error, it
-- holds that, and no temporary file was left.
pub save-IsAtomic :
    {Uuid Priv Pub : Type 0} (lib : Libraries Uuid Priv Pub) (cancelled : Bool) (calls : SaveCalls)
    (id : Identity Uuid Priv Pub) (files : Files)
    → IsAtomic lib id files (save lib cancelled calls id files)
unfolding save
save-IsAtomic lib cancelled calls id files =
    split_if (IsAtomic lib id files) (cancelled || not calls.mkdir || not calls.create)
      (λ e. inl (refl, refl))
      (λ e.
        split_if (IsAtomic lib id files)
          (not (calls.chmod_temp && calls.write && calls.sync && calls.close && calls.rename))
          (λ e'. inl (refl, refl)) (λ e'. inr (refl, refl)))

save-some :
    {Uuid Priv Pub : Type 0} (lib : Libraries Uuid Priv Pub) (calls : SaveCalls)
    (id : Identity Uuid Priv Pub) (files : Files)
    → (save lib false calls id files).0 ≡ true
    → (save lib false calls id files).1.file ≡ content (lib.encode_json (stored_of lib id))
save-some lib calls id files e = elim (save-IsAtomic lib false calls id files) [
  | inl (kept, error) ↦ absurd cc
  | inr (held, temp) ↦ held
]

created-some :
    {Uuid Priv Pub : Type 0} (lib : Libraries Uuid Priv Pub) (r : Bool × Files)
    (made id : Identity Uuid Priv Pub) (fresh : Bool)
    → (created lib r made).0 ≡ some (id, fresh)
    → (r.0 ≡ true) × (made ≡ id) × ((created lib r made).1 ≡ r.1)
created-some lib (false, files) made id fresh e = cc
created-some lib (true, files) made id fresh e = (refl, cc, refl)

found_again :
    {Uuid Priv Pub : Type 0} (lib : Libraries Uuid Priv Pub) (calls : SaveCalls) (uuid : Uuid)
    (priv : Option Priv) (now : Instant) (files : Files) (id : Identity Uuid Priv Pub)
    → load lib false files.file ≡ loaded id
    → load_or_create lib false calls uuid priv now files ≡ (some (id, false), files)
unfolding load_or_create
found_again lib calls uuid priv now files id e = rw e refl

-- An identity that was created at a first start is the one that every later start finds: with the same
-- UUID and keys, and its time to the second, whatever fresh key it might have drawn. The key that was
-- drawn first is not zero, and the first start is before year 10000.
pub load_or_create_restart :
    {Uuid Priv Pub : Type 0} (lib : Libraries Uuid Priv Pub) (calls calls' : SaveCalls)
    (uuid uuid' : Uuid) (priv : Priv) (priv' : Option Priv) (now now' : Instant) (temp fresh : Bool)
    (id : Identity Uuid Priv Pub)
    → IsSound lib
    → lib.is_zero priv ≡ false
    → now / second < year_10000
    → (load_or_create lib false calls uuid
        (some priv)
        now
        (record { file = absent; temp = temp })).0
      ≡ some (id, fresh)
    → load_or_create lib false calls' uuid' priv' now'
        (load_or_create lib false calls uuid
          (some priv)
          now
          (record { file = absent; temp = temp })).1
      ≡ (
        some (to_second id, false),
        (load_or_create lib false calls uuid
            (some priv)
            now
            (record { file = absent; temp = temp })).1,
      )
unfolding load_or_create
load_or_create_restart lib calls calls' uuid uuid' priv priv' now now' temp fresh id sound nonzero
      early e =
    let before : Files = record { file = absent; temp = temp } in
    let made = new_identity lib uuid priv now in
    let saved = save lib false calls made before in
    let (worked, same, after) = created-some lib saved made id fresh e in
    let held = save-some lib calls made before worked in
    let back = load-encoded lib sound made refl nonzero early in
    rw after (
      found_again lib calls' uuid' priv' now' saved.1 (to_second id)
        (rw held (back ∙ ap (λ i. loaded (to_second i)) same)))
