-- ===== src/Tests/Startup.antt =====
-- Two starts of the program that share an identity file.
use audistro_provider.Prelude.{
  ap, Bool, ℕ, zero, suc, ◌<◌, arith, all, ltb, text_eq, if◌then◌else◌, ◌≡◌, refl, true, false,
  Option, some, none, [], ◌∷◌, ◌++◌, Text, codes, length, take, drop, ◌/◌, ◌*◌, ◌+◌,
}
use audistro_provider.Go.Time.{Instant, second, year_10000}
use audistro_provider.Tests.Fixtures.{noon, sevens}
use audistro_provider.Identity.{
  load, save, FileIdentity, Identity, Libraries, SaveCalls, Files, absent, load_or_create, ◌>>=◌,
}
use audistro_provider.Identity.Restart
use audistro_provider.Identity.Restart.{to_second, load_or_create_restart}

-- The fields of a file, each behind its length.
unfoldable frame : Text → Text → Text
frame s t = length s ∷ (s ++ t)

unfoldable unframe : Text → Option (Text × Text)
unframe [] = none
unframe (n ∷ s) = some (take n s, drop n s)

take-append : (s t : Text) → take (length s) (s ++ t) ≡ s
take-append [] t = refl
take-append (c ∷ s) t = ap (λ r. c ∷ r) (take-append s t)

drop-append : (s t : Text) → drop (length s) (s ++ t) ≡ t
drop-append [] t = refl
drop-append (c ∷ s) t = drop-append s t

unframe-frame : (s t : Text) → unframe (frame s t) ≡ some (s, t)
unfolding unframe frame
unframe-frame s t = rw (take-append s t, drop-append s t) refl

unfoldable encode : FileIdentity → Text
encode f = frame f.provider_id (frame f.public_key (frame f.private_key (frame f.created_at [])))

unfoldable decode : Text → Option FileIdentity
decode raw = do
  (provider_id, raw') ← unframe raw
  (public_key, raw'') ← unframe raw'
  (private_key, raw''') ← unframe raw''
  (created_at, end) ← unframe raw'''
  some (record {
    provider_id = provider_id;
    public_key = public_key;
    private_key = private_key;
    created_at = created_at;
  })

decode-encode : (f : FileIdentity) → decode (encode f) ≡ some f
unfolding decode encode
decode-encode f =
    rw
      (
        unframe-frame f.provider_id _,
        unframe-frame f.public_key _,
        unframe-frame f.private_key _,
        unframe-frame f.created_at [],
      )
      refl

abbrev read_time : Text → Option Instant
read_time [] = none
read_time (n ∷ s) = some (length s * second)

abbrev letter : Bool → Text
letter true = codes "p"
letter false = codes "q"

abbrev read_letter : Text → Option Bool
read_letter s = if text_eq s (codes "p") then some true else some false

read_letter-letter : (u : Bool) → read_letter (letter u) ≡ some u
unfolding text_eq
read_letter-letter true = refl
read_letter-letter false = refl

letter_ascii : (u : Bool) → all (λ c. ltb c 128) (letter u) ≡ true
letter_ascii true = refl
letter_ascii false = refl

length-sevens : (n : ℕ) → length (sevens n) ≡ n
length-sevens zero = refl
length-sevens (suc n) = ap suc (length-sevens n)

sevens_ascii : (n : ℕ) → all (λ c. ltb c 128) (sevens n) ≡ true
sevens_ascii zero = refl
sevens_ascii (suc n) = sevens_ascii n

-- One key pair, whose keys are written as sevens.
abbrev one_key : Libraries Bool (Unit {0}) (Unit {0})
one_key = record {
  parse_uuid = read_letter;
  uuid_text = letter;
  priv_of_bytes = λ s. tt;
  is_zero = λ p. false;
  serialize = λ p. sevens 32;
  pub_key = λ p. tt;
  serialize_compressed = λ k. sevens 33;
  parse_pub_key = λ s. true;
  encode_json = encode;
  decode_json = decode;
  format_time = λ t. 7 ∷ sevens (t / second);
  parse_time = read_time;
}

one_key-IsSound : Restart.IsSound one_key
unfolding text_eq
one_key-IsSound = record {
  uuids = read_letter-letter;
  times = λ t early. rw (length-sevens (t / second)) refl;
  uuids_ascii = letter_ascii;
  times_ascii = λ t. sevens_ascii (t / second);
  files = λ f plain. decode-encode f;
  private_keys = λ p. refl;
  private_lengths = λ p. refl;
  private_bytes = λ p. refl;
  public_lengths = λ k. refl;
  public_bytes = λ k. refl;
  public_keys = λ k. refl;
}

-- Every call of Save works.
abbrev working : SaveCalls
working = record {
  mkdir = true;
  create = true;
  chmod_temp = true;
  write = true;
  sync = true;
  close = true;
  rename = true;
  chmod = true;
  remove = true;
}

abbrev empty_directory : Files
empty_directory = record { file = absent; temp = false }

abbrev drawn : Identity Bool (Unit {0}) (Unit {0})
drawn = record { provider_id = true; private_key = tt; public_key = tt; created_at = noon }

early : noon / second < year_10000
unfolding year_10000
early = omega arith

first_start :
    (load_or_create one_key false working true (some tt) noon empty_directory).0
    ≡ some (drawn, true)
unfolding load_or_create load save
first_start = refl

restart_example :
    load_or_create one_key false working false none
      (noon + second)
      (load_or_create one_key false working true (some tt) noon empty_directory).1
    ≡ (
      some (to_second drawn, false),
      (load_or_create one_key false working true (some tt) noon empty_directory).1,
    )
restart_example =
    load_or_create_restart one_key working working true false tt none noon (noon + second) false
      true drawn one_key-IsSound refl early first_start
