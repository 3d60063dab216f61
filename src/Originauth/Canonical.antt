-- ===== src/Originauth/Canonical.antt =====
-- What the signed message says, hmac.go.
use audistro_provider.Prelude.{
  ℕ, ◌/◌, ◌^◌, ◌<◌, ◌≡◌, refl, sym, ◌∙◌, true, false, not, ◌&&◌, some, [], ◌∷◌, ◌++◌, Text, codes,
  All, arith, text_eq, text_eq_refl, text_eq_iff, if◌then◌else◌, Bool-cases, inl, inr,
}
use audistro_provider.Go.Time.{Instant, unix, second}
use audistro_provider.Go.Strings.{hex}
use audistro_provider.Go.Strings.Fields.{
  avoids, cut_unique, decimal-avoids, hex-avoids, hex-injective,
}
use audistro_provider.Go.Strconv.RoundTrip.{IsInt64, decimal-injective}
use audistro_provider.Originauth.{
  Request, HmacSigner, newline, path_or_root, path_with_query, canonical, Signature, Hmac,
  is_signed_method, sign_with_nonce, sign,
}

-- A request target of HTTP holds no line break, its escaped path no question mark, a clock reads a time
-- of 64 bits, and a nonce is bytes.
pub record IsSound (s : HmacSigner) (req : Request) (now : Instant) (nonce : Text) : Type 0 where
  pub target : avoids newline (path_with_query s req) ≡ true
  pub path : avoids b'?' (path_or_root req.escaped_path) ≡ true
  pub time : now / second < 2 ^ 62
  pub bytes : All (λ b. b < 256) nonce

-- The query that is signed: none where the signer leaves it out.
abbrev pub signed_query : HmacSigner → Request → Text
signed_query s req = if s.include_query && not (text_eq req.raw_query []) then req.raw_query else []

abbrev with_query : Text → Text → Text
with_query path [] = path
with_query path (c ∷ query) = path ++ b'?' ∷ c ∷ query

with_query-filled :
    (path query : Text) → text_eq query [] ≡ false → with_query path query ≡ path ++ b'?' ∷ query
with_query-filled path [] e = absurd (ground (arith, text_eq_refl []))
with_query-filled path (c ∷ query) e = refl

path_with_query-parts :
    (s : HmacSigner) (req : Request)
    → path_with_query s req ≡ with_query (path_or_root req.escaped_path) (signed_query s req)
path_with_query-parts s req =
    elim (Bool-cases (s.include_query && not (text_eq req.raw_query []))) [
      | inl signs ↦
          rw signs
            (sym (with_query-filled (path_or_root req.escaped_path) req.raw_query (ground arith)))
      | inr bare ↦ rw bare refl
    ]

append-avoids : (c : ℕ) (xs ys : Text) → avoids c (xs ++ c ∷ ys) ≡ false
append-avoids c [] ys = ground arith
append-avoids c (x ∷ xs) ys = ground (arith, append-avoids c xs ys)

-- A path that holds no question mark and a query are told by the target that they make.
with_query-injective :
    (path path' query query' : Text)
    → avoids b'?' path ≡ true
    → avoids b'?' path' ≡ true
    → with_query path query ≡ with_query path' query'
    → (path ≡ path') × (query ≡ query')
with_query-injective path path' [] [] h h' e = (e, refl)
with_query-injective path path' [] (c ∷ query) h h' e =
    absurd (let never = append-avoids b'?' path' (c ∷ query) in cc (rw e at h))
with_query-injective path path' (c ∷ query) [] h h' e =
    absurd (let never = append-avoids b'?' path (c ∷ query) in cc (rw (← e) at h'))
with_query-injective path path' (c ∷ query) (d ∷ query') h h' e =
    cut_unique b'?' path path' (c ∷ query) (d ∷ query') h h' e

method-avoids : (m : Text) → is_signed_method m ≡ true → avoids newline m ≡ true
method-avoids m h = elim (Bool-cases (text_eq m (codes "GET"))) [
  | inl get ↦ let same : m ≡ codes "GET" = (text_eq_iff _ _).0 get in rw same refl
  | inr other ↦
      let head : text_eq m (codes "HEAD") ≡ true = ground arith in
      let same : m ≡ codes "HEAD" = (text_eq_iff _ _).0 head in rw same refl
]

sign-some :
    (hmac : Hmac) (s : HmacSigner) (req : Request) (now : Instant) (nonce : Text) (h : Signature)
    → sign hmac s req now (some nonce) ≡ some h
    → (is_signed_method req.method ≡ true)
      × (h.signature ≡ hex (hmac s.secret (canonical s req now nonce)))
unfolding sign sign_with_nonce
sign-some hmac s req now nonce h e = ground arith

unix-injective : (t u : Instant) → unix t ≡ unix u → t / second ≡ u / second
unix-injective t u e = ground arith

unix-IsInt64 : (t : Instant) → t / second < 2 ^ 62 → IsInt64 (unix t)
unix-IsInt64 t h = ground arith

-- Two signatures over one message are for the same method, the same path, the same query where it is
-- signed, the same second, the same nonce and the same provider: nothing that is signed can be moved
-- from one field to another. A signer that leaves the query out signs none. This is for requests whose
-- target holds no line break and whose escaped path no question mark, times of 64 bits and byte nonces.
pub sign-canonical :
    (hmac : Hmac) (s s' : HmacSigner) (req req' : Request) (now now' : Instant)
    (nonce nonce' : Text) (h h' : Signature)
    → IsSound s req now nonce
    → IsSound s' req' now' nonce'
    → sign hmac s req now (some nonce) ≡ some h
    → sign hmac s' req' now' (some nonce') ≡ some h'
    → canonical s req now nonce ≡ canonical s' req' now' nonce'
    → (req.method ≡ req'.method)
      × (path_or_root req.escaped_path ≡ path_or_root req'.escaped_path)
      × (signed_query s req ≡ signed_query s' req')
      × (now / second ≡ now' / second)
      × (nonce ≡ nonce')
      × (s.provider_id ≡ s'.provider_id)
unfolding canonical
sign-canonical hmac s s' req req' now now' nonce nonce' h h' sound sound' ok ok' same =
    let (signs, made) = sign-some hmac s req now nonce h ok in
    let (signs', made') = sign-some hmac s' req' now' nonce' h' ok' in
    let low : newline < b'-' = omega arith in
    let lower : newline < b'0' = omega arith in
    let (methods, rest) =
      cut_unique newline _ _ _ _ (method-avoids _ signs) (method-avoids _ signs') same in
    let (paths, rest') = cut_unique newline _ _ _ _ sound.target sound'.target rest in
    let (times, rest'') =
      cut_unique newline _ _ _ _ (decimal-avoids newline (unix now) low)
        (decimal-avoids newline (unix now') low) rest' in
    let (nonces, providers) =
      cut_unique newline _ _ _ _ (hex-avoids newline nonce lower) (hex-avoids newline nonce' lower)
        rest'' in
    let (same_path, same_query) =
      with_query-injective _ _ (signed_query s req) (signed_query s' req') sound.path sound'.path
        (sym (path_with_query-parts s req) ∙ paths ∙ path_with_query-parts s' req') in
    (
      methods,
      same_path,
      same_query,
      unix-injective now now' (
          decimal-injective _ _ (unix-IsInt64 now sound.time) (unix-IsInt64 now' sound'.time)
            times),
      hex-injective nonce nonce' sound.bytes sound'.bytes nonces,
      providers,
    )
