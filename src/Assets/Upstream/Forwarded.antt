-- ===== src/Assets/Upstream/Forwarded.antt =====
-- What reaches the origin, handler.go.
use mathlib.Core.List.{append_assoc}
use mathlib.Mathlib.Data.List.Basic.{reverse-concat'}
use audistro_provider.Prelude.{
  ◌≡◌, refl, ◌∙◌, Bool, ◌||◌, Option, none, some, List, [], ◌∷◌, ◌++◌, Text, codes, any,
  if◌then◌else◌, arith, Bool-cases, ap, text_eq_iff, text_eq, inl, inr,
}
use audistro_provider.Go.Map.{lookup, delete, lookup-delete}
use audistro_provider.Go.Strings.{trim_space, trim_left, trim_right, split, has_prefix, has_suffix}
use audistro_provider.Go.Header.{Header, canonical_key, get, del}
use audistro_provider.Assets.Upstream.{
  hop_by_hop_headers, del_all, connection_fields, remove_hop_by_hop_headers, single_joining_slash,
  Incoming, remote_host,
}

-- Whether a key is the canonical form of one of the names.
abbrev pub is_named : Text → List Text → Bool
is_named key names = any (λ n. text_eq (canonical_key n) key) names

lookup-del_all :
    (key : Text) (names : List Text) (h : Header)
    → lookup key (del_all names h) ≡ (if is_named key names then none else lookup key h)
unfolding del_all del
lookup-del_all key [] h = refl
lookup-del_all key (n ∷ names) h = ground (
  arith,
  lookup-del_all key names (delete (canonical_key n) h),
  lookup-delete (canonical_key n) key h,
)

-- The names of the headers that go no further: the fixed ones, and the fields of Connection.
abbrev pub is_hop_by_hop : Text → Header → Bool
is_hop_by_hop key h =
    is_named key hop_by_hop_headers
    || is_named key (connection_fields (split b',' (get (codes "Connection") h)))

no_fields : connection_fields (split b',' []) ≡ []
unfolding connection_fields split trim_space trim_left trim_right text_eq
no_fields = refl

-- Of the hop-by-hop headers, the fixed ones and those that Connection names, none is left, and every
-- other header is as it was.
pub lookup-remove_hop_by_hop_headers :
    (key : Text) (h : Header)
    → lookup key (remove_hop_by_hop_headers h)
      ≡ (if is_hop_by_hop key h then none else lookup key h)
unfolding remove_hop_by_hop_headers
lookup-remove_hop_by_hop_headers key h =
    let connection = get (codes "Connection") h in
    let fields = connection_fields (split b',' connection) in
    elim (Bool-cases (text_eq connection [])) [
      | inl blank ↦
          let same : connection ≡ [] = (text_eq_iff _ _).0 blank in
          let bare : fields ≡ [] = ap (λ c. connection_fields (split b',' c)) same ∙ no_fields in
          rw (blank, bare) (ground (arith, lookup-del_all key hop_by_hop_headers h))
      | inr listed ↦ rw listed (
          ground (
            arith,
            lookup-del_all key hop_by_hop_headers h,
            lookup-del_all key fields (del_all hop_by_hop_headers h),
          ))
    ]

-- What a header of the request to the origin is, by its key.
abbrev pub sent_value : (Text → Option Text) → Incoming → Header → Text → Option (List Text)
sent_value split_host in_request header key =
    if text_eq (codes "X-Forwarded-Proto") key
    then some ((if in_request.tls then codes "https" else codes "http") ∷ [])
    else if text_eq (codes "X-Forwarded-For") key
    then some (remote_host split_host in_request.remote_addr ∷ [])
    else if is_hop_by_hop key header
    then none
    else lookup key header

-- Where the origin's path ends with a slash, the path of the request replaces that slash, so that one
-- stands between them.
pub single_joining_slash-slashed :
    (a b : Text) → single_joining_slash (a ++ b'/' ∷ []) (b'/' ∷ b) ≡ a ++ b'/' ∷ b
unfolding single_joining_slash has_suffix has_prefix
single_joining_slash-slashed a b = rw (reverse-concat' a b'/') (append_assoc a _ _)
