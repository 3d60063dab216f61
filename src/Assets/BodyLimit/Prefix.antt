-- ===== src/Assets/BodyLimit/Prefix.antt =====
-- What a client receives of a body, handler.go.
use audistro_provider.Prelude.{
  ◌⊎◌, ◌^◌, ℕ, ◌+◌, ◌-◌, ◌≤◌, ◌<◌, ◌≡◌, refl, true, false, List, [], ◌∷◌, ◌++◌, length, take, ltb,
  ◌==◌, arith, length-append, length-take, take-append-drop, take-append_le, take-append_add,
  Bool-cases, inl, inr, sym, ◌∙◌, ap, ◌≢◌,
}
use audistro_provider.Go.Int64.{+ℤ-pos}
use mathlib.Core.Path.{subst}
use mathlib.Core.List.{append_assoc, append-nil}
use audistro_provider.Assets.BodyLimit.{
  ReadError, no_error, eof, broken, too_large, Arrival, BodyReader, new_body_reader, granted,
  connection_error, limited_error, consume, check_limit, read, hand_on, read_all,
}

-- The state of a reader over `body` that has handed on `sent`.
pub record IsReading (body sent : List ℕ) (r : BodyReader) (taken : List ℕ) : Type 0 where
  pub split : body ≡ taken ++ r.rest
  pub allowance : length taken + r.left ≡ r.max + 1
  pub within : r.overflow ≡ false → (sent ≡ taken) × (r.read ≡ length taken) × (r.read ≤ r.max)
  pub beyond : r.overflow ≡ true → (sent ≡ take r.max body) × (r.max < length body)

new-IsReading :
    (max : ℕ) (body : List ℕ) → max + 1 < 2 ^ 63 → IsReading body [] (new_body_reader max body) []
unfolding new_body_reader
new-IsReading max body fits = ground (arith, +ℤ-pos max 1 fits)

length-chunk : (r : BodyReader) (a : Arrival) → length (take (granted r a) r.rest) ≤ r.left
length-chunk r a = omega (arith, length-take (granted r a) r.rest)

split_on :
    (taken : List ℕ) (r : BodyReader) (a : Arrival)
    → taken ++ r.rest ≡ (taken ++ take (granted r a) r.rest) ++ (consume r a).rest
split_on taken r a =
    ap (λ t. taken ++ t) (sym (take-append-drop (granted r a) r.rest))
    ∙ sym (append_assoc taken _ _)

length-taken :
    (taken : List ℕ) (r : BodyReader) (a : Arrival)
    → length taken + r.left ≡ r.max + 1
    → length (taken ++ take (granted r a) r.rest) + (consume r a).left ≡ (consume r a).max + 1
length-taken taken r a allowance =
    omega (arith, length-append taken (take (granted r a) r.rest), length-chunk r a)

check_limit-IsReading :
    (body sent taken chunk : List ℕ) (r : BodyReader) (e : ReadError)
    → body ≡ (taken ++ chunk) ++ r.rest
    → length (taken ++ chunk) + r.left ≡ r.max + 1
    → sent ≡ taken
    → r.read ≡ length taken
    → r.read ≤ r.max
    → r.overflow ≡ false
    → IsReading body (sent ++ (check_limit r chunk e).0) (check_limit r chunk e).2 (taken ++ chunk)
unfolding check_limit
check_limit-IsReading body sent taken chunk r e split allow same reads fits flowing =
    let long = length-append taken chunk in
    let whole = length-append (taken ++ chunk) r.rest in
    elim (Bool-cases (length chunk == 0)) [
      | inl none_came ↦ rw none_came record {
        split = split;
        allowance = allow;
        within = λ flows. (ap (λ t. t ++ chunk) same, ground arith, fits);
        beyond = λ spilt. ground arith;
      }
      | inr some_came ↦ elim (Bool-cases (ltb r.max (r.read + length chunk))) [
        | inl over ↦
            rw (some_came, over)
              record {
                split = split;
                allowance = allow;
                within = λ flows. ground arith;
                beyond = λ spilt. (
                  rw (same, split)
                      (sym (
                        take-append_le r.max (taken ++ chunk) r.rest (ground arith)
                        ∙ take-append_add taken chunk (r.max - r.read) r.max (ground arith))),
                  rw split (ground arith),
                );
              }
        | inr under ↦
            rw (some_came, under)
              record {
                split = split;
                allowance = allow;
                within = λ flows. (ap (λ t. t ++ chunk) same, ground arith, ground arith);
                beyond = λ spilt. ground arith;
              }
      ]
    ]

overflow-IsReading :
    (body sent taken : List ℕ) (r : BodyReader)
    → IsReading body sent r taken
    → r.overflow ≡ true
    → IsReading body (sent ++ []) r taken
overflow-IsReading body sent taken r h spilt = rw append-nil h

read-spilt : (r : BodyReader) (a : Arrival) → r.overflow ≡ true → read r a ≡ ([], too_large, r)
unfolding read
read-spilt r a spilt = ground arith

read-runs :
    (r : BodyReader) (a : Arrival)
    → r.overflow ≡ false
    → read r a ≡ check_limit (consume r a) (take (granted r a) r.rest) (limited_error r a)
unfolding read
read-runs r a runs = ground arith

-- One read keeps the state of the reader.
read-IsReading :
    (body sent taken : List ℕ) (r : BodyReader) (a : Arrival)
    → IsReading body sent r taken
    → (next : List ℕ) × IsReading body (sent ++ (read r a).0) (read r a).2 next
read-IsReading body sent taken r a h = elim (Bool-cases r.overflow) [
  | inl spilt ↦ rw (read-spilt r a spilt) (taken, overflow-IsReading body sent taken r h spilt)
  | inr runs ↦
      let (same, reads, fits) = h.within runs in
      let next = taken ++ take (granted r a) r.rest in
      (
        next,
        subst (λ t. IsReading body (sent ++ t.0) t.2 next) (sym (read-runs r a runs))
            (check_limit-IsReading body sent taken (take (granted r a) r.rest) (consume r a)
              (limited_error r a) (h.split ∙ split_on taken r a)
              (length-taken taken r a h.allowance) same reads fits runs),
      )
]

limited_error-≢-too_large : (r : BodyReader) (a : Arrival) → limited_error r a ≢ too_large
unfolding connection_error
limited_error-≢-too_large r a = ground arith

-- The limit's error comes with the state that the limit has set.
read-too_large :
    (r : BodyReader) (a : Arrival) → (read r a).1 ≡ too_large → (read r a).2.overflow ≡ true
unfolding read check_limit
read-too_large r a = ground (arith, limited_error-≢-too_large r a)

-- What a client of the reader has received, and that the limit's error comes with an exceeded limit.
IsHandedOn : (body : List ℕ) (max : ℕ) → List ℕ × ReadError → Type 0
IsHandedOn body max (sent, last) =
    (sent ≡ take (length sent) body)
    × (length sent ≤ max)
    × (last ≡ too_large → (max < length body) × (sent ≡ take max body))

take-length : (xs : List ℕ) → take (length xs) xs ≡ xs
take-length [] = refl
take-length (x ∷ xs) = ap (λ t. x ∷ t) (take-length xs)

delivered :
    (body sent taken : List ℕ) (r : BodyReader) (e : ReadError)
    → IsReading body sent r taken
    → (e ≡ too_large → r.overflow ≡ true)
    → IsHandedOn body r.max (sent, e)
unfolding IsHandedOn
delivered body sent taken r e h raised = elim (Bool-cases r.overflow) [
  | inl spilt ↦
      let (same, long) = h.beyond spilt in
      let many = length-take r.max body in
      let exact : length (take r.max body) ≡ r.max = ground arith in
      rw same (rw exact (refl, omega arith, λ _. (long, refl)))
  | inr runs ↦
      let (same, reads, fits) = h.within runs in
      (
        rw (same, h.split)
            (sym (take-append_le (length taken) taken r.rest (omega arith) ∙ take-length taken)),
        rw same (omega arith),
        λ e_large. ground (arith, raised e_large),
      )
]

read-max : (r : BodyReader) (a : Arrival) → (read r a).2.max ≡ r.max
unfolding read check_limit
read-max r a = ground arith

hand_on-IsHandedOn :
    (e : ReadError) (body sent chunk : List ℕ) (max : ℕ) (later : List ℕ × ReadError)
    → IsHandedOn body max (sent ++ chunk, e)
    → IsHandedOn body max ((sent ++ chunk) ++ later.0, later.1)
    → IsHandedOn body max (sent ++ (hand_on e chunk later).0, (hand_on e chunk later).1)
unfolding hand_on
hand_on-IsHandedOn no_error body sent chunk max (more, last) now onward =
    rw⁻¹ (append_assoc sent chunk more) onward
hand_on-IsHandedOn eof body sent chunk max later now onward = now
hand_on-IsHandedOn broken body sent chunk max later now onward = now
hand_on-IsHandedOn too_large body sent chunk max later now onward = now

-- From any state of the reader on, what was sent before included.
read_all-IsHandedOn :
    (arrivals : List Arrival) (body sent taken : List ℕ) (r : BodyReader)
    → IsReading body sent r taken
    → IsHandedOn body r.max (sent ++ (read_all r arrivals).0, (read_all r arrivals).1)
unfolding read_all
read_all-IsHandedOn [] body sent taken r h =
    rw append-nil (delivered body sent taken r no_error h (λ e. ground arith))
read_all-IsHandedOn (a ∷ arrivals) body sent taken r h =
    let (next, h') = read-IsReading body sent taken r a h in
    let kept = read-max r a in
    hand_on-IsHandedOn (read r a).1 body sent (read r a).0 r.max (read_all (read r a).2 arrivals)
      (subst (λ m. IsHandedOn body m (sent ++ (read r a).0, (read r a).1)) kept
        (delivered body (sent ++ (read r a).0) next (read r a).2 (read r a).1 h'
          (read-too_large r a)))
      (subst
        (λ m. IsHandedOn body m (
          (sent ++ (read r a).0) ++ (read_all (read r a).2 arrivals).0,
          (read_all (read r a).2 arrivals).1,
        ))
        kept (read_all-IsHandedOn arrivals body (sent ++ (read r a).0) next (read r a).2 h'))

-- What a client has received when it stops: a prefix of the body within the limit, and if it stopped
-- for the limit's error, all that the limit allows of a longer body.
pub IsDelivered : (body : List ℕ) (max : ℕ) → List ℕ × ReadError → Type 0
IsDelivered body max (sent, last) =
    (sent ≡ take (length sent) body)
    × (length sent ≤ max)
    × ((last ≢ too_large) ⊎ ((max < length body) × (sent ≡ take max body)))

IsDelivered-IsHandedOn :
    (body : List ℕ) (max : ℕ) (sent : List ℕ) (last : ReadError)
    → IsHandedOn body max (sent, last)
    → IsDelivered body max (sent, last)
unfolding IsHandedOn IsDelivered
IsDelivered-IsHandedOn body max sent too_large (same, fits, over) = (same, fits, inr (over refl))
IsDelivered-IsHandedOn body max sent no_error (same, fits, over) = (same, fits, inl (λ e. cc))
IsDelivered-IsHandedOn body max sent eof (same, fits, over) = (same, fits, inl (λ e. cc))
IsDelivered-IsHandedOn body max sent broken (same, fits, over) = (same, fits, inl (λ e. cc))

-- Whatever arrives on the connection, and in whatever pieces, what a client reads of a body through
-- the limit is a prefix of that body of at most `max` bytes, and the limit's error comes only for a
-- body longer than `max`, after exactly its first `max` bytes. This is for a limit below the largest
-- int64.
pub read_all_limited :
    (max : ℕ) (body : List ℕ) (arrivals : List Arrival)
    → max + 1 < 2 ^ 63
    → IsDelivered body max (read_all (new_body_reader max body) arrivals)
unfolding new_body_reader
read_all_limited max body arrivals fits = IsDelivered-IsHandedOn body max _ _ (
    read_all-IsHandedOn arrivals body [] [] (new_body_reader max body)
      (new-IsReading max body fits))
