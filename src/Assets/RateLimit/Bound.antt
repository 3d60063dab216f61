-- ===== src/Assets/RateLimit/Bound.antt =====
-- How many requests the limiter lets through, ratelimit.go.
use audistro_provider.Prelude.{
  ℕ, ◌+◌, ◌-◌, ◌*◌, ◌≤◌, ◌≡◌, refl, Bool, true, false, ◌&&◌, Option, none, some, List, [], ◌∷◌,
  Text, arith, ltb, text_eq, text_eq_iff, if◌then◌else◌, All, Bool-cases, inl, inr, ap,
}
use audistro_provider.Go.Time.{Instant}
use audistro_provider.Go.Map.{Map, lookup, lookup-insert}
use audistro_provider.Assets.RateLimit.{
  token, RateLimitConfig, Bucket, Limiter, new_limiter, serve_bucket, allow, run,
}

-- How many of the requests of a client were let through.
pub passed : Text → List (Text × Instant) → List Bool → ℕ
passed ip [] answers = 0
passed ip (r ∷ requests) [] = 0
passed ip (r ∷ requests) (a ∷ answers) =
    (if text_eq r.0 ip && a then 1 else 0) + passed ip requests answers

-- What a client can still spend up to an instant, if it has not been seen before `start`.
abbrev credit : Limiter → Instant → Instant → Option Bucket → ℕ
credit l start end none = l.burst + (end - start) * l.rps
credit l start end (some b) = b.tokens + (end - b.last) * l.rps

abbrev IsBefore : Instant → Option Bucket → Type 0
IsBefore end none = Unit
IsBefore end (some b) = b.last ≤ end

cut_interval : (l n e r : ℕ) → l ≤ n → n ≤ e → (e - l) * r ≡ (n - l) * r + (e - n) * r
cut_interval l n e r p q =
    let split : e - l ≡ (n - l) + (e - n) = omega arith in
    omega (arith, ap (λ (t : ℕ). t * r) split)

credit-serve_bucket :
    (l : Limiter) (start now end : Instant) (old : Option Bucket)
    → token ≤ l.burst
    → start ≤ now
    → now ≤ end
    → IsBefore end old
    → let (allowed, b) = serve_bucket l now old in
      ((if allowed then token else 0) + credit l start end (some b) ≤ credit l start end old)
      × (b.last ≤ end)
unfolding serve_bucket
credit-serve_bucket l start now end none full from to seen =
    ground (arith, cut_interval start now end l.rps)
credit-serve_bucket l start now end (some b) full from to seen =
    elim (Bool-cases (ltb b.last now)) [
      | inl later ↦ ground (arith, cut_interval b.last now end l.rps)
      | inr same ↦ ground arith
    ]

IsBefore-some : (end : Instant) (b : Bucket) → b.last ≤ end → IsBefore end (some b)
IsBefore-some end b h = h

-- The bucket of a client after a request: its own is served, that of another client is untouched.
pub lookup-allow :
    (l : Limiter) (ip other : Text) (now : Instant)
    → lookup other (allow l ip now).1.buckets ≡ (
        if text_eq ip other
        then some (serve_bucket l now (lookup ip l.buckets)).1
        else lookup other l.buckets)
unfolding allow
lookup-allow l ip other now = rw lookup-insert refl

module _ (ip : Text) (start end : Instant) where
  abbrev IsWithin : Text × Instant → Type 0
  IsWithin r = (start ≤ r.1) × (r.1 ≤ end)

  -- What one request of anyone takes from the client's credit.
  credit-allow :
      (l : Limiter) (from : Text) (now : Instant)
      → token ≤ l.burst
      → IsWithin (from, now)
      → IsBefore end (lookup ip l.buckets)
      → ((if text_eq from ip && (allow l from now).0 then token else 0)
            + credit (allow l from now).1 start end (lookup ip (allow l from now).1.buckets)
          ≤ credit l start end (lookup ip l.buckets))
        × IsBefore end (lookup ip (allow l from now).1.buckets)
  credit-allow l from now full (low, high) seen = elim (Bool-cases (text_eq from ip)) [
    | inl own ↦
        let eq : from ≡ ip = (text_eq_iff _ _).0 own in
        rw (lookup-allow l from ip now, own, eq)
          (unfold allow in
            credit-serve_bucket l start now end (lookup ip l.buckets) full low high seen)
    | inr other ↦ rw (lookup-allow l from ip now, other) (unfold allow in (omega arith, seen))
  ]

  passed-credit :
      (l : Limiter) (requests : List (Text × Instant))
      → token ≤ l.burst
      → All IsWithin requests
      → IsBefore end (lookup ip l.buckets)
      → passed ip requests (run l requests).0 * token ≤ credit l start end (lookup ip l.buckets)
  unfolding passed run
  passed-credit l [] full within seen = omega arith
  passed-credit l ((from, now) ∷ requests) full (fits, within) seen =
      let (spent, later) = credit-allow l from now full fits seen in
      let rest = passed-credit (allow l from now).1 requests (unfold allow in full) within later in
      elim (Bool-cases (text_eq from ip && (allow l from now).0)) [
        | inl mine ↦ rw mine (let spent' = rw mine at spent in omega arith)
        | inr theirs ↦ rw theirs (let spent' = rw theirs at spent in omega arith)
      ]

new_limiter-burst : (cfg : RateLimitConfig) → token ≤ (new_limiter cfg).burst
unfolding new_limiter
new_limiter-burst cfg = ground arith

-- Whatever the other clients do, a new limiter lets through at most as many requests of one client
-- between two instants as a full bucket and the refill of that time pay for, each request being one
-- token: the clock may read any instants in between, in any order.
pub passed-le-burst :
    (cfg : RateLimitConfig) (ip : Text) (start end : Instant) (requests : List (Text × Instant))
    → All (λ r. (start ≤ r.1) × (r.1 ≤ end)) requests
    → passed ip requests (run (new_limiter cfg) requests).0 * token
      ≤ (new_limiter cfg).burst + (end - start) * (new_limiter cfg).rps
passed-le-burst cfg ip start end requests within =
    let bound =
      passed-credit ip start end (new_limiter cfg) requests (new_limiter-burst cfg) within
        (unfold new_limiter lookup in tt) in
    unfold new_limiter lookup in bound

serve_refilled :
    (l : Limiter) (now : Instant) (b : Bucket)
    → token ≤ l.burst
    → token ≤ (now - b.last) * l.rps
    → (serve_bucket l now (some b)).0 ≡ true
unfolding serve_bucket
serve_refilled l now b full waited = elim (Bool-cases (ltb b.last now)) [
  | inl later ↦ ground arith
  | inr same ↦
      let idle : now - b.last ≡ 0 = ground arith in
      absurd (omega (arith, ap (λ (t : ℕ). t * l.rps) idle))
]

-- A client that has waited for one token since its bucket was last filled up, by the limiter's rate,
-- is served.
pub allow_after_refill :
    (l : Limiter) (ip : Text) (now : Instant) (b : Bucket)
    → lookup ip l.buckets ≡ some b
    → token ≤ l.burst
    → token ≤ (now - b.last) * l.rps
    → (allow l ip now).0 ≡ true
unfolding allow
allow_after_refill l ip now b known full waited = rw known (serve_refilled l now b full waited)

serve_bucket-rates :
    (l : Limiter) (m : Map Bucket) (now : Instant) (old : Option Bucket)
    → serve_bucket (record l { buckets = m }) now old ≡ serve_bucket l now old
unfolding serve_bucket
serve_bucket-rates l m now none = refl
serve_bucket-rates l m now (some b) = refl

-- What one client asks never changes the answer to another.
pub allow-other :
    (l : Limiter) (ip other : Text) (now later : Instant)
    → text_eq ip other ≡ false
    → (allow (allow l ip now).1 other later).0 ≡ (allow l other later).0
unfolding allow
allow-other l ip other now later differs = rw lookup-insert (rw (differs, serve_bucket-rates) refl)
