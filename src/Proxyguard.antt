-- ===== src/Proxyguard.antt =====
-- internal/proxyguard/limit.go: a bounded number of upstream requests at a time. The channel is its
-- number of elements and its capacity; a nil semaphore is `none`.
use audistro_provider.Prelude.{
  ℕ, ◌+◌, ◌-◌, ◌≤◌, ◌<◌, ◌≡◌, refl, ◌↔◌, Bool, true, false, Option, none, some, arith, ltb, ◌==◌,
  if◌then◌else◌, Bool-cases, inl, inr,
}
use audistro_provider.Go.Int64.{ℤ, pos, leb_ℤ, pos_part}

pub record Semaphore : Type 0 where
  pub held : ℕ
  pub size : ℕ

unfoldable pub new_semaphore : ℤ → Option Semaphore
new_semaphore size =
    if leb_ℤ size (pos 0) then none else some (record { held = 0; size = pos_part size })

-- `Acquire`; `cancelled` says whether the context is done. Neither `select` waits.
unfoldable pub acquire : Bool → Option Semaphore → Bool × Option Semaphore
acquire cancelled none = (true, none)
acquire true (some s) = (false, some s)
acquire false (some s) =
    if ltb s.held s.size then (true, some (record s { held = s.held + 1 })) else (false, some s)

unfoldable pub release : Option Semaphore → Option Semaphore
release none = none
release (some s) = some (if s.held == 0 then s else record s { held = s.held - 1 })

-- The requests that share a semaphore: how many stand between a successful Acquire and their
-- Release. A step is one request's arrival or the end of one that was let in.
pub record Traffic : Type 0 where
  pub semaphore : Option Semaphore
  pub running : ℕ

pub data Step : Traffic → Traffic → Type 0 where
  arrive :
      (t : Traffic) (cancelled : Bool)
      → Step t (record {
        semaphore = (acquire cancelled t.semaphore).1;
        running = t.running + (if (acquire cancelled t.semaphore).0 then 1 else 0);
      })
  leave :
      (t : Traffic)
      → 0 < t.running
      → Step t (record { semaphore = release t.semaphore; running = t.running - 1 })

pub data Reach (s : Traffic) : Traffic → Type 0 where
  here : Reach s s
  next : {t u : Traffic} → Reach s t → Step t u → Reach s u

-- With a semaphore of size `n` the count is exact, and at most `n` requests run.
pub data IsCounted (n : ℕ) (t : Traffic) : Type 0 where
  counted :
      (s : Semaphore)
      → t.semaphore ≡ some s
      → s.size ≡ n
      → s.held ≡ t.running
      → t.running ≤ n
      → IsCounted n t

arrive-IsCounted :
    (n : ℕ) (t : Traffic) (cancelled : Bool)
    → IsCounted n t
    → IsCounted n (record {
      semaphore = (acquire cancelled t.semaphore).1;
      running = t.running + (if (acquire cancelled t.semaphore).0 then 1 else 0);
    })
unfolding acquire
arrive-IsCounted n t true (counted s known size held few) =
    rw known (counted s refl size (omega arith) (omega arith))
arrive-IsCounted n t false (counted s known size held few) = elim (Bool-cases (ltb s.held s.size)) [
  | inl room ↦
      rw (known, room)
        (counted (record s { held = s.held + 1 }) refl size (omega arith) (ground arith))
  | inr full ↦ rw (known, full) (counted s refl size (omega arith) (omega arith))
]

Step-IsCounted : (n : ℕ) {t u : Traffic} → Step t u → IsCounted n t → IsCounted n u
unfolding release
Step-IsCounted n (arrive t cancelled) h = arrive-IsCounted n t cancelled h
Step-IsCounted n (leave t busy) (counted s known size held few) =
    counted (if s.held == 0 then s else record s { held = s.held - 1 }) (rw known refl)
      (ground arith) (ground arith) (omega arith)

Reach-IsCounted : (n : ℕ) {s t : Traffic} → IsCounted n s → Reach s t → IsCounted n t
Reach-IsCounted n h here = h
Reach-IsCounted n h (next r step) = Step-IsCounted n step (Reach-IsCounted n h r)

abbrev pub idle : ℤ → Traffic
idle size = record { semaphore = new_semaphore size; running = 0 }

idle-IsCounted : (n : ℕ) → 0 < n → IsCounted n (idle (pos n))
unfolding new_semaphore
idle-IsCounted n h = counted (record { held = 0; size = n }) (ground arith) refl refl (omega arith)

running-le : (n : ℕ) (t : Traffic) → IsCounted n t → t.running ≤ n
running-le n t (counted s known size held few) = few

admits :
    (n : ℕ) (t : Traffic) → IsCounted n t → ((acquire false t.semaphore).0 ≡ true) ↔ (t.running < n)
unfolding acquire
admits n t (counted s known size held few) = rw known (ground arith)

-- However requests arrive and leave, a semaphore made with a positive size never lets more than that
-- many run at a time, and it turns a request away whose context is not done exactly when that many
-- run.
pub semaphore_bounds :
    (n : ℕ) (t : Traffic)
    → 0 < n
    → Reach (idle (pos n)) t
    → (t.running ≤ n) × (((acquire false t.semaphore).0 ≡ true) ↔ (t.running < n))
semaphore_bounds n t h r =
    let c = Reach-IsCounted n (idle-IsCounted n h) r in (running-le n t c, admits n t c)
