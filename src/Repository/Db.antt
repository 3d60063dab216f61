-- ===== src/Repository/Db.antt =====
-- The database behind internal/repository: the two tables of internal/db/db.go by their primary key,
-- and what goes wrong. A column that holds an RFC 3339 text of a UTC time is the number of whole
-- seconds since year 1: the text says no more, and up to year 9999 its byte order is theirs.
use audistro_provider.Prelude.{
  ℕ, zero, suc, ◌+◌, ◌-◌, ◌*◌, ◌/◌, ltb, leb, if◌then◌else◌, Bool, Option, none, some, List, [],
  ◌∷◌, Text, ◌≡◌, refl,
}
use audistro_provider.Go.Int64.{ℤ}
use audistro_provider.Go.Map.{Map}
use audistro_provider.Go.Time.{Instant, second, year_10000}

pub data AssetStatus : Type 0 where
  active missing : AssetStatus

pub record AssetRow : Type 0 where
  pub status : AssetStatus
  pub master_playlist_path : Text
  pub content_hash : Text
  pub file_count : ℕ
  pub total_size_bytes : ℤ
  pub last_scanned_at : ℕ
  pub created_at : ℕ
  pub updated_at : ℕ
  pub missing_at : Option ℕ

-- The statuses that the program writes to announcements.
pub data AnnouncementStatus : Type 0 where
  ok rejected failed expired : AnnouncementStatus

-- A time column of announcements: the empty text, a time, or a text that does not parse, by its
-- place in the byte order: the first second whose text is above it.
pub data Stamp : Type 0 where
  blank : Stamp
  at : ℕ → Stamp
  garbled : ℕ → Stamp

pub record StoredAnnouncement : Type 0 where
  pub last_announced_at : Stamp
  pub expires_at : Stamp
  pub status : AnnouncementStatus
  pub created_at : Stamp
  pub updated_at : Stamp

-- What a call of the driver meets: it works, it fails and changes nothing, or it works and only the
-- number of affected rows is lost.
pub data Fault : Type 0 where
  healthy refused uncounted : Fault

-- `faults` lists what the coming calls meet; past its end they work. `foreign_keys` says whether
-- the connection enforces the reference from announcements to assets.
pub record Db : Type 0 where
  pub assets : Map AssetRow
  pub announcements : Map StoredAnnouncement
  pub foreign_keys : Bool
  pub faults : List Fault

-- A function that calls the database: `none` is a returned error.
abbrev pub Query : Type 0 → Type 0
Query A = Db → Option A × Db

abbrev pub continue : {A B : Type 0} → Option A × Db → (A → Query B) → Option B × Db
continue (none, db) f = (none, db)
continue (some a, db) f = f a db

infixl 5 ◌>>=◌ ◌>>◌
abbrev pub ◌>>=◌ : {A B : Type 0} → Query A → (A → Query B) → Query B
◌>>=◌ m f db = continue (m db) f

abbrev pub ◌>>◌ : {B : Type 0} → Query Unit → Query B → Query B
m >> k = m >>= λ _. k

abbrev pub pure : {A : Type 0} → A → Query A
pure a db = (some a, db)

-- A chain that succeeds has run its first part, and then the rest from the state of that.
pub continue-some :
    {A B : Type 0} (r : Option A × Db) (f : A → Query B) {b : B}
    → (continue r f).0 ≡ some b
    → (a : A) × (r.0 ≡ some a) × ((f a r.1).0 ≡ some b) × ((continue r f).1 ≡ (f a r.1).1)
continue-some (none, db) f e = cc
continue-some (some a, db) f e = (a, refl, e, refl)

abbrev first_fault : List Fault → Fault
first_fault [] = healthy
first_fault (f ∷ fs) = f

abbrev later_faults : List Fault → List Fault
later_faults [] = []
later_faults (f ∷ fs) = fs

abbrev pub after_call : Db → Db
after_call db = record db { faults = later_faults db.faults }

abbrev pub met : Db → Fault
met db = first_fault db.faults

-- A call with an effect on the tables and a result.
abbrev pub run_unless : {A : Type 0} → Fault → (Db → Option A × Db) → Query A
run_unless refused effect db = (none, after_call db)
run_unless healthy effect db = effect (after_call db)
run_unless uncounted effect db = effect (after_call db)

abbrev pub call : {A : Type 0} → (Db → Option A × Db) → Query A
call effect db = run_unless (met db) effect db

-- A call that changes the tables and reports how many rows it touched.
abbrev pub count_unless : Fault → (Db → ℕ × Db) → Query ℕ
count_unless refused effect db = (none, after_call db)
count_unless healthy effect db = let (n, db') = effect (after_call db) in (some n, db')
count_unless uncounted effect db = (none, (effect (after_call db)).1)

abbrev pub counted_call : (Db → ℕ × Db) → Query ℕ
counted_call effect db = count_unless (met db) effect db

abbrev pub restore_unless : {A : Type 0} → Db → Option A × Db → Option A × Db
restore_unless before (some a, db) = (some a, db)
restore_unless before (none, db) =
    (none, record db { assets = before.assets; announcements = before.announcements })

-- A transaction: BeginTx, the body, Commit, and the deferred Rollback if any of them fails.
abbrev pub transaction : {A : Type 0} → Query A → Query A
transaction body db = restore_unless db ((do call (pure tt); a ← body; call (pure tt); pure a) db)

-- The seconds that the RFC 3339 text of an instant says.
abbrev pub to_seconds : Instant → ℕ
to_seconds t = t / second

abbrev days_before : ℕ → ℕ
days_before year = let n = year - 1 in 365 * n + n / 4 - n / 100 + n / 400

-- The year of a day since the start of year 1, from an estimate that is off by one at most.
abbrev year_of : ℕ → ℕ
year_of day =
    let estimate = day * 400 / 146_097 + 1 in
    if ltb day (days_before estimate)
    then estimate - 1
    else if leb (days_before (estimate + 1)) day
    then estimate + 1
    else estimate

abbrev leading_four : ℕ → ℕ → ℕ
leading_four zero n = n
leading_four (suc fuel) n =
    let rest = leading_four fuel (n / 10) in if ltb n 10_000 then n else rest

-- A text whose year has more than four digits is above those of the year that its first four make,
-- and below those of the next.
unfoldable pub place_of : ℕ → ℕ
place_of seconds = days_before (leading_four 20 (year_of (seconds / 86_400)) + 1) * 86_400

-- The text that Format of RFC 3339 makes of an instant, as a column holds it.
unfoldable pub text_of : Instant → Stamp
unfolding year_10000 place_of
text_of t =
    if ltb (to_seconds t) year_10000 then at (to_seconds t) else garbled (place_of (to_seconds t))
