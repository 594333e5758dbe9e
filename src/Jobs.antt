-- ===== src/Jobs.antt =====
-- internal/jobqueue/postgres.go: the durable job queue. A method is one statement or transaction on
-- the tables `jobs` and `dead_letter_jobs`, and is modelled as one step; `now` is the database's
-- now() in it. `Fail` looks the job up in one statement and writes in another: it is modelled with
-- nothing in between as well as by its write alone, with the row that the lookup gave earlier. The
-- log lines, and errors of the connection, are left out.
pub mod Failure
pub mod Backoff
pub mod Outbox
pub mod History
pub mod Invariant
pub mod Updates
pub mod Reachable
pub mod Final
pub mod Again
mod Tests
use kontor.Prelude.{
  ℤ, ℕ, ◌+◌, ◌-◌, ◌*◌, ◌^◌, Bool, true, false, not, ◌&&◌, ◌||◌, Option, none, some, List, [], ◌∷◌,
  ◌++◌, String, str_eq, any, Time, second, hour, leb, ltb, ◌==◌, if◌then◌else◌,
}

pub data Status : Type 0 where
  pending claimed completed dead cancelled : Status

-- A row of `jobs`. The key is NULL for rows that other programs insert.
pub record Row : Type 0 where
  pub tenant_id : String
  pub id : String
  pub booking_id : String
  pub job_type : String
  pub payload : String
  pub status : Status
  pub attempts : ℕ
  pub max_attempts : ℕ
  pub next_retry_at : Time
  pub claimed_at : Option Time
  pub completed_at : Option Time
  pub dead_at : Option Time
  pub cancelled_at : Option Time
  pub last_error : Option String
  pub idempotency_key : Option String

-- A row of `dead_letter_jobs`. Its `created_at`, like that of `jobs`, is left out.
pub record DeadLetter : Type 0 where
  pub tenant_id : String
  pub original_job_id : String
  pub booking_id : String
  pub job_type : String
  pub payload : String
  pub attempts : ℕ
  pub max_attempts : ℕ
  pub last_error : String
  pub idempotency_key : Option String
  pub dead_at : Time

pub record Tables : Type 0 where
  pub jobs : List Row
  pub dead_letters : List DeadLetter

pub record EnqueueParams : Type 0 where
  pub tenant_id : String
  pub booking_id : String
  pub job_type : String
  pub payload : String
  pub max_attempts : ℕ
  pub idempotency_key : String

-- Constraints of the columns that are not about the queue's states: `error_fits` is the length of
-- `last_error`, `row_fits` the type, the payload, the key and the references of a new row. Beside
-- them, `beyond_int64` is what the platform makes of a float64 that no int64 holds.
pub record Checks : Type 0 where
  pub error_fits : String → Bool
  pub row_fits : EnqueueParams → Bool
  pub beyond_int64 : ℕ → ℤ

abbrev pub is_pending : Status → Bool
is_pending pending = true
is_pending _ = false

abbrev pub is_claimed : Status → Bool
is_claimed claimed = true
is_claimed _ = false

abbrev pub is_dead : Status → Bool
is_dead dead = true
is_dead _ = false

-- `UPDATE jobs SET … WHERE …`
unfoldable pub update : (Row → Bool) → (Row → Row) → List Row → List Row
update p f [] = []
update p f (r ∷ rs) = (if p r then f r else r) ∷ update p f rs

-- `RowsAffected`
unfoldable pub affected : (Row → Bool) → List Row → ℕ
affected p [] = 0
affected p (r ∷ rs) = (if p r then 1 else 0) + affected p rs

unfoldable pub select : (Row → Bool) → List Row → List Row
select p [] = []
select p (r ∷ rs) = if p r then r ∷ select p rs else select p rs

-- `ORDER BY next_retry_at LIMIT n`
unfoldable pub insert_by_retry : Row → List Row → List Row
insert_by_retry r [] = r ∷ []
insert_by_retry r (s ∷ ss) =
    if ltb s.next_retry_at r.next_retry_at then s ∷ insert_by_retry r ss else r ∷ s ∷ ss

unfoldable pub order_by_retry : List Row → List Row
unfolding insert_by_retry
order_by_retry [] = []
order_by_retry (r ∷ rs) = insert_by_retry r (order_by_retry rs)

unfoldable pub limit : ℕ → List Row → List Row
limit ℕ.zero rs = []
limit (ℕ.suc n) [] = []
limit (ℕ.suc n) (r ∷ rs) = r ∷ limit n rs

unfoldable pub same_key : Row → Row → Bool
same_key a b = str_eq a.tenant_id b.tenant_id && str_eq a.id b.id

unfoldable pub is_claimable : Time → (Row → Bool) → Row → Bool
is_claimable now locked r = is_pending r.status && (leb r.next_retry_at now && not (locked r))

-- The subquery of `ClaimBatch`; `locked` are the rows that SKIP LOCKED passes over.
unfoldable pub claimable_batch : Time → (Row → Bool) → ℕ → List Row → List Row
unfolding is_claimable order_by_retry limit select
claimable_batch now locked n jobs = limit n (order_by_retry (select (is_claimable now locked) jobs))

unfoldable pub claim : Time → Row → Row
claim now r = record r { status = claimed; claimed_at = some now; attempts = r.attempts + 1 }

-- A row that the statement updates: in the batch, and still pending since it is locked there.
unfoldable pub in_batch : List Row → Row → Bool
unfolding same_key
in_batch batch r = is_pending r.status && any (same_key r) batch

unfoldable pub claim_batch : Time → (Row → Bool) → ℕ → Tables → Tables
unfolding claimable_batch in_batch claim update
claim_batch now locked n t =
    let batch = claimable_batch now locked n t.jobs in
    record t { jobs = update (in_batch batch) (claim now) t.jobs }

-- `id = $1 AND status = 'claimed'`
unfoldable pub is_claimed_job : String → Row → Bool
is_claimed_job id r = str_eq r.id id && is_claimed r.status

unfoldable pub mark_completed : Time → Row → Row
mark_completed now r = record r { status = completed; completed_at = some now }

-- `Complete`: whether a row was claimed, and the tables.
unfoldable pub complete : Time → String → Tables → Bool × Tables
unfolding is_claimed_job update affected mark_completed
complete now id t = (
  not (affected (is_claimed_job id) t.jobs == 0),
  record t { jobs = update (is_claimed_job id) (mark_completed now) t.jobs },
)
