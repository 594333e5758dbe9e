-- ===== src/Jobs/History.antt =====
-- Histories of the job queue (internal/jobqueue/postgres.go), the oldest call first.
use kontor.Prelude.{
  ℤ, ℕ, Bool, true, not, ◌&&◌, ◌==◌, List, [], ◌∷◌, String, Time, any, str_eq, if◌then◌else◌,
}
use kontor.Jobs.{Row, Tables, EnqueueParams, Checks, claim_batch, complete, is_claimed_job}
use kontor.Jobs.Failure.{fail, fail_found, requeue_stale_claims, claim_lease}
use kontor.Jobs.Outbox.{enqueue, replay_dead_letter, cancel_booking_jobs, update_reminder_schedule}

-- A call on the queue, with the time that the database reads in it. The identifier that
-- gen_random_uuid() gives a new row is one that no row has. `fail_op` is a `Fail` with nothing between
-- its lookup and its write; `late_fail_op` is the write of one whose lookup gave that row earlier.
pub data Op : Type 0 where
  claim_op : Time → (Row → Bool) → ℕ → Op
  complete_op : Time → String → Op
  fail_op : Time → String → String → Op
  late_fail_op : Time → String → String → Row → Op
  requeue_op : Time → ℤ → Op
  enqueue_op : Time → String → EnqueueParams → Op
  replay_op : Time → String → Op
  cancel_op : Time → String → String → String → Op
  reminder_op : (String → String) → String → String → Op

abbrev pub apply : Checks → Op → Tables → Tables
apply c (claim_op now locked n) t = claim_batch now locked n t
apply c (complete_op now id) t = (complete now id t).1
apply c (fail_op now id message) t = (fail c now id message t).1
apply c (late_fail_op now id message r) t = (fail_found c now id message (r ∷ []) t).1
apply c (requeue_op now lease) t = requeue_stale_claims now (claim_lease lease) t
apply c (enqueue_op now id p) t =
    if any (λ r. str_eq r.id id) t.jobs then t else (enqueue c now id p t).1
apply c (replay_op now id) t = (replay_dead_letter now id t).1
apply c (cancel_op now tenant booking kind) t = (cancel_booking_jobs now tenant booking kind t).1
apply c (reminder_op f tenant booking) t = (update_reminder_schedule f tenant booking t).1

abbrev pub run_from : Checks → List Op → Tables → Tables
run_from c [] t = t
run_from c (op ∷ ops) t = run_from c ops (apply c op t)

abbrev pub empty_tables : Tables
empty_tables = record { jobs = []; dead_letters = [] }

-- Where the write of a `Fail` finds its job claimed, it has the attempts that the lookup saw.
abbrev pub is_current : Op → Tables → Bool
is_current (late_fail_op now id message r) t = not (
    any
      (λ s.
        is_claimed_job id s && not (s.attempts == r.attempts && s.max_attempts == r.max_attempts))
      t.jobs)
is_current _ t = true

-- So it is in the whole history.
abbrev pub is_timely : Checks → List Op → Tables → Bool
is_timely c [] t = true
is_timely c (op ∷ ops) t = is_current op t && is_timely c ops (apply c op t)
