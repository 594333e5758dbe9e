-- ===== src/Jobs/Tests.antt =====
-- Runs of the job queue (internal/jobqueue/postgres.go): a reminder that fails once, is abandoned by
-- its worker and claimed again, another one that is cancelled with its booking, and a failure that
-- is written after its claim was taken away.
use kontor.Prelude.{
  any, false, if◌then◌else◌, ltb, ◌≤◌, ◌≡◌, ◌+◌, ◌*◌, pos, negsuc, ℕ, refl, true, false, not, List,
  [], ◌∷◌, str_eq, some, none, All, Elem, here, arith, second, hour,
}
use kontor.Jobs.{
  Row, Tables, EnqueueParams, Checks, cancelled, claimed, claim_batch, is_claimed_job,
}
use kontor.Jobs.Failure.{retry_delay, fail_found, requeue_stale_claims, claim_lease}
use kontor.Jobs.Backoff.{retry_delay_lem}
use kontor.Jobs.Outbox.{enqueue, conflicts}
use kontor.Jobs.History.{
  Op, claim_op, complete_op, fail_op, late_fail_op, is_timely, requeue_op, enqueue_op, replay_op,
  cancel_op, reminder_op, run_from, empty_tables,
}
use kontor.Jobs.Invariant.{IsSound}
use kontor.Jobs.Reachable.{run_from-IsSound}
use kontor.Jobs.Final.{run_from-keeps}
use kontor.Jobs.Again.{enqueue_again}

abbrev checks : Checks
checks = record {
  error_fits = λ s. not (str_eq s "too long");
  row_fits = λ p. true;
  beyond_int64 = λ n. negsuc n;
}

abbrev reminder : EnqueueParams
reminder = record {
  tenant_id = "t1";
  booking_id = "b1";
  job_type = "send_reminder";
  payload = "p";
  max_attempts = 2;
  idempotency_key = "reminder-of-b1-x";
}

abbrev other_reminder : EnqueueParams
other_reminder = record reminder { booking_id = "b2"; idempotency_key = "reminder-of-b2-x" }

-- What the lookup of a `Fail` sees after the first claim.
abbrev first_claim : Row
first_claim = record {
  tenant_id = "t1";
  id = "j1";
  booking_id = "b1";
  job_type = "send_reminder";
  payload = "p";
  status = claimed;
  attempts = 1;
  max_attempts = 2;
  next_retry_at = 0;
  claimed_at = some 10;
  completed_at = none;
  dead_at = none;
  cancelled_at = none;
  last_error = none;
  idempotency_key = some "reminder-of-b1-x";
}

abbrev history : List Op
history =
    enqueue_op 0 "j1" reminder
    ∷ enqueue_op 0 "j2" other_reminder
    ∷ claim_op 10 (λ r. false) 1
    ∷ late_fail_op 20 "j1" "no route" first_claim
    ∷ fail_op 21 "j1" "no claim is left"
    ∷ claim_op hour (λ r. false) 5
    ∷ cancel_op hour "t1" "b2" ""
    ∷ requeue_op (hour + hour) (pos (300 * second))
    ∷ replay_op (hour + hour) "j1"
    ∷ reminder_op (λ s. s) "t1" "b1"
    ∷ complete_op (hour + hour) "j1"
    ∷ []

run_from-IsSound_example : All IsSound (run_from checks history empty_tables).jobs
unfolding claim_batch enqueue is_claimed_job
run_from-IsSound_example = run_from-IsSound checks history refl

-- Between the lookup and the write the claim goes to another worker, whose last attempt is undone.
abbrev overtaken : List Op
overtaken =
    enqueue_op 0 "j1" reminder
    ∷ claim_op 10 (λ r. false) 1
    ∷ requeue_op hour (pos second)
    ∷ claim_op (hour + second) (λ r. false) 1
    ∷ late_fail_op (hour + second) "j1" "too slow" first_claim
    ∷ claim_op (hour + hour) (λ r. false) 1
    ∷ []

not_timely : is_timely checks overtaken empty_tables ≡ false
unfolding enqueue conflicts claim_batch requeue_stale_claims fail_found claim_lease
not_timely = refl

claimed_too_often :
    any (λ r. ltb r.max_attempts r.attempts) (run_from checks overtaken empty_tables).jobs ≡ true
unfolding enqueue conflicts claim_batch requeue_stale_claims fail_found claim_lease
claimed_too_often = refl

abbrev cancelled_job : Row
cancelled_job = record {
  tenant_id = "t1";
  id = "j3";
  booking_id = "b3";
  job_type = "send_reminder";
  payload = "p";
  status = cancelled;
  attempts = 1;
  max_attempts = 2;
  next_retry_at = 0;
  claimed_at = none;
  completed_at = none;
  dead_at = none;
  cancelled_at = some 5;
  last_error = none;
  idempotency_key = none;
}

abbrev one_cancelled : Tables
one_cancelled = record { jobs = cancelled_job ∷ []; dead_letters = [] }

run_from-keeps_example : Elem cancelled_job (run_from checks history one_cancelled).jobs
run_from-keeps_example = run_from-keeps checks history one_cancelled cancelled_job refl (here refl)

enqueue_again_example :
    enqueue checks
      (hour + hour)
      "j5"
      reminder
      (run_from checks history (enqueue checks 0 "j4" reminder one_cancelled).1)
    ≡ (true, run_from checks history (enqueue checks 0 "j4" reminder one_cancelled).1)
unfolding enqueue conflicts
enqueue_again_example =
    enqueue_again checks 0 (hour + hour) "j4" "j5" reminder reminder history one_cancelled refl refl
      refl refl (omega arith, omega arith)

retry_delay_lem_example :
    (d : ℕ) × (retry_delay checks.beyond_int64 3 ≡ pos d)
    × (30 * second ≤ d)
    × (d ≤ hour)
    × (retry_delay checks.beyond_int64 4 ≡ pos (if ltb hour (2 * d) then hour else 2 * d))
retry_delay_lem_example = retry_delay_lem checks.beyond_int64 2 (omega arith)
