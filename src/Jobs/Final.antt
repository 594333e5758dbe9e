-- ===== src/Jobs/Final.antt =====
-- Finished jobs stay finished (internal/jobqueue/postgres.go).
use kontor.Prelude.{
  ◌≡◌, ltb, leb, Bool, true, false, ◌&&◌, List, [], ◌∷◌, ◌++◌, String, arith, str_eq, any, Time,
  Elem, here, there, Bool-cases, inl, inr,
}
use kontor.Jobs.{
  Status, completed, cancelled, Row, Tables, EnqueueParams, Checks, update, select, is_claimed_job,
  in_batch, claimable_batch, claim, claim_batch, mark_completed, complete,
}
use kontor.Jobs.Failure.{
  back_to_pending, bury, bury_where, fail, fail_found, retry_job, dead_letter, is_stale, is_spent,
  is_retryable, requeue_stale_claims, claim_lease,
}
use kontor.Jobs.Outbox.{
  conflicts, new_row, enqueue, is_dead_job, revive, replay_dead_letter, is_outstanding, cancel,
  cancel_booking_jobs, is_pending_reminder, with_payload, update_reminder_schedule,
}
use kontor.Jobs.History.{
  Op, claim_op, complete_op, fail_op, late_fail_op, requeue_op, enqueue_op, replay_op, cancel_op,
  reminder_op, apply, run_from,
}

-- A status that no call of the queue leaves.
abbrev pub is_final : Status → Bool
is_final completed = true
is_final cancelled = true
is_final _ = false

Elem-update :
    (r : Row) (p : Row → Bool) (f : Row → Row) (rs : List Row)
    → p r ≡ false
    → Elem r rs
    → Elem r (update p f rs)
unfolding update
Elem-update r p f [] h m = elim m [ ]
Elem-update r p f (s ∷ rs) h (here e) = here (ground (arith, rw e at h, e))
Elem-update r p f (s ∷ rs) h (there m) = there (Elem-update r p f rs h m)

Elem-append : (r : Row) (rs ss : List Row) → Elem r rs → Elem r (rs ++ ss)
Elem-append r [] ss m = elim m [ ]
Elem-append r (x ∷ rs) ss (here e) = here e
Elem-append r (x ∷ rs) ss (there m) = there (Elem-append r rs ss m)

fail_found-keeps :
    (c : Checks) (now : Time) (id message : String) (found : List Row) (t : Tables) (r : Row)
    → is_final r.status ≡ true
    → Elem r t.jobs
    → Elem r (fail_found c now id message found t).1.jobs
unfolding fail_found retry_job dead_letter bury_where is_claimed_job
fail_found-keeps c now id message [] t r h m = m
fail_found-keeps c now id message (s ∷ more) t r h m =
    let out : is_claimed_job id r ≡ false = ground arith in
    elim (Bool-cases (c.error_fits message)) [
      | inr bad ↦ rw (bad, fail_found) m
      | inl good ↦ elim (Bool-cases (ltb s.attempts s.max_attempts)) [
        | inl left ↦ rw (good, fail_found, left) (Elem-update r (is_claimed_job id) _ t.jobs out m)
        | inr spent ↦
            rw (good, fail_found, spent) (Elem-update r (is_claimed_job id) _ t.jobs out m)
      ]
    ]

enqueue-keeps :
    (c : Checks) (now : Time) (id : String) (p : EnqueueParams) (t : Tables) (r : Row)
    → Elem r t.jobs
    → Elem r (enqueue c now id p t).1.jobs
unfolding enqueue
enqueue-keeps c now id p t r m =
    elim (Bool-cases (c.row_fits p && (leb 1 p.max_attempts && leb p.max_attempts 20))) [
      | inr bad ↦ rw (bad, enqueue) m
      | inl good ↦ elim (Bool-cases (any (conflicts p) t.jobs)) [
        | inl present ↦ rw (good, enqueue, present) m
        | inr absent ↦ rw (good, enqueue, absent) (Elem-append r t.jobs (new_row now id p ∷ []) m)
      ]
    ]

apply-keeps :
    (c : Checks) (op : Op) (t : Tables) (r : Row)
    → is_final r.status ≡ true
    → Elem r t.jobs
    → Elem r (apply c op t).jobs
unfolding claim_batch in_batch complete is_claimed_job fail requeue_stale_claims bury_where is_spent
    is_retryable is_stale replay_dead_letter is_dead_job cancel_booking_jobs is_outstanding
    update_reminder_schedule is_pending_reminder
apply-keeps c (claim_op now locked n) t r h m =
    Elem-update r (in_batch (claimable_batch now locked n t.jobs)) (claim now) t.jobs (ground arith)
      m
apply-keeps c (complete_op now id) t r h m =
    Elem-update r (is_claimed_job id) (mark_completed now) t.jobs (ground arith) m
apply-keeps c (fail_op now id message) t r h m =
    fail_found-keeps c now id message (select (is_claimed_job id) t.jobs) t r h m
apply-keeps c (late_fail_op now id message s) t r h m =
    fail_found-keeps c now id message (s ∷ []) t r h m
apply-keeps c (requeue_op now lease) t r h m =
    Elem-update r (is_retryable now (claim_lease lease))
      (back_to_pending now "reclaimed after stale claim lease")
      (update (is_spent now (claim_lease lease)) (bury now "stale claim exceeded max attempts")
        t.jobs)
      (ground arith)
      (Elem-update r (is_spent now (claim_lease lease))
        (bury now "stale claim exceeded max attempts") t.jobs (ground arith) m)
apply-keeps c (enqueue_op now id p) t r h m = elim (Bool-cases (any (λ s. str_eq s.id id) t.jobs)) [
  | inl taken ↦ rw taken m
  | inr fresh ↦ rw fresh (enqueue-keeps c now id p t r m)
]
apply-keeps c (replay_op now id) t r h m =
    Elem-update r (is_dead_job id) (revive now) t.jobs (ground arith) m
apply-keeps c (cancel_op now tenant booking kind) t r h m =
    Elem-update r (is_outstanding tenant booking kind) (cancel now) t.jobs (ground arith) m
apply-keeps c (reminder_op f tenant booking) t r h m =
    Elem-update r (is_pending_reminder tenant booking) (with_payload f) t.jobs (ground arith) m

-- A job that is completed or cancelled stays in the table as it is, whatever is called afterwards:
-- it is never claimed, retried, buried, replayed or changed again.
pub run_from-keeps :
    (c : Checks) (ops : List Op) (t : Tables) (r : Row)
    → is_final r.status ≡ true
    → Elem r t.jobs
    → Elem r (run_from c ops t).jobs
run_from-keeps c [] t r h m = m
run_from-keeps c (op ∷ ops) t r h m =
    run_from-keeps c ops (apply c op t) r h (apply-keeps c op t r h m)
