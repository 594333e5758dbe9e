-- ===== src/Jobs/Reachable.antt =====
-- Every history of the job queue keeps its rows sound (internal/jobqueue/postgres.go).
use kontor.Prelude.{
  ℕ, ◌≡◌, refl, Bool, true, false, ◌&&◌, List, [], ◌∷◌, String, arith, Time, All, All-append, any,
  Bool-cases, inl, inr, str_eq, ltb, leb, add,
}
use kontor.Jobs.{
  Row, Tables, EnqueueParams, Checks, is_claimed, select, is_claimed_job, in_batch, claim,
  claim_batch, mark_completed, complete, claimable_batch,
}
use kontor.Jobs.Failure.{
  back_to_pending, bury, bury_where, fail, fail_found, retry_job, dead_letter, retry_delay,
  is_stale, is_spent, is_retryable, requeue_stale_claims, claim_lease,
}
use kontor.Jobs.Outbox.{
  conflicts, new_row, enqueue, is_dead_job, revive, replay_dead_letter, is_outstanding, cancel,
  cancel_booking_jobs, is_pending_reminder, with_payload, update_reminder_schedule,
}
use kontor.Jobs.History.{
  Op, claim_op, complete_op, fail_op, late_fail_op, is_current, is_timely, requeue_op, enqueue_op,
  replay_op, cancel_op, reminder_op, apply, run_from, empty_tables,
}
use kontor.Jobs.Invariant.{
  IsSound, pending_of, claimed_of, dead_of, claim-IsSound, mark_completed-IsSound,
  back_to_pending-IsSound, bury-IsSound, revive-IsSound, cancel-IsSound, with_payload-IsSound,
  new_row-IsSound,
}
use kontor.Jobs.Updates.{
  Inv, IsDistinct-update, update-Inv, claimed_job_parts, All-update_found, All-update_current,
  IsDistinct-append,
}

claim_batch-Inv :
    (now : Time) (locked : Row → Bool) (n : ℕ) (t : Tables)
    → Inv t
    → Inv (claim_batch now locked n t)
unfolding claim_batch in_batch claim
claim_batch-Inv now locked n t v =
    update-Inv t (in_batch (claimable_batch now locked n t.jobs)) (claim now)
      (λ r s q. claim-IsSound now r s (pending_of r.status (ground arith))) (λ r. refl) v

complete-Inv : (now : Time) (id : String) (t : Tables) → Inv t → Inv (complete now id t).1
unfolding complete is_claimed_job mark_completed
complete-Inv now id t v =
    update-Inv t (is_claimed_job id) (mark_completed now)
      (λ r s q. mark_completed-IsSound now r s (claimed_of r.status (ground arith))) (λ r. refl) v

bury_where-Inv :
    (now : Time) (message : String) (p : Row → Bool) (t : Tables)
    → ((r : Row) → p r ≡ true → is_claimed r.status ≡ true)
    → Inv t
    → Inv (bury_where now message p t)
unfolding bury_where bury
bury_where-Inv now message p t only v =
    let w =
      update-Inv t p (bury now message)
        (λ r s q. bury-IsSound now message r s (claimed_of r.status (only r q))) (λ r. refl) v in
    record { sound = w.sound; distinct = w.distinct }

requeue-Inv : (now : Time) (lease : ℕ) (t : Tables) → Inv t → Inv (requeue_stale_claims now lease t)
unfolding requeue_stale_claims is_spent is_retryable is_stale back_to_pending
requeue-Inv now lease t v =
    let text : String = "stale claim exceeded max attempts" in
    let w = bury_where-Inv now text (is_spent now lease) t (λ r q. ground arith) v in
    update-Inv (bury_where now text (is_spent now lease) t) (is_retryable now lease)
      (back_to_pending now "reclaimed after stale claim lease")
      (λ r s q.
        back_to_pending-IsSound now _ r s (claimed_of r.status (ground arith)) (ground arith))
      (λ r. refl) w

fail_found-Inv :
    (c : Checks) (now : Time) (id message : String) (found : List Row) (t : Tables)
    → select (is_claimed_job id) t.jobs ≡ found
    → Inv t
    → Inv (fail_found c now id message found t).1
unfolding fail_found retry_job dead_letter back_to_pending is_claimed_job
fail_found-Inv c now id message [] t e v = v
fail_found-Inv c now id message (r ∷ more) t e v = elim (Bool-cases (c.error_fits message)) [
  | inr bad ↦ rw (bad, fail_found) v
  | inl good ↦ elim (Bool-cases (ltb r.attempts r.max_attempts)) [
    | inr spent ↦
        rw (good, fail_found, spent)
          (bury_where-Inv now message (is_claimed_job id) t (λ s q. ground arith) v)
    | inl left ↦
        let f = back_to_pending (add now (retry_delay c.beyond_int64 r.attempts)) message in
        rw (good, fail_found, left)
          (record {
            sound =
                All-update_found id f r more t.jobs e
                  (λ s q. back_to_pending-IsSound _ message r s q (ground arith)) v.distinct
                  v.sound;
            distinct = IsDistinct-update (is_claimed_job id) f t.jobs (λ s. refl) v.distinct;
          })
  ]
]

late_fail-Inv :
    (c : Checks) (now : Time) (id message : String) (r : Row) (t : Tables)
    → is_current (late_fail_op now id message r) t ≡ true
    → Inv t
    → Inv (fail_found c now id message (r ∷ []) t).1
unfolding fail_found retry_job dead_letter back_to_pending
late_fail-Inv c now id message r t e v = elim (Bool-cases (c.error_fits message)) [
  | inr bad ↦ rw (bad, fail_found) v
  | inl good ↦ elim (Bool-cases (ltb r.attempts r.max_attempts)) [
    | inr spent ↦
        rw (good, fail_found, spent)
          (bury_where-Inv now message (is_claimed_job id) t
            (λ s q. rw (claimed_job_parts id s q).1 refl) v)
    | inl left ↦
        let f = back_to_pending (add now (retry_delay c.beyond_int64 r.attempts)) message in
        rw (good, fail_found, left)
          (record {
            sound =
                All-update_current id f r t.jobs (ground arith)
                  (λ s w q a m. back_to_pending-IsSound _ message s w q (ground arith)) v.sound;
            distinct = IsDistinct-update (is_claimed_job id) f t.jobs (λ s. refl) v.distinct;
          })
  ]
]

replay-Inv : (now : Time) (id : String) (t : Tables) → Inv t → Inv (replay_dead_letter now id t).1
unfolding replay_dead_letter is_dead_job revive
replay-Inv now id t v =
    update-Inv t (is_dead_job id) (revive now)
      (λ r s q. revive-IsSound now r s (dead_of r.status (ground arith))) (λ r. refl) v

cancel_jobs-Inv :
    (now : Time) (tenant booking kind : String) (t : Tables)
    → Inv t
    → Inv (cancel_booking_jobs now tenant booking kind t).1
unfolding cancel_booking_jobs is_outstanding cancel
cancel_jobs-Inv now tenant booking kind t v =
    update-Inv t (is_outstanding tenant booking kind) (cancel now)
      (λ r s q. cancel-IsSound now r s (ground arith)) (λ r. refl) v

reminder-Inv :
    (f : String → String) (tenant booking : String) (t : Tables)
    → Inv t
    → Inv (update_reminder_schedule f tenant booking t).1
unfolding update_reminder_schedule is_pending_reminder with_payload
reminder-Inv f tenant booking t v =
    update-Inv t (is_pending_reminder tenant booking) (with_payload f)
      (λ r s q. with_payload-IsSound f r s (pending_of r.status (ground arith))) (λ r. refl) v

enqueue-Inv :
    (c : Checks) (now : Time) (id : String) (p : EnqueueParams) (t : Tables)
    → any (λ r. str_eq r.id id) t.jobs ≡ false
    → Inv t
    → Inv (enqueue c now id p t).1
unfolding enqueue new_row
enqueue-Inv c now id p t fresh v =
    elim (Bool-cases (c.row_fits p && (leb 1 p.max_attempts && leb p.max_attempts 20))) [
      | inr bad ↦ rw (bad, enqueue) v
      | inl good ↦ elim (Bool-cases (any (conflicts p) t.jobs)) [
        | inl there ↦ rw (good, enqueue, there) v
        | inr absent ↦
            let x = new_row now id p in
            rw (good, enqueue, absent)
              (record {
                sound =
                    All-append IsSound t.jobs (x ∷ []) v.sound
                      (new_row-IsSound now id p (ground arith) (ground arith), tt);
                distinct = IsDistinct-append x t.jobs fresh v.distinct;
              })
      ]
    ]

apply-Inv :
    (c : Checks) (op : Op) (t : Tables) → is_current op t ≡ true → Inv t → Inv (apply c op t)
unfolding fail
apply-Inv c (claim_op now locked n) t h v = claim_batch-Inv now locked n t v
apply-Inv c (complete_op now id) t h v = complete-Inv now id t v
apply-Inv c (fail_op now id message) t h v =
    fail_found-Inv c now id message (select (is_claimed_job id) t.jobs) t refl v
apply-Inv c (late_fail_op now id message r) t h v = late_fail-Inv c now id message r t h v
apply-Inv c (requeue_op now lease) t h v = requeue-Inv now (claim_lease lease) t v
apply-Inv c (enqueue_op now id p) t h v = elim (Bool-cases (any (λ r. str_eq r.id id) t.jobs)) [
  | inl taken ↦ rw taken v
  | inr fresh ↦ rw fresh (enqueue-Inv c now id p t fresh v)
]
apply-Inv c (replay_op now id) t h v = replay-Inv now id t v
apply-Inv c (cancel_op now tenant booking kind) t h v = cancel_jobs-Inv now tenant booking kind t v
apply-Inv c (reminder_op f tenant booking) t h v = reminder-Inv f tenant booking t v

and_parts : (a b : Bool) → (a && b) ≡ true → (a ≡ true) × (b ≡ true)
and_parts a b h = ground arith

run_from-Inv :
    (c : Checks) (ops : List Op) (t : Tables)
    → is_timely c ops t ≡ true
    → Inv t
    → Inv (run_from c ops t)
run_from-Inv c [] t h v = v
run_from-Inv c (op ∷ ops) t h v =
    let (now_current, rest) = and_parts (is_current op t) (is_timely c ops (apply c op t)) h in
    run_from-Inv c ops (apply c op t) rest (apply-Inv c op t now_current v)

-- After any history of the queue from empty tables, however the calls of workers, reapers, bookings
-- and operators interleave, as long as the write of a `Fail` that finds its job claimed finds it with
-- the attempts and the limit that its lookup saw: since it was enqueued or last replayed, no job has
-- been claimed more often than its attempts allow; a pending job has an attempt left; and the times
-- of a row say its status.
pub run_from-IsSound :
    (c : Checks) (ops : List Op)
    → is_timely c ops empty_tables ≡ true
    → All IsSound (run_from c ops empty_tables).jobs
run_from-IsSound c ops h =
    (run_from-Inv c ops empty_tables h (record { sound = tt; distinct = tt })).sound
