-- ===== src/Jobs/Again.antt =====
-- An enqueue may be repeated (internal/jobqueue/postgres.go).
use kontor.Prelude.{
  ◌≡◌, ◌≤◌, ◌∙◌, ap, Option-cases, ltb, leb, refl, Bool, true, ◌&&◌, List, [], ◌∷◌, ◌++◌, String,
  arith, str_eq, any, eq_iff, Time, Bool-cases, inl, inr,
}
use kontor.Jobs.{
  Row, Tables, EnqueueParams, Checks, update, select, is_claimed_job, in_batch, claimable_batch,
  claim, claim_batch, mark_completed, complete,
}
use kontor.Jobs.Failure.{
  back_to_pending, bury, bury_where, fail, fail_found, retry_job, dead_letter, is_spent,
  is_retryable, requeue_stale_claims, claim_lease,
}
use kontor.Jobs.Outbox.{
  conflicts, new_row, enqueue, is_dead_job, revive, replay_dead_letter, is_outstanding, cancel,
  cancel_booking_jobs, is_pending_reminder, with_payload, update_reminder_schedule,
}
use kontor.Jobs.History.{
  Op, claim_op, complete_op, fail_op, late_fail_op, requeue_op, enqueue_op, replay_op, cancel_op,
  reminder_op, apply, run_from,
}

enqueue_known :
    (c : Checks) (now : Time) (id : String) (p : EnqueueParams) (t : Tables)
    → (c.row_fits p && (leb 1 p.max_attempts && leb p.max_attempts 20)) ≡ true
    → any (conflicts p) t.jobs ≡ true
    → enqueue c now id p t ≡ (true, t)
unfolding enqueue
enqueue_known c now id p t good known = rw (good, enqueue, known) refl

conflicts_same :
    (p q : EnqueueParams) (r : Row)
    → q.tenant_id ≡ p.tenant_id
    → q.idempotency_key ≡ p.idempotency_key
    → conflicts q r ≡ conflicts p r
unfolding conflicts
conflicts_same p q r tenant key = elim (Option-cases r.idempotency_key) [
  | inl e ↦ ground (arith, e)
  | inr (k, e) ↦ ground (arith, e, ap (str_eq r.tenant_id) tenant, ap (str_eq k) key)
]

any-conflicts :
    (p q : EnqueueParams) (rs : List Row)
    → q.tenant_id ≡ p.tenant_id
    → q.idempotency_key ≡ p.idempotency_key
    → any (conflicts q) rs ≡ any (conflicts p) rs
any-conflicts p q [] tenant key = refl
any-conflicts p q (r ∷ rs) tenant key =
    ground (arith, conflicts_same p q r tenant key, any-conflicts p q rs tenant key)

any-append_last :
    (f : Row → Bool) (rs : List Row) (x : Row) → f x ≡ true → any f (rs ++ x ∷ []) ≡ true
any-append_last f [] x h = ground (arith, h)
any-append_last f (r ∷ rs) x h = ground (arith, any-append_last f rs x h)

conflicts-new_row :
    (p : EnqueueParams) (now : Time) (id : String) → conflicts p (new_row now id p) ≡ true
unfolding conflicts new_row
conflicts-new_row p now id =
    ground (arith, eq_iff p.tenant_id p.tenant_id, eq_iff p.idempotency_key p.idempotency_key)

enqueue-conflicts :
    (c : Checks) (now : Time) (id : String) (p : EnqueueParams) (t : Tables)
    → (enqueue c now id p t).0 ≡ true
    → any (conflicts p) (enqueue c now id p t).1.jobs ≡ true
unfolding enqueue
enqueue-conflicts c now id p t done =
    elim (Bool-cases (c.row_fits p && (leb 1 p.max_attempts && leb p.max_attempts 20))) [
      | inr bad ↦ absurd (ground (arith, rw (bad, enqueue) at done))
      | inl good ↦ elim (Bool-cases (any (conflicts p) t.jobs)) [
        | inl present ↦ rw (good, enqueue, present) present
        | inr absent ↦
            rw (good, enqueue, absent)
              (any-append_last (conflicts p) t.jobs (new_row now id p) (conflicts-new_row p now id))
      ]
    ]

-- No statement takes a key out of the table.
any-update :
    (p : EnqueueParams) (q : Row → Bool) (f : Row → Row) (rs : List Row)
    → ((r : Row) → conflicts p (f r) ≡ conflicts p r)
    → any (conflicts p) (update q f rs) ≡ any (conflicts p) rs
unfolding update
any-update p q f [] same = refl
any-update p q f (r ∷ rs) same = elim (Bool-cases (q r)) [
  | inl e ↦ ground (arith, e, same r, any-update p q f rs same)
  | inr e ↦ ground (arith, e, any-update p q f rs same)
]

any-append : (f : Row → Bool) (rs ss : List Row) → any f rs ≡ true → any f (rs ++ ss) ≡ true
any-append f [] ss h = absurd (ground arith)
any-append f (r ∷ rs) ss h = elim (Bool-cases (f r)) [
  | inl e ↦ ground (arith, e)
  | inr e ↦ ground (arith, e, any-append f rs ss (ground arith))
]

enqueue-keeps_key :
    (c : Checks) (now : Time) (id : String) (p q : EnqueueParams) (t : Tables)
    → any (conflicts p) t.jobs ≡ true
    → any (conflicts p) (enqueue c now id q t).1.jobs ≡ true
unfolding enqueue
enqueue-keeps_key c now id p q t h =
    elim (Bool-cases (c.row_fits q && (leb 1 q.max_attempts && leb q.max_attempts 20))) [
      | inr bad ↦ rw (bad, enqueue) h
      | inl good ↦ elim (Bool-cases (any (conflicts q) t.jobs)) [
        | inl present ↦ rw (good, enqueue, present) h
        | inr absent ↦
            rw (good, enqueue, absent) (any-append (conflicts p) t.jobs (new_row now id q ∷ []) h)
      ]
    ]

fail_found-keeps_key :
    (c : Checks) (now : Time) (id message : String) (found : List Row) (p : EnqueueParams)
    (t : Tables)
    → any (conflicts p) t.jobs ≡ true
    → any (conflicts p) (fail_found c now id message found t).1.jobs ≡ true
unfolding fail_found retry_job dead_letter bury_where back_to_pending bury conflicts
fail_found-keeps_key c now id message [] p t h = h
fail_found-keeps_key c now id message (s ∷ more) p t h = elim (Bool-cases (c.error_fits message)) [
  | inr bad ↦ rw (bad, fail_found) h
  | inl good ↦ elim (Bool-cases (ltb s.attempts s.max_attempts)) [
    | inl left ↦
        rw (good, fail_found, left) (any-update p (is_claimed_job id) _ t.jobs (λ r. refl) ∙ h)
    | inr spent ↦
        rw (good, fail_found, spent)
          (any-update p (is_claimed_job id) (bury now message) t.jobs (λ r. refl) ∙ h)
  ]
]

apply-keeps_key :
    (c : Checks) (op : Op) (p : EnqueueParams) (t : Tables)
    → any (conflicts p) t.jobs ≡ true
    → any (conflicts p) (apply c op t).jobs ≡ true
unfolding claim_batch complete fail requeue_stale_claims bury_where replay_dead_letter
    cancel_booking_jobs update_reminder_schedule conflicts claim mark_completed back_to_pending bury
    revive cancel with_payload
apply-keeps_key c (claim_op now locked n) p t h =
    any-update p (in_batch (claimable_batch now locked n t.jobs)) (claim now) t.jobs (λ r. refl) ∙ h
apply-keeps_key c (complete_op now id) p t h =
    any-update p (is_claimed_job id) (mark_completed now) t.jobs (λ r. refl) ∙ h
apply-keeps_key c (fail_op now id message) p t h =
    fail_found-keeps_key c now id message (select (is_claimed_job id) t.jobs) p t h
apply-keeps_key c (late_fail_op now id message s) p t h =
    fail_found-keeps_key c now id message (s ∷ []) p t h
apply-keeps_key c (requeue_op now lease) p t h =
    any-update p (is_retryable now (claim_lease lease))
      (back_to_pending now "reclaimed after stale claim lease")
      (update (is_spent now (claim_lease lease)) (bury now "stale claim exceeded max attempts")
        t.jobs)
      (λ r. refl)
    ∙ any-update p (is_spent now (claim_lease lease)) (bury now "stale claim exceeded max attempts")
        t.jobs (λ r. refl)
    ∙ h
apply-keeps_key c (enqueue_op now id q) p t h =
    elim (Bool-cases (any (λ s. str_eq s.id id) t.jobs)) [
      | inl taken ↦ rw taken h
      | inr fresh ↦ rw fresh (enqueue-keeps_key c now id p q t h)
    ]
apply-keeps_key c (replay_op now id) p t h =
    any-update p (is_dead_job id) (revive now) t.jobs (λ r. refl) ∙ h
apply-keeps_key c (cancel_op now tenant booking kind) p t h =
    any-update p (is_outstanding tenant booking kind) (cancel now) t.jobs (λ r. refl) ∙ h
apply-keeps_key c (reminder_op f tenant booking) p t h =
    any-update p (is_pending_reminder tenant booking) (with_payload f) t.jobs (λ r. refl) ∙ h

run_from-keeps_key :
    (c : Checks) (ops : List Op) (p : EnqueueParams) (t : Tables)
    → any (conflicts p) t.jobs ≡ true
    → any (conflicts p) (run_from c ops t).jobs ≡ true
run_from-keeps_key c [] p t h = h
run_from-keeps_key c (op ∷ ops) p t h =
    run_from-keeps_key c ops p (apply c op t) (apply-keeps_key c op p t h)

-- An `Enqueue` that succeeded makes every later one with the same tenant and key succeed without a
-- new row and without any other change, whatever else it asks for, where its own row passes the
-- table's checks: however many calls of the queue come in between.
pub enqueue_again :
    (c : Checks) (now later : Time) (id other : String) (p q : EnqueueParams) (ops : List Op)
    (t : Tables)
    → (enqueue c now id p t).0 ≡ true
    → q.tenant_id ≡ p.tenant_id
    → q.idempotency_key ≡ p.idempotency_key
    → c.row_fits q ≡ true
    → (1 ≤ q.max_attempts) × (q.max_attempts ≤ 20)
    → enqueue c later other q (run_from c ops (enqueue c now id p t).1)
      ≡ (true, run_from c ops (enqueue c now id p t).1)
enqueue_again c now later id other p q ops t done tenant key fits (low, high) =
    let after = run_from c ops (enqueue c now id p t).1 in
    let kept =
      run_from-keeps_key c ops p (enqueue c now id p t).1 (enqueue-conflicts c now id p t done) in
    let known = any-conflicts p q after.jobs tenant key ∙ kept in
    let good : (c.row_fits q && (leb 1 q.max_attempts && leb q.max_attempts 20)) ≡ true =
      ground (arith, fits) in
    enqueue_known c later other q after good known
