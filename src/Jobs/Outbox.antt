-- ===== src/Jobs/Outbox.antt =====
-- The side of the queue that bookings and operators use (internal/jobqueue/postgres.go): Enqueue,
-- ReplayDeadLetter, CancelBookingJobs and UpdateReminderSchedule.
use kontor.Prelude.{
  ℕ, Bool, true, false, not, ◌&&◌, ◌||◌, none, some, [], ◌∷◌, ◌++◌, String, str_eq, any, Time, leb,
  ◌==◌, if◌then◌else◌,
}
use kontor.Jobs.{
  Row, Tables, EnqueueParams, Checks, pending, cancelled, is_pending, is_claimed, is_dead, update,
  affected,
}

-- The unique index on the tenant and the key.
unfoldable pub conflicts : EnqueueParams → Row → Bool
conflicts p r =
    str_eq r.tenant_id p.tenant_id
    && (elim r.idempotency_key [ none ↦ false | some k ↦ str_eq k p.idempotency_key ])

unfoldable pub new_row : Time → String → EnqueueParams → Row
new_row now id p = record {
  tenant_id = p.tenant_id;
  id = id;
  booking_id = p.booking_id;
  job_type = p.job_type;
  payload = p.payload;
  status = pending;
  attempts = 0;
  max_attempts = p.max_attempts;
  next_retry_at = now;
  claimed_at = none;
  completed_at = none;
  dead_at = none;
  cancelled_at = none;
  last_error = none;
  idempotency_key = some p.idempotency_key;
}

-- `Enqueue`, with the identifier that the database generates.
unfoldable pub enqueue : Checks → Time → String → EnqueueParams → Tables → Bool × Tables
unfolding conflicts new_row
enqueue c now id p t =
    if not (c.row_fits p && (leb 1 p.max_attempts && leb p.max_attempts 20))
    then (false, t)
    else if any (conflicts p) t.jobs
    then (true, t)
    else (true, record t { jobs = t.jobs ++ new_row now id p ∷ [] })

unfoldable pub is_dead_job : String → Row → Bool
is_dead_job id r = str_eq r.id id && is_dead r.status

unfoldable pub revive : Time → Row → Row
revive now r = record r {
  status = pending;
  attempts = 0;
  next_retry_at = now;
  dead_at = none;
  last_error = none;
  claimed_at = none;
  completed_at = none;
}

unfoldable pub replay_dead_letter : Time → String → Tables → Bool × Tables
unfolding update affected is_dead_job revive
replay_dead_letter now id t = (
  not (affected (is_dead_job id) t.jobs == 0),
  record t { jobs = update (is_dead_job id) (revive now) t.jobs },
)

unfoldable pub is_outstanding : String → String → String → Row → Bool
is_outstanding tenant booking job_type r =
    str_eq r.tenant_id tenant
    && (str_eq r.booking_id booking
        && ((is_pending r.status || is_claimed r.status)
            && (str_eq job_type "" || str_eq r.job_type job_type)))

unfoldable pub cancel : Time → Row → Row
cancel now r = record r { status = cancelled; cancelled_at = some now; claimed_at = none }

unfoldable pub cancel_booking_jobs : Time → String → String → String → Tables → ℕ × Tables
unfolding is_outstanding update affected cancel
cancel_booking_jobs now tenant booking job_type t =
    let p = is_outstanding tenant booking job_type in
    (affected p t.jobs, record t { jobs = update p (cancel now) t.jobs })

unfoldable pub is_pending_reminder : String → String → Row → Bool
is_pending_reminder tenant booking r =
    str_eq r.tenant_id tenant
    && (str_eq r.booking_id booking && (str_eq r.job_type "send_reminder" && is_pending r.status))

unfoldable pub with_payload : (String → String) → Row → Row
with_payload reschedule r = record r { payload = reschedule r.payload }

-- `UpdateReminderSchedule`; `reschedule` writes the time and the zone into a payload.
unfoldable pub update_reminder_schedule : (String → String) → String → String → Tables → ℕ × Tables
unfolding update affected is_pending_reminder with_payload
update_reminder_schedule reschedule tenant booking t =
    let p = is_pending_reminder tenant booking in
    (affected p t.jobs, record t { jobs = update p (with_payload reschedule) t.jobs })
