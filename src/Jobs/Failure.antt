-- ===== src/Jobs/Failure.antt =====
-- Failure of a job (internal/jobqueue/postgres.go): retries with a growing delay, dead letters, and
-- claims left behind by a worker that died.
use kontor.Prelude.{
  ℤ, pos, leb_ℤ, ltb_ℤ, pos_part, add, max_int, ℕ, ◌+◌, ◌-◌, ◌*◌, ◌^◌, Bool, true, false, not, ◌&&◌,
  none, some, List, [], ◌∷◌, ◌++◌, String, Time, second, hour, leb, ltb, ◌==◌, if◌then◌else◌,
}
use kontor.Jobs.{
  Row, Tables, DeadLetter, Checks, pending, dead, is_claimed, is_claimed_job, update, select,
}

-- `retryDelay`. The product of floats is exact; an attempt number 0 halves the base. `beyond` is
-- what the conversion to int64 gives for a product that is larger, before it is compared.
unfoldable pub retry_delay : (ℕ → ℤ) → ℕ → ℤ
retry_delay beyond attempts =
    let product = if attempts == 0 then 15 * second else 30 * second * 2 ^ (attempts - 1) in
    let delay = if leb product max_int then pos product else beyond product in
    if ltb_ℤ (pos hour) delay then pos hour else delay

unfoldable pub back_to_pending : Time → String → Row → Row
back_to_pending next message r = record r {
  status = pending;
  next_retry_at = next;
  last_error = some message;
  claimed_at = none;
}

unfoldable pub retry_job : Checks → Time → String → ℕ → String → Tables → Tables
unfolding back_to_pending is_claimed_job update retry_delay
retry_job c now id attempts message t = record t {
  jobs =
      update (is_claimed_job id)
        (back_to_pending (add now (retry_delay c.beyond_int64 attempts)) message) t.jobs;
}

unfoldable pub bury : Time → String → Row → Row
bury now message r = record r {
  status = dead;
  dead_at = some now;
  last_error = some message;
  claimed_at = none;
}

unfoldable pub letters : Time → String → List Row → List DeadLetter
letters now message [] = []
letters now message (r ∷ rs) =
    record {
      tenant_id = r.tenant_id;
      original_job_id = r.id;
      booking_id = r.booking_id;
      job_type = r.job_type;
      payload = r.payload;
      attempts = r.attempts;
      max_attempts = r.max_attempts;
      last_error = message;
      idempotency_key = r.idempotency_key;
      dead_at = now;
    }
    ∷ letters now message rs

-- Rows are copied to the dead letters and marked dead in one transaction.
unfoldable pub bury_where : Time → String → (Row → Bool) → Tables → Tables
unfolding bury letters update select
bury_where now message p t = record {
  jobs = update p (bury now message) t.jobs;
  dead_letters = t.dead_letters ++ letters now message (select p t.jobs);
}

unfoldable pub dead_letter : Time → String → String → Tables → Tables
unfolding bury_where is_claimed_job
dead_letter now id message t = bury_where now message (is_claimed_job id) t

-- The write of `Fail`, by the rows that its lookup found.
unfoldable pub fail_found : Checks → Time → String → String → List Row → Tables → Bool × Tables
unfolding retry_job dead_letter
fail_found c now id message [] t = (false, t)
fail_found c now id message (r ∷ _) t =
    if not (c.error_fits message)
    then (false, t)
    else if ltb r.attempts r.max_attempts
    then (true, retry_job c now id r.attempts message t)
    else (true, dead_letter now id message t)

-- `Fail`: whether it succeeded, and the tables, where nothing comes between its lookup and its
-- write. An error text that the column refuses fails. The write alone, with what a lookup found
-- earlier, is `fail_found`.
unfoldable pub fail : Checks → Time → String → String → Tables → Bool × Tables
unfolding fail_found is_claimed_job select
fail c now id message t = fail_found c now id message (select (is_claimed_job id) t.jobs) t

-- A claim is older than the lease.
unfoldable pub is_stale : Time → ℕ → Row → Bool
is_stale now lease r =
    is_claimed r.status && (elim r.claimed_at [ none ↦ false | some c ↦ ltb (c + lease) now ])

unfoldable pub is_spent : Time → ℕ → Row → Bool
is_spent now lease r = is_stale now lease r && leb r.max_attempts r.attempts

unfoldable pub is_retryable : Time → ℕ → Row → Bool
is_retryable now lease r = is_stale now lease r && ltb r.attempts r.max_attempts

-- A lease that is not positive takes the default of five minutes.
unfoldable pub claim_lease : ℤ → ℕ
claim_lease lease = if leb_ℤ lease (pos 0) then 300 * second else pos_part lease

-- `RequeueStaleClaims` with the lease that `claim_lease` gives.
unfoldable pub requeue_stale_claims : Time → ℕ → Tables → Tables
unfolding is_stale is_spent is_retryable bury_where back_to_pending update
requeue_stale_claims now lease t =
    let buried = bury_where now "stale claim exceeded max attempts" (is_spent now lease) t in
    record buried {
      jobs =
          update (is_retryable now lease) (back_to_pending now "reclaimed after stale claim lease")
            buried.jobs;
    }
