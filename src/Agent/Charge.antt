-- ===== src/Agent/Charge.antt =====
-- chargeForModelCall (internal/agent/runner.go): the price of one model call.
use kontor.Prelude.{
  ◌≡◌, ◌↔◌, Bool, true, false, not, ◌||◌, arith, ℤ, pos, ltb_ℤ, leb_ℤ, add64, mul64, if◌then◌else◌,
}
use kontor.Llm.{Response, total}

-- `unknown` and `perAttempt` after their defaults.
unfoldable pub unknown_attempts : Response → ℤ
unknown_attempts r =
    if ltb_ℤ r.unknown_usage_attempts (pos 1) then pos 1 else r.unknown_usage_attempts

unfoldable pub per_attempt : Response → ℤ
per_attempt r = if leb_ℤ r.usage.input_tokens (pos 0) then total r.usage else r.usage.input_tokens

unfoldable pub charge_for_model_call : Response → Bool → ℤ → ℤ
charge_for_model_call r model_err reserved =
    let reported = total r.usage in
    if model_err || leb_ℤ reported (pos 0)
    then reserved
    else if not r.usage_incomplete
    then reported
    else let charged = add64 reported (mul64 (unknown_attempts r) (per_attempt r)) in
      if ltb_ℤ reserved charged || ltb_ℤ charged reported then reserved else charged

-- The charge passes the reservation in one case only: a successful call with complete usage that
-- reports more than was reserved.
pub charge_exceeds_iff :
    (r : Response) (model_err : Bool) (reserved : ℤ)
    → (ltb_ℤ reserved (charge_for_model_call r model_err reserved) ≡ true) ↔ (
        (model_err ≡ false)
        × (leb_ℤ (total r.usage) (pos 0) ≡ false)
        × (r.usage_incomplete ≡ false)
        × (ltb_ℤ reserved (total r.usage) ≡ true))
unfolding charge_for_model_call
charge_exceeds_iff r model_err reserved = (λ h. ground arith, λ h. ground arith)

-- A call whose reported usage fits its reservation is charged no less than the report and no more
-- than the reservation.
pub charge_covers :
    (r : Response) (model_err : Bool) (reserved : ℤ)
    → leb_ℤ (total r.usage) reserved ≡ true
    → (leb_ℤ (total r.usage) (charge_for_model_call r model_err reserved) ≡ true)
      × (leb_ℤ (charge_for_model_call r model_err reserved) reserved ≡ true)
unfolding charge_for_model_call
charge_covers r model_err reserved h = (ground arith, ground arith)
