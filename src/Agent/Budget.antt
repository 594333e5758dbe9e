-- ===== src/Agent/Budget.antt =====
-- internal/agent/budget.go: the token estimate of a model request and the in-memory budget with one
-- hard cap per conversation. A method under its mutex is one step.
pub mod Estimate
pub mod Ledger
use kontor.Prelude.{
  ℕ, zero, suc, ◌+◌, ◌-◌, ◌*◌, ◌/◌, ◌≤◌, ◌<◌, ◌≡◌, Bool, true, false, not, Option, none, some, List,
  [], ◌∷◌, String, str_eq, ltb, ◌==◌, if◌then◌else◌, ℤ, pos, negsuc, pos_part, ltb_ℤ, leb_ℤ, Dict,
  insert, lookup_or, get_elem?, set,
}

pub record MemoryTokenBudget : Type 0 where
  pub limit : ℕ
  pub accounted : Dict ℕ

pub record TokenReservation : Type 0 where
  pub conversation_id : String
  pub reserved : ℕ
  pub settled : Bool

pub data BudgetError : Type 0 where
  context_error limit_not_positive conversation_required reservation_not_positive
        token_budget_exceeded usage_negative already_settled usage_exceeds_reservation :
      BudgetError

pub data Result (A : Type 0) : Type 0 where
  ok : A → Result A
  err : BudgetError → Result A

unfoldable pub new_memory_token_budget : ℤ → Result MemoryTokenBudget
new_memory_token_budget limit =
    if leb_ℤ limit (pos 0)
    then err limit_not_positive
    else ok (record { limit = pos_part limit; accounted = [] })

-- `b.accounted[conversationID]`
abbrev pub accounted_tokens : String → MemoryTokenBudget → ℕ
accounted_tokens conversation b = lookup_or 0 conversation b.accounted

-- `cancelled` is `ctx.Err() != nil`. `limit - accounted` is never negative (Ledger), and where it
-- were, a positive request is above it and above 0 alike.
unfoldable pub reserve :
    Bool → String → ℤ → MemoryTokenBudget → Result TokenReservation × MemoryTokenBudget
reserve cancelled conversation tokens b =
    if cancelled
    then (err context_error, b)
    else if str_eq conversation ""
    then (err conversation_required, b)
    else if leb_ℤ tokens (pos 0)
    then (err reservation_not_positive, b)
    else if ltb (b.limit - accounted_tokens conversation b) (pos_part tokens)
    then (err token_budget_exceeded, b)
    else (
      ok (record { conversation_id = conversation; reserved = pos_part tokens; settled = false }),
      record b {
        accounted =
            insert conversation (accounted_tokens conversation b + pos_part tokens) b.accounted;
      },
    )

-- `reservation.Settle`: the error, the reservation and the budget afterwards.
unfoldable pub settle :
    Bool
    → ℤ
    → TokenReservation
    → MemoryTokenBudget
    → Option BudgetError × TokenReservation × MemoryTokenBudget
settle cancelled actual r b =
    if cancelled
    then (some context_error, r, b)
    else if ltb_ℤ actual (pos 0)
    then (some usage_negative, r, b)
    else if r.settled
    then (some already_settled, r, b)
    else if ltb r.reserved (pos_part actual)
    then (some usage_exceeds_reservation, record r { settled = true }, b)
    else (
      none,
      record r { settled = true },
      record b {
        accounted =
            insert r.conversation_id
              (accounted_tokens r.conversation_id b - (r.reserved - pos_part actual)) b.accounted;
      },
    )
