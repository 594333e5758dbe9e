-- ===== src/Conversations/Budget.antt =====
-- internal/agentbudget/postgres.go: the token budget of the agent on the table of conversations.
pub mod Ledger
pub mod Refines
use kontor.Prelude.{
  ℕ, Bool, true, false, ◌||◌, Option, none, some, List, [], ◌∷◌, String, if◌then◌else◌, ℤ, pos,
  pos_part, ltb_ℤ, ◌⊎◌, inl, inr,
}
use kontor.Conversations.{
  ConversationRow, StoreError, budget_exceeded, reserve_tokens, settle_tokens,
}

pub record DurableReservation : Type 0 where
  pub conversation_id : String
  pub reserved : ℕ
  pub settled : Bool

pub data DurableError : Type 0 where
  token_budget_exceeded already_settled usage_exceeds_reservation : DurableError
  store_error : StoreError → DurableError

abbrev pub Rows : Type 0
Rows = List ConversationRow

-- The store's error as the budget's.
unfoldable pub reserve_error : StoreError → DurableError
reserve_error budget_exceeded = token_budget_exceeded
reserve_error e = store_error e

-- `reserved` is the requested number, which is positive where the store granted it.
unfoldable pub reserve_durable :
    String → String → ℤ → Rows → (DurableError ⊎ DurableReservation) × Rows
unfolding reserve_tokens reserve_error
reserve_durable tenant conversation tokens rows =
    let (problem, after) = reserve_tokens tenant conversation tokens rows in
    (
      elim problem [
        | some e ↦ inl (reserve_error e)
        | none ↦
            inr (record {
              conversation_id = conversation;
              reserved = pos_part tokens;
              settled = false;
            })
      ],
      after,
    )

-- What `Settle` returns for the store's answer.
abbrev pub settle_outcome : Option DurableError → Option StoreError → Option DurableError
settle_outcome otherwise (some e) = some (store_error e)
settle_outcome otherwise none = otherwise

-- `reservation.Settle`: the error, the reservation and the rows afterwards.
unfoldable pub settle_durable :
    String → ℤ → DurableReservation → Rows → Option DurableError × DurableReservation × Rows
unfolding settle_tokens
settle_durable tenant actual r rows =
    let impossible = ltb_ℤ actual (pos 0) || ltb_ℤ (pos r.reserved) actual in
    let (problem, after) =
      settle_tokens tenant r.conversation_id (pos r.reserved)
        (if impossible then pos r.reserved else actual) rows in
    if r.settled then (some already_settled, r, rows) else (
      settle_outcome (if impossible then some usage_exceeds_reservation else none) problem,
      record r { settled = true },
      after,
    )
