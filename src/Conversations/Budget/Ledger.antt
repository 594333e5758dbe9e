-- ===== src/Conversations/Budget/Ledger.antt =====
-- Histories of the durable token budget (internal/agentbudget/postgres.go): reservations of many
-- conversations of one tenant, and their settlements.
pub mod Reserve
pub mod Settle
pub mod Histories
use kontor.Prelude.{
  ℕ, zero, suc, ◌+◌, ◌-◌, ◌≤◌, ◌<◌, ◌≡◌, refl, Bool, true, false, not, ◌&&◌, Option, none, some,
  List, [], ◌∷◌, ◌++◌, String, str_eq, eq_iff, arith, if◌then◌else◌, ℤ, pos, pos_part, ltb_ℤ, ◌||◌,
  get_elem?, set, Option-cases, subst, ap, sym, ◌∙◌, ◌⊎◌, inl, inr, All, All-append, Bool-cases,
}
use kontor.Conversations.{
  ConversationRow, StoreError, has_key, find_row, update_row, reserve_tokens, settle_tokens,
  has_room, hold, can_settle, spend,
}
use kontor.Conversations.Rows.{
  holds_of, update_row-affected, find_row-update_row, find_row-rewritten, find_row-update_row_other,
  update_row-unaffected,
}
use kontor.Conversations.Budget.{
  DurableReservation, DurableError, Rows, reserve_durable, settle_durable, settle_outcome,
}

pub record DurableWorld : Type 0 where
  pub rows : Rows
  pub reservations : List DurableReservation

-- A call of `Reserve`, or of `Settle` on the reservation with this number.
pub data DurableOp : Type 0 where
  reserve_op : String → ℤ → DurableOp
  settle_op : ℕ → ℤ → DurableOp

-- The tokens of the reservations of one conversation that are not settled.
abbrev pub in_flight : DurableReservation → ℕ
in_flight r = if r.settled then 0 else r.reserved

abbrev pub held : String → List DurableReservation → ℕ
held c [] = 0
held c (r ∷ rs) = (if str_eq r.conversation_id c then in_flight r else 0) + held c rs

abbrev pub IsPositive : DurableReservation → Type 0
IsPositive r = 0 < r.reserved

module _ (tenant : String) where
  unfoldable pub step_reserve :
      DurableWorld → (DurableError ⊎ DurableReservation) × Rows → DurableWorld
  step_reserve w (inl e, rows) = record w { rows = rows }
  step_reserve w (inr r, rows) = record { rows = rows; reservations = w.reservations ++ r ∷ [] }

  unfoldable pub step_settle :
      DurableWorld → ℕ → Option DurableError × DurableReservation × Rows → DurableWorld
  step_settle w i (e, r, rows) = record { rows = rows; reservations = set w.reservations i r }

  unfoldable pub step : DurableOp → DurableWorld → DurableWorld
  unfolding step_reserve step_settle
  step (reserve_op c tokens) w = step_reserve w (reserve_durable tenant c tokens w.rows)
  step (settle_op i actual) w = elim (get_elem? w.reservations i) [
    | none ↦ w
    | some r ↦ step_settle w i (settle_durable tenant actual r w.rows)
  ]

  unfoldable pub run : List DurableOp → DurableWorld → DurableWorld
  unfolding step
  run [] w = w
  run (op ∷ ops) w = run ops (step op w)

  -- A row never goes past its budget, and has in `tokens_reserved` at least what is in flight.
  abbrev pub IsCovered : List DurableReservation → String → ConversationRow → Type 0
  IsCovered list c r =
      (r.tokens_used + r.tokens_reserved ≤ r.token_budget) × (held c list ≤ r.tokens_reserved)

  pub record DurableInv (w : DurableWorld) : Type 0 where
    pub covered :
        (c : String) (r : ConversationRow)
        → find_row tenant c w.rows ≡ some r
        → IsCovered w.reservations c r
    pub positive : All IsPositive w.reservations

  pub held-append :
      (c : String) (xs ys : List DurableReservation) → held c (xs ++ ys) ≡ held c xs + held c ys
  held-append c [] ys = omega arith
  held-append c (x ∷ xs) ys = omega (arith, held-append c xs ys)

  -- Settling a reservation takes what it held out of the sum.
  pub held-set :
      (c : String) (i : ℕ) (list : List DurableReservation) (r : DurableReservation)
      → get_elem? list i ≡ some r
      → r.settled ≡ false
      → held c (set list i (record r { settled = true }))
          + (if str_eq r.conversation_id c then r.reserved else 0)
        ≡ held c list
  held-set c i [] r h u = cc
  held-set c zero (x ∷ xs) r h u = ground (arith, h, u)
  held-set c (suc i) (x ∷ xs) r h u = omega (arith, held-set c i xs r h u)

  pub IsPositive-get_elem? :
      (i : ℕ) (list : List DurableReservation) (r : DurableReservation)
      → All IsPositive list
      → get_elem? list i ≡ some r
      → IsPositive r
  IsPositive-get_elem? i [] r a h = cc
  IsPositive-get_elem? zero (x ∷ xs) r a h = ground (arith, a.0, h)
  IsPositive-get_elem? (suc i) (x ∷ xs) r a h = IsPositive-get_elem? i xs r a.1 h

  pub IsPositive-set :
      (i : ℕ) (list : List DurableReservation) (r : DurableReservation)
      → All IsPositive list
      → IsPositive r
      → All IsPositive (set list i r)
  IsPositive-set i [] r a h = tt
  IsPositive-set zero (x ∷ xs) r a h = (h, a.1)
  IsPositive-set (suc i) (x ∷ xs) r a h = (a.0, IsPositive-set i xs r a.1 h)

  pub hold_key :
      (n : ℕ) (k : String) (r : ConversationRow) → has_key tenant k (hold n r) ≡ has_key tenant k r
  unfolding hold has_key
  hold_key n k r = refl

  pub spend_key :
      (m n : ℕ) (k : String) (r : ConversationRow)
      → has_key tenant k (spend m n r) ≡ has_key tenant k r
  unfolding spend has_key
  spend_key m n k r = refl

  abbrev pub fresh : String → ℕ → DurableReservation
  fresh c n = record { conversation_id = c; reserved = n; settled = false }

  pub set-get_elem? :
      (i : ℕ) (list : List DurableReservation) (r : DurableReservation)
      → get_elem? list i ≡ some r
      → set list i r ≡ list
  set-get_elem? i [] r h = refl
  set-get_elem? zero (x ∷ xs) r h = ground (arith, h)
  set-get_elem? (suc i) (x ∷ xs) r h = ap (λ l. x ∷ l) (set-get_elem? i xs r h)

  abbrev pub settled_rows : DurableReservation → ℕ → Rows → Rows
  settled_rows r n rows =
      (update_row tenant r.conversation_id (can_settle r.reserved n) (spend r.reserved n) rows).1
