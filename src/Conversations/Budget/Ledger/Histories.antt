-- ===== src/Conversations/Budget/Ledger/Histories.antt =====
-- Histories of the durable budget (internal/agentbudget/postgres.go).
use kontor.Prelude.{
  ℕ, ◌+◌, ◌≤◌, ◌≡◌, refl, true, false, none, some, List, [], ◌∷◌, String, arith, pos, get_elem?,
}
use kontor.Conversations.{ConversationRow, find_row, can_settle, spend}
use kontor.Conversations.Rows.{holds_of, find_row-update_row}
use kontor.Conversations.Budget.{DurableReservation, Rows, settle_durable}
use kontor.Conversations.Budget.Ledger.{
  DurableWorld, DurableOp, reserve_op, settle_op, DurableInv, IsPositive-get_elem?, run, spend_key,
  step,
}
use kontor.Conversations.Budget.Ledger.Reserve.{reserve-DurableInv}
use kontor.Conversations.Budget.Ledger.Settle.{
  settle-DurableInv, can_settle-IsCovered, settle_durable-settles,
}

module _ (tenant : String) where
  pub step-DurableInv :
      (op : DurableOp) (w : DurableWorld)
      → DurableInv tenant w
      → DurableInv tenant (step tenant op w)
  step-DurableInv (reserve_op c tokens) w v = reserve-DurableInv tenant c tokens w v
  step-DurableInv (settle_op i actual) w v = settle-DurableInv tenant i actual w v

  -- From rows within their budgets and no reservations, after any history of reservations and
  -- settlements, however those of different turns interleave, no conversation's tokens pass its
  -- budget, and its row still holds what its open reservations reserved.
  pub run-DurableInv :
      (ops : List DurableOp) (w : DurableWorld)
      → DurableInv tenant w
      → DurableInv tenant (run tenant ops w)
  unfolding run
  run-DurableInv [] w v = v
  run-DurableInv (op ∷ ops) w v = run-DurableInv ops (step tenant op w) (step-DurableInv op w v)

  -- While the invariant holds, settling an open reservation of a conversation that exists, for at
  -- most what it reserved, succeeds: the cap never keeps reported usage out, and the row moves the
  -- reserved tokens to the used ones.
  pub settle_durable-succeeds :
      (w : DurableWorld) (i n : ℕ) (r : DurableReservation) (row : ConversationRow)
      → DurableInv tenant w
      → get_elem? w.reservations i ≡ some r
      → r.settled ≡ false
      → n ≤ r.reserved
      → find_row tenant r.conversation_id w.rows ≡ some row
      → ((settle_durable tenant (pos n) r w.rows).0 ≡ none)
        × (find_row tenant r.conversation_id (settle_durable tenant (pos n) r w.rows).2
            ≡ some (spend r.reserved n row))
  settle_durable-succeeds w i n r row v at u small found =
      let ok =
        can_settle-IsCovered tenant i n w.reservations r row at u small
          (v.covered r.conversation_id row found) in
      let room : holds_of (can_settle r.reserved n) (find_row tenant r.conversation_id w.rows)
          ≡ true =
        ground (arith, found, ok) in
      let some_tokens = IsPositive-get_elem? tenant i w.reservations r v.positive at in
      rw (settle_durable-settles tenant n r w.rows u some_tokens small room) (
        refl,
        ground (
          arith,
          find_row-update_row tenant r.conversation_id (can_settle r.reserved n)
              (spend r.reserved n) (spend_key tenant r.reserved n) w.rows,
          found,
          ok,
        ),
      )

  -- After any history of the durable budget that starts without reservations, an open reservation of
  -- a conversation that exists can always be settled for what it reserved or less: the cap never
  -- keeps reported usage out, and the row moves the reserved tokens to the used ones.
  pub settle_durable-run :
      (ops : List DurableOp) (rows : Rows) (i n : ℕ) (r : DurableReservation)
      (row : ConversationRow)
      → ((c : String) (start : ConversationRow)
          → find_row tenant c rows ≡ some start
          → start.tokens_used + start.tokens_reserved ≤ start.token_budget)
      → get_elem? (run tenant ops (record { rows = rows; reservations = [] })).reservations i
        ≡ some r
      → r.settled ≡ false
      → n ≤ r.reserved
      → find_row tenant r.conversation_id
          (run tenant ops (record { rows = rows; reservations = [] })).rows
        ≡ some row
      → ((settle_durable tenant
            (pos n)
            r
            (run tenant ops (record { rows = rows; reservations = [] })).rows).0
          ≡ none)
        × (find_row tenant r.conversation_id
              (settle_durable tenant
                (pos n)
                r
                (run tenant ops (record { rows = rows; reservations = [] })).rows).2
            ≡ some (spend r.reserved n row))
  settle_durable-run ops rows i n r row capped =
      settle_durable-succeeds (run tenant ops (record { rows = rows; reservations = [] })) i n r row
        (run-DurableInv ops _ (record {
          covered = λ c start found. (capped c start found, omega arith);
          positive = tt;
        }))
