-- ===== src/Conversations/Budget/Ledger/Settle.antt =====
-- Settle on the durable budget (internal/agentbudget/postgres.go).
use kontor.Prelude.{
  ℕ, ◌≤◌, ◌<◌, ◌≡◌, true, false, none, some, List, String, str_eq, eq_iff, arith, if◌then◌else◌, ℤ,
  pos, pos_part, ltb_ℤ, ◌||◌, get_elem?, set, Option-cases, subst, ap, sym, ◌∙◌, ◌⊎◌, inl, inr,
  Bool-cases,
}
use kontor.Conversations.{ConversationRow, find_row, update_row, settle_tokens, can_settle, spend}
use kontor.Conversations.Rows.{
  holds_of, update_row-affected, find_row-rewritten, find_row-update_row_other,
  update_row-unaffected,
}
use kontor.Conversations.Budget.{DurableReservation, Rows, settle_durable}
use kontor.Conversations.Budget.Ledger.{
  DurableWorld, settle_op, DurableInv, IsCovered, IsPositive-get_elem?, IsPositive-set, held-set,
  set-get_elem?, settled_rows, spend_key, step, step_settle,
}

module _ (tenant : String) where
  pub spend-IsCovered :
      (c : String) (i n : ℕ) (list : List DurableReservation) (r : DurableReservation)
      (row : ConversationRow)
      → get_elem? list i ≡ some r
      → r.settled ≡ false
      → n ≤ r.reserved
      → IsCovered tenant list r.conversation_id row
      → IsCovered tenant
          (set list i (record r { settled = true }))
          r.conversation_id
          (spend r.reserved n row)
  unfolding spend
  spend-IsCovered c i n list r row at u small v =
      let total = held-set tenant r.conversation_id i list r at u in
      (
        ground (arith, small, v.0, v.1, total, eq_iff r.conversation_id r.conversation_id),
        ground (arith, small, v.0, v.1, total, eq_iff r.conversation_id r.conversation_id),
      )

  abbrev pub Settled : ℤ → DurableReservation → Rows → Type 0
  Settled actual r rows =
      ((settle_durable tenant actual r rows).1 ≡ record r { settled = true })
      × (((settle_durable tenant actual r rows).2 ≡ rows)
          ⊎ ((n : ℕ) × (n ≤ r.reserved)
              × (holds_of (can_settle r.reserved n) (find_row tenant r.conversation_id rows) ≡ true)
              × ((settle_durable tenant actual r rows).2 ≡ settled_rows tenant r n rows)))

  pub settle_tokens_cases :
      (c : String) (m : ℕ) (actual : ℤ) (rows : Rows)
      → ((settle_tokens tenant c (pos m) actual rows).1 ≡ rows)
        ⊎ ((pos_part actual ≤ m)
            × (holds_of (can_settle m (pos_part actual)) (find_row tenant c rows) ≡ true)
            × (settle_tokens tenant c (pos m) actual rows ≡ (
              none,
              (update_row tenant c
                  (can_settle m (pos_part actual))
                  (spend m (pos_part actual))
                  rows).1,
            )))
  unfolding settle_tokens
  settle_tokens_cases c m actual rows =
      let n = pos_part actual in
      ground (
        arith,
        update_row-affected tenant c (can_settle m n) (spend m n) (spend_key tenant m n) rows,
        update_row-unaffected tenant c (can_settle m n) (spend m n) (spend_key tenant m n) rows,
      )

  -- What a reservation is settled for.
  abbrev pub charge_of : ℤ → DurableReservation → ℤ
  charge_of actual r =
      if ltb_ℤ actual (pos 0) || ltb_ℤ (pos r.reserved) actual then pos r.reserved else actual

  -- A reservation that is settled already, or one that `Settle` settles.
  pub settle_cases :
      (actual : ℤ) (r : DurableReservation) (rows : Rows)
      → (((settle_durable tenant actual r rows).1 ≡ r)
          × ((settle_durable tenant actual r rows).2 ≡ rows))
        ⊎ ((r.settled ≡ false) × Settled actual r rows)
  unfolding settle_durable
  settle_cases actual r rows = elim (Bool-cases r.settled) [
    | inl s ↦ inl (ground (arith, s), ground (arith, s))
    | inr u ↦ inr (
      u,
      (
        ground (arith, u),
        elim (settle_tokens_cases r.conversation_id r.reserved (charge_of actual r) rows) [
          | inl e ↦ inl (ground (arith, u, e))
          | inr (small, room, e) ↦
              inr (pos_part (charge_of actual r), small, room, ground (arith, u, e))
        ],
      ),
    )
  ]

  -- Taking a reservation out of the sum keeps the rows covered.
  pub unheld :
      (c : String) (i : ℕ) (list : List DurableReservation) (r : DurableReservation)
      (row : ConversationRow)
      → get_elem? list i ≡ some r
      → r.settled ≡ false
      → IsCovered tenant list c row
      → IsCovered tenant (set list i (record r { settled = true })) c row
  unheld c i list r row at u v = (v.0, omega (arith, v.1, held-set tenant c i list r at u))

  pub spent :
      (w : DurableWorld) (i n : ℕ) (r : DurableReservation)
      → DurableInv tenant w
      → get_elem? w.reservations i ≡ some r
      → r.settled ≡ false
      → n ≤ r.reserved
      → holds_of (can_settle r.reserved n) (find_row tenant r.conversation_id w.rows) ≡ true
      → (c : String) (row : ConversationRow)
      → find_row tenant c (settled_rows tenant r n w.rows) ≡ some row
      → IsCovered tenant (set w.reservations i (record r { settled = true })) c row
  spent w i n r v at u small room c row found = elim (Bool-cases (str_eq r.conversation_id c)) [
    | inl same ↦
        let q : r.conversation_id ≡ c = ground (arith, eq_iff r.conversation_id c, same) in
        let (old, before, holds, rewritten) =
          find_row-rewritten tenant r.conversation_id (can_settle r.reserved n) (spend r.reserved n)
            (spend_key tenant r.reserved n) w.rows row room
            (ap (λ x. find_row tenant x (settled_rows tenant r n w.rows)) q ∙ found) in
        subst (λ x. IsCovered tenant (set w.reservations i (record r { settled = true })) x row) q
          (rw rewritten (
            spend-IsCovered c i n w.reservations r old at u small
              (v.covered r.conversation_id old before)))
    | inr other ↦ unheld c i w.reservations r row at u (
        v.covered c row (
          sym (
            find_row-update_row_other tenant r.conversation_id (can_settle r.reserved n)
              (spend r.reserved n) (spend_key tenant r.reserved n) c w.rows other)
          ∙ found))
  ]

  pub settle-DurableInv :
      (i : ℕ) (actual : ℤ) (w : DurableWorld)
      → DurableInv tenant w
      → DurableInv tenant (step tenant (settle_op i actual) w)
  unfolding step
  settle-DurableInv i actual w v = elim (Option-cases (get_elem? w.reservations i)) [
    | inl e ↦ rw (e, step) v
    | inr (r, at) ↦ rw (at, step) (settled r at (settle_cases actual r w.rows))
  ]
    where
      settled :
          (r : DurableReservation)
          → get_elem? w.reservations i ≡ some r
          → (((settle_durable tenant actual r w.rows).1 ≡ r)
              × ((settle_durable tenant actual r w.rows).2 ≡ w.rows))
            ⊎ ((r.settled ≡ false) × Settled actual r w.rows)
          → DurableInv tenant (step_settle tenant w i (settle_durable tenant actual r w.rows))
      settled r at (inl (same, rows)) =
          rw (same, rows, set-get_elem? tenant i w.reservations r at, step_settle) v
      settled r at (inr (u, (marked, inl rows))) =
          rw (marked, rows, step_settle)
            (record {
              covered = λ c row found. unheld c i w.reservations r row at u (v.covered c row found);
              positive =
                  IsPositive-set tenant i w.reservations _ v.positive
                    (IsPositive-get_elem? tenant i w.reservations r v.positive at);
            })
      settled r at (inr (u, (marked, inr (n, small, room, rows)))) =
          rw (marked, rows, step_settle)
            (record {
              covered = spent w i n r v at u small room;
              positive =
                  IsPositive-set tenant i w.reservations _ v.positive
                    (IsPositive-get_elem? tenant i w.reservations r v.positive at);
            })

  pub settle_durable-settles :
      (n : ℕ) (r : DurableReservation) (rows : Rows)
      → r.settled ≡ false
      → 0 < r.reserved
      → n ≤ r.reserved
      → holds_of (can_settle r.reserved n) (find_row tenant r.conversation_id rows) ≡ true
      → settle_durable tenant (pos n) r rows
        ≡ (none, record r { settled = true }, settled_rows tenant r n rows)
  unfolding settle_durable settle_tokens
  settle_durable-settles n r rows u some_tokens small room = ground (
    arith,
    u,
    room,
    update_row-affected tenant r.conversation_id (can_settle r.reserved n) (spend r.reserved n)
        (spend_key tenant r.reserved n) rows,
  )

  pub can_settle-IsCovered :
      (i n : ℕ) (list : List DurableReservation) (r : DurableReservation) (row : ConversationRow)
      → get_elem? list i ≡ some r
      → r.settled ≡ false
      → n ≤ r.reserved
      → IsCovered tenant list r.conversation_id row
      → can_settle r.reserved n row ≡ true
  unfolding can_settle
  can_settle-IsCovered i n list r row at u small v = ground (
    arith,
    v.0,
    v.1,
    held-set tenant r.conversation_id i list r at u,
    eq_iff r.conversation_id r.conversation_id,
  )
