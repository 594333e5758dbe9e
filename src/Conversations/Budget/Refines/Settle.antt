-- ===== src/Conversations/Budget/Refines/Settle.antt =====
-- Settle on the durable budget and on the budget in memory (internal/agentbudget/postgres.go).
use kontor.Prelude.{
  ℕ, ◌+◌, ◌-◌, ◌≤◌, ◌<◌, ◌≡◌, refl, true, false, Option, none, some, String, arith, pos, leb,
  get_elem?, Option-cases, ap, ◌∙◌, sym, inl, inr, Bool-cases,
}
use kontor.Agent.Budget.{
  MemoryTokenBudget, TokenReservation, accounted_tokens, settle, already_settled,
  usage_exceeds_reservation as memory_usage_exceeds,
}
use kontor.Agent.Budget.Ledger.{
  Entry, World, settle_op as memory_settle, step as memory_step, credited,
  step_settle as memory_step_settle,
}
use kontor.Conversations.{ConversationRow, find_row, settle_tokens, can_settle, spend}
use kontor.Conversations.Rows.{holds_of, update_row-affected, find_row-update_row}
use kontor.Conversations.Budget.{
  DurableReservation, Rows, settle_durable, usage_exceeds_reservation,
  already_settled as durable_already_settled,
}
use kontor.Conversations.Budget.Ledger.{
  DurableWorld, settle_op, step, step_settle, DurableInv, spend_key, settled_rows,
  IsPositive-get_elem?,
}
use kontor.Conversations.Budget.Ledger.Settle.{settle_durable-settles, can_settle-IsCovered}
use kontor.Conversations.Budget.Refines.{
  of_entry, map_entry, get_elem?-of_entries, Refined, moved, same-set, kept, Own-get_elem?, Own-set,
}

module _ (tenant c : String) where
  settle_durable-exceeds :
      (n : ℕ) (r : DurableReservation) (rows : Rows)
      → r.settled ≡ false
      → 0 < r.reserved
      → r.reserved < n
      → holds_of (can_settle r.reserved r.reserved) (find_row tenant r.conversation_id rows) ≡ true
      → settle_durable tenant (pos n) r rows ≡ (
        some usage_exceeds_reservation,
        record r { settled = true },
        settled_rows tenant r r.reserved rows,
      )
  unfolding settle_durable settle_tokens
  settle_durable-exceeds n r rows u some_tokens large room = ground (
    arith,
    u,
    room,
    large,
    some_tokens,
    update_row-affected tenant r.conversation_id (can_settle r.reserved r.reserved)
        (spend r.reserved r.reserved) (spend_key tenant r.reserved r.reserved) rows,
  )

  settle_durable-again :
      (n : ℕ) (r : DurableReservation) (rows : Rows)
      → r.settled ≡ true
      → settle_durable tenant (pos n) r rows ≡ (some durable_already_settled, r, rows)
  unfolding settle_durable
  settle_durable-again n r rows s = ground (arith, s)

  memory_again :
      (n : ℕ) (r : TokenReservation) (b : MemoryTokenBudget)
      → r.settled ≡ true
      → settle false (pos n) r b ≡ (some already_settled, r, b)
  unfolding settle
  memory_again n r b s = ground (arith, s)

  memory_exceeds :
      (n : ℕ) (r : TokenReservation) (b : MemoryTokenBudget)
      → r.settled ≡ false
      → r.reserved < n
      → settle false (pos n) r b ≡ (some memory_usage_exceeds, record r { settled = true }, b)
  unfolding settle
  memory_exceeds n r b u large = ground (arith, u, large)

  memory_settles :
      (n : ℕ) (r : TokenReservation) (b : MemoryTokenBudget)
      → r.conversation_id ≡ c
      → r.settled ≡ false
      → n ≤ r.reserved
      → settle false (pos n) r b ≡ (
        none,
        record r { settled = true },
        credited c (accounted_tokens c b - (r.reserved - n)) b,
      )
  unfolding settle credited
  memory_settles n r b q u small =
      ground (arith, u, small)
      ∙ ap
          (λ x. (
            none,
            record r { settled = true },
            credited x (accounted_tokens x b - (r.reserved - n)) b,
          ))
          q

  spent_found :
      (r : DurableReservation) (n : ℕ) (rows : Rows) (row : ConversationRow)
      → r.conversation_id ≡ c
      → find_row tenant c rows ≡ some row
      → can_settle r.reserved n row ≡ true
      → find_row tenant c (settled_rows tenant r n rows) ≡ some (spend r.reserved n row)
  spent_found r n rows row q found room =
      let there : find_row tenant r.conversation_id rows ≡ some row =
        ap (λ x. find_row tenant x rows) q ∙ found in
      ap (λ x. find_row tenant x (settled_rows tenant r n rows)) (sym q)
      ∙ ground (
        arith,
        there,
        room,
        find_row-update_row tenant r.conversation_id (can_settle r.reserved n) (spend r.reserved n)
            (spend_key tenant r.reserved n) rows,
      )

  total-spend :
      (m n : ℕ) (row : ConversationRow)
      → n ≤ m
      → can_settle m n row ≡ true
      → (spend m n row).tokens_used + (spend m n row).tokens_reserved
        ≡ row.tokens_used + row.tokens_reserved - (m - n)
  unfolding can_settle spend
  total-spend m n row small room = ground (arith, small, room)

  limit-spend : (m n : ℕ) (row : ConversationRow) → (spend m n row).token_budget ≡ row.token_budget
  unfolding spend
  limit-spend m n row = refl

  module _ (i n : ℕ) (w : DurableWorld) (m : World) (inv : DurableInv tenant w)
      (v : Refined tenant c w m) (e : Entry)
      (at : get_elem? w.reservations i ≡ some (of_entry e)) where
    owned : e.reservation.conversation_id ≡ c
    owned = Own-get_elem? tenant c i w.reservations (of_entry e) v.own at

    room_for :
        (k : ℕ)
        → e.reservation.settled ≡ false
        → k ≤ e.reservation.reserved
        → can_settle e.reservation.reserved k v.row ≡ true
    room_for k u small =
        can_settle-IsCovered tenant i k w.reservations (of_entry e) v.row at u small (
          inv.covered e.reservation.conversation_id v.row
            (ap (λ x. find_row tenant x w.rows) owned ∙ v.found))

    room_found :
        (k : ℕ)
        → e.reservation.settled ≡ false
        → k ≤ e.reservation.reserved
        → holds_of
            (can_settle e.reservation.reserved k)
            (find_row tenant e.reservation.conversation_id w.rows)
          ≡ true
    room_found k u small =
        ap (holds_of (can_settle e.reservation.reserved k))
          (ap (λ x. find_row tenant x w.rows) owned ∙ v.found)
        ∙ room_for k u small

    settle_entry-Refined :
        Refined tenant c
          (step_settle tenant w i (settle_durable tenant (pos n) (of_entry e) w.rows))
          (memory_step_settle m i (pos n) e (settle false (pos n) e.reservation m.budget))
    unfolding step_settle memory_step_settle
    settle_entry-Refined = elim (Bool-cases e.reservation.settled) [
      | inl s ↦
          rw (settle_durable-again n (of_entry e) w.rows s, memory_again n e.reservation m.budget s)
            (kept tenant c w.rows v.row _ _ v v.found refl refl
              (same-set tenant c i w.reservations m.entries _ v.same)
              (Own-set tenant c i w.reservations (of_entry e) v.own owned))
      | inr u ↦ elim (Bool-cases (leb n e.reservation.reserved)) [
        | inl small ↦
            let less : n ≤ e.reservation.reserved = ground (arith, small) in
            let size = e.reservation.reserved in
            rw
              (
                settle_durable-settles tenant n (of_entry e) w.rows u
                    (IsPositive-get_elem? tenant i w.reservations (of_entry e) inv.positive at) less
                    (room_found n u less),
                memory_settles n e.reservation m.budget owned u less,
              )
              (moved tenant c _ (spend size n v.row) (accounted_tokens c m.budget - (size - n)) _ _
                v (spent_found (of_entry e) n w.rows v.row owned v.found (room_for n u less))
                (limit-spend size n v.row)
                (omega (arith, total-spend size n v.row less (room_for n u less), v.total))
                (same-set tenant c i w.reservations m.entries _ v.same)
                (Own-set tenant c i w.reservations _ v.own owned))
        | inr large ↦
            let more : e.reservation.reserved < n = ground (arith, large) in
            let size = e.reservation.reserved in
            let whole : size ≤ size = omega arith in
            rw
              (
                settle_durable-exceeds n (of_entry e) w.rows u
                    (IsPositive-get_elem? tenant i w.reservations (of_entry e) inv.positive at) more
                    (room_found size u whole),
                memory_exceeds n e.reservation m.budget u more,
              )
              (kept tenant c _ (spend size size v.row) _ _ v
                (spent_found (of_entry e) size w.rows v.row owned v.found (room_for size u whole))
                (limit-spend size size v.row)
                (omega (arith, total-spend size size v.row whole (room_for size u whole)))
                (same-set tenant c i w.reservations m.entries _ v.same)
                (Own-set tenant c i w.reservations _ v.own owned))
      ]
    ]

  pub settle-Refined :
      (i n : ℕ) (w : DurableWorld) (m : World)
      → DurableInv tenant w
      → Refined tenant c w m
      → Refined tenant c
          (step tenant (settle_op i (pos n)) w)
          (memory_step (memory_settle false i (pos n)) m)
  unfolding step memory_step
  settle-Refined i n w m inv v = elim (Option-cases (get_elem? m.entries i)) [
    | inl absent ↦ rw (absent, there absent, step, memory_step) v
    | inr (e, at) ↦
        rw (at, there at, step, memory_step) (settle_entry-Refined i n w m inv v e (there at))
  ]
    where
      there :
          {x : Option Entry} → get_elem? m.entries i ≡ x → get_elem? w.reservations i ≡ map_entry x
      there h = ap (λ l. get_elem? l i) v.same ∙ get_elem?-of_entries i m.entries ∙ ap map_entry h
