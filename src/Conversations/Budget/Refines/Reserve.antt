-- ===== src/Conversations/Budget/Refines/Reserve.antt =====
-- Reserve on the durable budget and on the budget in memory (internal/agentbudget/postgres.go).
use kontor.Prelude.{
  ℕ, ◌+◌, ◌≤◌, ◌≡◌, refl, Bool, true, false, ◌&&◌, some, List, [], ◌∷◌, ◌++◌, String, str_eq,
  eq_iff, arith, ℤ, pos, pos_part, ltb_ℤ, leb, ap, ◌∙◌, inl, inr, Bool-cases, All-append,
}
use kontor.Agent.Budget.{MemoryTokenBudget, BudgetError, ok, err, accounted_tokens, reserve}
use kontor.Agent.Budget.Ledger.{
  Entry, World, reserve_op as memory_reserve, step as memory_step,
  reserve_cases as memory_reserve_cases, credited, granted, step_reserve as memory_step_reserve,
}
use kontor.Conversations.{ConversationRow, find_row, update_row, reserve_tokens, has_room, hold}
use kontor.Conversations.Rows.{update_row-affected, find_row-update_row}
use kontor.Conversations.Budget.{DurableError, Rows, reserve_durable}
use kontor.Conversations.Budget.Ledger.{
  DurableWorld, reserve_op, step, step_reserve, DurableInv, fresh, hold_key,
}
use kontor.Conversations.Budget.Ledger.Reserve.{reserve_cases}
use kontor.Conversations.Budget.Refines.{of_entries, of_entries-append, Refined, moved}

module _ (tenant c : String) (named : str_eq c "" ≡ false) where
  -- Both budgets grant a positive request that fits.
  abbrev fits : ℤ → ConversationRow → Bool
  fits tokens row =
      ltb_ℤ (pos 0) tokens
      && leb (row.tokens_used + row.tokens_reserved + pos_part tokens) row.token_budget

  durable_grants :
      (tokens : ℤ) (rows : Rows) (row : ConversationRow)
      → find_row tenant c rows ≡ some row
      → fits tokens row ≡ true
      → reserve_durable tenant c tokens rows ≡ (
        inr (fresh tenant c (pos_part tokens)),
        (update_row tenant c (has_room (pos_part tokens)) (hold (pos_part tokens)) rows).1,
      )
  unfolding reserve_durable reserve_tokens has_room
  durable_grants tokens rows row found h =
      let n = pos_part tokens in
      ground (
        arith,
        found,
        h,
        update_row-affected tenant c (has_room n) (hold n) (hold_key tenant n) rows,
      )

  durable_refuses :
      (tokens : ℤ) (rows : Rows) (row : ConversationRow)
      → find_row tenant c rows ≡ some row
      → fits tokens row ≡ false
      → ((reserve_durable tenant c tokens rows).1 ≡ rows)
        × ((e : DurableError) × ((reserve_durable tenant c tokens rows).0 ≡ inl e))
  unfolding has_room
  durable_refuses tokens rows row found h = elim (reserve_cases tenant c tokens rows) [
    | inl refused ↦ refused
    | inr (some_tokens, room, q) ↦ ground (arith, found, h, some_tokens, room)
  ]

  memory_grants :
      (tokens : ℤ) (b : MemoryTokenBudget) (row : ConversationRow)
      → row.token_budget ≡ b.limit
      → row.tokens_used + row.tokens_reserved ≡ accounted_tokens c b
      → fits tokens row ≡ true
      → reserve false c tokens b
        ≡ (ok (granted c tokens), credited c (accounted_tokens c b + pos_part tokens) b)
  unfolding reserve granted credited
  memory_grants tokens b row limit total h = ground (arith, limit, total, h, named)

  memory_refuses :
      (tokens : ℤ) (b : MemoryTokenBudget) (row : ConversationRow)
      → row.token_budget ≡ b.limit
      → row.tokens_used + row.tokens_reserved ≡ accounted_tokens c b
      → row.tokens_used + row.tokens_reserved ≤ row.token_budget
      → fits tokens row ≡ false
      → ((reserve false c tokens b).1 ≡ b)
        × ((e : BudgetError) × ((reserve false c tokens b).0 ≡ err e))
  memory_refuses tokens b row limit total capped h = elim (memory_reserve_cases false c tokens b) [
    | inl refused ↦ refused
    | inr (room, some_tokens, q) ↦ ground (arith, limit, total, h, capped, room, some_tokens)
  ]

  limit-hold : (n : ℕ) (row : ConversationRow) → (hold n row).token_budget ≡ row.token_budget
  unfolding hold
  limit-hold n row = refl

  total-hold :
      (n : ℕ) (row : ConversationRow) (a : ℕ)
      → row.tokens_used + row.tokens_reserved ≡ a
      → (hold n row).tokens_used + (hold n row).tokens_reserved ≡ a + n
  unfolding hold
  total-hold n row a h = omega (arith, h)

  fits-has_room :
      (tokens : ℤ) (row : ConversationRow)
      → fits tokens row ≡ true
      → has_room (pos_part tokens) row ≡ true
  unfolding has_room
  fits-has_room tokens row h = ground (arith, h)

  held_found :
      (n : ℕ) (rows : Rows) (row : ConversationRow)
      → find_row tenant c rows ≡ some row
      → has_room n row ≡ true
      → find_row tenant c (update_row tenant c (has_room n) (hold n) rows).1 ≡ some (hold n row)
  held_found n rows row found room = ground (
    arith,
    found,
    room,
    find_row-update_row tenant c (has_room n) (hold n) (hold_key tenant n) rows,
  )

  of_fresh :
      (tokens : ℤ) (es : List Entry)
      → of_entries es ++ fresh tenant c (pos_part tokens) ∷ []
        ≡ of_entries es
          ++ of_entries
              (record { reservation = granted c tokens; charge = (granted c tokens).reserved } ∷ [])
  unfolding granted
  of_fresh tokens es = refl

  pub reserve-Refined :
      (tokens : ℤ) (w : DurableWorld) (m : World)
      → DurableInv tenant w
      → Refined tenant c w m
      → Refined tenant c
          (step tenant (reserve_op c tokens) w)
          (memory_step (memory_reserve false c tokens) m)
  unfolding step memory_step
  reserve-Refined tokens w m inv v = elim (Bool-cases (fits tokens v.row)) [
    | inl h ↦
        let n = pos_part tokens in
        rw
          (
            durable_grants tokens w.rows v.row v.found h,
            memory_grants tokens m.budget v.row v.limit v.total h,
            step_reserve,
            memory_step_reserve,
          )
          (moved tenant c _ (hold n v.row) (accounted_tokens c m.budget + n)
            (w.reservations ++ fresh tenant c n ∷ []) _ v
            (held_found n w.rows v.row v.found (fits-has_room tokens v.row h)) (limit-hold n v.row)
            (total-hold n v.row (accounted_tokens c m.budget) v.total)
            (rw (of_entries-append m.entries _)
              (ap (λ l. l ++ fresh tenant c n ∷ []) v.same ∙ of_fresh tokens m.entries))
            (All-append _ w.reservations _ v.own (ground (arith, eq_iff c c), tt)))
    | inr h ↦
        let (rows, (e, problem)) = durable_refuses tokens w.rows v.row v.found h in
        let (budget, (f, failure)) =
          memory_refuses tokens m.budget v.row v.limit v.total (inv.covered c v.row v.found).0 h in
        rw (rows, problem, budget, failure, step_reserve, memory_step_reserve)
          (record {
            row = v.row;
            found = v.found;
            limit = v.limit;
            total = v.total;
            same = v.same;
            own = v.own;
          })
  ]
