-- ===== src/Conversations/Budget/Ledger/Reserve.antt =====
-- Reserve on the durable budget (internal/agentbudget/postgres.go).
use kontor.Prelude.{
  ℕ, ◌≤◌, ◌<◌, ◌≡◌, refl, Bool, true, false, some, List, [], ◌∷◌, ◌++◌, String, str_eq, eq_iff,
  arith, ℤ, pos_part, subst, ap, ◌∙◌, ◌⊎◌, inl, inr, All-append,
}
use kontor.Conversations.{ConversationRow, find_row, update_row, reserve_tokens, has_room, hold}
use kontor.Conversations.Rows.{
  holds_of, update_row-affected, find_row-rewritten, find_row-update_row_other,
  update_row-unaffected,
}
use kontor.Conversations.Budget.{DurableReservation, DurableError, Rows, reserve_durable}
use kontor.Conversations.Budget.Ledger.{
  DurableWorld, reserve_op, held, IsPositive, DurableInv, IsCovered, fresh, held-append, hold_key,
  step, step_reserve,
}

module _ (tenant : String) where
  pub hold-IsCovered :
      (c : String) (n : ℕ) (list : List DurableReservation) (r : ConversationRow)
      → has_room n r ≡ true
      → held c list ≤ r.tokens_reserved
      → IsCovered tenant (list ++ fresh tenant c n ∷ []) c (hold n r)
  unfolding has_room hold
  hold-IsCovered c n list r fits less = (
    ground (arith, fits),
    ground (arith, less, held-append tenant c list (fresh tenant c n ∷ []), eq_iff c c),
  )

  -- The two ways that `Reserve` ends.
  pub reserve_cases :
      (c : String) (tokens : ℤ) (rows : Rows)
      → (((reserve_durable tenant c tokens rows).1 ≡ rows)
          × ((e : DurableError) × ((reserve_durable tenant c tokens rows).0 ≡ inl e)))
        ⊎ ((0 < pos_part tokens)
            × (holds_of (has_room (pos_part tokens)) (find_row tenant c rows) ≡ true)
            × (reserve_durable tenant c tokens rows ≡ (
              inr (fresh tenant c (pos_part tokens)),
              (update_row tenant c (has_room (pos_part tokens)) (hold (pos_part tokens)) rows).1,
            )))
  unfolding reserve_durable reserve_tokens
  reserve_cases c tokens rows =
      let n = pos_part tokens in
      ground (
        arith,
        update_row-affected tenant c (has_room n) (hold n) (hold_key tenant n) rows,
        update_row-unaffected tenant c (has_room n) (hold n) (hold_key tenant n) rows,
      )

  pub reserve-DurableInv :
      (c : String) (tokens : ℤ) (w : DurableWorld)
      → DurableInv tenant w
      → DurableInv tenant (step tenant (reserve_op c tokens) w)
  unfolding step
  reserve-DurableInv c tokens w v = elim (reserve_cases c tokens w.rows) [
    | inl (same, (e, q)) ↦ rw (q, same, step_reserve) v
    | inr (some_tokens, room, q) ↦
        rw (q, step_reserve)
          (record {
            covered = λ k r at. granted some_tokens room k r at (str_eq c k) refl;
            positive = All-append IsPositive w.reservations _ v.positive (some_tokens, tt);
          })
  ]
    where
      added :
          (k : String)
          → str_eq c k ≡ false
          → held k (w.reservations ++ fresh tenant c (pos_part tokens) ∷ []) ≡ held k w.reservations
      added k other = ground (
        arith,
        held-append tenant k w.reservations (fresh tenant c (pos_part tokens) ∷ []),
        other,
      )

      here :
          0 < pos_part tokens
          → holds_of (has_room (pos_part tokens)) (find_row tenant c w.rows) ≡ true
          → (r : ConversationRow)
          → find_row tenant c
              (update_row tenant c (has_room (pos_part tokens)) (hold (pos_part tokens)) w.rows).1
            ≡ some r
          → IsCovered tenant (w.reservations ++ fresh tenant c (pos_part tokens) ∷ []) c r
      here some_tokens room r at =
          let n = pos_part tokens in
          let (old, found, fits, rewritten) =
            find_row-rewritten tenant c (has_room n) (hold n) (hold_key tenant n) w.rows r room
              at in
          let before = v.covered c old found in
          rw rewritten (hold-IsCovered c n w.reservations old fits before.1)

      granted :
          0 < pos_part tokens
          → holds_of (has_room (pos_part tokens)) (find_row tenant c w.rows) ≡ true
          → (k : String) (r : ConversationRow)
          → find_row tenant k
              (update_row tenant c (has_room (pos_part tokens)) (hold (pos_part tokens)) w.rows).1
            ≡ some r
          → (b : Bool) → str_eq c k ≡ b
          → IsCovered tenant (w.reservations ++ fresh tenant c (pos_part tokens) ∷ []) k r
      granted some_tokens room k r at true same =
          let q : c ≡ k = ground (arith, eq_iff c k, same) in
          subst
            (λ x. IsCovered tenant (w.reservations ++ fresh tenant c (pos_part tokens) ∷ []) x r) q
            (here some_tokens room r (
              ap
                (λ x.
                  find_row tenant x
                    (update_row tenant c (has_room (pos_part tokens)) (hold (pos_part tokens))
                      w.rows).1)
                q
              ∙ at))
      granted some_tokens room k r at false other =
          let n = pos_part tokens in
          let old = v.covered k r (
            ground (
              arith,
              at,
              find_row-update_row_other tenant c (has_room n) (hold n) (hold_key tenant n) k w.rows
                  other,
            )) in
          (old.0, omega (arith, old.1, added k other))
