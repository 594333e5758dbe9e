-- ===== src/Conversations/Rows.antt =====
-- What an UPDATE by the primary key does to the rows (internal/conversations/store.go).
use kontor.Prelude.{
  ◌≡◌, refl, Bool, true, false, Option, none, some, List, [], ◌∷◌, String, str_eq, eq_iff, arith,
  if◌then◌else◌, Option-cases, inl, inr,
}
use kontor.Conversations.{ConversationRow, has_key, find_row, update_row}

abbrev pub rewritten :
    (ConversationRow → Bool)
    → (ConversationRow → ConversationRow)
    → Option ConversationRow
    → Option ConversationRow
rewritten p f none = none
rewritten p f (some r) = some (if p r then f r else r)

abbrev pub holds_of : (ConversationRow → Bool) → Option ConversationRow → Bool
holds_of p none = false
holds_of p (some r) = p r

module _ (tenant id : String) (p : ConversationRow → Bool) (f : ConversationRow → ConversationRow)
    (same_key : (other : String) (r : ConversationRow)
      → has_key tenant other (f r) ≡ has_key tenant other r) where
  pub update_row-affected :
      (rows : List ConversationRow)
      → (update_row tenant id p f rows).0 ≡ holds_of p (find_row tenant id rows)
  unfolding update_row find_row
  update_row-affected [] = refl
  update_row-affected (r ∷ rs) = ground (arith, update_row-affected rs)

  pub find_row-update_row :
      (rows : List ConversationRow)
      → find_row tenant id (update_row tenant id p f rows).1
        ≡ rewritten p f (find_row tenant id rows)
  unfolding update_row find_row
  find_row-update_row [] = refl
  find_row-update_row (r ∷ rs) = ground (arith, find_row-update_row rs, same_key id r)

  pub find_row-update_row_other :
      (other : String) (rows : List ConversationRow)
      → str_eq id other ≡ false
      → find_row tenant other (update_row tenant id p f rows).1 ≡ find_row tenant other rows
  unfolding update_row find_row has_key
  find_row-update_row_other other [] h = refl
  find_row-update_row_other other (r ∷ rs) h = ground (
    arith,
    find_row-update_row_other other rs h,
    same_key other r,
    eq_iff r.id id,
    eq_iff r.id other,
    eq_iff id other,
    h,
  )

  -- A statement that affects no row changes nothing.
  pub update_row-unaffected :
      (rows : List ConversationRow)
      → (update_row tenant id p f rows).0 ≡ false
      → (update_row tenant id p f rows).1 ≡ rows
  unfolding update_row
  update_row-unaffected [] h = refl
  update_row-unaffected (r ∷ rs) h = ground (arith, h, update_row-unaffected rs)

  -- The row that an affecting statement leaves is the rewritten one.
  pub find_row-rewritten :
      (rows : List ConversationRow) (r : ConversationRow)
      → holds_of p (find_row tenant id rows) ≡ true
      → find_row tenant id (update_row tenant id p f rows).1 ≡ some r
      → (old : ConversationRow) × (find_row tenant id rows ≡ some old)
        × (p old ≡ true)
        × (r ≡ f old)
  find_row-rewritten rows r affected at = elim (Option-cases (find_row tenant id rows)) [
    | inl e ↦ ground (arith, affected, e)
    | inr (old, e) ↦
        let holds : p old ≡ true = ground (arith, affected, e) in
        (old, e, holds, ground (arith, at, find_row-update_row rows, e, holds))
  ]
