-- ===== src/Conversations/Budget/Refines.antt =====
-- The durable budget of one conversation (internal/agentbudget/postgres.go) against the budget in
-- memory (internal/agent/budget.go).
pub mod Reserve
pub mod Settle
pub mod Histories
use kontor.Prelude.{
  ℕ, zero, suc, ◌+◌, ◌-◌, ◌≤◌, ◌<◌, ◌≡◌, refl, Bool, true, false, not, ◌&&◌, ◌||◌, Option, none,
  some, List, [], ◌∷◌, ◌++◌, String, str_eq, eq_iff, arith, if◌then◌else◌, ℤ, pos, pos_part, ltb_ℤ,
  leb_ℤ, leb, ltb, get_elem?, set, Option-cases, ap, ◌∙◌, sym, inl, inr, Bool-cases,
  lookup_or-insert, insert, All, All-append,
}
use kontor.Agent.Budget.{
  MemoryTokenBudget, TokenReservation, BudgetError, Result, ok, err, accounted_tokens, reserve,
  settle, already_settled, usage_exceeds_reservation as memory_usage_exceeds,
}
use kontor.Agent.Budget.Ledger.{
  Entry, World, Op, reserve_op as memory_reserve, settle_op as memory_settle, step as memory_step,
  run as memory_run, reserve_cases as memory_reserve_cases, credited, accounted-credited,
  limit-credited, granted, step_reserve as memory_step_reserve, step_settle as memory_step_settle,
}
use kontor.Conversations.{
  ConversationRow, find_row, update_row, reserve_tokens, settle_tokens, has_room, hold, can_settle,
  spend,
}
use kontor.Conversations.Rows.{
  holds_of, update_row-affected, update_row-unaffected, find_row-update_row,
}
use kontor.Conversations.Budget.{
  DurableReservation, DurableError, Rows, reserve_durable, settle_durable,
  usage_exceeds_reservation, already_settled as durable_already_settled,
}
use kontor.Conversations.Budget.Ledger.{
  DurableWorld, DurableOp, reserve_op, settle_op, step, run, step_reserve, step_settle, DurableInv,
  fresh, hold_key, spend_key, settled_rows, set-get_elem?, IsPositive-get_elem?,
}
use kontor.Conversations.Budget.Ledger.Reserve.{reserve_cases}
use kontor.Conversations.Budget.Ledger.Settle.{settle_durable-settles, can_settle-IsCovered}
use kontor.Conversations.Budget.Ledger.Histories.{step-DurableInv}

-- A call for the conversation: `Reserve`, or `Settle` of the reservation with this number.
pub data Call : Type 0 where
  reserve_call : ℤ → Call
  settle_call : ℕ → ℕ → Call

abbrev pub of_entry : Entry → DurableReservation
of_entry e = record {
  conversation_id = e.reservation.conversation_id;
  reserved = e.reservation.reserved;
  settled = e.reservation.settled;
}

abbrev pub of_entries : List Entry → List DurableReservation
of_entries [] = []
of_entries (e ∷ es) = of_entry e ∷ of_entries es

pub of_entries-append :
    (es fs : List Entry) → of_entries (es ++ fs) ≡ of_entries es ++ of_entries fs
of_entries-append [] fs = refl
of_entries-append (e ∷ es) fs = ap (λ l. of_entry e ∷ l) (of_entries-append es fs)

pub of_entries-set :
    (i : ℕ) (es : List Entry) (e : Entry)
    → of_entries (set es i e) ≡ set (of_entries es) i (of_entry e)
of_entries-set i [] e = refl
of_entries-set zero (x ∷ es) e = refl
of_entries-set (suc i) (x ∷ es) e = ap (λ l. of_entry x ∷ l) (of_entries-set i es e)

abbrev pub map_entry : Option Entry → Option DurableReservation
map_entry none = none
map_entry (some e) = some (of_entry e)

pub get_elem?-of_entries :
    (i : ℕ) (es : List Entry) → get_elem? (of_entries es) i ≡ map_entry (get_elem? es i)
get_elem?-of_entries i [] = refl
get_elem?-of_entries zero (e ∷ es) = refl
get_elem?-of_entries (suc i) (e ∷ es) = get_elem?-of_entries i es

module _ (tenant c : String) where
  abbrev pub durable_op : Call → DurableOp
  durable_op (reserve_call tokens) = reserve_op c tokens
  durable_op (settle_call i n) = settle_op i (pos n)

  abbrev pub memory_op : Call → Op
  memory_op (reserve_call tokens) = memory_reserve false c tokens
  memory_op (settle_call i n) = memory_settle false i (pos n)

  pub run_durable : List Call → DurableWorld → DurableWorld
  run_durable [] w = w
  run_durable (x ∷ xs) w = run_durable xs (step tenant (durable_op x) w)

  pub run_memory : List Call → World → World
  run_memory [] m = m
  run_memory (x ∷ xs) m = run_memory xs (memory_step (memory_op x) m)

  -- The account in memory is the used and the reserved tokens of the row together.
  pub record Refined (w : DurableWorld) (m : World) : Type 0 where
    pub row : ConversationRow
    pub found : find_row tenant c w.rows ≡ some row
    pub limit : row.token_budget ≡ m.budget.limit
    pub total : row.tokens_used + row.tokens_reserved ≡ accounted_tokens c m.budget
    pub same : w.reservations ≡ of_entries m.entries
    pub own : All (λ r. str_eq r.conversation_id c ≡ true) w.reservations

  abbrev pub Own : DurableReservation → Type 0
  Own r = str_eq r.conversation_id c ≡ true

  pub Own-get_elem? :
      (i : ℕ) (list : List DurableReservation) (r : DurableReservation)
      → All Own list
      → get_elem? list i ≡ some r
      → r.conversation_id ≡ c
  Own-get_elem? i [] r a h = cc
  Own-get_elem? zero (x ∷ xs) r a h =
      let q : x ≡ r = ground (arith, h) in
      ap (λ y. y.conversation_id) (sym q) ∙ ground (arith, a.0, eq_iff x.conversation_id c)
  Own-get_elem? (suc i) (x ∷ xs) r a h = Own-get_elem? i xs r a.1 h

  pub Own-set :
      (i : ℕ) (list : List DurableReservation) (r : DurableReservation)
      → All Own list
      → r.conversation_id ≡ c
      → All Own (set list i r)
  Own-set i [] r a h = tt
  Own-set zero (x ∷ xs) r a h = (ground (arith, h, eq_iff r.conversation_id c), a.1)
  Own-set (suc i) (x ∷ xs) r a h = (a.0, Own-set i xs r a.1 h)

  -- The row and the account change alike.
  pub moved :
      {w : DurableWorld} {m : World} (rows : Rows) (row : ConversationRow) (n : ℕ)
      (list : List DurableReservation) (es : List Entry) (v : Refined w m)
      → find_row tenant c rows ≡ some row
      → row.token_budget ≡ v.row.token_budget
      → row.tokens_used + row.tokens_reserved ≡ n
      → list ≡ of_entries es
      → All (λ r. str_eq r.conversation_id c ≡ true) list
      → Refined
          (record { rows = rows; reservations = list })
          (record { budget = credited c n m.budget; entries = es })
  moved {m = m} rows row n list es v found limit total same own = record {
    row = row;
    found = found;
    limit = limit ∙ v.limit ∙ sym (limit-credited c n m.budget);
    total = ground (arith, total, accounted-credited c c n m.budget, eq_iff c c);
    same = same;
    own = own;
  }

  -- The entry's change is the reservation's.
  pub same-set :
      (i : ℕ) (list : List DurableReservation) (es : List Entry) (e : Entry)
      → list ≡ of_entries es
      → set list i (of_entry e) ≡ of_entries (set es i e)
  same-set i list es e h = ap (λ l. set l i (of_entry e)) h ∙ sym (of_entries-set i es e)

  -- The row changes and the account does not.
  pub kept :
      {w : DurableWorld} {m : World} (rows : Rows) (row : ConversationRow)
      (list : List DurableReservation) (es : List Entry) (v : Refined w m)
      → find_row tenant c rows ≡ some row
      → row.token_budget ≡ v.row.token_budget
      → row.tokens_used + row.tokens_reserved ≡ v.row.tokens_used + v.row.tokens_reserved
      → list ≡ of_entries es
      → All Own list
      → Refined
          (record { rows = rows; reservations = list })
          (record { budget = m.budget; entries = es })
  kept rows row list es v found limit total same own = record {
    row = row;
    found = found;
    limit = limit ∙ v.limit;
    total = total ∙ v.total;
    same = same;
    own = own;
  }
