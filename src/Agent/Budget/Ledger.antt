-- ===== src/Agent/Budget/Ledger.antt =====
-- Histories of one token budget and of the reservations that it gave out (internal/agent/budget.go).
use kontor.Prelude.{
  ℕ, zero, suc, ◌+◌, ◌-◌, ◌≤◌, ◌<◌, ◌≡◌, refl, Bool, true, false, none, some, List, [], ◌∷◌, ◌++◌,
  String, str_eq, eq_iff, arith, if◌then◌else◌, ℤ, pos_part, get_elem?, set, insert, lookup,
  lookup_or, lookup_or-insert, Option, Option-cases, ◌⊎◌, inl, inr, All, All-append,
}
use kontor.Agent.Budget.{
  MemoryTokenBudget, TokenReservation, BudgetError, Result, ok, err, accounted_tokens, reserve,
  settle, new_memory_token_budget,
}

-- A reservation with the number of tokens that it stands for in the account: all of them while it is
-- in flight, and after settlement what the provider reported, or all of them after a report above
-- the reservation.
pub record Entry : Type 0 where
  pub reservation : TokenReservation
  pub charge : ℕ

pub record World : Type 0 where
  pub budget : MemoryTokenBudget
  pub entries : List Entry

-- A call of `Reserve`, or of `Settle` on the reservation with this number.
pub data Op : Type 0 where
  reserve_op : Bool → String → ℤ → Op
  settle_op : Bool → ℕ → ℤ → Op

unfoldable pub step_reserve : World → Result TokenReservation × MemoryTokenBudget → World
step_reserve w (ok r, b) = record {
  budget = b;
  entries = w.entries ++ record { reservation = r; charge = r.reserved } ∷ [];
}
step_reserve w (err _, b) = record w { budget = b }

charge_after : ℤ → ℕ → Option BudgetError → ℕ
charge_after actual before none = pos_part actual
charge_after actual before (some _) = before

unfoldable pub step_settle :
    World → ℕ → ℤ → Entry → Option BudgetError × TokenReservation × MemoryTokenBudget → World
unfolding charge_after
step_settle w i actual e (x, r, b) = record {
  budget = b;
  entries = set w.entries i (record { reservation = r; charge = charge_after actual e.charge x });
}

unfoldable pub step : Op → World → World
unfolding step_reserve step_settle
step (reserve_op cancelled c tokens) w = step_reserve w (reserve cancelled c tokens w.budget)
step (settle_op cancelled i actual) w = elim (get_elem? w.entries i) [
  | none ↦ w
  | some e ↦ step_settle w i actual e (settle cancelled actual e.reservation w.budget)
]

pub run : List Op → World → World
run [] w = w
run (op ∷ ops) w = run ops (step op w)

-- The tokens that the entries stand for in the account of one conversation.
abbrev pub charges : String → List Entry → ℕ
charges c [] = 0
charges c (e ∷ es) = (if str_eq e.reservation.conversation_id c then e.charge else 0) + charges c es

-- A reservation in flight is charged in full, and a charge never passes its reservation.
abbrev pub IsFair : Entry → Type 0
IsFair e =
    (e.charge ≤ e.reservation.reserved)
    × (e.reservation.settled ≡ false → e.charge ≡ e.reservation.reserved)

pub record Inv (w : World) : Type 0 where
  pub fair : All IsFair w.entries
  pub balanced : (c : String) → accounted_tokens c w.budget ≡ charges c w.entries
  pub capped : (c : String) → accounted_tokens c w.budget ≤ w.budget.limit

charges-append :
    (c : String) (es fs : List Entry) → charges c (es ++ fs) ≡ charges c es + charges c fs
charges-append c [] fs = omega arith
charges-append c (e ∷ es) fs = omega (arith, charges-append c es fs)

share : String → Entry → ℕ
share c e = if str_eq e.reservation.conversation_id c then e.charge else 0

charges-set :
    (c : String) (i : ℕ) (es : List Entry) (e f : Entry)
    → get_elem? es i ≡ some e
    → charges c (set es i f) + share c e ≡ charges c es + share c f
unfolding share
charges-set c i [] e f h = cc
charges-set c zero (x ∷ es) e f h = ground arith
charges-set c (suc i) (x ∷ es) e f h = omega (arith, charges-set c i es e f h)

IsFair-get_elem? :
    (i : ℕ) (es : List Entry) (e : Entry) → All IsFair es → get_elem? es i ≡ some e → IsFair e
IsFair-get_elem? i [] e a h = cc
IsFair-get_elem? zero (x ∷ es) e a h = let q : x ≡ e = ground arith in rw (← q) a.0
IsFair-get_elem? (suc i) (x ∷ es) e a h = IsFair-get_elem? i es e a.1 h

IsFair-set :
    (i : ℕ) (es : List Entry) (e : Entry) → All IsFair es → IsFair e → All IsFair (set es i e)
IsFair-set i [] e a h = tt
IsFair-set zero (x ∷ es) e a h = (h, a.1)
IsFair-set (suc i) (x ∷ es) e a h = (a.0, IsFair-set i es e a.1 h)

share-le :
    (c : String) (i : ℕ) (es : List Entry) (e : Entry)
    → get_elem? es i ≡ some e
    → share c e ≤ charges c es
unfolding share
share-le c i [] e h = cc
share-le c zero (x ∷ es) e h = ground arith
share-le c (suc i) (x ∷ es) e h = omega (arith, share-le c i es e h)

unfoldable pub granted : String → ℤ → TokenReservation
granted k tokens = record { conversation_id = k; reserved = pos_part tokens; settled = false }

unfoldable pub credited : String → ℕ → MemoryTokenBudget → MemoryTokenBudget
credited k n b = record b { accounted = insert k n b.accounted }

pub reserve_cases :
    (cancelled : Bool) (k : String) (tokens : ℤ) (b : MemoryTokenBudget)
    → (((reserve cancelled k tokens b).1 ≡ b)
        × ((x : BudgetError) × ((reserve cancelled k tokens b).0 ≡ err x)))
      ⊎ ((pos_part tokens ≤ b.limit - accounted_tokens k b)
          × (0 < pos_part tokens)
          × (reserve cancelled k tokens b
              ≡ (ok (granted k tokens), credited k (accounted_tokens k b + pos_part tokens) b)))
unfolding reserve granted credited
reserve_cases cancelled k tokens b = ground arith

settle_cases :
    (cancelled : Bool) (actual : ℤ) (r : TokenReservation) (b : MemoryTokenBudget)
    → (((settle cancelled actual r b).2 ≡ b)
        × ((settle cancelled actual r b).1.reserved ≡ r.reserved)
        × ((settle cancelled actual r b).1.conversation_id ≡ r.conversation_id)
        × ((settle cancelled actual r b).1.settled ≡ false → r.settled ≡ false)
        × ((x : BudgetError) × ((settle cancelled actual r b).0 ≡ some x)))
      ⊎ ((r.settled ≡ false)
          × (pos_part actual ≤ r.reserved)
          × (settle cancelled actual r b ≡ (
            none,
            record r { settled = true },
            credited r.conversation_id
                (accounted_tokens r.conversation_id b - (r.reserved - pos_part actual))
                b,
          )))
unfolding settle credited
settle_cases cancelled actual r b = ground arith

pub accounted-credited :
    (k c : String) (n : ℕ) (b : MemoryTokenBudget)
    → accounted_tokens c (credited k n b) ≡ (if str_eq k c then n else accounted_tokens c b)
unfolding credited
accounted-credited k c n b = lookup_or-insert 0 k c n b.accounted

pub limit-credited : (k : String) (n : ℕ) (b : MemoryTokenBudget) → (credited k n b).limit ≡ b.limit
unfolding credited
limit-credited k n b = refl

abbrev fresh_entry : String → ℤ → Entry
unfolding granted
fresh_entry k tokens = record { reservation = granted k tokens; charge = pos_part tokens }

step_reserve-Inv :
    (cancelled : Bool) (k : String) (tokens : ℤ) (w : World)
    → Inv w
    → Inv (step (reserve_op cancelled k tokens) w)
unfolding step granted
step_reserve-Inv cancelled k tokens w v = elim (reserve_cases cancelled k tokens w.budget) [
  | inl (same, (x, e)) ↦ rw (e, same, step_reserve) v
  | inr (fits, positive, e) ↦
      let n = accounted_tokens k w.budget + pos_part tokens in
      rw (e, step_reserve)
        (record {
          fair =
              All-append IsFair w.entries (fresh_entry k tokens ∷ []) v.fair
                ((omega arith, λ q. refl), tt);
          balanced = λ c. ground (
            arith,
            accounted-credited k c n w.budget,
            charges-append c w.entries (fresh_entry k tokens ∷ []),
            v.balanced c,
            v.balanced k,
            eq_iff k c,
          );
          capped = λ c. ground (
            arith,
            accounted-credited k c n w.budget,
            limit-credited k n w.budget,
            v.capped c,
            v.capped k,
          );
        })
]

-- An entry may give back part of its charge where the account gives back as much.
Inv-replace :
    (w : World) (i : ℕ) (e f : Entry) (b : MemoryTokenBudget)
    → get_elem? w.entries i ≡ some e
    → f.reservation.conversation_id ≡ e.reservation.conversation_id
    → f.charge ≤ e.charge
    → IsFair f
    → b.limit ≡ w.budget.limit
    → ((c : String) → accounted_tokens c b + share c e ≡ accounted_tokens c w.budget + share c f)
    → Inv w
    → Inv (record { budget = b; entries = set w.entries i f })
unfolding share
Inv-replace w i e f b at same less good cap moved v = record {
  fair = IsFair-set i w.entries f v.fair good;
  balanced = λ c. omega (arith, charges-set c i w.entries e f at, moved c, v.balanced c);
  capped = λ c. ground (arith, moved c, v.capped c, same, cap);
}

step_settle-Inv :
    (cancelled : Bool) (i : ℕ) (actual : ℤ) (w : World)
    → Inv w
    → Inv (step (settle_op cancelled i actual) w)
unfolding step share
step_settle-Inv cancelled i actual w v = elim (Option-cases (get_elem? w.entries i)) [
  | inl e ↦ rw (e, step) v
  | inr (e, at) ↦ rw (at, step) (settled e at)
]
  where
    settled :
        (e : Entry)
        → get_elem? w.entries i ≡ some e
        → Inv (step_settle w i actual e (settle cancelled actual e.reservation w.budget))
    settled e at =
        let r = e.reservation in
        let good = IsFair-get_elem? i w.entries e v.fair at in
        elim (settle_cases cancelled actual r w.budget) [
          | inl (same, size, owner, unsettled, (x, q)) ↦
              let r' = (settle cancelled actual r w.budget).1 in
              let f : Entry = record { reservation = r'; charge = e.charge } in
              rw (same, q, step_settle)
                (Inv-replace w i e f w.budget at owner (omega arith)
                  (ground arith, λ z. ground (arith, good.1 (unsettled z))) refl
                  (λ c. ground (arith, owner)) v)
          | inr (unsettled, size, q) ↦
              let f : Entry = record {
                reservation = record r { settled = true };
                charge = pos_part actual;
              } in
              let n =
                accounted_tokens r.conversation_id w.budget - (r.reserved - pos_part actual) in
              rw (q, step_settle)
                (Inv-replace w i e f (credited r.conversation_id n w.budget) at refl
                  (ground (arith, good.1 unsettled)) (ground arith, λ z. ground arith)
                  (limit-credited r.conversation_id n w.budget)
                  (λ c. ground (
                    arith,
                    accounted-credited r.conversation_id c n w.budget,
                    eq_iff r.conversation_id c,
                    good.1 unsettled,
                    v.balanced c,
                    share-le c i w.entries e at,
                  ))
                  v)
        ]

step-Inv : (op : Op) (w : World) → Inv w → Inv (step op w)
step-Inv (reserve_op cancelled k tokens) w v = step_reserve-Inv cancelled k tokens w v
step-Inv (settle_op cancelled i actual) w v = step_settle-Inv cancelled i actual w v

run-Inv : (ops : List Op) (w : World) → Inv w → Inv (run ops w)
unfolding run
run-Inv [] w v = v
run-Inv (op ∷ ops) w v = run-Inv ops (step op w) (step-Inv op w v)

-- A fresh budget with nothing reserved.
pub new-Inv :
    (limit : ℤ) (b : MemoryTokenBudget)
    → new_memory_token_budget limit ≡ ok b
    → Inv (record { budget = b; entries = [] })
unfolding new_memory_token_budget lookup_or lookup
new-Inv limit b h =
    let e : b.accounted ≡ [] = ground arith in
    record { fair = tt; balanced = λ c. rw e; capped = λ c. rw e (omega arith) }

-- From a fresh budget, after any history of reservations and settlements, however they interleave,
-- a conversation's account is the sum of what its reservations stand for (in flight: all of it;
-- settled: the reported usage; over-reported: all of it), and no account passes the limit.
pub run-new-Inv :
    (limit : ℤ) (b : MemoryTokenBudget) (ops : List Op)
    → new_memory_token_budget limit ≡ ok b
    → Inv (run ops (record { budget = b; entries = [] }))
run-new-Inv limit b ops h = run-Inv ops _ (new-Inv limit b h)
