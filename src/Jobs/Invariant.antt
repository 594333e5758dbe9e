-- ===== src/Jobs/Invariant.antt =====
-- What holds of every row of the queue, and which change keeps it (internal/jobqueue/postgres.go).
use kontor.Prelude.{
  ◌<◌, ◌≤◌, ◌≡◌, refl, Bool, true, none, List, [], ◌∷◌, String, arith, Time, All, is_some, ◌||◌,
  Bool-cases, inl, inr,
}
use kontor.Jobs.{
  Status, pending, claimed, completed, dead, cancelled, Row, EnqueueParams, is_pending, is_claimed,
  is_dead, update, claim, mark_completed,
}
use kontor.Jobs.Failure.{back_to_pending, bury}
use kontor.Jobs.Outbox.{new_row, revive, cancel, with_payload}

-- What a row in this status looks like.
abbrev pub StatusFits : Status → Row → Type 0
StatusFits pending r =
    (r.attempts < r.max_attempts)
    × (r.claimed_at ≡ none)
    × (r.completed_at ≡ none)
    × (r.dead_at ≡ none)
    × (r.cancelled_at ≡ none)
StatusFits claimed r =
    (0 < r.attempts)
    × (is_some r.claimed_at ≡ true)
    × (r.completed_at ≡ none)
    × (r.dead_at ≡ none)
    × (r.cancelled_at ≡ none)
StatusFits completed r =
    (is_some r.completed_at ≡ true) × (r.dead_at ≡ none) × (r.cancelled_at ≡ none)
StatusFits dead r =
    (is_some r.dead_at ≡ true)
    × (r.claimed_at ≡ none)
    × (r.completed_at ≡ none)
    × (r.cancelled_at ≡ none)
StatusFits cancelled r =
    (is_some r.cancelled_at ≡ true)
    × (r.claimed_at ≡ none)
    × (r.completed_at ≡ none)
    × (r.dead_at ≡ none)

pub record IsSound (r : Row) : Type 0 where
  pub bounded : r.attempts ≤ r.max_attempts
  pub allowed : (1 ≤ r.max_attempts) × (r.max_attempts ≤ 20)
  pub fits : StatusFits r.status r

pub pending_of : (s : Status) → is_pending s ≡ true → s ≡ pending
pending_of pending h = refl
pending_of claimed h = absurd (ground arith)
pending_of completed h = absurd (ground arith)
pending_of dead h = absurd (ground arith)
pending_of cancelled h = absurd (ground arith)

pub claimed_of : (s : Status) → is_claimed s ≡ true → s ≡ claimed
claimed_of claimed h = refl
claimed_of pending h = absurd (ground arith)
claimed_of completed h = absurd (ground arith)
claimed_of dead h = absurd (ground arith)
claimed_of cancelled h = absurd (ground arith)

pub dead_of : (s : Status) → is_dead s ≡ true → s ≡ dead
dead_of dead h = refl
dead_of pending h = absurd (ground arith)
dead_of completed h = absurd (ground arith)
dead_of claimed h = absurd (ground arith)
dead_of cancelled h = absurd (ground arith)

pub All-update :
    (P : Row → Type 0) (p : Row → Bool) (f : Row → Row) (rs : List Row)
    → ((r : Row) → P r → p r ≡ true → P (f r))
    → All P rs
    → All P (update p f rs)
unfolding update
All-update P p f [] h a = tt
All-update P p f (r ∷ rs) h a = elim (Bool-cases (p r)) [
  | inl e ↦ (rw e (h r a.0 e), All-update P p f rs h a.1)
  | inr e ↦ (rw e a.0, All-update P p f rs h a.1)
]

pub claim-IsSound : (now : Time) (r : Row) → IsSound r → r.status ≡ pending → IsSound (claim now r)
unfolding claim
claim-IsSound now r h e =
    let f : StatusFits pending r = rw e at h.fits in
    record {
      bounded = omega (arith, f.0);
      allowed = h.allowed;
      fits = (omega arith, refl, f.2, f.3, f.4);
    }

pub mark_completed-IsSound :
    (now : Time) (r : Row) → IsSound r → r.status ≡ claimed → IsSound (mark_completed now r)
unfolding mark_completed
mark_completed-IsSound now r h e =
    let f : StatusFits claimed r = rw e at h.fits in
    record { bounded = h.bounded; allowed = h.allowed; fits = (refl, f.3, f.4) }

pub back_to_pending-IsSound :
    (next : Time) (message : String) (r : Row)
    → IsSound r
    → r.status ≡ claimed
    → r.attempts < r.max_attempts
    → IsSound (back_to_pending next message r)
unfolding back_to_pending
back_to_pending-IsSound next message r h e left =
    let f : StatusFits claimed r = rw e at h.fits in
    record { bounded = h.bounded; allowed = h.allowed; fits = (left, refl, f.2, f.3, f.4) }

pub bury-IsSound :
    (now : Time) (message : String) (r : Row)
    → IsSound r
    → r.status ≡ claimed
    → IsSound (bury now message r)
unfolding bury
bury-IsSound now message r h e =
    let f : StatusFits claimed r = rw e at h.fits in
    record { bounded = h.bounded; allowed = h.allowed; fits = (refl, refl, f.2, f.4) }

pub revive-IsSound : (now : Time) (r : Row) → IsSound r → r.status ≡ dead → IsSound (revive now r)
unfolding revive
revive-IsSound now r h e =
    let f : StatusFits dead r = rw e at h.fits in
    record {
      bounded = omega arith;
      allowed = h.allowed;
      fits = (omega (arith, h.allowed.0), refl, refl, refl, f.3);
    }

pub cancel-IsSound :
    (now : Time) (r : Row)
    → IsSound r
    → (is_pending r.status || is_claimed r.status) ≡ true
    → IsSound (cancel now r)
unfolding cancel
cancel-IsSound now r h e = elim (Bool-cases (is_pending r.status)) [
  | inl q ↦
      let f : StatusFits pending r = rw (pending_of r.status q) at h.fits in
      record { bounded = h.bounded; allowed = h.allowed; fits = (refl, refl, f.2, f.3) }
  | inr q ↦
      let f : StatusFits claimed r = rw (claimed_of r.status (ground arith)) at h.fits in
      record { bounded = h.bounded; allowed = h.allowed; fits = (refl, refl, f.2, f.3) }
]

pub with_payload-IsSound :
    (f : String → String) (r : Row) → IsSound r → r.status ≡ pending → IsSound (with_payload f r)
unfolding with_payload
with_payload-IsSound f r h e =
    let fits : StatusFits pending r = rw e at h.fits in
    record { bounded = h.bounded; allowed = h.allowed; fits = rw e fits }

pub new_row-IsSound :
    (now : Time) (id : String) (p : EnqueueParams)
    → 1 ≤ p.max_attempts
    → p.max_attempts ≤ 20
    → IsSound (new_row now id p)
unfolding new_row
new_row-IsSound now id p low high = record {
  bounded = omega arith;
  allowed = (low, high);
  fits = (low, refl, refl, refl, refl);
}
