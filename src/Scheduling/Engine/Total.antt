-- ===== src/Scheduling/Engine/Total.antt =====
-- The day loop of `FindSlots` ends, and what `IsAvailable` answers (internal/scheduling/engine.go).
use kontor.Prelude.{
  ℕ, zero, suc, ◌+◌, ◌-◌, ◌<◌, ◌≡◌, refl, Bool, false, List, [], some, arith, Time, after,
  Bool-cases, inl, inr,
}
use kontor.Scheduling.Intervals.{WallInterval}
use kontor.Scheduling.Calendar.{Location, midnight, next_day}
use kontor.Scheduling.Input.{SearchInput, Slot, Engine, ok}
use kontor.Scheduling.Engine.{Found, scan_day, scan_days, sort_slots, find_slots}
use kontor.Scheduling.Engine.Sound.{Accepts}

module _ (i : SearchInput) (location : Location) (step : ℕ) (busy : List WallInterval)
    (cancelled : Time → Bool) (last_day : Time) (running : (d : Time) → cancelled d ≡ false)
    (advance : (d : Time) → d < next_day location d) where
  scan_days_total :
      (rounds day : ℕ) (f : Found)
      → last_day + 1 - day < rounds
      → (g : Found) × (scan_days i location step busy cancelled last_day rounds day f ≡ some (ok g))
  unfolding scan_days
  scan_days_total zero day f h = absurd (omega arith)
  scan_days_total (suc rounds) day f h = elim (Bool-cases (after day last_day)) [
    | inl over ↦ (f, rw (over, scan_days))
    | inr inside ↦
        let g = scan_day i location step busy day f in
        elim (Bool-cases g.full) [
          | inl full ↦ (g, ground (arith, running day))
          | inr more ↦
              let fits : last_day + 1 - next_day location day < rounds =
                ground (arith, advance day) in
              let (r, e) = scan_days_total rounds (next_day location day) g fits in
              (r, ground (arith, running day, e))
        ]
  ]

-- A valid search whose context stays live returns its slots: where each next day begins later, one
-- more round than there are nanoseconds from the first day to the end of the last one is enough.
pub find_slots_total :
    (e : Engine) (cancelled : Time → Bool) (rounds : ℕ) (i : SearchInput) (location : Location)
    (step : ℕ) (busy : List WallInterval)
    → Accepts e i location step busy
    → ((d : Time) → cancelled d ≡ false)
    → ((d : Time) → d < next_day location d)
    → midnight location (i.to - 1) + 1 - midnight location i.from < rounds
    → (slots : List Slot) × (find_slots e cancelled rounds i ≡ some (ok slots))
unfolding find_slots
find_slots_total e cancelled rounds i location step busy a running advance fits =
    let (g, q) =
      scan_days_total i location step busy cancelled (midnight location (i.to - 1)) running advance
        rounds (midnight location i.from) (record { slots = []; full = false }) fits in
    (sort_slots g.slots, rw (a.valid, a.buffers, q, find_slots) refl)
