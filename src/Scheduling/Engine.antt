-- ===== src/Scheduling/Engine.antt =====
-- Engine.FindSlots and Engine.IsAvailable (internal/scheduling/engine.go): the bookable slots of one
-- staff member, from a snapshot of the rules and the busy intervals.
pub mod Scan
pub mod Sound
pub mod Free
pub mod Complete
pub mod Total
use kontor.Prelude.{
  ℕ, zero, suc, ◌+◌, ◌-◌, ◌/◌, Bool, true, false, not, ◌&&◌, ◌||◌, Option, none, some, List, [],
  ◌∷◌, ◌++◌, any, length, Time, before, after, add, add_neg, leb, ◌==◌, if◌then◌else◌, ℤ, pos,
  pos_part, ltb_ℤ,
}
use kontor.Scheduling.Intervals.{WallInterval, merge_intervals, overlaps_any}
use kontor.Scheduling.Calendar.{Location, midnight, next_day, intervals_for_date}
use kontor.Scheduling.Input.{
  Slot, SearchInput, Engine, EngineError, Result, ok, err, bad_busy, context_done, validate,
  buffered,
}

-- What the loops carry: the slots found and whether the limit was reached. The keys of the map
-- `seen` are the starts of `slots`.
pub record Found : Type 0 where
  pub slots : List Slot
  pub full : Bool

unfoldable pub slot_at : SearchInput → Time → Slot
slot_at i start = record {
  service_id = i.service.id;
  staff_id = i.staff.id;
  start = start;
  end = add start i.service.duration;
}

-- The interval that a slot occupies, its buffers included.
unfoldable pub occupied : SearchInput → Time → WallInterval
occupied i start = record {
  start = add_neg start i.service.buffer_before;
  end = add (add start i.service.duration) i.service.buffer_after;
}

unfoldable pub is_seen : Time → List Slot → Bool
is_seen start slots = any (λ s. s.start == start) slots

-- The tests of one start that can `continue` past it, but for `seen`.
unfoldable pub is_open :
    SearchInput → List WallInterval → List WallInterval → WallInterval → Time → Bool
unfolding occupied
is_open i breaks busy period start =
    let end = add start i.service.duration in
    not (before start i.from || (not (after end start) || (after end i.to || after end period.end)))
    && not (overlaps_any (occupied i start) breaks || overlaps_any (occupied i start) busy)

unfoldable pub limit_reached : ℤ → List Slot → Bool
limit_reached limit slots = ltb_ℤ (pos 0) limit && leb (pos_part limit) (length slots)

unfoldable pub offer :
    SearchInput → List WallInterval → List WallInterval → WallInterval → Time → Found → Found
unfolding is_open is_seen slot_at limit_reached
offer i breaks busy period start f =
    let slots = f.slots ++ slot_at i start ∷ [] in
    if not (is_open i breaks busy period start) || is_seen start f.slots
    then f
    else record { slots = slots; full = limit_reached i.limit slots }

-- The loop over the starts of one period, with the rounds left.
unfoldable pub scan_period :
    SearchInput
    → ℕ
    → List WallInterval
    → List WallInterval
    → WallInterval
    → ℕ
    → Time
    → Found
    → Found
scan_period i step breaks busy period zero start f = f
scan_period i step breaks busy period (suc rounds) start f = elim (before start period.end) [
  | false ↦ f
  | true ↦
      let g = offer i breaks busy period start f in
      elim g.full [
        | true ↦ g
        | false ↦ scan_period i step breaks busy period rounds (start + step) g
      ]
]

-- Rounds enough for a period: one for each step that begins before its end.
unfoldable pub rounds_for : ℕ → WallInterval → ℕ
rounds_for step period = (period.end - period.start) / step + 1

unfoldable pub scan_periods :
    SearchInput → ℕ → List WallInterval → List WallInterval → List WallInterval → Found → Found
unfolding rounds_for
scan_periods i step breaks busy [] f = f
scan_periods i step breaks busy (period ∷ periods) f =
    let g = scan_period i step breaks busy period (rounds_for step period) period.start f in
    elim g.full [ true ↦ g | false ↦ scan_periods i step breaks busy periods g ]

unfoldable pub scan_day : SearchInput → Location → ℕ → List WallInterval → Time → Found → Found
scan_day i location step busy day f =
    let (working, breaks) = intervals_for_date location day i.rules in
    scan_periods i step (merge_intervals breaks) busy (merge_intervals working) f

-- The loop over the days, with the rounds left; `none` means that they ran out. `cancelled` says
-- whether the context is done when the loop reaches a day.
unfoldable pub scan_days :
    SearchInput
    → Location
    → ℕ
    → List WallInterval
    → (Time → Bool)
    → Time
    → ℕ
    → Time
    → Found
    → Option (Result Found)
scan_days i location step busy cancelled last_day zero day f = none
scan_days i location step busy cancelled last_day (suc rounds) day f = elim (after day last_day) [
  | true ↦ some (ok f)
  | false ↦ elim (cancelled day) [
    | true ↦ some (err context_done)
    | false ↦
        let g = scan_day i location step busy day f in
        elim g.full [
          | true ↦ some (ok g)
          | false ↦
              scan_days i location step busy cancelled last_day rounds (next_day location day) g
        ]
  ]
]

-- The comparison of `sortSlots`; all slots of one search have one staff member.
unfoldable pub slot_less : Slot → Slot → Bool
slot_less a b = before a.start b.start

unfoldable pub insert_slot : Slot → List Slot → List Slot
unfolding slot_less
insert_slot x [] = x ∷ []
insert_slot x (y ∷ ys) = if slot_less y x then y ∷ insert_slot x ys else x ∷ y ∷ ys

unfoldable pub sort_slots : List Slot → List Slot
unfolding insert_slot
sort_slots [] = []
sort_slots (x ∷ xs) = insert_slot x (sort_slots xs)

unfoldable pub finish : Option (Result Found) → Option (Result (List Slot))
finish none = none
finish (some (err x)) = some (err x)
finish (some (ok f)) = some (ok (sort_slots f.slots))

unfoldable pub find_slots : Engine → (Time → Bool) → ℕ → SearchInput → Option (Result (List Slot))
unfolding finish
find_slots e cancelled rounds i = elim (validate e i) [
  | err x ↦ some (err x)
  | ok (location, step) ↦ elim (buffered i.busy) [
    | none ↦ some (err bad_busy)
    | some busy ↦ finish (
        scan_days i location step busy cancelled (midnight location (i.to - 1)) rounds
          (midnight location i.from) (record { slots = []; full = false }))
  ]
]

unfoldable pub starts_at : Time → Result (List Slot) → Result Bool
starts_at t (err x) = err x
starts_at t (ok slots) = ok (any (λ s. s.start == t) slots)

unfoldable pub is_available : Engine → (Time → Bool) → ℕ → SearchInput → Time → Option (Result Bool)
unfolding starts_at
is_available e cancelled rounds i t = elim (validate e i) [
  | err x ↦ some (err x)
  | ok (location, step) ↦
      let day_start = midnight location t in
      let day = record i { from = day_start; to = next_day location day_start; limit = pos 0 } in
      elim (find_slots e cancelled rounds day) [ none ↦ none | some r ↦ some (starts_at t r) ]
]
