-- ===== src/Scheduling/Input.antt =====
-- The input of a search and its checks, `Engine.validate` (internal/scheduling/engine.go).
use kontor.Prelude.{
  ℕ, ◌+◌, ◌-◌, ◌*◌, ◌%◌, Bool, true, false, not, ◌&&◌, ◌||◌, Option, none, some, List, [], ◌∷◌,
  String, str_eq, Time, Duration, before, add, add_neg, is_zero, ltb, ◌==◌, if◌then◌else◌, ℤ, pos,
  pos_part, ltb_ℤ, leb_ℤ, minute, hour,
}
use kontor.Scheduling.Intervals.{WallInterval}
use kontor.Scheduling.Calendar.{
  Location, RuleKind, rule_working, rule_break, rule_other, AvailabilityRule, civil_day,
}

pub record Service : Type 0 where
  pub id : String
  pub slug : String
  pub name : String
  pub description : String
  pub duration : Duration
  pub buffer_before : Duration
  pub buffer_after : Duration
  pub price_minor : ℤ
  pub currency : String

pub record Staff : Type 0 where
  pub id : String
  pub slug : String
  pub display_name : String
  pub timezone : String

pub record Interval : Type 0 where
  pub start : Time
  pub end : Time
  pub buffer_before : Duration
  pub buffer_after : Duration

pub record Slot : Type 0 where
  pub service_id : String
  pub staff_id : String
  pub start : Time
  pub end : Time

pub record SearchInput : Type 0 where
  pub service : Service
  pub staff : Staff
  pub from : Time
  pub to : Time
  pub rules : List AvailabilityRule
  pub busy : List Interval
  pub slot_interval : Duration
  pub limit : ℤ

-- `ErrInvalidInput` with what it wraps, the error of a context that is done, and the panic of
-- `time.Time.In` on a nil location.
pub data EngineError : Type 0 where
  bad_duration bad_buffer bad_range range_too_long bad_limit bad_timezone bad_step bad_rule
        reversed_validity bad_busy context_done nil_location :
      EngineError

pub data Result (A : Type 0) : Type 0 where
  ok : A → Result A
  err : EngineError → Result A

-- The engine's own fallback location, and `time.LoadLocation`.
pub record Engine : Type 0 where
  pub location : Option Location
  pub load_location : String → Option Location

unfoldable pub is_known_kind : RuleKind → Bool
is_known_kind rule_working = true
is_known_kind rule_break = true
is_known_kind (rule_other _) = false

-- The checks of one rule in `validate`.
unfoldable pub rule_check : AvailabilityRule → Option EngineError
unfolding is_known_kind
rule_check rule =
    if not (is_known_kind rule.kind)
      || (ltb_ℤ rule.weekday (pos 0)
          || (ltb_ℤ (pos 6) rule.weekday
              || (ltb_ℤ rule.start_minute (pos 0)
                  || (leb_ℤ (pos 1440) rule.start_minute
                      || (leb_ℤ rule.end_minute rule.start_minute
                          || ltb_ℤ (pos 1440) rule.end_minute)))))
    then some bad_rule
    else elim rule.valid_from [
      | none ↦ none
      | some from ↦ elim rule.valid_until [
        | none ↦ none
        | some until ↦
            if ltb (civil_day until) (civil_day from) then some reversed_validity else none
      ]
    ]

unfoldable pub rules_check : List AvailabilityRule → Option EngineError
unfolding rule_check
rules_check [] = none
rules_check (rule ∷ rules) = elim (rule_check rule) [ some e ↦ some e | none ↦ rules_check rules ]

-- The location of the search: that of the staff member, else the engine's, else Europe/Berlin.
unfoldable pub choose_location : Engine → String → Result Location
choose_location e timezone =
    if str_eq timezone ""
    then elim e.location [
      | some l ↦ ok l
      | none ↦ elim (e.load_location "Europe/Berlin") [ some l ↦ ok l | none ↦ err nil_location ]
    ]
    else elim (e.load_location timezone) [ some l ↦ ok l | none ↦ err bad_timezone ]

-- The slot interval, 15 minutes where none is given; `none` if it is not allowed.
unfoldable pub choose_step : Duration → Option ℕ
choose_step d =
    let step = if leb_ℤ d (pos 0) && leb_ℤ (pos 0) d then pos (15 * minute) else d in
    if ltb_ℤ step (pos minute)
      || (ltb_ℤ (pos (24 * hour)) step || not (pos_part step % minute == 0))
    then none
    else some (pos_part step)

-- The checks of `validate` before a location is chosen.
unfoldable pub range_check : SearchInput → Option EngineError
range_check i =
    let s = i.service in
    if leb_ℤ s.duration (pos 0) || ltb_ℤ (pos (24 * hour)) s.duration
    then some bad_duration
    else if ltb_ℤ s.buffer_before (pos 0)
        || (ltb_ℤ s.buffer_after (pos 0)
            || (ltb_ℤ (pos (4 * hour)) s.buffer_before || ltb_ℤ (pos (4 * hour)) s.buffer_after))
    then some bad_buffer
    else if is_zero i.from || (is_zero i.to || not (before i.from i.to))
    then some bad_range
    else if ltb (31 * 24 * hour + 2 * hour) (i.to - i.from)
    then some range_too_long
    else if ltb_ℤ i.limit (pos 0) || ltb_ℤ (pos 1000) i.limit
    then some bad_limit
    else none

unfoldable pub validate : Engine → SearchInput → Result (Location × ℕ)
unfolding range_check choose_location choose_step rules_check
validate e i = elim (range_check i) [
  | some x ↦ err x
  | none ↦ elim (choose_location e i.staff.timezone) [
    | err x ↦ err x
    | ok location ↦ elim (choose_step i.slot_interval) [
      | none ↦ err bad_step
      | some step ↦ elim (rules_check i.rules) [ some x ↦ err x | none ↦ ok (location, step) ]
    ]
  ]
]

-- The busy intervals with their buffers; `none` if one of them is not valid.
unfoldable pub buffered : List Interval → Option (List WallInterval)
buffered [] = some []
buffered (b ∷ bs) =
    if is_zero b.start
      || (is_zero b.end
          || (not (before b.start b.end)
              || (ltb_ℤ b.buffer_before (pos 0) || ltb_ℤ b.buffer_after (pos 0))))
    then none
    else elim (buffered bs) [
      | none ↦ none
      | some rest ↦ some (
          record { start = add_neg b.start b.buffer_before; end = add b.end b.buffer_after } ∷ rest)
    ]
