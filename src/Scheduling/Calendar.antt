-- ===== src/Scheduling/Calendar.antt =====
-- The rules of a date (internal/scheduling/engine.go): civilDay, localMinute, ruleAppliesOn and
-- intervalsForDate. The time zone database is data outside the repository: a `Location` is a
-- parameter, the two conversions of package time between instants and the clock of a zone.
use kontor.Prelude.{
  ℕ, zero, suc, ◌+◌, ◌-◌, ◌*◌, ◌/◌, ◌%◌, Bool, true, false, not, ◌&&◌, ◌||◌, Option, none, some,
  List, [], ◌∷◌, ◌++◌, String, Time, before, ltb, ◌==◌, if◌then◌else◌, ℤ, pos, negsuc, pos_part,
  minute, hour,
}
use kontor.Scheduling.Intervals.{WallInterval}

-- The reading of a zone's clock. `weekday` counts from Sunday, as `time.Weekday` does.
pub record CivilTime : Type 0 where
  pub year : ℕ
  pub month : ℕ
  pub day : ℕ
  pub hours : ℕ
  pub minutes : ℕ
  pub seconds : ℕ
  pub nanos : ℕ
  pub weekday : ℕ

-- `t.In(location)` read field by field, and `time.Date`, which normalises a day after the month's
-- last; its arguments are the year, month, day, hour, minute, second and nanosecond.
pub record Location : Type 0 where
  pub civil : Time → CivilTime
  pub date : ℕ → ℕ → ℕ → ℕ → ℕ → ℕ → ℕ → Time

-- A `time.Time` with the location that its `Date` method reads it in.
pub record ZonedTime : Type 0 where
  pub instant : Time
  pub zone : Location

pub data RuleKind : Type 0 where
  rule_working rule_break : RuleKind
  rule_other : String → RuleKind

pub record AvailabilityRule : Type 0 where
  pub kind : RuleKind
  pub weekday : ℤ
  pub start_minute : ℤ
  pub end_minute : ℤ
  pub valid_from : Option ZonedTime
  pub valid_until : Option ZonedTime

unfoldable pub civil_day_of : CivilTime → ℕ
civil_day_of c = c.year * 10000 + c.month * 100 + c.day

unfoldable pub civil_day : ZonedTime → ℕ
unfolding civil_day_of
civil_day t = civil_day_of (t.zone.civil t.instant)

-- `day.AddDate(0, 0, 1)` in the location of `day`
unfoldable pub next_day : Location → Time → Time
next_day location day =
    let c = location.civil day in
    location.date c.year c.month (c.day + 1) c.hours c.minutes c.seconds c.nanos

-- `time.Date(t.Year(), t.Month(), t.Day(), 0, 0, 0, 0, location)`
unfoldable pub midnight : Location → Time → Time
midnight location t = let c = location.civil t in location.date c.year c.month c.day 0 0 0 0

unfoldable pub rule_applies_on : AvailabilityRule → Location → Time → Bool
unfolding civil_day_of civil_day
rule_applies_on rule location day =
    let key = civil_day_of (location.civil day) in
    not (elim rule.valid_from [ none ↦ false | some from ↦ ltb key (civil_day from) ])
    && not (elim rule.valid_until [ none ↦ false | some until ↦ ltb (civil_day until) key ])

-- The instant shows the wall clock `hours:minutes` on the date of `target`.
unfoldable pub shows : Location → CivilTime → ℕ → ℕ → Time → Bool
shows location target hours minutes instant =
    let local = location.civil instant in
    local.year == target.year
    && (local.month == target.month
        && (local.day == target.day
            && (local.hours == hours && (local.minutes == minutes && local.seconds == 0))))

-- The loop that fills `matches`, with the rounds left.
unfoldable pub matches_from : Location → CivilTime → ℕ → ℕ → ℕ → Time → List Time
unfolding shows
matches_from location target hours minutes zero instant = []
matches_from location target hours minutes (suc rounds) instant =
    let rest = matches_from location target hours minutes rounds (instant + minute) in
    if shows location target hours minutes instant then instant ∷ rest else rest

unfoldable pub last_or : Time → List Time → Time
last_or t [] = t
last_or t (x ∷ xs) = last_or x xs

-- `matches[0]` or `matches[len(matches)-1]`
unfoldable pub pick : Bool → List Time → Option Time
unfolding last_or
pick prefer_latest [] = none
pick prefer_latest (t ∷ ts) = some (if prefer_latest then last_or t ts else t)

-- From three hours before the anchor to three hours after it there are 361 whole minutes.
unfoldable pub wall_minute : Location → CivilTime → Bool → ℕ → Option Time
unfolding matches_from pick
wall_minute location target prefer_latest candidate =
    let hours = candidate / 60 in
    let minutes = candidate % 60 in
    let anchor = location.date target.year target.month target.day hours minutes 0 0 in
    pick prefer_latest (matches_from location target hours minutes 361 (anchor - 3 * hour))

-- The loop over `candidateMinute`, with the minutes left before 1440.
unfoldable pub local_minute_from : Location → CivilTime → Bool → ℕ → ℕ → Time
unfolding wall_minute
local_minute_from location target prefer_latest zero candidate =
    location.date target.year target.month (target.day + 1) 0 0 0 0
local_minute_from location target prefer_latest (suc rounds) candidate =
    elim (wall_minute location target prefer_latest candidate) [
      | some t ↦ t
      | none ↦ local_minute_from location target prefer_latest rounds (candidate + 1)
    ]

unfoldable pub local_minute : Location → Time → ℕ → Bool → Time
unfolding local_minute_from next_day
local_minute location day m prefer_latest =
    if m == 1440
    then local_minute_from location (location.civil (next_day location day)) prefer_latest 1440 0
    else local_minute_from location (location.civil day) prefer_latest (1440 - m) m

unfoldable pub is_weekday : ℤ → ℕ → Bool
is_weekday (pos n) w = n == w
is_weekday (negsuc n) w = false

-- The interval that one rule contributes to a date, if any.
unfoldable pub rule_interval : Location → Time → AvailabilityRule → Option WallInterval
unfolding local_minute rule_applies_on is_weekday
rule_interval location day rule =
    let start = local_minute location day (pos_part rule.start_minute) false in
    let end = local_minute location day (pos_part rule.end_minute) true in
    if not (is_weekday rule.weekday (location.civil day).weekday)
      || not (rule_applies_on rule location day)
    then none
    else if not (before start end)
    then none
    else some (record { start = start; end = end })

abbrev pub is_working : RuleKind → Bool
is_working rule_working = true
is_working _ = false

abbrev pub append_some : List WallInterval → Option WallInterval → List WallInterval
append_some xs none = xs
append_some xs (some x) = xs ++ x ∷ []

-- The loop of `intervalsForDate`, with the working intervals and the breaks found so far.
unfoldable pub intervals_from :
    Location
    → Time
    → List AvailabilityRule
    → List WallInterval
    → List WallInterval
    → List WallInterval × List WallInterval
unfolding rule_interval
intervals_from location day [] working breaks = (working, breaks)
intervals_from location day (rule ∷ rules) working breaks =
    let item = rule_interval location day rule in
    intervals_from location day rules
      (if is_working rule.kind then append_some working item else working)
      (if is_working rule.kind then breaks else append_some breaks item)

unfoldable pub intervals_for_date :
    Location → Time → List AvailabilityRule → List WallInterval × List WallInterval
unfolding intervals_from
intervals_for_date location day rules = intervals_from location day rules [] []
