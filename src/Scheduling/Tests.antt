-- ===== src/Scheduling/Tests.antt =====
-- Runs of the slot search (internal/scheduling/engine.go) on one working day of two hours with a
-- break and a busy interval. The zone's calendar is that of one endless month.
use kontor.Prelude.{
  ℕ, ◌+◌, ◌*◌, ◌/◌, ◌%◌, ◌<◌, ◌≤◌, ◌≡◌, refl, ◌⊎◌, true, false, none, some, List, [], ◌∷◌, arith,
  Time, pos, minute, hour, second, here, All, any, length, pos_part, ◌-◌,
}
use kontor.Scheduling.Intervals.{WallInterval, merge_intervals, overlaps_any}
use kontor.Scheduling.Intervals.Merge.{merge_intervals_lem, IsSeparated, contains}
use kontor.Scheduling.Intervals.Overlap.{overlaps_any-merge_intervals}
use kontor.Scheduling.Calendar.{
  Location, AvailabilityRule, rule_working, rule_break, next_day, midnight, intervals_for_date,
}
use kontor.Scheduling.Input.{Slot, SearchInput, Engine, ok, validate, buffered, range_check}
use kontor.Scheduling.Engine.{
  find_slots, is_seen, is_open, scan_days, scan_day, scan_periods, scan_period, offer, sort_slots,
}
use kontor.Scheduling.Engine.Scan.{start_day}
use kontor.Scheduling.Engine.Sound.{Accepts, Offered, IsAscending, find_slots_sound}
use kontor.Scheduling.Engine.Free.{IsFree, Offered-IsFree}
use kontor.Scheduling.Engine.Complete.{find_slots_complete}
use kontor.Scheduling.Engine.Total.{find_slots_total}

abbrev day_length : ℕ
day_length = 24 * hour

abbrev utc : Location
utc = record {
  civil = λ t. record {
    year = 1;
    month = 1;
    day = t / day_length;
    hours = t / hour % 24;
    minutes = t / minute % 60;
    seconds = t / second % 60;
    nanos = t % second;
    weekday = t / day_length % 7;
  };
  date = λ y m d h mi s n. d * day_length + h * hour + mi * minute + s * second + n;
}

abbrev at : ℕ → ℕ → Time
at h m = 3 * day_length + h * hour + m * minute

abbrev engine : Engine
engine = record { location = some utc; load_location = λ name. none }

abbrev rules : List AvailabilityRule
rules =
    record {
      kind = rule_working;
      weekday = pos 3;
      start_minute = pos 540;
      end_minute = pos 660;
      valid_from = none;
      valid_until = none;
    }
    ∷ record {
      kind = rule_break;
      weekday = pos 3;
      start_minute = pos 570;
      end_minute = pos 600;
      valid_from = none;
      valid_until = none;
    }
    ∷ []

abbrev search_input : SearchInput
search_input = record {
  service = record {
    id = "svc";
    slug = "";
    name = "";
    description = "";
    duration = pos (30 * minute);
    buffer_before = pos 0;
    buffer_after = pos 0;
    price_minor = pos 0;
    currency = "";
  };
  staff = record { id = "stf"; slug = ""; display_name = ""; timezone = "" };
  from = at 0 0;
  to = at 24 0;
  rules = rules;
  busy =
      record { start = at 10 30; end = at 10 45; buffer_before = pos 0; buffer_after = pos 0 } ∷ [];
  slot_interval = pos (30 * minute);
  limit = pos 0;
}

abbrev busy_times : List WallInterval
busy_times = record { start = at 10 30; end = at 10 45 } ∷ []

abbrev slot_of : Time → Slot
slot_of t = record { service_id = "svc"; staff_id = "stf"; start = t; end = t + 30 * minute }

abbrev free_slots : List Slot
free_slots = slot_of (at 9 0) ∷ slot_of (at 10 0) ∷ []

accepted : Accepts engine search_input utc (30 * minute) busy_times
unfolding validate buffered
accepted = record { valid = refl; buffers = refl }

found : find_slots engine (λ d. false) 2 search_input ≡ some (ok free_slots)
unfolding find_slots validate buffered scan_days midnight scan_day scan_periods merge_intervals
    intervals_for_date scan_period offer overlaps_any sort_slots
found = refl

abbrev last_day : Time
last_day = midnight utc (search_input.to - 1)

abbrev first_day : Time
first_day = midnight utc search_input.from

find_slots_sound_example :
    All (Offered search_input utc (30 * minute) busy_times last_day first_day) free_slots
    × IsAscending free_slots
    × ((pos_part search_input.limit ≡ 0) ⊎ (length free_slots ≤ pos_part search_input.limit))
find_slots_sound_example =
    find_slots_sound engine (λ d. false) 2 search_input utc (30 * minute) busy_times free_slots
      accepted found

abbrev first_offer :
    Offered search_input utc (30 * minute) busy_times last_day first_day (slot_of (at 9 0))
first_offer =
    (find_slots_sound engine (λ d. false) 2 search_input utc (30 * minute) busy_times free_slots
      accepted found).0.0

Offered-IsFree_example :
    IsFree search_input utc busy_times first_offer.day first_offer.period (slot_of (at 9 0))
unfolding range_check
Offered-IsFree_example =
    Offered-IsFree search_input utc (30 * minute) busy_times last_day first_day (slot_of (at 9 0))
      refl first_offer

abbrev working_period : WallInterval
working_period = record { start = at 9 0; end = at 11 0 }

find_slots_complete_example : is_seen (at 10 0) free_slots ≡ true
unfolding midnight merge_intervals intervals_for_date is_open overlaps_any
find_slots_complete_example =
    find_slots_complete engine (λ d. false) 2 search_input utc (30 * minute) busy_times free_slots
      first_day working_period 2 (at 10 0) accepted refl found start_day refl (here refl) refl refl
      refl

advances : (d : Time) → d < next_day utc d
unfolding next_day
advances d = omega arith

find_slots_total_example :
    (slots : List Slot) × (find_slots engine (λ d. false) (day_length + 2) search_input
      ≡ some (ok slots))
unfolding midnight
find_slots_total_example =
    find_slots_total engine (λ d. false) (day_length + 2) search_input utc (30 * minute) busy_times
      accepted (λ d. refl) advances (omega arith)

abbrev two_breaks : List WallInterval
two_breaks =
    record { start = at 10 0; end = at 11 0 } ∷ record { start = at 9 0; end = at 10 0 } ∷ []

merge_intervals_lem_example :
    IsSeparated (merge_intervals two_breaks)
    × ((t : Time) → any (contains t) (merge_intervals two_breaks) ≡ any (contains t) two_breaks)
merge_intervals_lem_example = merge_intervals_lem two_breaks (omega arith, (omega arith, tt))

overlaps_any-merge_intervals_example :
    overlaps_any (record { start = at 10 30; end = at 12 0 }) (merge_intervals two_breaks)
    ≡ overlaps_any (record { start = at 10 30; end = at 12 0 }) two_breaks
overlaps_any-merge_intervals_example =
    overlaps_any-merge_intervals (record { start = at 10 30; end = at 12 0 }) two_breaks
      (omega arith)
