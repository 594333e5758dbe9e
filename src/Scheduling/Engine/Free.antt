-- ===== src/Scheduling/Engine/Free.antt =====
-- What the tests of the loop mean for an offered slot (internal/scheduling/engine.go).
use kontor.Prelude.{
  ℕ, ◌≤◌, ◌≡◌, Bool, true, false, none, List, [], ◌∷◌, arith, Time, add, any, Elem, here, there,
  sym, ◌∙◌,
}
use kontor.Scheduling.Intervals.{WallInterval, merge_intervals, overlaps, overlaps_any}
use kontor.Scheduling.Intervals.Merge.{IsProper, contains}
use kontor.Scheduling.Intervals.Overlap.{overlaps_any-merge_intervals, overlaps-disjoint}
use kontor.Scheduling.Calendar.{Location, intervals_for_date}
use kontor.Scheduling.Input.{Slot, SearchInput, range_check}
use kontor.Scheduling.Engine.{occupied, is_open}
use kontor.Scheduling.Engine.Sound.{Offered}

any-Elem :
    (p : WallInterval → Bool) (w : WallInterval) (ws : List WallInterval)
    → any p ws ≡ false
    → Elem w ws
    → p w ≡ false
any-Elem p w [] h m = elim m [ ]
any-Elem p w (x ∷ ws) h (here e) = ground arith
any-Elem p w (x ∷ ws) h (there m) = any-Elem p w ws (ground arith) m

occupied-IsProper :
    (i : SearchInput) (start : Time) → range_check i ≡ none → IsProper (occupied i start)
unfolding occupied range_check
occupied-IsProper i start h = ground arith

-- The slot is free: what the tests of the loop are there for.
pub record IsFree (i : SearchInput) (location : Location) (busy : List WallInterval) (day : Time)
    (period : WallInterval) (s : Slot) : Type 0 where
  pub after_from : i.from ≤ s.start
  pub before_to : add s.start i.service.duration ≤ i.to
  pub in_period : add s.start i.service.duration ≤ period.end
  pub no_busy :
      (w : WallInterval) (t : Time)
      → Elem w busy
      → contains t (occupied i s.start) ≡ true
      → contains t w ≡ false
  pub no_break :
      (w : WallInterval) (t : Time)
      → Elem w (intervals_for_date location day i.rules).1
      → contains t (occupied i s.start) ≡ true
      → contains t w ≡ false

open_parts :
    (i : SearchInput) (breaks busy : List WallInterval) (period : WallInterval) (start : Time)
    → is_open i breaks busy period start ≡ true
    → (i.from ≤ start)
      × (add start i.service.duration ≤ i.to)
      × (add start i.service.duration ≤ period.end)
      × (overlaps_any (occupied i start) breaks ≡ false)
      × (overlaps_any (occupied i start) busy ≡ false)
unfolding is_open
open_parts i breaks busy period start h = ground arith

-- For a search whose range check passes, a slot that was offered lies in the range asked for and
-- inside its working period, and the time that it occupies, buffers included, shares no instant with
-- a busy interval or a break of its day.
pub Offered-IsFree :
    (i : SearchInput) (location : Location) (step : ℕ) (busy : List WallInterval)
    (last_day first : Time) (s : Slot)
    → range_check i ≡ none
    → (o : Offered i location step busy last_day first s) → IsFree i location busy o.day o.period s
unfolding overlaps_any
Offered-IsFree i location step busy last_day first s r o =
    let breaks = (intervals_for_date location o.day i.rules).1 in
    let window = occupied i s.start in
    let (a, b, c, rest, taken) =
      open_parts i (merge_intervals breaks) busy o.period s.start o.free in
    let raw =
      sym (overlaps_any-merge_intervals window breaks (occupied-IsProper i s.start r)) ∙ rest in
    record {
      after_from = a;
      before_to = b;
      in_period = c;
      no_busy =
          λ w t m h. overlaps-disjoint window w t (any-Elem (overlaps window) w busy taken m) h;
      no_break =
          λ w t m h. overlaps-disjoint window w t (any-Elem (overlaps window) w breaks raw m) h;
    }
