-- ===== src/Scheduling/Engine/Complete.antt =====
-- Without a limit `FindSlots` misses nothing (internal/scheduling/engine.go).
use kontor.Prelude.{
  ℕ, zero, suc, ◌+◌, ◌-◌, ◌*◌, ◌/◌, ◌<◌, ◌≡◌, refl, Bool, true, false, List, [], ◌∷◌, some, arith,
  Time, Duration, before, after, pos, Elem, here, there, subst,
}
use kontor.Scheduling.Intervals.{WallInterval, merge_intervals}
use kontor.Scheduling.Calendar.{Location, intervals_for_date, midnight, next_day}
use kontor.Scheduling.Input.{SearchInput, Slot, Engine, ok, choose_step, validate}
use kontor.Scheduling.Engine.{
  Found, is_seen, is_open, offer, slot_at, scan_period, rounds_for, scan_periods, scan_day,
  scan_days, find_slots,
}
use kontor.Scheduling.Engine.Scan.{
  Visits, start_day, later_day, scan_period-keeps, scan_periods-keeps, scan_days-keeps,
}
use kontor.Scheduling.Engine.Sound.{Accepts, find_slots-ok, is_seen-append, is_seen-sort_slots}

-- The slot that starts at `t` has been found.
abbrev HasSlot : Time → Found → Type 0
HasSlot t f = is_seen t f.slots ≡ true

enough_rounds :
    (k start end step : ℕ)
    → 0 < step
    → before (start + k * step) end ≡ true
    → k < (end - start) / step + 1
enough_rounds k start end step p h = grind arith

module _ (i : SearchInput) (unlimited : i.limit ≡ pos 0) where
  offer-HasSlot :
      (breaks busy : List WallInterval) (period : WallInterval) (start t : Time) (f : Found)
      → HasSlot t f
      → HasSlot t (offer i breaks busy period start f)
  unfolding offer
  offer-HasSlot breaks busy period start t f h =
      ground (arith, is_seen-append t f.slots (slot_at i start ∷ []))

  offer-full :
      (breaks busy : List WallInterval) (period : WallInterval) (start : Time) (f : Found)
      → f.full ≡ false
      → (offer i breaks busy period start f).full ≡ false
  unfolding offer
  offer-full breaks busy period start f h = ground (arith, unlimited)

  offer_open :
      (breaks busy : List WallInterval) (period : WallInterval) (start : Time) (f : Found)
      → is_open i breaks busy period start ≡ true
      → HasSlot start (offer i breaks busy period start f)
  unfolding offer is_seen
  offer_open breaks busy period start f h =
      ground (arith, is_seen-append start f.slots (slot_at i start ∷ []))

  module _ (step : ℕ) (breaks busy : List WallInterval) where
    scan_period_complete :
        (period : WallInterval) (rounds start j k t : ℕ) (f : Found)
        → start ≡ period.start + j * step
        → t ≡ start + k * step
        → k < rounds
        → before t period.end ≡ true
        → is_open i breaks busy period t ≡ true
        → f.full ≡ false
        → HasSlot t (scan_period i step breaks busy period rounds start f)
    unfolding scan_period
    scan_period_complete period zero start j k t f e q h b o n = absurd (omega arith)
    scan_period_complete period (suc rounds) start j zero t f e q h b o n =
        let g = offer i breaks busy period start f in
        let more = offer-full breaks busy period start f n in
        let same : start ≡ t = omega arith in
        let inside : before start period.end ≡ true = rw same b in
        let found = offer_open breaks busy period start f (rw same o) in
        rw (inside, more, scan_period)
          (scan_period-keeps i step breaks busy period (HasSlot t)
            (λ s m x c d u. offer-HasSlot breaks busy period s t x) rounds (start + step) (j + 1) g
            (grind arith) more (subst (λ u. HasSlot u g) same found))
    scan_period_complete period (suc rounds) start j (suc k) t f e q h b o n =
        let g = offer i breaks busy period start f in
        let more = offer-full breaks busy period start f n in
        let inside : before start period.end ≡ true = ground arith in
        rw (inside, more, scan_period)
          (scan_period_complete period rounds (start + step) (j + 1) k t g (grind arith)
            (grind arith) (omega arith) b o more)

    scan_period-full :
        (period : WallInterval) (f : Found)
        → f.full ≡ false
        → (scan_period i step breaks busy period (rounds_for step period) period.start f).full
          ≡ false
    scan_period-full period f n =
        scan_period-keeps i step breaks busy period (λ x. x.full ≡ false)
          (λ s m x c d u v. offer-full breaks busy period s x v) (rounds_for step period)
          period.start 0 f (grind arith) n n

    scan_periods_complete :
        (periods : List WallInterval) (period : WallInterval) (k t : ℕ) (f : Found)
        → 0 < step
        → Elem period periods
        → t ≡ period.start + k * step
        → before t period.end ≡ true
        → is_open i breaks busy period t ≡ true
        → f.full ≡ false
        → HasSlot t (scan_periods i step breaks busy periods f)
    unfolding scan_periods rounds_for
    scan_periods_complete [] period k t f p m q b o n = elim m [ ]
    scan_periods_complete (x ∷ xs) period k t f p (here e) q b o n =
        let g = scan_period i step breaks busy x (rounds_for step x) x.start f in
        let more = scan_period-full x f n in
        let at : t ≡ x.start + k * step = rw (← e) q in
        let found : HasSlot t g =
          scan_period_complete x (rounds_for step x) x.start 0 k t f (grind arith) at
            (enough_rounds k x.start x.end step p (rw (← at, ← e) b)) (rw (← e) b) (rw (← e) o) n in
        rw (more, scan_periods)
          (scan_periods-keeps i step breaks busy (HasSlot t) xs g
            (λ w s m y c d u v. offer-HasSlot breaks busy w s t y) more found)
    scan_periods_complete (x ∷ xs) period k t f p (there m) q b o n =
        let g = scan_period i step breaks busy x (rounds_for step x) x.start f in
        let more = scan_period-full x f n in
        rw (more, scan_periods) (scan_periods_complete xs period k t g p m q b o more)

    scan_periods-full :
        (periods : List WallInterval) (f : Found)
        → f.full ≡ false
        → (scan_periods i step breaks busy periods f).full ≡ false
    scan_periods-full periods f n =
        scan_periods-keeps i step breaks busy (λ x. x.full ≡ false) periods f
          (λ w s m y c d u v. offer-full breaks busy w s y) n n

  module _ (location : Location) (step : ℕ) (busy : List WallInterval) (cancelled : Time → Bool)
      (last_day first : Time) where
    scan_day-full :
        (day : Time) (f : Found)
        → f.full ≡ false
        → (scan_day i location step busy day f).full ≡ false
    unfolding scan_day
    scan_day-full day f n = scan_periods-full step _ busy _ f n

    one_day :
        (rounds day : ℕ) (f g : Found)
        → f.full ≡ false
        → scan_days i location step busy cancelled last_day rounds day f ≡ some (ok g)
        → after day last_day ≡ false
        → (m : ℕ) × (scan_days i location step busy cancelled last_day m
              (next_day location day)
              (scan_day i location step busy day f)
            ≡ some (ok g))
    unfolding scan_days
    one_day zero day f g n e inside = absurd (ground arith)
    one_day (suc m) day f g n e inside = (m, ground (arith, scan_day-full day f n))

    -- The loop goes on from every visited day.
    reaches :
        (rounds : ℕ) (f g : Found) {day : Time}
        → f.full ≡ false
        → scan_days i location step busy cancelled last_day rounds first f ≡ some (ok g)
        → Visits location last_day first day
        → after day last_day ≡ false
        → (m : ℕ) × (h : Found) × (h.full ≡ false)
          × (scan_days i location step busy cancelled last_day m
                (next_day location day)
                (scan_day i location step busy day h)
              ≡ some (ok g))
    reaches rounds f g n e start_day inside =
        let (m, q) = one_day rounds first f g n e inside in (m, f, n, q)
    reaches rounds f g n e (later_day {day = d} v before_it) inside =
        let (m, h, open_h, q) = reaches rounds f g n e v before_it in
        let next = scan_day i location step busy d h in
        let (m', q') = one_day m (next_day location d) next g (scan_day-full d h open_h) q inside in
        (m', next, scan_day-full d h open_h, q')

    scan_days_complete :
        (rounds : ℕ) (f g : Found) (day : Time) (period : WallInterval) (k t : ℕ)
        → f.full ≡ false
        → scan_days i location step busy cancelled last_day rounds first f ≡ some (ok g)
        → Visits location last_day first day
        → after day last_day ≡ false
        → 0 < step
        → Elem period (merge_intervals (intervals_for_date location day i.rules).0)
        → t ≡ period.start + k * step
        → before t period.end ≡ true
        → is_open i (merge_intervals (intervals_for_date location day i.rules).1) busy period t
          ≡ true
        → HasSlot t g
    unfolding scan_day
    scan_days_complete rounds f g day period k t n e v inside p m q b o =
        let (rest, h, open_h, go) = reaches rounds f g n e v inside in
        let breaks = merge_intervals (intervals_for_date location day i.rules).1 in
        let found =
          scan_periods_complete step breaks busy
            (merge_intervals (intervals_for_date location day i.rules).0) period k t h p m q b o
            open_h in
        scan_days-keeps i location step busy cancelled last_day (next_day location day) (HasSlot t)
          (λ d w s j y a c r u x z. offer-HasSlot _ busy w s t y) rest (next_day location day)
          (scan_day i location step busy day h) g start_day (scan_day-full day h open_h) found go

choose_step-pos : (d : Duration) (step : ℕ) → choose_step d ≡ some step → 0 < step
unfolding choose_step
choose_step-pos d step h = ground arith

pub validate_step :
    (e : Engine) (i : SearchInput) (location : Location) (step : ℕ)
    → validate e i ≡ ok (location, step)
    → 0 < step
unfolding validate
validate_step e i location step h = ground (arith, choose_step-pos i.slot_interval step)

-- Without a limit, a successful search offers every start on the grid of a working period of a
-- visited day that passes the tests of the loop.
pub find_slots_complete :
    (e : Engine) (cancelled : Time → Bool) (rounds : ℕ) (i : SearchInput) (location : Location)
    (step : ℕ) (busy : List WallInterval) (slots : List Slot) (day : Time) (period : WallInterval)
    (k t : ℕ)
    → Accepts e i location step busy
    → i.limit ≡ pos 0
    → find_slots e cancelled rounds i ≡ some (ok slots)
    → Visits location (midnight location (i.to - 1)) (midnight location i.from) day
    → after day (midnight location (i.to - 1)) ≡ false
    → Elem period (merge_intervals (intervals_for_date location day i.rules).0)
    → t ≡ period.start + k * step
    → before t period.end ≡ true
    → is_open i (merge_intervals (intervals_for_date location day i.rules).1) busy period t ≡ true
    → is_seen t slots ≡ true
find_slots_complete e cancelled rounds i location step busy slots day period k t a l h v inside m q
      b o =
    let (g, scanned, sorted) = find_slots-ok e cancelled rounds i location step busy slots a h in
    let found =
      scan_days_complete i l location step busy cancelled (midnight location (i.to - 1))
        (midnight location i.from) rounds _ g day period k t refl scanned v inside
        (validate_step e i location step a.valid) m q b o in
    rw (sorted, is_seen-sort_slots) found
