-- ===== src/Scheduling/Engine/Scan.antt =====
-- What the loops of `FindSlots` keep (internal/scheduling/engine.go): a property of the slots found
-- that every `offer` keeps holds of what they return.
use kontor.Prelude.{
  ℕ, zero, suc, ◌+◌, ◌*◌, ◌≡◌, refl, Bool, true, false, List, [], ◌∷◌, some, arith, Time, before,
  after, Elem, here, there, subst, Bool-cases, inl, inr,
}
use kontor.Scheduling.Intervals.{WallInterval, merge_intervals}
use kontor.Scheduling.Calendar.{Location, next_day, intervals_for_date}
use kontor.Scheduling.Input.{SearchInput, ok}
use kontor.Scheduling.Engine.{
  Found, offer, scan_period, rounds_for, scan_periods, scan_day, scan_days,
}

-- The loop over the days reaches `day` from `first`: every day before it is not after the last one.
pub data Visits (location : Location) (last_day : Time) (first : Time) : Time → Type 0 where
  start_day : Visits location last_day first first
  later_day :
      {day : Time}
      → Visits location last_day first day
      → after day last_day ≡ false
      → Visits location last_day first (next_day location day)

module _ (i : SearchInput) (step : ℕ) (breaks busy : List WallInterval) (period : WallInterval)
    (P : Found → Type 0)
    (keep : (start k : ℕ) (f : Found)
      → start ≡ period.start + k * step
      → before start period.end ≡ true
      → f.full ≡ false
      → P f
      → P (offer i breaks busy period start f)) where
  pub scan_period-keeps :
      (rounds start k : ℕ) (f : Found)
      → start ≡ period.start + k * step
      → f.full ≡ false
      → P f
      → P (scan_period i step breaks busy period rounds start f)
  unfolding scan_period
  scan_period-keeps zero start k f e n h = h
  scan_period-keeps (suc rounds) start k f e n h = elim (Bool-cases (before start period.end)) [
    | inr over ↦ rw (over, scan_period) h
    | inl inside ↦
        let g = offer i breaks busy period start f in
        let kept = keep start k f e inside n h in
        elim (Bool-cases g.full) [
          | inl full ↦ rw (inside, full, scan_period) kept
          | inr more ↦
              rw (inside, more, scan_period)
                (scan_period-keeps rounds (start + step) (k + 1) g (grind arith) more kept)
        ]
  ]

module _ (i : SearchInput) (step : ℕ) (breaks busy : List WallInterval) (P : Found → Type 0) where
  pub scan_periods-keeps :
      (periods : List WallInterval) (f : Found)
      → ((period : WallInterval) (start k : ℕ) (f : Found)
          → Elem period periods
          → start ≡ period.start + k * step
          → before start period.end ≡ true
          → f.full ≡ false
          → P f
          → P (offer i breaks busy period start f))
      → f.full ≡ false
      → P f
      → P (scan_periods i step breaks busy periods f)
  unfolding scan_periods
  scan_periods-keeps [] f keep n h = h
  scan_periods-keeps (period ∷ periods) f keep n h =
      let g = scan_period i step breaks busy period (rounds_for step period) period.start f in
      let kept =
        scan_period-keeps i step breaks busy period P
          (λ start k f e b. keep period start k f (here refl) e b) (rounds_for step period)
          period.start 0 f (grind arith) n h in
      elim (Bool-cases g.full) [
        | inl full ↦ rw (full, scan_periods) kept
        | inr more ↦
            rw (more, scan_periods)
              (scan_periods-keeps periods g (λ q start k f m. keep q start k f (there m)) more kept)
      ]

module _ (i : SearchInput) (location : Location) (step : ℕ) (busy : List WallInterval)
    (cancelled : Time → Bool) (last_day first : Time) (P : Found → Type 0)
    (keep : (day : Time) (period : WallInterval) (start k : ℕ) (f : Found)
      → Visits location last_day first day
      → after day last_day ≡ false
      → Elem period (merge_intervals (intervals_for_date location day i.rules).0)
      → start ≡ period.start + k * step
      → before start period.end ≡ true
      → f.full ≡ false
      → P f
      → P (
          offer i
            (merge_intervals (intervals_for_date location day i.rules).1)
            busy
            period
            start
            f)) where
  scan_day-keeps :
      (day : Time) (f : Found)
      → Visits location last_day first day
      → after day last_day ≡ false
      → f.full ≡ false
      → P f
      → P (scan_day i location step busy day f)
  unfolding scan_day
  scan_day-keeps day f v d n h =
      scan_periods-keeps i step (merge_intervals (intervals_for_date location day i.rules).1) busy P
        (merge_intervals (intervals_for_date location day i.rules).0) f
        (λ period start k f. keep day period start k f v d) n h

  pub scan_days-keeps :
      (rounds day : ℕ) (f g : Found)
      → Visits location last_day first day
      → f.full ≡ false
      → P f
      → scan_days i location step busy cancelled last_day rounds day f ≡ some (ok g)
      → P g
  unfolding scan_days
  scan_days-keeps zero day f g v n h e = cc
  scan_days-keeps (suc rounds) day f g v n h e = elim (Bool-cases (after day last_day)) [
    | inl over ↦ let q : f ≡ g = ground arith in subst P q h
    | inr inside ↦
        let s = scan_day i location step busy day f in
        let kept = scan_day-keeps day f v inside n h in
        elim (Bool-cases (cancelled day)) [
          | inl stopped ↦ absurd (ground arith)
          | inr running ↦ elim (Bool-cases s.full) [
            | inl full ↦ let q : s ≡ g = ground arith in subst P q kept
            | inr more ↦
                scan_days-keeps rounds (next_day location day) s g (later_day v inside) more kept
                  (ground arith)
          ]
        ]
  ]
