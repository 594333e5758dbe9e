-- ===== src/Scheduling/Engine/Sound.antt =====
-- What every slot of `FindSlots` satisfies (internal/scheduling/engine.go).
use kontor.Prelude.{
  ℕ, suc, ◌+◌, ◌*◌, ◌≤◌, ◌<◌, ◌≡◌, refl, ◌∙◌, Bool, true, false, List, [], ◌∷◌, ◌++◌, ◌-◌, Option,
  none, some, arith, Time, before, pos_part, ℤ, Elem, All, All-append, length, length-append,
  Bool-cases, inl, inr, ◌⊎◌, ltb, ltb→lt, ◌||◌,
}
use kontor.Scheduling.Intervals.{WallInterval, merge_intervals}
use kontor.Scheduling.Calendar.{Location, intervals_for_date, midnight}
use kontor.Scheduling.Input.{Slot, SearchInput, Engine, Result, ok, err, validate, buffered}
use kontor.Scheduling.Engine.{
  Found, slot_at, is_seen, is_open, limit_reached, offer, insert_slot, sort_slots, scan_days,
  find_slots, finish,
}
use kontor.Scheduling.Engine.Scan.{Visits, start_day, scan_days-keeps}

-- A slot that the rules and the busy intervals allow: on the grid of a working period of a visited
-- day, and past every test of the loop.
pub record Offered (i : SearchInput) (location : Location) (step : ℕ) (busy : List WallInterval)
    (last_day first : Time) (s : Slot) : Type 0 where
  pub day : Time
  pub period : WallInterval
  pub k : ℕ
  pub visited : Visits location last_day first day
  pub working : Elem period (merge_intervals (intervals_for_date location day i.rules).0)
  pub on_grid : s.start ≡ period.start + k * step
  pub free :
      is_open i (merge_intervals (intervals_for_date location day i.rules).1) busy period s.start
      ≡ true
  pub whole : s ≡ slot_at i s.start

-- No start occurs twice.
abbrev IsDistinct : List Slot → Type 0
IsDistinct [] = Unit
IsDistinct (x ∷ xs) = (is_seen x.start xs ≡ false) × IsDistinct xs

-- Strictly later and later starts.
abbrev Behind : ℕ → List Slot → Type 0
Behind b [] = Unit
Behind b (x ∷ xs) = (b < x.start) × Behind x.start xs

abbrev pub IsAscending : List Slot → Type 0
IsAscending [] = Unit
IsAscending (x ∷ xs) = Behind x.start xs

pub is_seen-append :
    (t : Time) (xs ys : List Slot) → is_seen t (xs ++ ys) ≡ (is_seen t xs || is_seen t ys)
unfolding is_seen
is_seen-append t [] ys = refl
is_seen-append t (x ∷ xs) ys = ground (arith, is_seen-append t xs ys)

IsDistinct-append :
    (s : Slot) (xs : List Slot)
    → is_seen s.start xs ≡ false
    → IsDistinct xs
    → IsDistinct (xs ++ s ∷ [])
unfolding is_seen
IsDistinct-append s [] n d = (refl, tt)
IsDistinct-append s (x ∷ xs) n d =
    (ground (arith, is_seen-append x.start xs (s ∷ [])), IsDistinct-append s xs (ground arith) d.1)

is_seen-insert_slot :
    (t : Time) (x : Slot) (ys : List Slot) → is_seen t (insert_slot x ys) ≡ (is_seen t (x ∷ ys))
unfolding is_seen insert_slot
is_seen-insert_slot t x [] = refl
is_seen-insert_slot t x (y ∷ ys) = ground (arith, is_seen-insert_slot t x ys)

pub is_seen-sort_slots : (t : Time) (xs : List Slot) → is_seen t (sort_slots xs) ≡ is_seen t xs
unfolding is_seen sort_slots
is_seen-sort_slots t [] = refl
is_seen-sort_slots t (x ∷ xs) =
    ground (arith, is_seen-insert_slot t x (sort_slots xs), is_seen-sort_slots t xs)

Behind-insert_slot :
    (b : ℕ) (x : Slot) (ys : List Slot)
    → b < x.start
    → is_seen x.start ys ≡ false
    → Behind b ys
    → Behind b (insert_slot x ys)
unfolding is_seen insert_slot
Behind-insert_slot b x [] h n a = (h, tt)
Behind-insert_slot b x (y ∷ ys) h n a =
    ground (arith, λ (p : y.start < x.start). Behind-insert_slot y.start x ys p (ground arith) a.1)

IsAscending-insert_slot :
    (x : Slot) (ys : List Slot)
    → is_seen x.start ys ≡ false
    → IsAscending ys
    → IsAscending (insert_slot x ys)
unfolding is_seen insert_slot
IsAscending-insert_slot x [] n a = tt
IsAscending-insert_slot x (y ∷ ys) n a =
    ground (arith, λ (p : y.start < x.start). Behind-insert_slot y.start x ys p (ground arith) a)

IsAscending-sort_slots : (xs : List Slot) → IsDistinct xs → IsAscending (sort_slots xs)
unfolding sort_slots
IsAscending-sort_slots [] d = tt
IsAscending-sort_slots (x ∷ xs) d =
    IsAscending-insert_slot x (sort_slots xs) (is_seen-sort_slots x.start xs ∙ d.0)
      (IsAscending-sort_slots xs d.1)

module _ {κ} (Q : Slot → Type κ) where
  All-insert_slot : (x : Slot) (ys : List Slot) → Q x → All Q ys → All Q (insert_slot x ys)
  unfolding insert_slot
  All-insert_slot x [] q a = (q, tt)
  All-insert_slot x (y ∷ ys) q a = elim (Bool-cases (before y.start x.start)) [
    | inl less ↦ rw less (a.0, All-insert_slot x ys q a.1)
    | inr other ↦ rw other (q, a)
  ]

  All-sort_slots : (xs : List Slot) → All Q xs → All Q (sort_slots xs)
  unfolding sort_slots
  All-sort_slots [] a = tt
  All-sort_slots (x ∷ xs) a = All-insert_slot x (sort_slots xs) a.0 (All-sort_slots xs a.1)

length-insert_slot : (x : Slot) (ys : List Slot) → length (insert_slot x ys) ≡ suc (length ys)
unfolding insert_slot
length-insert_slot x [] = refl
length-insert_slot x (y ∷ ys) = ground (arith, length-insert_slot x ys)

length-sort_slots : (xs : List Slot) → length (sort_slots xs) ≡ length xs
unfolding sort_slots
length-sort_slots [] = refl
length-sort_slots (x ∷ xs) =
    omega (arith, length-insert_slot x (sort_slots xs), length-sort_slots xs)

-- A limit that is set holds, strictly while the search goes on.
record IsWithin (limit : ℕ) (f : Found) : Type 0 where
  bounded : 0 < limit → length f.slots ≤ limit
  roomy : 0 < limit → f.full ≡ false → length f.slots < limit

IsWithin-append :
    (limit : ℤ) (s : Slot) (f : Found)
    → f.full ≡ false
    → IsWithin (pos_part limit) f
    → IsWithin
        (pos_part limit)
        (record { slots = f.slots ++ s ∷ []; full = limit_reached limit (f.slots ++ s ∷ []) })
unfolding limit_reached
IsWithin-append limit s f n h =
    let one = length-append f.slots (s ∷ []) in
    record {
      bounded = λ p. omega (arith, one, h.roomy p n);
      roomy = λ p q. ground (arith, one, h.roomy p n);
    }

module _ (i : SearchInput) (location : Location) (step : ℕ) (busy : List WallInterval)
    (last_day first : Time) where
  record IsSound (f : Found) : Type 0 where
    offered : All (Offered i location step busy last_day first) f.slots
    distinct : IsDistinct f.slots
    within : IsWithin (pos_part i.limit) f

  offer-IsSound :
      (day : Time) (period : WallInterval) (start k : ℕ) (f : Found)
      → Visits location last_day first day
      → Elem period (merge_intervals (intervals_for_date location day i.rules).0)
      → start ≡ period.start + k * step
      → f.full ≡ false
      → IsSound f
      → IsSound (
          offer i (merge_intervals (intervals_for_date location day i.rules).1) busy period start f)
  unfolding offer slot_at
  offer-IsSound day period start k f v m e n h =
      let breaks = merge_intervals (intervals_for_date location day i.rules).1 in
      elim (Bool-cases (is_open i breaks busy period start)) [
        | inr shut ↦ rw (shut, offer) h
        | inl free ↦ elim (Bool-cases (is_seen start f.slots)) [
          | inl seen ↦ rw (free, seen, offer) h
          | inr new ↦
              let s = slot_at i start in
              let good : Offered i location step busy last_day first s = record {
                day = day;
                period = period;
                k = k;
                visited = v;
                working = m;
                on_grid = e;
                free = free;
                whole = refl;
              } in
              rw (free, new, offer)
                (record {
                  offered = All-append _ f.slots (s ∷ []) h.offered (good, tt);
                  distinct = IsDistinct-append s f.slots new h.distinct;
                  within = IsWithin-append i.limit s f n h.within;
                })
        ]
      ]

  scan_days-IsSound :
      (cancelled : Time → Bool) (rounds : ℕ) (g : Found)
      → scan_days i location step busy cancelled last_day rounds first
          (record { slots = []; full = false })
        ≡ some (ok g)
      → IsSound g
  scan_days-IsSound cancelled rounds g e =
      scan_days-keeps i location step busy cancelled last_day first IsSound
        (λ day period start k f v d m q b n h. offer-IsSound day period start k f v m q n h) rounds
        first _ g start_day refl
        (record {
          offered = tt;
          distinct = tt;
          within = record { bounded = λ p. omega arith; roomy = λ p q. omega arith };
        })
        e

finish-ok :
    (r : Option (Result Found)) (slots : List Slot)
    → finish r ≡ some (ok slots)
    → (g : Found) × (r ≡ some (ok g)) × (slots ≡ sort_slots g.slots)
unfolding finish
finish-ok none slots h = absurd (ground arith)
finish-ok (some (err x)) slots h = absurd (ground arith)
finish-ok (some (ok g)) slots h = (g, refl, ground arith)

-- The input is valid, and its checks gave this location, step and buffered busy intervals.
pub record Accepts (e : Engine) (i : SearchInput) (location : Location) (step : ℕ)
    (busy : List WallInterval) : Type 0 where
  pub valid : validate e i ≡ ok (location, step)
  pub buffers : buffered i.busy ≡ some busy

pub find_slots-ok :
    (e : Engine) (cancelled : Time → Bool) (rounds : ℕ) (i : SearchInput) (location : Location)
    (step : ℕ) (busy : List WallInterval) (slots : List Slot)
    → Accepts e i location step busy
    → find_slots e cancelled rounds i ≡ some (ok slots)
    → (g : Found) × (scan_days i location step busy cancelled
          (midnight location (i.to - 1))
          rounds
          (midnight location i.from)
          (record { slots = []; full = false })
        ≡ some (ok g))
      × (slots ≡ sort_slots g.slots)
unfolding find_slots
find_slots-ok e cancelled rounds i location step busy slots a h =
    finish-ok _ slots (rw (a.valid, a.buffers, find_slots) at h)

-- Every slot that the search returns was allowed: it starts on the grid of a working period of a
-- visited day, passed every test of the loop, and has the service's length and the staff member's
-- identifier. The starts strictly increase, and a limit that is set holds.
pub find_slots_sound :
    (e : Engine) (cancelled : Time → Bool) (rounds : ℕ) (i : SearchInput) (location : Location)
    (step : ℕ) (busy : List WallInterval) (slots : List Slot)
    → Accepts e i location step busy
    → find_slots e cancelled rounds i ≡ some (ok slots)
    → All
        (Offered i location step busy (midnight location (i.to - 1)) (midnight location i.from))
        slots
      × IsAscending slots
      × ((pos_part i.limit ≡ 0) ⊎ (length slots ≤ pos_part i.limit))
find_slots_sound e cancelled rounds i location step busy slots a h =
    let (g, scanned, sorted) = find_slots-ok e cancelled rounds i location step busy slots a h in
    let v =
      scan_days-IsSound i location step busy (midnight location (i.to - 1))
        (midnight location i.from) cancelled rounds g scanned in
    rw sorted (
      All-sort_slots _ g.slots v.offered,
      IsAscending-sort_slots g.slots v.distinct,
      elim (Bool-cases (ltb 0 (pos_part i.limit))) [
        | inl set ↦ inr (
            omega (
              arith,
              length-sort_slots g.slots,
              v.within.bounded (ltb→lt 0 (pos_part i.limit) set),
            ))
        | inr unset ↦ inl (ground arith)
      ],
    )
