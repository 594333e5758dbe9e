-- ===== src/Scheduling/Intervals/Merge.antt =====
-- What `mergeIntervals` keeps and what it establishes (internal/scheduling/engine.go).
use kontor.Prelude.{
  ℕ, ◌≤◌, ◌<◌, ◌≡◌, refl, ◌∙◌, Bool, ◌&&◌, ◌||◌, List, [], ◌∷◌, arith, Time, before, after, leb,
  any, All, ltb→lt, Bool-cases, inl, inr,
}
use kontor.Scheduling.Intervals.{
  WallInterval, insert_sorted, sort_intervals, merge_from, merge_sorted, merge_intervals,
}

-- The starts do not fall along the list, from `b` on.
abbrev pub Above : ℕ → List WallInterval → Type 0
Above b [] = Unit
Above b (x ∷ xs) = (b ≤ x.start) × Above x.start xs

Above-insert_sorted :
    (b : ℕ) (x : WallInterval) (ys : List WallInterval)
    → b ≤ x.start
    → Above b ys
    → Above b (insert_sorted x ys)
unfolding insert_sorted
Above-insert_sorted b x [] h a = (h, tt)
Above-insert_sorted b x (y ∷ ys) h a =
    ground (arith, λ (p : y.start ≤ x.start). Above-insert_sorted y.start x ys p a.1)

Above-sort_intervals : (xs : List WallInterval) → Above 0 (sort_intervals xs)
unfolding sort_intervals
Above-sort_intervals [] = tt
Above-sort_intervals (x ∷ xs) =
    Above-insert_sorted 0 x (sort_intervals xs) (omega arith) (Above-sort_intervals xs)

-- A property of intervals that a union of two touching intervals has when one of them has it.
pub record IsJoined (p : WallInterval → Bool) : Type 0 where
  pub grow :
      (l i : WallInterval)
      → l.start ≤ i.start
      → i.start ≤ l.end
      → l.end < i.end
      → p (record l { end = i.end }) ≡ (p l || p i)
  pub keep : (l i : WallInterval) → l.start ≤ i.start → i.end ≤ l.end → (p l || p i) ≡ p l

Above-mono : {a b : ℕ} (xs : List WallInterval) → a ≤ b → Above b xs → Above a xs
Above-mono [] h u = tt
Above-mono (x ∷ xs) h u = (omega arith, u.1)

module _ (p : WallInterval → Bool) where
  any-insert_sorted :
      (x : WallInterval) (ys : List WallInterval) → any p (insert_sorted x ys) ≡ (p x || any p ys)
  unfolding insert_sorted
  any-insert_sorted x [] = refl
  any-insert_sorted x (y ∷ ys) = ground (arith, any-insert_sorted x ys)

  any-sort_intervals : (xs : List WallInterval) → any p (sort_intervals xs) ≡ any p xs
  unfolding sort_intervals
  any-sort_intervals [] = refl
  any-sort_intervals (x ∷ xs) = rw (any-insert_sorted, any-sort_intervals xs)

  any-merge_from :
      (last : WallInterval) (items : List WallInterval)
      → IsJoined p
      → Above last.start items
      → any p (merge_from last items) ≡ (p last || any p items)
  unfolding merge_from
  any-merge_from last [] j a = refl
  any-merge_from last (x ∷ xs) j a =
      let lower : Above last.start xs = Above-mono xs a.0 a.1 in
      let wide = any-merge_from (record last { end = x.end }) xs j lower in
      let same = any-merge_from last xs j lower in
      let apart = any-merge_from x xs j a.1 in
      ground (arith, wide, same, apart, j.grow last x, j.keep last x)

  any-merge_sorted :
      (xs : List WallInterval) → IsJoined p → Above 0 xs → any p (merge_sorted xs) ≡ any p xs
  unfolding merge_sorted
  any-merge_sorted [] j a = refl
  any-merge_sorted (x ∷ xs) j a = any-merge_from x xs j a.1

  pub any-merge_intervals :
      (xs : List WallInterval) → IsJoined p → any p (merge_intervals xs) ≡ any p xs
  unfolding merge_intervals
  any-merge_intervals [] j = refl
  any-merge_intervals (x ∷ []) j = refl
  any-merge_intervals (x ∷ y ∷ zs) j =
      let xs = x ∷ y ∷ zs in
      any-merge_sorted (sort_intervals xs) j (Above-sort_intervals xs) ∙ any-sort_intervals xs

-- The instant lies in the half-open interval.
abbrev pub contains : Time → WallInterval → Bool
contains t w = leb w.start t && before t w.end

contains-IsJoined : (t : Time) → IsJoined (contains t)
contains-IsJoined t = record { grow = λ l i a b c. ground arith; keep = λ l i a b. ground arith }

abbrev pub IsProper : WallInterval → Type 0
IsProper w = w.start < w.end

abbrev Gap : WallInterval → List WallInterval → Type 0
Gap x [] = Unit
Gap x (y ∷ _) = x.end < y.start

-- Each interval is proper and ends before the next one starts.
abbrev pub IsSeparated : List WallInterval → Type 0
IsSeparated [] = Unit
IsSeparated (x ∷ xs) = IsProper x × Gap x xs × IsSeparated xs

abbrev Starts : ℕ → List WallInterval → Type 0
Starts b [] = ⊥
Starts b (x ∷ _) = x.start ≡ b

All-insert_sorted :
    (x : WallInterval) (ys : List WallInterval)
    → IsProper x
    → All IsProper ys
    → All IsProper (insert_sorted x ys)
unfolding insert_sorted
All-insert_sorted x [] h a = (h, tt)
All-insert_sorted x (y ∷ ys) h a = ground (arith, All-insert_sorted x ys h a.1)

All-sort_intervals : (xs : List WallInterval) → All IsProper xs → All IsProper (sort_intervals xs)
unfolding sort_intervals
All-sort_intervals [] a = tt
All-sort_intervals (x ∷ xs) a =
    All-insert_sorted x (sort_intervals xs) a.0 (All-sort_intervals xs a.1)

Gap-Starts :
    (x : WallInterval) (b : ℕ) (ys : List WallInterval) → x.end < b → Starts b ys → Gap x ys
Gap-Starts x b [] h s = tt
Gap-Starts x b (y ∷ ys) h s = omega arith

merge_from-IsSeparated :
    (last : WallInterval) (items : List WallInterval)
    → IsProper last
    → Above last.start items
    → All IsProper items
    → Starts last.start (merge_from last items) × IsSeparated (merge_from last items)
unfolding merge_from
merge_from-IsSeparated last [] h u a = (refl, (h, tt, tt))
merge_from-IsSeparated last (x ∷ xs) h u a =
    let lower : Above last.start xs = Above-mono xs u.0 u.1 in
    elim (Bool-cases (after x.start last.end)) [
      | inl apart ↦
          let (s, t) = merge_from-IsSeparated x xs a.0 u.1 a.1 in
          rw apart (refl, (h, Gap-Starts last x.start (merge_from x xs) (ltb→lt _ _ apart) s, t))
      | inr touch ↦ rw touch (elim (Bool-cases (after x.end last.end)) [
        | inl wider ↦
            let wide = ltb→lt _ _ wider in
            rw wider
              (merge_from-IsSeparated (record last { end = x.end }) xs (omega arith) lower a.1)
        | inr inside ↦ rw inside (merge_from-IsSeparated last xs h lower a.1)
      ])
    ]

merge_sorted-IsSeparated :
    (xs : List WallInterval) → Above 0 xs → All IsProper xs → IsSeparated (merge_sorted xs)
unfolding merge_sorted
merge_sorted-IsSeparated [] u a = tt
merge_sorted-IsSeparated (x ∷ xs) u a = (merge_from-IsSeparated x xs a.0 u.1 a.1).1

merge_intervals-IsSeparated :
    (xs : List WallInterval) → All IsProper xs → IsSeparated (merge_intervals xs)
unfolding merge_intervals
merge_intervals-IsSeparated [] a = tt
merge_intervals-IsSeparated (x ∷ []) a = (a.0, tt, tt)
merge_intervals-IsSeparated (x ∷ y ∷ zs) a =
    let xs = x ∷ y ∷ zs in
    merge_sorted-IsSeparated (sort_intervals xs) (Above-sort_intervals xs) (All-sort_intervals xs a)

-- Merging proper intervals gives intervals in order, each ending strictly before the next starts,
-- that contain exactly the instants that the given ones contain.
pub merge_intervals_lem :
    (xs : List WallInterval)
    → All IsProper xs
    → IsSeparated (merge_intervals xs)
      × ((t : Time) → any (contains t) (merge_intervals xs) ≡ any (contains t) xs)
merge_intervals_lem xs a = (
  merge_intervals-IsSeparated xs a,
  λ t. any-merge_intervals (contains t) xs (contains-IsJoined t),
)
