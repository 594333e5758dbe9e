-- ===== src/Scheduling/Intervals.antt =====
-- wallInterval, mergeIntervals and overlapsAny (internal/scheduling/engine.go): half-open intervals
-- of instants. `sort.Slice` with the comparison of `mergeIntervals` leaves only equal intervals in an
-- unspecified order, so an insertion sort has its result.
pub mod Merge
pub mod Overlap
use kontor.Prelude.{Bool, not, ◌&&◌, any, List, [], ◌∷◌, Time, before, after, ◌==◌, if◌then◌else◌}

pub record WallInterval : Type 0 where
  pub start : Time
  pub end : Time

-- The comparison that `mergeIntervals` sorts by.
unfoldable pub less : WallInterval → WallInterval → Bool
less a b = if a.start == b.start then before a.end b.end else before a.start b.start

unfoldable pub insert_sorted : WallInterval → List WallInterval → List WallInterval
unfolding less
insert_sorted x [] = x ∷ []
insert_sorted x (y ∷ ys) = if less y x then y ∷ insert_sorted x ys else x ∷ y ∷ ys

unfoldable pub sort_intervals : List WallInterval → List WallInterval
sort_intervals [] = []
sort_intervals (x ∷ xs) = insert_sorted x (sort_intervals xs)

-- The loop over `items[1:]`, with the last merged interval as an argument.
unfoldable pub merge_from : WallInterval → List WallInterval → List WallInterval
merge_from last [] = last ∷ []
merge_from last (item ∷ items) =
    let rest = merge_from item items in
    let grown = merge_from (record last { end = item.end }) items in
    let same = merge_from last items in
    if not (after item.start last.end)
    then (if after item.end last.end then grown else same)
    else last ∷ rest

unfoldable pub merge_sorted : List WallInterval → List WallInterval
merge_sorted [] = []
merge_sorted (x ∷ xs) = merge_from x xs

unfoldable pub merge_intervals : List WallInterval → List WallInterval
merge_intervals [] = []
merge_intervals (x ∷ []) = x ∷ []
merge_intervals (x ∷ y ∷ zs) = merge_sorted (sort_intervals (x ∷ y ∷ zs))

unfoldable pub overlaps : WallInterval → WallInterval → Bool
overlaps candidate item = before candidate.start item.end && before item.start candidate.end

unfoldable pub overlaps_any : WallInterval → List WallInterval → Bool
unfolding overlaps
overlaps_any candidate items = any (overlaps candidate) items
