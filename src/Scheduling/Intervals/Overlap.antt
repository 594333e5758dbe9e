-- ===== src/Scheduling/Intervals/Overlap.antt =====
-- Merging intervals does not change what overlaps them (internal/scheduling/engine.go).
use kontor.Prelude.{◌≡◌, List, arith, true, false, Time}
use kontor.Scheduling.Intervals.{WallInterval, merge_intervals, overlaps, overlaps_any}
use kontor.Scheduling.Intervals.Merge.{IsJoined, IsProper, any-merge_intervals, contains}

overlaps-IsJoined : (c : WallInterval) → IsProper c → IsJoined (overlaps c)
unfolding overlaps
overlaps-IsJoined c h = record { grow = λ l i a b d. ground arith; keep = λ l i a b. ground arith }

-- A proper candidate overlaps the merged intervals exactly when it overlaps one of the given ones:
-- touching ones may be merged, since intervals are half-open.
pub overlaps_any-merge_intervals :
    (c : WallInterval) (xs : List WallInterval)
    → IsProper c
    → overlaps_any c (merge_intervals xs) ≡ overlaps_any c xs
unfolding overlaps_any
overlaps_any-merge_intervals c xs h = any-merge_intervals (overlaps c) xs (overlaps-IsJoined c h)

-- Two intervals that do not overlap have no instant in common.
pub overlaps-disjoint :
    (c w : WallInterval) (t : Time)
    → overlaps c w ≡ false
    → contains t c ≡ true
    → contains t w ≡ false
unfolding overlaps
overlaps-disjoint c w t h k = ground arith
