-- ===== src/Prelude/Clock.antt =====
-- Go's `time.Time` and `time.Duration`. A `Time` counts nanoseconds from the earliest instant that
-- `time.Time` can hold, so that `zero_time`, the value that `IsZero` recognises, lies 2^63 seconds
-- above 0 and `Add` of a negative duration stays exact for every instant in use. A `Duration` is a
-- signed number of nanoseconds.
use Prim.Native.Nat.{ℕ, suc, ◌+◌, ◌-◌, ◌*◌}
use mathlib.Core.Bool.{Bool}
use kontor.Prelude.Tests.{ltb, leb, ◌==◌}

-- `negsuc n` is -(n + 1).
pub data ℤ : Type 0 where
  pos : ℕ → ℤ
  negsuc : ℕ → ℤ

abbrev pub pos_part : ℤ → ℕ
pos_part (pos n) = n
pos_part (negsuc n) = 0

abbrev pub neg_part : ℤ → ℕ
neg_part (pos n) = 0
neg_part (negsuc n) = suc n

abbrev pub ltb_ℤ : ℤ → ℤ → Bool
ltb_ℤ a b = ltb (pos_part a + neg_part b) (pos_part b + neg_part a)

abbrev pub leb_ℤ : ℤ → ℤ → Bool
leb_ℤ a b = leb (pos_part a + neg_part b) (pos_part b + neg_part a)

abbrev pub Time : Type 0
Time = ℕ

abbrev pub Duration : Type 0
Duration = ℤ

abbrev pub zero_time : Time
zero_time = 9_223_372_036_854_775_808_000_000_000

abbrev pub is_zero : Time → Bool
is_zero t = t == zero_time

-- `t.Before(u)`, `t.After(u)`, `t.Equal(u)`
abbrev pub before : Time → Time → Bool
before t u = ltb t u

abbrev pub after : Time → Time → Bool
after t u = ltb u t

-- `t.Add(d)` and `t.Add(-d)`
abbrev pub add : Time → Duration → Time
add t d = t + pos_part d - neg_part d

abbrev pub add_neg : Time → Duration → Time
add_neg t d = t + neg_part d - pos_part d

abbrev pub second : ℕ
second = 1_000_000_000

abbrev pub minute : ℕ
minute = 60 * second

abbrev pub hour : ℕ
hour = 60 * minute
