-- ===== src/Prelude/Int64.antt =====
-- Go's 64-bit `int`: sums and products wrap around.
use Prim.Native.Nat.{ℕ, suc, ◌+◌, ◌-◌, ◌*◌, ◌%◌, ◌<◌}
use mathlib.Core.Path.{◌≡◌}
use native.Mathlib.Omega.{arith}
use kontor.Prelude.Tests.{ltb, if◌then◌else◌}
use kontor.Prelude.Clock.{ℤ, pos, negsuc}

abbrev pub max_int : ℕ
max_int = 9_223_372_036_854_775_807

abbrev pub word_mod : ℕ
word_mod = 18_446_744_073_709_551_616

-- The bit pattern of an integer, and the integer of a bit pattern.
unfoldable pub to_word : ℤ → ℕ
to_word (pos n) = n % word_mod
to_word (negsuc n) = word_mod - 1 - n % word_mod

unfoldable pub of_word : ℕ → ℤ
of_word m = if ltb max_int m then negsuc (word_mod - 1 - m) else pos m

unfoldable pub add64 : ℤ → ℤ → ℤ
unfolding to_word of_word
add64 a b = of_word ((to_word a + to_word b) % word_mod)

unfoldable pub mul64 : ℤ → ℤ → ℤ
unfolding to_word of_word
mul64 a b = of_word (to_word a * to_word b % word_mod)

-- Without overflow they are the sum and the product.
pub add64_pos : (a b : ℕ) → a + b < suc max_int → add64 (pos a) (pos b) ≡ pos (a + b)
unfolding add64
add64_pos a b h = ground arith

pub of_word_small : (m : ℕ) → m < suc max_int → of_word m ≡ pos m
unfolding of_word
of_word_small m h = ground arith
