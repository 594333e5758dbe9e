-- ===== src/Prelude/Lists.antt =====
-- Lists measured by native numbers, predicates over lists, and dictionaries keyed by text.
use Prim.Native.Nat.{ℕ, zero, suc, ◌+◌}
use Prim.Native.String.{String}
use mathlib.Core.Path.{◌≡◌, refl}
use mathlib.Core.Bool.{Bool, false, ◌||◌}
use mathlib.Core.List.{List, [], ◌∷◌, ◌++◌}
use mathlib.Core.Option.{Option, none, some}
use native.Mathlib.Omega.{arith}
use text.Mathlib.Text.{◌==◌ as str_eq}
use text.Mathlib.TextEquality.{eq_iff}
use kontor.Prelude.Tests.{if◌then◌else◌}

module _ {ℓ} {A : Type ℓ} where
  abbrev pub length : List A → ℕ
  length [] = 0
  length (x ∷ xs) = suc (length xs)

  abbrev pub any : (A → Bool) → List A → Bool
  any p [] = false
  any p (x ∷ xs) = p x || any p xs

  pub length-append : (xs ys : List A) → length (xs ++ ys) ≡ length xs + length ys
  length-append [] ys = omega arith
  length-append (x ∷ xs) ys = omega (arith, length-append xs ys)

  abbrev pub get_elem? : List A → ℕ → Option A
  get_elem? [] i = none
  get_elem? (x ∷ xs) zero = some x
  get_elem? (x ∷ xs) (suc i) = get_elem? xs i

  -- A write out of bounds changes nothing.
  abbrev pub set : List A → ℕ → A → List A
  set [] i v = []
  set (x ∷ xs) zero v = v ∷ xs
  set (x ∷ xs) (suc i) v = x ∷ set xs i v

-- Every element satisfies `P`.
abbrev pub All {ℓ κ} : {A : Type ℓ} → (A → Type κ) → List A → Type κ
All P [] = Unit
All P (x ∷ xs) = P x × All P xs

pub All-append {ℓ κ} :
    {A : Type ℓ} (P : A → Type κ) (xs ys : List A) → All P xs → All P ys → All P (xs ++ ys)
All-append P [] ys hx hy = hy
All-append P (x ∷ xs) ys hx hy = (hx.0, All-append P xs ys hx.1 hy)

pub All-map {ℓ κ} :
    {A : Type ℓ} (P Q : A → Type κ) (xs : List A) → ((x : A) → P x → Q x) → All P xs → All Q xs
All-map P Q [] f h = tt
All-map P Q (x ∷ xs) f h = (f x h.0, All-map P Q xs f h.1)

-- `x` occurs in the list, with its place.
pub data Elem {ℓ} {A : Type ℓ} (x : A) : List A → Type ℓ where
  here : {y : A} {ys : List A} → x ≡ y → Elem x (y ∷ ys)
  there : {y : A} {ys : List A} → Elem x ys → Elem x (y ∷ ys)

-- A Go `map[string]V` as an association list; the order is that of one iteration.
abbrev pub Dict {ℓ} : Type ℓ → Type ℓ
Dict V = List (String × V)

module _ {ℓ} {V : Type ℓ} where
  unfoldable pub lookup : String → Dict V → Option V
  lookup name [] = none
  lookup name ((other, x) ∷ rest) = if str_eq other name then some x else lookup name rest

  unfoldable pub insert : String → V → Dict V → Dict V
  insert name x [] = (name, x) ∷ []
  insert name x ((other, y) ∷ rest) =
      if str_eq other name then (name, x) ∷ rest else (other, y) ∷ insert name x rest

  pub lookup-insert :
      (written read : String) (x : V) (d : Dict V)
      → lookup read (insert written x d) ≡ (if str_eq written read then some x else lookup read d)
  unfolding lookup insert
  lookup-insert written read x [] = refl
  lookup-insert written read x ((other, y) ∷ d) =
      let later = lookup-insert written read x d in
      ground (arith, later, eq_iff other read, eq_iff other written, eq_iff written read)

  -- `m[k]` where a missing key reads as the zero value `d`.
  unfoldable pub lookup_or : V → String → Dict V → V
  lookup_or d k m = elim (lookup k m) [ none ↦ d | some v ↦ v ]

  pub lookup_or-insert :
      (d : V) (k j : String) (v : V) (m : Dict V)
      → lookup_or d j (insert k v m) ≡ (if str_eq k j then v else lookup_or d j m)
  unfolding lookup_or
  lookup_or-insert d k j v m = ground (arith, lookup-insert k j v m)
