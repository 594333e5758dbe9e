-- ===== src/Action.antt =====
-- Code that mutates shared state and may fail. What was written before a failure stays written, so
-- the state comes back beside the error too.
pub mod Triple
use kontor.Prelude.{Bool, Option, none, some, if◌then◌else◌}

pub data Outcome (E A : Type 0) : Type 0 where
  done : A → Outcome E A
  raised : E → Outcome E A

abbrev pub Action : Type 0 → Type 0 → Type 0 → Type 0
Action S E A = S → Outcome E A × S

module _ {S E A : Type 0} where
  unfoldable pub pure : A → Action S E A
  pure a s = (done a, s)

  unfoldable pub raise : E → Action S E A
  raise e s = (raised e, s)

  unfoldable pub gets : (S → A) → Action S E A
  gets f s = (done (f s), s)

  -- An external call: it answers and changes the state.
  unfoldable pub call : (S → A × S) → Action S E A
  call f s = let (a, t) = f s in (done a, t)

  unfoldable pub or_raise : Option A → E → Action S E A
  or_raise none e s = (raised e, s)
  or_raise (some a) e s = (done a, s)

module _ {S E : Type 0} where
  unfoldable pub modify : (S → S) → Action S E Unit
  modify f s = (done tt, f s)

  unfoldable pub raise_if : Bool → E → Action S E Unit
  raise_if b e s = ((if b then raised e else done tt), s)

  -- The error of an option, if it has one.
  unfoldable pub raise_some : Option E → Action S E Unit
  raise_some none s = (done tt, s)
  raise_some (some e) s = (raised e, s)

  unfoldable pub caught : Outcome E Unit × S → Outcome E (Option E) × S
  caught (done a, s) = (done none, s)
  caught (raised e, s) = (done (some e), s)

  -- The error as a value: what follows runs in any case.
  unfoldable pub tried : Action S E Unit → Action S E (Option E)
  unfolding caught
  tried m s = caught (m s)

module _ {S E A B : Type 0} where
  unfoldable pub continue : (A → Action S E B) → Outcome E A × S → Outcome E B × S
  continue f (done a, s) = f a s
  continue f (raised e, s) = (raised e, s)

infixl 5 ◌>>=◌ ◌>>◌
unfoldable pub ◌>>=◌ : {S E A B : Type 0} → Action S E A → (A → Action S E B) → Action S E B
unfolding continue
◌>>=◌ m f s = continue f (m s)

unfoldable pub ◌>>◌ : {S E A B : Type 0} → Action S E A → Action S E B → Action S E B
unfolding ◌>>=◌
◌>>◌ m n s = continue (λ _. n) (m s)
