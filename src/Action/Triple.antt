-- ===== src/Action/Triple.antt =====
-- Hoare triples for actions, with one postcondition for a return and one for a failure: a rule for
-- each way to build an action.
use kontor.Prelude.{◌≡◌, refl, Bool, true, false, Option, if◌then◌else◌}
use kontor.Action.{
  tried, caught, Outcome, done, raised, Action, pure, raise, gets, call, modify, raise_if, continue,
  ◌>>=◌, ◌>>◌,
}

abbrev pub Post : {S E A : Type 0} → (A → S → Type 0) → (S → Type 0) → Outcome E A × S → Type 0
Post Q R (done a, s) = Q a s
Post Q R (raised e, s) = R s

-- From a state in `P`, `m` returns an `a` in a state in `Q a`, or fails in a state in `R`.
pub record Triple {S E A : Type 0} (P : S → Type 0) (m : Action S E A) (Q : A → S → Type 0)
    (R : S → Type 0) : Type 0 where
  pub at : (s : S) → P s → Post Q R (m s)

module _ {S E A : Type 0} {P R : S → Type 0} where
  pub Triple-pure :
      {Q : A → S → Type 0} (a : A) → ((s : S) → P s → Q a s) → Triple {E = E} P (pure a) Q R
  unfolding pure
  Triple-pure a h = record { at = h }

  pub Triple-raise : {Q : A → S → Type 0} (e : E) → ((s : S) → P s → R s) → Triple P (raise e) Q R
  unfolding raise
  Triple-raise e h = record { at = h }

  pub Triple-gets :
      {Q : A → S → Type 0} (f : S → A) → ((s : S) → P s → Q (f s) s) → Triple {E = E} P (gets f) Q R
  unfolding gets
  Triple-gets f h = record { at = h }

  pub Triple-call :
      {Q : A → S → Type 0} (f : S → A × S)
      → ((s : S) → P s → Q (f s).0 (f s).1)
      → Triple {E = E} P (call f) Q R
  unfolding call
  Triple-call f h = record { at = h }

  pub Triple-if :
      {Q : A → S → Type 0} (b : Bool) (m n : Action S E A)
      → (b ≡ true → Triple P m Q R)
      → (b ≡ false → Triple P n Q R)
      → Triple P (if b then m else n) Q R
  Triple-if true m n hm hn = hm refl
  Triple-if false m n hm hn = hn refl

module _ {S E : Type 0} {P R : S → Type 0} where
  pub Triple-modify :
      {Q : Unit → S → Type 0} (f : S → S)
      → ((s : S) → P s → Q tt (f s))
      → Triple {E = E} P (modify f) Q R
  unfolding modify
  Triple-modify f h = record { at = h }

  pub Triple-raise_if :
      {Q : Unit → S → Type 0} (b : Bool) (e : E)
      → (b ≡ true → (s : S) → P s → R s)
      → (b ≡ false → (s : S) → P s → Q tt s)
      → Triple P (raise_if b e) Q R
  unfolding raise_if
  Triple-raise_if true e hr hq = record { at = hr refl }
  Triple-raise_if false e hr hq = record { at = hq refl }

module _ {S E A B : Type 0} {R : S → Type 0} where
  continue-Post :
      {M : A → S → Type 0} {Q : B → S → Type 0} (f : A → Action S E B) (r : Outcome E A × S)
      → Post M R r
      → ((a : A) → Triple (M a) (f a) Q R)
      → Post Q R (continue f r)
  unfolding continue
  continue-Post f (done a, s) h hf = (hf a).at s h
  continue-Post f (raised e, s) h hf = h

module _ {S E A B : Type 0} {P R : S → Type 0} where
  pub Triple-bind :
      {M : A → S → Type 0} {Q : B → S → Type 0} (m : Action S E A) (f : A → Action S E B)
      → Triple P m M R
      → ((a : A) → Triple (M a) (f a) Q R)
      → Triple P (m >>= f) Q R
  unfolding ◌>>=◌
  Triple-bind m f hm hf = record { at = λ s h. continue-Post f (m s) (hm.at s h) hf }

  pub Triple-then :
      {M : A → S → Type 0} {Q : B → S → Type 0} (m : Action S E A) (n : Action S E B)
      → Triple P m M R
      → ((a : A) → Triple (M a) n Q R)
      → Triple P (m >> n) Q R
  unfolding ◌>>◌
  Triple-then m n hm hn = record { at = λ s h. continue-Post (λ _. n) (m s) (hm.at s h) hn }

module _ {S E A : Type 0} {P P' R : S → Type 0} {Q : A → S → Type 0} where
  -- A stronger precondition.
  pub Triple-from : {m : Action S E A} → ((s : S) → P s → P' s) → Triple P' m Q R → Triple P m Q R
  Triple-from h hm = record { at = λ s p. hm.at s (h s p) }

module _ {S E A : Type 0} {R R' : S → Type 0} {Q Q' : A → S → Type 0} where
  Post-to :
      (x : Outcome E A × S)
      → ((a : A) (s : S) → Q a s → Q' a s)
      → ((s : S) → R s → R' s)
      → Post Q R x
      → Post Q' R' x
  Post-to (done a, s) hq hr p = hq a s p
  Post-to (raised e, s) hq hr p = hr s p

module _ {S E A : Type 0} {P R R' : S → Type 0} {Q Q' : A → S → Type 0} where
  -- Weaker postconditions.
  pub Triple-to :
      {m : Action S E A}
      → ((a : A) (s : S) → Q a s → Q' a s)
      → ((s : S) → R s → R' s)
      → Triple P m Q R
      → Triple P m Q' R'
  Triple-to hq hr hm = record { at = λ s p. Post-to _ hq hr (hm.at s p) }

module _ {S E : Type 0} (P R : S → Type 0) where
  caught-Post :
      (x : Outcome E Unit × S) → Post (λ _. P) P x → Post {A = Option E} (λ _. P) R (caught x)
  unfolding caught
  caught-Post (done a, s) h = h
  caught-Post (raised e, s) h = h

  -- Where an action keeps `P` however it ends, so does catching its error, and it does not fail.
  pub Triple-tried : (m : Action S E Unit) → Triple P m (λ _. P) P → Triple P (tried m) (λ _. P) R
  unfolding tried
  Triple-tried m hm = record { at = λ s p. caught-Post (m s) (hm.at s p) }
