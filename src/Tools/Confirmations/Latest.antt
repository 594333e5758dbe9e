-- ===== src/Tools/Confirmations/Latest.antt =====
-- `Latest`, `InvalidateLatest` and the reuse of a live proposal by `Propose`
-- (internal/tools/confirmations.go).
use kontor.Prelude.{
  ◌≤◌, ◌≡◌, refl, ◌⊎◌, inl, inr, true, false, Option, none, some, [], ◌∷◌, String, arith, Time,
  after, Bool-cases, if◌then◌else◌,
}
use kontor.Tools.Confirmations.{
  ConfirmationState, Store, is_candidate, later, latest_from, latest, reject, invalidate_latest,
}

module _ (tenant owner conversation : String) (now : Time) where
  -- Every candidate of the store expires no later than `l`.
  abbrev pub ExpiresLast : ConfirmationState → Store → Type 0
  ExpiresLast l [] = Unit
  ExpiresLast l ((_, r) ∷ s) =
      (is_candidate tenant owner conversation now r ≡ true
        → r.proposal.expires_at ≤ l.proposal.expires_at)
      × ExpiresLast l s

  -- `l` is one of the records of the store.
  abbrev pub Holds : ConfirmationState → Store → Type 0
  Holds l [] = ⊥
  Holds l ((_, r) ∷ s) = (l ≡ r) ⊎ Holds l s

  -- No record of the store is a candidate.
  abbrev pub NoCandidate : Store → Type 0
  NoCandidate [] = Unit
  NoCandidate ((_, r) ∷ s) = (is_candidate tenant owner conversation now r ≡ false) × NoCandidate s

  latest_from-NoCandidate :
      (f : Option ConfirmationState) (s : Store)
      → NoCandidate s
      → latest_from tenant owner conversation now f s ≡ f
  unfolding latest_from
  latest_from-NoCandidate f [] h = refl
  latest_from-NoCandidate f ((k, r) ∷ s) h = rw (h.0) (latest_from-NoCandidate f s h.1)

  reject-is_candidate :
      (r : ConfirmationState)
      → is_candidate tenant owner conversation now (reject tenant owner conversation now r) ≡ false
  unfolding reject is_candidate
  reject-is_candidate r = ground arith

  invalidate_latest-NoCandidate :
      (s : Store) → NoCandidate (invalidate_latest tenant owner conversation now s)
  unfolding invalidate_latest
  invalidate_latest-NoCandidate [] = tt
  invalidate_latest-NoCandidate ((k, r) ∷ s) =
      (reject-is_candidate r, invalidate_latest-NoCandidate s)

  -- A customer's new turn withdraws every live proposal: `Latest` then finds none.
  pub latest-invalidate_latest :
      (s : Store)
      → latest tenant owner conversation now (invalidate_latest tenant owner conversation now s)
        ≡ none
  unfolding latest
  latest-invalidate_latest s = latest_from-NoCandidate none _ (invalidate_latest-NoCandidate s)

  later_le :
      (r l : ConfirmationState) (f : Option ConfirmationState)
      → later r f ≡ some l
      → ((l ≡ r) ⊎ (f ≡ some l))
        × (r.proposal.expires_at ≤ l.proposal.expires_at)
        × ((m : ConfirmationState) → f ≡ some m → m.proposal.expires_at ≤ l.proposal.expires_at)
  unfolding later
  later_le r l none h = (inl (ground arith), ground arith, λ m e. cc)
  later_le r l (some g) h = (ground arith, ground arith, λ m e. ground arith)

  later_total :
      (r : ConfirmationState) (f : Option ConfirmationState)
      → (g : ConfirmationState) × (later r f ≡ some g)
  unfolding later
  later_total r none = (r, refl)
  later_total r (some l) =
      (if after r.proposal.expires_at l.proposal.expires_at then r else l, ground arith)

  -- What the loop of `Latest` returns from a record found so far.
  latest_from-some :
      (f : Option ConfirmationState) (s : Store) (l : ConfirmationState)
      → latest_from tenant owner conversation now f s ≡ some l
      → ((f ≡ some l) ⊎ (Holds l s × (is_candidate tenant owner conversation now l ≡ true)))
        × ((m : ConfirmationState) → f ≡ some m → m.proposal.expires_at ≤ l.proposal.expires_at)
        × ExpiresLast l s
  unfolding latest_from
  latest_from-some f [] l h = (inl h, λ m e. ground arith, tt)
  latest_from-some f ((k, r) ∷ s) l h =
      elim (Bool-cases (is_candidate tenant owner conversation now r)) [
        | inl c ↦
            let (from, bound, last) = latest_from-some (later r f) s l (rw c at h) in
            let (g, e) = later_total r f in
            let (source, own, older) = later_le r g f e in
            let top = bound g e in
            (ground arith, λ m q. ground (arith, older m q), ((λ t. omega arith), last))
        | inr c ↦
            let (from, bound, last) = latest_from-some f s l (rw c at h) in
            (ground arith, bound, ((λ t. ground arith), last))
      ]

  -- `Latest` returns a live record of the customer's own conversation, one of those that expire
  -- last, whatever the order of the map.
  pub latest_lem :
      (s : Store) (l : ConfirmationState)
      → latest tenant owner conversation now s ≡ some l
      → Holds l s × (is_candidate tenant owner conversation now l ≡ true) × ExpiresLast l s
  unfolding latest
  latest_lem s l h =
      let (from, bound, last) = latest_from-some none s l h in (ground arith, ground arith, last)
