-- ===== src/Jobs/Updates.antt =====
-- What an update of the table of jobs keeps (internal/jobqueue/postgres.go).
use kontor.Prelude.{
  ◌≡◌, refl, Bool, true, false, ◌&&◌, List, [], ◌∷◌, ◌++◌, String, arith, All, All-append, any,
  Bool-cases, inl, inr, str_eq, eq_iff, if◌then◌else◌, sym, subst, not, ◌==◌,
}
use kontor.Jobs.{claimed, Row, Tables, update, select, is_claimed_job}
use kontor.Jobs.Invariant.{IsSound, claimed_of, All-update}

-- The row has another identifier.
abbrev pub Other : String → Row → Type 0
Other id r = str_eq r.id id ≡ false

abbrev pub IsDistinct : List Row → Type 0
IsDistinct [] = Unit
IsDistinct (r ∷ rs) = All (Other r.id) rs × IsDistinct rs

pub record Inv (t : Tables) : Type 0 where
  pub sound : All IsSound t.jobs
  pub distinct : IsDistinct t.jobs

updated_id :
    (p : Row → Bool) (f : Row → Row) (r : Row)
    → (f r).id ≡ r.id
    → (if p r then f r else r).id ≡ r.id
updated_id p f r h = ground (arith, h)

pub IsDistinct-update :
    (p : Row → Bool) (f : Row → Row) (rs : List Row)
    → ((r : Row) → (f r).id ≡ r.id)
    → IsDistinct rs
    → IsDistinct (update p f rs)
unfolding update
IsDistinct-update p f [] same d = tt
IsDistinct-update p f (r ∷ rs) same d = (
  rw (updated_id p f r (same r)) (All-update (Other r.id) p f rs (λ s o q. rw (same s) o) d.0),
  IsDistinct-update p f rs same d.1,
)

pub update-Inv :
    (t : Tables) (p : Row → Bool) (f : Row → Row)
    → ((r : Row) → IsSound r → p r ≡ true → IsSound (f r))
    → ((r : Row) → (f r).id ≡ r.id)
    → Inv t
    → Inv (record t { jobs = update p f t.jobs })
update-Inv t p f keeps same v = record {
  sound = All-update IsSound p f t.jobs keeps v.sound;
  distinct = IsDistinct-update p f t.jobs same v.distinct;
}

-- Rows with other identifiers are out of reach of an update by identifier.
update-others :
    (id : String) (f : Row → Row) (rs : List Row)
    → All (Other id) rs
    → update (is_claimed_job id) f rs ≡ rs
unfolding update is_claimed_job
update-others id f [] o = refl
update-others id f (r ∷ rs) o = ground (arith, o.0, update-others id f rs o.1)

pub claimed_job_parts :
    (id : String) (r : Row) → is_claimed_job id r ≡ true → (r.id ≡ id) × (r.status ≡ claimed)
unfolding is_claimed_job
claimed_job_parts id r q = ((eq_iff r.id id).0 (ground arith), claimed_of r.status (ground arith))

-- With distinct identifiers, the update of a claimed job reaches the row that the lookup found.
pub All-update_found :
    (id : String) (f : Row → Row) (found : Row) (more : List Row) (rs : List Row)
    → select (is_claimed_job id) rs ≡ found ∷ more
    → (IsSound found → found.status ≡ claimed → IsSound (f found))
    → IsDistinct rs
    → All IsSound rs
    → All IsSound (update (is_claimed_job id) f rs)
unfolding update select
All-update_found id f found more [] e h d a = tt
All-update_found id f found more (r ∷ rs) e h d a = elim (Bool-cases (is_claimed_job id r)) [
  | inr q ↦ rw q (a.0, All-update_found id f found more rs (rw q at e) h d.1 a.1)
  | inl q ↦
      let same : r ≡ found = ground (arith, rw q at e) in
      let (named, taken) = claimed_job_parts id r q in
      let keeps = subst (λ x. IsSound x → x.status ≡ claimed → IsSound (f x)) (sym same) h in
      let rest = update-others id f rs (rw named at d.0) in
      (rw q (keeps a.0 taken), subst (All IsSound) (sym rest) a.1)
]

-- An update of the claimed job, where the rows that it reaches have these attempts.
pub All-update_current :
    (id : String) (f : Row → Row) (found : Row) (rs : List Row)
    → any
        (λ s.
          is_claimed_job id s
          && not (s.attempts == found.attempts && s.max_attempts == found.max_attempts))
        rs
      ≡ false
    → ((r : Row)
        → IsSound r
        → r.status ≡ claimed
        → r.attempts ≡ found.attempts
        → r.max_attempts ≡ found.max_attempts
        → IsSound (f r))
    → All IsSound rs
    → All IsSound (update (is_claimed_job id) f rs)
unfolding update
All-update_current id f found [] e h a = tt
All-update_current id f found (r ∷ rs) e h a =
    let rest = All-update_current id f found rs (ground arith) h a.1 in
    elim (Bool-cases (is_claimed_job id r)) [
      | inr q ↦ rw q (a.0, rest)
      | inl q ↦ rw q (h r a.0 (claimed_job_parts id r q).1 (ground arith) (ground arith), rest)
    ]

pub IsDistinct-append :
    (x : Row) (rs : List Row)
    → any (λ r. str_eq r.id x.id) rs ≡ false
    → IsDistinct rs
    → IsDistinct (rs ++ x ∷ [])
IsDistinct-append x [] fresh d = (tt, tt)
IsDistinct-append x (r ∷ rs) fresh d = (
  All-append (Other r.id) rs (x ∷ []) d.0 (ground (arith, eq_iff r.id x.id, eq_iff x.id r.id), tt),
  IsDistinct-append x rs (ground arith) d.1,
)
