-- ===== src/Proposals/History/Consented.antt =====
-- What a proposal that may be carried out has behind it (internal/confirmations/postgres.go).
use kontor.Prelude.{
  ◌≡◌, refl, Bool, true, false, not, ◌||◌, none, some, List, [], ◌∷◌, String, arith, any, All, Time,
  Bool-cases, Option-cases, inl, inr,
}
use kontor.Tools.Types.{TrustedContext}
use kontor.Tools.Confirmations.{ConfirmationProposal, ConfirmationBinding}
use kontor.Proposals.{
  ProposalRow, rejected, expired, MessageRow, ProposalCodec, update_rows, with_status, is_granted,
  new_row,
}
use kontor.Proposals.Authorize.{
  is_answer, is_presented, has_consent, can_authorize, confirm, can_consume, consume,
}

-- The message that the row names consents to it.
unfoldable pub is_consented : List MessageRow → ProposalRow → Bool
is_consented messages r = elim r.confirmed_message_id [
  | none ↦ false
  | some id ↦ has_consent messages r id
]

-- A confirmed or consumed proposal has a consent.
abbrev pub IsConsented : List MessageRow → ProposalRow → Type 0
IsConsented messages r = (not (is_granted r.status) || is_consented messages r) ≡ true

any-weaken :
    (p q : MessageRow → Bool) (list : List MessageRow)
    → ((m : MessageRow) → p m ≡ true → q m ≡ true)
    → any p list ≡ true
    → any q list ≡ true
any-weaken p q [] h e = ground (arith, e)
any-weaken p q (x ∷ xs) h e = elim (Bool-cases (p x)) [
  | inl y ↦ ground (arith, h x y)
  | inr n ↦ ground (arith, any-weaken p q xs h (ground (arith, e, n)))
]

-- More messages take no consent away.
is_answer-more :
    (n : MessageRow) (messages : List MessageRow) (r : ProposalRow) (id : String) (m : MessageRow)
    → is_answer messages r id m ≡ true
    → is_answer (n ∷ messages) r id m ≡ true
unfolding is_answer
is_answer-more n messages r id m h = ground (arith, h)

has_consent-more :
    (n : MessageRow) (messages : List MessageRow) (r : ProposalRow) (id : String)
    → has_consent messages r id ≡ true
    → has_consent (n ∷ messages) r id ≡ true
unfolding has_consent
has_consent-more n messages r id h =
    let old : any (is_answer messages r id) messages ≡ true = ground (arith, h) in
    let more = any-weaken _ _ messages (is_answer-more n messages r id) old in
    ground (arith, h, more)

pub IsConsented-more :
    (n : MessageRow) (messages : List MessageRow) (r : ProposalRow)
    → IsConsented messages r
    → IsConsented (n ∷ messages) r
unfolding is_consented
IsConsented-more n messages r h = elim (Option-cases r.confirmed_message_id) [
  | inl e ↦ ground (arith, h, e)
  | inr (id, e) ↦ ground (arith, h, e, has_consent-more n messages r id)
]

pub All-update_rows :
    (p : ProposalRow → Bool) (f : ProposalRow → ProposalRow) (messages : List MessageRow)
    (rows : List ProposalRow)
    → ((r : ProposalRow) → p r ≡ true → IsConsented messages r → IsConsented messages (f r))
    → All (IsConsented messages) rows
    → All (IsConsented messages) (update_rows p f rows)
unfolding update_rows
All-update_rows p f messages [] kept all = tt
All-update_rows p f messages (r ∷ rs) kept all = elim (Bool-cases (p r)) [
  | inl y ↦ rw (y, update_rows) (kept r y all.0, All-update_rows p f messages rs kept all.1)
  | inr n ↦ rw (n, update_rows) (all.0, All-update_rows p f messages rs kept all.1)
]

pub IsConsented-rejected :
    (messages : List MessageRow) (r : ProposalRow) → IsConsented messages (with_status rejected r)
unfolding with_status is_granted
IsConsented-rejected messages r = refl

pub IsConsented-expired :
    (messages : List MessageRow) (r : ProposalRow) → IsConsented messages (with_status expired r)
unfolding with_status is_granted
IsConsented-expired messages r = refl

pub IsConsented-confirm :
    (messages : List MessageRow) (id : String) (by : TrustedContext) (now : Time) (r : ProposalRow)
    → can_authorize messages id by now r ≡ true
    → IsConsented messages (confirm by.inbound_message_id now r)
unfolding confirm can_authorize is_consented has_consent is_answer is_presented
IsConsented-confirm messages id by now r h = ground (arith, h)

pub IsConsented-consume :
    (codec : ProposalCodec) (messages : List MessageRow) (id : String) (b : ConfirmationBinding)
    (now : Time) (r : ProposalRow)
    → can_consume codec id b now r ≡ true
    → IsConsented messages r
    → IsConsented messages (consume now r)
unfolding consume can_consume is_consented has_consent is_answer is_presented
IsConsented-consume codec messages id b now r h v = ground (arith, h, v)

pub IsConsented-new_row :
    (codec : ProposalCodec) (messages : List MessageRow) (b : ConfirmationBinding)
    (p : ConfirmationProposal) (stamp : Time)
    → IsConsented messages (new_row codec b p stamp)
unfolding new_row is_granted
IsConsented-new_row codec messages b p stamp = refl
