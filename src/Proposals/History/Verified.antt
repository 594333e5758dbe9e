-- ===== src/Proposals/History/Verified.antt =====
-- Histories of the store, and what VerifyAuthorized accepts (internal/confirmations/postgres.go).
use kontor.Prelude.{
  ◌≡◌, Bool, true, none, some, List, [], ◌∷◌, String, str_eq, eq_iff, arith, All, All-map, Time,
  before, Bool-cases, Option-cases, inl, inr, subst,
}
use kontor.Tools.Confirmations.{ConfirmationBinding, with_id}
use kontor.Proposals.{
  ProposalRow, rejected, expired, MessageRow, Database, ProposalCodec, with_status, is_granted,
  expire_overdue, reject_live, invalidate_latest,
}
use kontor.Proposals.Authorize.{
  confirm, consume, find_proposal, is_named, verify_row, verify_authorized,
}
use kontor.Proposals.History.{
  ProposalOp, propose_op, invalidate_op, authorize_op, consume_op, message_op, step, run,
  propose_cases, authorize_cases, consume_cases,
}
use kontor.Proposals.History.Consented.{
  is_consented, IsConsented, All-update_rows, IsConsented-rejected, IsConsented-expired,
  IsConsented-confirm, IsConsented-consume, IsConsented-new_row, IsConsented-more,
}

abbrev Consented : Database → Type 0
Consented db = All (IsConsented db.messages) db.proposals

expire-Consented :
    (b : ConfirmationBinding) (now : Time) (db : Database)
    → Consented db
    → All (IsConsented db.messages) (expire_overdue b now db.proposals)
unfolding expire_overdue
expire-Consented b now db v =
    All-update_rows _ (with_status expired) db.messages db.proposals
      (λ r p h. IsConsented-expired db.messages r) v

reject-Consented :
    (b : ConfirmationBinding) (now : Time) (db : Database)
    → All (IsConsented db.messages) (expire_overdue b now db.proposals)
    → All (IsConsented db.messages) (reject_live b (expire_overdue b now db.proposals))
unfolding reject_live
reject-Consented b now db v =
    All-update_rows _ (with_status rejected) db.messages (expire_overdue b now db.proposals)
      (λ r p h. IsConsented-rejected db.messages r) v

step-Consented :
    (codec : ProposalCodec) (op : ProposalOp) (db : Database)
    → Consented db
    → Consented (step codec op db)
unfolding step invalidate_latest
step-Consented codec (propose_op fresh stamp b p now) db v =
    let over = expire-Consented b now db v in
    elim (propose_cases codec fresh stamp b p now db) [
      | inl e ↦ rw e v
      | inr (inl e) ↦ rw e over
      | inr (inr e) ↦ rw e (
        IsConsented-new_row codec db.messages b (with_id fresh p) stamp,
        reject-Consented b now db over,
      )
    ]
step-Consented codec (invalidate_op t k c now) db v =
    All-update_rows _ (with_status rejected) db.messages db.proposals
      (λ r p h. IsConsented-rejected db.messages r) v
step-Consented codec (authorize_op id by now) db v = elim (authorize_cases id by now db) [
  | inl e ↦ rw e v
  | inr e ↦ rw e (
      All-update_rows _ (confirm by.inbound_message_id now) db.messages db.proposals
        (λ r p h. IsConsented-confirm db.messages id by now r p) v)
]
step-Consented codec (consume_op id b now) db v = elim (consume_cases codec id b now db) [
  | inl e ↦ rw e v
  | inr e ↦ rw e (
      All-update_rows _ (consume now) db.messages db.proposals
        (λ r p h. IsConsented-consume codec db.messages id b now r p h) v)
]
step-Consented codec (message_op m) db v =
    All-map (IsConsented db.messages) (IsConsented (m ∷ db.messages)) db.proposals
      (λ r h. IsConsented-more m db.messages r h) v

run-Consented :
    (codec : ProposalCodec) (ops : List ProposalOp) (db : Database)
    → Consented db
    → Consented (run codec ops db)
unfolding run
run-Consented codec [] db v = v
run-Consented codec (op ∷ ops) db v =
    run-Consented codec ops (step codec op db) (step-Consented codec op db v)

find_proposal-IsConsented :
    (p : ProposalRow → Bool) (messages : List MessageRow) (rows : List ProposalRow)
    (r : ProposalRow)
    → All (IsConsented messages) rows
    → find_proposal p rows ≡ some r
    → IsConsented messages r
unfolding find_proposal
find_proposal-IsConsented p messages [] r v h = cc
find_proposal-IsConsented p messages (x ∷ xs) r v h = elim (Bool-cases (p x)) [
  | inl y ↦ let q : x ≡ r = ground (arith, h, y) in subst (IsConsented messages) q v.0
  | inr n ↦ find_proposal-IsConsented p messages xs r v.1 (ground (arith, h, n))
]

verify_row-none :
    (codec : ProposalCodec) (b : ConfirmationBinding) (now : Time) (r : ProposalRow)
    → verify_row codec b now r ≡ none
    → (str_eq r.tool_name b.tool ≡ true)
      × (str_eq r.arguments_hash (codec.hex b.arguments_hash) ≡ true)
      × (before now r.expires_at ≡ true)
      × (is_granted r.status ≡ true)
unfolding verify_row
verify_row-none codec b now r h =
    (ground (arith, h), ground (arith, h), ground (arith, h), ground (arith, h))

verify_authorized-found :
    (codec : ProposalCodec) (id : String) (b : ConfirmationBinding) (now : Time) (db : Database)
    → verify_authorized codec id b now db ≡ none
    → (r : ProposalRow) × (find_proposal
          (is_named b.tenant_id id b.owner_customer_id b.conversation_id)
          db.proposals
        ≡ some r)
      × (verify_row codec b now r ≡ none)
unfolding verify_authorized
verify_authorized-found codec id b now db h =
    elim (Option-cases (
      find_proposal (is_named b.tenant_id id b.owner_customer_id b.conversation_id) db.proposals)) [
        | inl e ↦ ground (arith, h, e)
        | inr (r, e) ↦ (r, e, ground (arith, h, e))
      ]

-- Where VerifyAuthorized accepts an action after any history of the store that starts without
-- confirmed or consumed proposals lacking a consent, the customer's conversation has a proposal of that
-- tool with those arguments that is not expired, and a message of the customer in the conversation
-- confirmed it: not the message that led to the proposal, and one after the assistant had answered
-- since the proposal.
pub verify_authorized-IsConsented :
    (codec : ProposalCodec) (ops : List ProposalOp) (db : Database) (id : String)
    (b : ConfirmationBinding) (now : Time)
    → All (IsConsented db.messages) db.proposals
    → verify_authorized codec id b now (run codec ops db) ≡ none
    → (r : ProposalRow) × (find_proposal
          (is_named b.tenant_id id b.owner_customer_id b.conversation_id)
          (run codec ops db).proposals
        ≡ some r)
      × (r.tool_name ≡ b.tool)
      × (r.arguments_hash ≡ codec.hex b.arguments_hash)
      × (before now r.expires_at ≡ true)
      × (is_consented (run codec ops db).messages r ≡ true)
verify_authorized-IsConsented codec ops db id b now v h =
    let (r, found, accepted) = verify_authorized-found codec id b now (run codec ops db) h in
    let (tool, hash, open_still, granted) = verify_row-none codec b now r accepted in
    let consented = find_proposal-IsConsented _ _ _ r (run-Consented codec ops db v) found in
    (
      r,
      found,
      ground (arith, tool, eq_iff r.tool_name b.tool),
      ground (arith, hash, eq_iff r.arguments_hash (codec.hex b.arguments_hash)),
      open_still,
      ground (arith, consented, granted),
    )
