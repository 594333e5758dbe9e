-- ===== src/Proposals/History/Single.antt =====
-- A conversation has at most one live proposal (internal/confirmations/postgres.go).
use kontor.Prelude.{
  ℕ, ◌+◌, ◌≤◌, ◌≡◌, refl, Bool, true, false, ◌&&◌, List, [], ◌∷◌, String, str_eq, eq_iff, arith,
  if◌then◌else◌, Time, inl, inr,
}
use kontor.Tools.Types.{TrustedContext}
use kontor.Tools.Confirmations.{ConfirmationProposal, ConfirmationBinding}
use kontor.Proposals.{
  ProposalRow, MessageRow, is_waiting, rejected, expired, Database, ProposalCodec, update_rows,
  is_live_in, is_live, belongs, with_status, expire_overdue, reject_live, new_row,
  invalidate_latest,
}
use kontor.Proposals.Authorize.{can_authorize, confirm, consume}
use kontor.Proposals.History.{
  ProposalOp, propose_op, invalidate_op, authorize_op, consume_op, message_op, step, run,
  propose_cases, authorize_cases, consume_cases,
}

-- The live proposals of a conversation with a customer.
abbrev pub live : String → String → String → List ProposalRow → ℕ
live t k c [] = 0
live t k c (r ∷ rs) = (if is_live_in t k c r then 1 else 0) + live t k c rs

-- Free-text consent never faces two live proposals.
abbrev pub IsSingle : List ProposalRow → Type 0
IsSingle rows = (tenant customer conversation : String) → live tenant customer conversation rows ≤ 1

-- A statement that makes nothing live.
live-update_rows :
    (p : ProposalRow → Bool) (f : ProposalRow → ProposalRow) (t k c : String)
    → ((r : ProposalRow) → p r ≡ true → is_live_in t k c (f r) ≡ true → is_live_in t k c r ≡ true)
    → (rows : List ProposalRow) → live t k c (update_rows p f rows) ≤ live t k c rows
unfolding update_rows
live-update_rows p f t k c kept [] = omega arith
live-update_rows p f t k c kept (r ∷ rs) =
    ground (arith, live-update_rows p f t k c kept rs, kept r)

rejected-dead :
    (t k c : String) (r : ProposalRow) → is_live_in t k c (with_status rejected r) ≡ false
unfolding is_live_in is_live with_status
rejected-dead t k c r = ground arith

expired-dead : (t k c : String) (r : ProposalRow) → is_live_in t k c (with_status expired r) ≡ false
unfolding is_live_in is_live with_status
expired-dead t k c r = ground arith

-- The conversation of the binding is this one.
abbrev covers : ConfirmationBinding → String → String → String → Bool
covers b t k c =
    str_eq b.tenant_id t && (str_eq b.owner_customer_id k && str_eq b.conversation_id c)

covers-belongs :
    (b : ConfirmationBinding) (t k c : String) (r : ProposalRow)
    → covers b t k c ≡ true
    → is_live_in b.tenant_id b.owner_customer_id b.conversation_id r ≡ is_live_in t k c r
unfolding is_live_in belongs
covers-belongs b t k c r h = ground (
  arith,
  h,
  eq_iff b.tenant_id t,
  eq_iff b.owner_customer_id k,
  eq_iff b.conversation_id c,
  eq_iff r.tenant_id t,
  eq_iff r.customer_id k,
  eq_iff r.conversation_id c,
  eq_iff r.tenant_id b.tenant_id,
  eq_iff r.customer_id b.owner_customer_id,
  eq_iff r.conversation_id b.conversation_id,
)

live-reject_live :
    (b : ConfirmationBinding) (t k c : String) (rows : List ProposalRow)
    → covers b t k c ≡ true
    → live t k c (reject_live b rows) ≡ 0
unfolding reject_live update_rows
live-reject_live b t k c [] h = refl
live-reject_live b t k c (r ∷ rs) h =
    ground (arith, live-reject_live b t k c rs h, covers-belongs b t k c r h, rejected-dead t k c r)

live-reject_live_le :
    (b : ConfirmationBinding) (t k c : String) (rows : List ProposalRow)
    → live t k c (reject_live b rows) ≤ live t k c rows
unfolding reject_live
live-reject_live_le b t k c rows =
    live-update_rows _ (with_status rejected) t k c
      (λ r p h. ground (arith, h, rejected-dead t k c r)) rows

live-expire_overdue :
    (b : ConfirmationBinding) (now : Time) (t k c : String) (rows : List ProposalRow)
    → live t k c (expire_overdue b now rows) ≤ live t k c rows
unfolding expire_overdue
live-expire_overdue b now t k c rows =
    live-update_rows _ (with_status expired) t k c
      (λ r p h. ground (arith, h, expired-dead t k c r)) rows

new_row-covers :
    (codec : ProposalCodec) (b : ConfirmationBinding) (p : ConfirmationProposal) (stamp : Time)
    (t k c : String)
    → is_live_in t k c (new_row codec b p stamp) ≡ covers b t k c
unfolding new_row is_live_in belongs is_live
new_row-covers codec b p stamp t k c = ground arith

insert-IsSingle :
    (codec : ProposalCodec) (b : ConfirmationBinding) (p : ConfirmationProposal) (stamp : Time)
    (rows : List ProposalRow)
    → IsSingle rows
    → IsSingle (new_row codec b p stamp ∷ reject_live b rows)
insert-IsSingle codec b p stamp rows v t k c = ground (
  arith,
  v t k c,
  new_row-covers codec b p stamp t k c,
  live-reject_live b t k c rows,
  live-reject_live_le b t k c rows,
)

live-confirm :
    (message : String) (now : Time) (t k c : String) (r : ProposalRow)
    → is_waiting r.status ≡ true
    → is_live_in t k c (confirm message now r) ≡ true
    → is_live_in t k c r ≡ true
unfolding confirm is_live_in belongs is_live is_waiting
live-confirm message now t k c r w h = ground (arith, w, h)

live-consume :
    (now : Time) (t k c : String) (r : ProposalRow) → is_live_in t k c (consume now r) ≡ false
unfolding consume is_live_in is_live
live-consume now t k c r = ground arith

can_authorize-waiting :
    (messages : List MessageRow) (id : String) (by : TrustedContext) (now : Time) (r : ProposalRow)
    → can_authorize messages id by now r ≡ true
    → is_waiting r.status ≡ true
unfolding can_authorize
can_authorize-waiting messages id by now r h = ground (arith, h)

-- A statement that makes nothing live keeps the conversations single.
update_rows-IsSingle :
    (p : ProposalRow → Bool) (f : ProposalRow → ProposalRow) (rows : List ProposalRow)
    → ((t k c : String) (r : ProposalRow)
        → p r ≡ true
        → is_live_in t k c (f r) ≡ true
        → is_live_in t k c r ≡ true)
    → IsSingle rows
    → IsSingle (update_rows p f rows)
update_rows-IsSingle p f rows kept v t k c =
    omega (arith, v t k c, live-update_rows p f t k c (kept t k c) rows)

invalidate-IsSingle :
    (t k c : String) (now : Time) (db : Database)
    → IsSingle db.proposals
    → IsSingle (invalidate_latest t k c now db).proposals
unfolding invalidate_latest
invalidate-IsSingle t k c now db v =
    update_rows-IsSingle _ (with_status rejected) db.proposals
      (λ t' k' c' r p h. ground (arith, h, rejected-dead t' k' c' r)) v

step-IsSingle :
    (codec : ProposalCodec) (op : ProposalOp) (db : Database)
    → IsSingle db.proposals
    → IsSingle (step codec op db).proposals
unfolding step
step-IsSingle codec (propose_op fresh stamp b p now) db v =
    let over : IsSingle (expire_overdue b now db.proposals) =
      λ t k c. omega (arith, v t k c, live-expire_overdue b now t k c db.proposals) in
    elim (propose_cases codec fresh stamp b p now db) [
      | inl e ↦ rw e v
      | inr (inl e) ↦ rw e over
      | inr (inr e) ↦ rw e (insert-IsSingle codec b _ stamp _ over)
    ]
step-IsSingle codec (invalidate_op t k c now) db v = invalidate-IsSingle t k c now db v
step-IsSingle codec (authorize_op id by now) db v = elim (authorize_cases id by now db) [
  | inl e ↦ rw e v
  | inr e ↦ rw e (
      update_rows-IsSingle _ (confirm by.inbound_message_id now) db.proposals
        (λ t k c r p h.
          live-confirm by.inbound_message_id now t k c r
            (can_authorize-waiting db.messages id by now r p) h)
        v)
]
step-IsSingle codec (consume_op id b now) db v = elim (consume_cases codec id b now db) [
  | inl e ↦ rw e v
  | inr e ↦ rw e (
      update_rows-IsSingle _ (consume now) db.proposals
        (λ t k c r p h. ground (arith, h, live-consume now t k c r)) v)
]
step-IsSingle codec (message_op m) db v = v

-- Starting from conversations with at most one live proposal each, every history of proposals,
-- answers, invalidations, uses and messages leaves each conversation of a customer with at most one
-- pending or confirmed proposal, so that a customer's plain consent never faces two live actions.
pub run-IsSingle :
    (codec : ProposalCodec) (ops : List ProposalOp) (db : Database)
    → IsSingle db.proposals
    → IsSingle (run codec ops db).proposals
unfolding run
run-IsSingle codec [] db v = v
run-IsSingle codec (op ∷ ops) db v =
    run-IsSingle codec ops (step codec op db) (step-IsSingle codec op db v)
