-- ===== src/Tools/Confirmations/History.antt =====
-- Histories of the confirmation store (internal/tools/confirmations.go): the calls made on it since
-- it was empty, the newest first.
use kontor.Prelude.{
  ◌≡◌, refl, sym, ap, ◌∙◌, ◌⊎◌, inl, inr, true, false, none, some, List, [], ◌∷◌, String, str_eq,
  eq_iff, arith, Time, Bool-cases, Option-cases, lookup, insert, lookup-insert,
}
use kontor.Tools.Types.{TrustedContext}
use kontor.Tools.Confirmations.{
  ConfirmationError, ConfirmationState, ConfirmationBinding, ConfirmationProposal, Store, Status,
  pending, authorized, consumed, rejected, in_scope, equal_binding, find_live, propose, reject,
  invalidate_latest, authorize, verify_authorized, binding_check, mark_consumed,
}
use kontor.Tools.Confirmations.Authorize.{
  authorize_iff, authorize_check_iff, lookup-authorize, authorize_error, verify_authorized_grant,
}

-- A call that can change the store, with its arguments.
pub data Op : Type 0 where
  propose_op : String → ConfirmationBinding → ConfirmationProposal → Time → Op
  invalidate_op : String → String → String → Time → Op
  authorize_op : String → TrustedContext → Time → Op
  consume_op : String → ConfirmationBinding → Time → Op

abbrev pub apply : Op → Store → Store
apply (propose_op fresh b p now) s = (propose fresh b p now s).1
apply (invalidate_op tenant owner conversation now) s =
    invalidate_latest tenant owner conversation now s
apply (authorize_op id by now) s = (authorize id by now s).1
apply (consume_op id b now) s = (mark_consumed id b now s).1

abbrev pub run : List Op → Store
run [] = []
run (op ∷ past) = apply op (run past)

-- The call `op`, made after `past`, authorized the proposal `id` of the binding `b`: it was an
-- `Authorize` that succeeded, for the binding's own customer and conversation, by a message that is
-- not the one the proposal answered.
abbrev pub Grants : String → ConfirmationBinding → Op → List Op → Type 0
Grants id b (authorize_op j by now) past =
    (j ≡ id)
    × ((authorize j by now (run past)).0 ≡ none)
    × (in_scope by.tenant_id by.customer_id by.conversation_id b ≡ true)
    × (str_eq by.inbound_message_id "" ≡ false)
    × (str_eq by.inbound_message_id b.proposed_from_message_id ≡ false)
Grants id b _ past = ⊥

abbrev pub Granted : String → ConfirmationBinding → List Op → Type 0
Granted id b [] = ⊥
Granted id b (op ∷ past) = Grants id b op past ⊎ Granted id b past

abbrev IsGranted : Status → Type 0
IsGranted authorized = Unit
IsGranted consumed = Unit
IsGranted pending = ⊥
IsGranted rejected = ⊥

-- Every record that is authorized or consumed was granted in the past.
abbrev Backed : Store → List Op → Type 0
Backed s past =
    (id : String) (r : ConfirmationState)
    → lookup id s ≡ some r
    → IsGranted r.status
    → Granted id r.binding past

lookup-invalidate_latest :
    (t o c id : String) (now : Time) (s : Store) (r : ConfirmationState)
    → lookup id (invalidate_latest t o c now s) ≡ some r
    → (q : ConfirmationState) × (lookup id s ≡ some q) × (r ≡ reject t o c now q)
unfolding lookup invalidate_latest
lookup-invalidate_latest t o c id now [] r e = cc
lookup-invalidate_latest t o c id now ((k, q) ∷ s) r e = elim (Bool-cases (str_eq k id)) [
  | inl same ↦ (q, rw same, ground arith)
  | inr other ↦
      let (p, found, eq) = lookup-invalidate_latest t o c id now s r (rw other at e) in
      (p, rw other found, eq)
]

reject-granted :
    (t o c : String) (now : Time) (q : ConfirmationState)
    → IsGranted (reject t o c now q).status
    → reject t o c now q ≡ q
unfolding reject
reject-granted t o c now q h = ground arith

Backed-insert :
    (j : String) (q : ConfirmationState) (s : Store) (past : List Op)
    → Backed s past
    → (IsGranted q.status → Granted j q.binding past)
    → Backed (insert j q s) past
Backed-insert j q s past h new id r e g = elim (Bool-cases (str_eq j id)) [
  | inl same ↦
      let eq : q ≡ r = ground (arith, lookup-insert j id q s) in
      let at : j ≡ id = (eq_iff j id).0 same in rw (← at, ← eq) (new (rw eq g))
  | inr other ↦ h id r (ground (arith, lookup-insert j id q s)) g
]

Backed-propose :
    (fresh : String) (b : ConfirmationBinding) (p : ConfirmationProposal) (now : Time) (s : Store)
    (past : List Op)
    → Backed s past
    → Backed (propose fresh b p now s).1 past
unfolding propose
Backed-propose fresh b p now s past h = elim (Option-cases (find_live b now s)) [
  | inl e ↦ rw (e, propose) (Backed-insert _ _ s past h (λ g. absurd g))
  | inr (r, e) ↦ rw (e, propose) h
]

mark_consumed_cases :
    (j : String) (b : ConfirmationBinding) (now : Time) (s : Store)
    → ((mark_consumed j b now s).1 ≡ s)
      ⊎ ((r : ConfirmationState) × (lookup j s ≡ some r)
          × (r.status ≡ authorized)
          × ((mark_consumed j b now s).1 ≡ insert j (record r { status = consumed }) s))
unfolding mark_consumed
mark_consumed_cases j b now s = elim (Option-cases (lookup j s)) [
  | inl e ↦ inl (ground arith)
  | inr (r, e) ↦ write r e (Option-cases (binding_check b now r)) r.status refl
]
  where
    write :
        (r : ConfirmationState)
        → lookup j s ≡ some r
        → (binding_check b now r ≡ none)
          ⊎ ((x : ConfirmationError) × (binding_check b now r ≡ some x))
        → (x : Status) → r.status ≡ x
        → ((mark_consumed j b now s).1 ≡ s)
          ⊎ ((r : ConfirmationState) × (lookup j s ≡ some r)
              × (r.status ≡ authorized)
              × ((mark_consumed j b now s).1 ≡ insert j (record r { status = consumed }) s))
    write r e (inr (x, c)) st q = inl (ground arith)
    write r e (inl c) authorized q = inr (r, e, q, ground arith)
    write r e (inl c) pending q = inl (ground arith)
    write r e (inl c) consumed q = inl (ground arith)
    write r e (inl c) rejected q = inl (ground arith)

Backed-consume :
    (j : String) (b : ConfirmationBinding) (now : Time) (s : Store) (past : List Op)
    → Backed s past
    → Backed (mark_consumed j b now s).1 past
Backed-consume j b now s past h = elim (mark_consumed_cases j b now s) [
  | inl same ↦ rw same h
  | inr (r, e, st, eq) ↦ rw eq (Backed-insert j _ s past h (λ g. h j r e (rw st tt)))
]

Backed-authorize :
    (j : String) (by : TrustedContext) (now : Time) (past : List Op)
    → Backed (run past) past
    → Backed (authorize j by now (run past)).1 (authorize_op j by now ∷ past)
Backed-authorize j by now past h id r e g = elim (Option-cases (authorize j by now (run past)).0) [
  | inr (x, failed) ↦
      let same = authorize_error j by now (run past) (λ fine. cc) in inr (h id r (rw same at e) g)
  | inl fine ↦
      let (q, found, can) = (authorize_iff j by now (run past)).0 fine in
      let written =
        lookup-authorize j id by now (run past) q found ((authorize_check_iff by now q).1 can) in
      elim (Bool-cases (str_eq j id)) [
        | inr other ↦ inr (h id r (ground arith) g)
        | inl same ↦ inl (
          (eq_iff j id).0 same,
          fine,
          ground (arith, can.own),
          can.answered,
          ground (arith, can.later_message),
        )
      ]
]

run-Backed : (past : List Op) → Backed (run past) past
unfolding lookup
run-Backed [] id r e g = cc
run-Backed (propose_op fresh b p now ∷ past) id r e g =
    inr (Backed-propose fresh b p now (run past) past (run-Backed past) id r e g)
run-Backed (invalidate_op t o c now ∷ past) id r e g =
    let (q, found, eq) = lookup-invalidate_latest t o c id now (run past) r e in
    let same = reject-granted t o c now q (rw eq at g) in
    inr (run-Backed past id r (found ∙ ap some (sym (eq ∙ same))) g)
run-Backed (authorize_op j by now ∷ past) id r e g =
    Backed-authorize j by now past (run-Backed past) id r e g
run-Backed (consume_op j b now ∷ past) id r e g =
    inr (Backed-consume j b now (run past) past (run-Backed past) id r e g)

-- In every history of the store, an action that `VerifyAuthorized` lets through has a record with
-- the same tenant, customer, conversation, tool and arguments hash, and that record was granted by
-- an earlier successful `Authorize` of its own customer, in another message than the one that the
-- proposal answered.
pub verify_authorized-Granted :
    (past : List Op) (id : String) (b : ConfirmationBinding) (now : Time)
    → verify_authorized id b now (run past) ≡ none
    → (r : ConfirmationState) × (lookup id (run past) ≡ some r)
      × (equal_binding r.binding b ≡ true)
      × Granted id r.binding past
unfolding binding_check
verify_authorized-Granted past id b now h =
    let (r, e, c, st) = verify_authorized_grant id b now (run past) h in
    (r, e, ground arith, run-Backed past id r e (granted st))
  where
    granted : {x : Status} → (x ≡ authorized) ⊎ (x ≡ consumed) → IsGranted x
    granted (inl p) = rw p tt
    granted (inr p) = rw p tt
