-- ===== src/Tools/Confirmations/Authorize.antt =====
-- When `Authorize` grants, what it writes, and how a granted proposal is consumed and replayed
-- (internal/tools/confirmations.go).
use kontor.Prelude.{
  ◌<◌, ◌≡◌, ◌≢◌, ◌↔◌, ◌⊎◌, inl, inr, true, false, none, some, String, str_eq, eq_iff, arith,
  Option-cases, if◌then◌else◌, Time, lookup, lookup-insert,
}
use kontor.Tools.Types.{TrustedContext}
use kontor.Tools.Confirmations.{
  ConfirmationState, ConfirmationBinding, Store, authorized, consumed, pending, in_scope,
  authorize_check, authorize, binding_check, verify_authorized, mark_consumed,
}

-- The customer who sends `by` may authorize the record.
pub record CanAuthorize (by : TrustedContext) (now : Time) (r : ConfirmationState) : Type 0 where
  pub own : in_scope by.tenant_id by.customer_id by.conversation_id r.binding ≡ true
  pub alive : now < r.proposal.expires_at
  pub waiting : r.status ≡ pending
  pub answered : str_eq by.inbound_message_id "" ≡ false
  pub later_message : str_eq by.inbound_message_id r.binding.proposed_from_message_id ≡ false

pub authorize_check_iff :
    (by : TrustedContext) (now : Time) (r : ConfirmationState)
    → (authorize_check by now r ≡ none) ↔ CanAuthorize by now r
unfolding authorize_check
authorize_check_iff by now r = (λ h. ground arith, λ c. ground arith)

-- `Authorize` succeeds exactly when the identifier names a record that the context may authorize.
pub authorize_iff :
    (id : String) (by : TrustedContext) (now : Time) (s : Store)
    → ((authorize id by now s).0 ≡ none)
      ↔ ((r : ConfirmationState) × (lookup id s ≡ some r) × CanAuthorize by now r)
unfolding authorize
authorize_iff id by now s = elim (Option-cases (lookup id s)) [
  | inl e ↦ (λ h. ground arith, λ c. ground (arith, c.1))
  | inr (r, e) ↦ (
    λ h. (r, e, (authorize_check_iff by now r).0 (ground arith)),
    λ c. ground (arith, c.1, e, (authorize_check_iff by now c.0).1 c.2),
  )
]

-- What a grant writes: the record under `id` becomes authorized, every other entry is as before.
pub lookup-authorize :
    (id j : String) (by : TrustedContext) (now : Time) (s : Store) (r : ConfirmationState)
    → lookup id s ≡ some r
    → authorize_check by now r ≡ none
    → lookup j (authorize id by now s).1
      ≡ (if str_eq id j then some (record r { status = authorized }) else lookup j s)
unfolding authorize
lookup-authorize id j by now s r e c = rw (e, authorize, c) (lookup-insert id j _ s)

-- A call of `Authorize` that fails changes nothing.
pub authorize_error :
    (id : String) (by : TrustedContext) (now : Time) (s : Store)
    → (authorize id by now s).0 ≢ none
    → (authorize id by now s).1 ≡ s
unfolding authorize
authorize_error id by now s h = ground arith

binding_check-consumed :
    (b : ConfirmationBinding) (now : Time) (r : ConfirmationState)
    → binding_check b now (record r { status = consumed }) ≡ binding_check b now r
unfolding binding_check
binding_check-consumed b now r = ground arith

-- The grant that `VerifyAuthorized` accepted.
pub verify_authorized_grant :
    (id : String) (b : ConfirmationBinding) (now : Time) (s : Store)
    → verify_authorized id b now s ≡ none
    → (r : ConfirmationState) × (lookup id s ≡ some r)
      × (binding_check b now r ≡ none)
      × ((r.status ≡ authorized) ⊎ (r.status ≡ consumed))
unfolding verify_authorized
verify_authorized_grant id b now s h = elim (Option-cases (lookup id s)) [
  | inl e ↦ ground arith
  | inr (r, e) ↦ (r, e, ground arith, ground arith)
]

-- A verified grant can be consumed, and after that the identical action may be replayed: it
-- verifies again, and consuming it again succeeds and changes nothing.
pub consume_replay :
    (id : String) (b : ConfirmationBinding) (now : Time) (s : Store)
    → verify_authorized id b now s ≡ none
    → let (e, t) = mark_consumed id b now s in
      (e ≡ none) × (verify_authorized id b now t ≡ none) × (mark_consumed id b now t ≡ (none, t))
unfolding verify_authorized mark_consumed
consume_replay id b now s h =
    let (r, e, c, st) = verify_authorized_grant id b now s h in
    let r' = record r { status = consumed } in
    elim st [
      | inl a ↦
          let found = lookup-insert id id r' s in
          ground (arith, e, c, a, found, eq_iff id id, binding_check-consumed b now r)
      | inr a ↦ ground (arith, e, c, a)
    ]
