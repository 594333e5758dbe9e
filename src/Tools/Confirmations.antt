-- ===== src/Tools/Confirmations.antt =====
-- internal/tools/confirmations.go: the in-memory confirmation store, the two-phase authorization of
-- mutations. The mutex makes each method one step; the map of records is an association list whose
-- order is that of one iteration, so what holds here holds for every iteration order.
pub mod Authorize
pub mod History
pub mod Latest
use kontor.Prelude.{
  ℕ, Bool, true, false, not, ◌&&◌, ◌||◌, Option, none, some, List, [], ◌∷◌, String, str_eq, ◌==◌,
  if◌then◌else◌, Time, before, after, Dict, lookup, insert,
}
use kontor.Tools.Types.{TrustedContext, is_empty}

pub data ConfirmationError : Type 0 where
  confirmation_invalid confirmation_expired confirmation_stale : ConfirmationError

pub record ConfirmationFact : Type 0 where
  pub label : String
  pub value : String

pub record ConfirmationProposal : Type 0 where
  pub id : String
  pub action : String
  pub title : String
  pub facts : List ConfirmationFact
  pub expires_at : Time

-- `arguments_hash` is the 256-bit digest as a number, `arguments_json` the frozen canonical action.
pub record ConfirmationBinding : Type 0 where
  pub tenant_id : String
  pub owner_customer_id : String
  pub conversation_id : String
  pub proposed_from_message_id : String
  pub tool : String
  pub arguments_hash : ℕ
  pub arguments_json : String

pub data Status : Type 0 where
  pending authorized consumed rejected : Status

pub record ConfirmationState : Type 0 where
  pub proposal : ConfirmationProposal
  pub binding : ConfirmationBinding
  pub status : Status

abbrev pub Store : Type 0
Store = Dict ConfirmationState

abbrev pub is_pending : Status → Bool
is_pending pending = true
is_pending _ = false

abbrev pub is_authorized : Status → Bool
is_authorized authorized = true
is_authorized _ = false

abbrev pub is_consumed : Status → Bool
is_consumed consumed = true
is_consumed _ = false

-- `Status == "pending" || Status == "authorized"`
abbrev pub is_open : Status → Bool
is_open s = is_pending s || is_authorized s

unfoldable pub equal_binding : ConfirmationBinding → ConfirmationBinding → Bool
equal_binding a b =
    str_eq a.tenant_id b.tenant_id
    && (str_eq a.owner_customer_id b.owner_customer_id
        && (str_eq a.conversation_id b.conversation_id
            && (str_eq a.tool b.tool && a.arguments_hash == b.arguments_hash)))

-- The record that the loop of `Propose` returns.
unfoldable pub find_live : ConfirmationBinding → Time → Store → Option ConfirmationState
find_live binding now [] = none
find_live binding now ((_, r) ∷ s) =
    if is_open r.status && (after r.proposal.expires_at now && equal_binding r.binding binding)
    then some r
    else find_live binding now s

-- `if proposal.ID == "" { proposal.ID = newUUID() }`, with the fresh identifier as an argument.
unfoldable pub with_id : String → ConfirmationProposal → ConfirmationProposal
with_id fresh p = if is_empty p.id then record p { id = fresh } else p

unfoldable pub propose :
    String
    → ConfirmationBinding
    → ConfirmationProposal
    → Time
    → Store
    → ConfirmationProposal × Store
unfolding with_id
propose fresh binding proposal now s = elim (find_live binding now s) [
  | some r ↦ (r.proposal, s)
  | none ↦
      let p = with_id fresh proposal in
      (p, insert p.id (record { proposal = p; binding = binding; status = pending }) s)
]

-- The conversation of one customer that a record belongs to.
unfoldable pub in_scope : String → String → String → ConfirmationBinding → Bool
in_scope tenant owner conversation b =
    str_eq b.tenant_id tenant
    && (str_eq b.owner_customer_id owner && str_eq b.conversation_id conversation)

-- A record that the loops of `Latest` and `InvalidateLatest` do not skip.
unfoldable pub is_candidate : String → String → String → Time → ConfirmationState → Bool
is_candidate tenant owner conversation now r =
    in_scope tenant owner conversation r.binding
    && (before now r.proposal.expires_at && is_open r.status)

-- `!found || record.Proposal.ExpiresAt.After(latest.Proposal.ExpiresAt)`
unfoldable pub later : ConfirmationState → Option ConfirmationState → Option ConfirmationState
later r none = some r
later r (some l) = if after r.proposal.expires_at l.proposal.expires_at then some r else some l

-- The loop of `Latest`, with `latest` and `found` as one option.
unfoldable pub latest_from :
    String → String → String → Time → Option ConfirmationState → Store → Option ConfirmationState
latest_from tenant owner conversation now found [] = found
latest_from tenant owner conversation now found ((_, r) ∷ s) =
    latest_from tenant owner conversation now
      (if is_candidate tenant owner conversation now r then later r found else found) s

unfoldable pub latest : String → String → String → Time → Store → Option ConfirmationState
unfolding latest_from
latest tenant owner conversation now s = latest_from tenant owner conversation now none s

unfoldable pub reject : String → String → String → Time → ConfirmationState → ConfirmationState
reject tenant owner conversation now r =
    if is_candidate tenant owner conversation now r then record r { status = rejected } else r

unfoldable pub invalidate_latest : String → String → String → Time → Store → Store
invalidate_latest tenant owner conversation now [] = []
invalidate_latest tenant owner conversation now ((k, r) ∷ s) =
    (k, reject tenant owner conversation now r) ∷ invalidate_latest tenant owner conversation now s

-- The checks of `Authorize` on a record that was found.
unfoldable pub authorize_check :
    TrustedContext → Time → ConfirmationState → Option ConfirmationError
authorize_check by now r =
    if not (in_scope by.tenant_id by.customer_id by.conversation_id r.binding)
    then some confirmation_invalid
    else if not (before now r.proposal.expires_at)
    then some confirmation_expired
    else if not (is_pending r.status)
        || (is_empty by.inbound_message_id
            || str_eq by.inbound_message_id r.binding.proposed_from_message_id)
    then some confirmation_invalid
    else none

unfoldable pub authorize : String → TrustedContext → Time → Store → Option ConfirmationError × Store
unfolding authorize_check
authorize id by now s = elim (lookup id s) [
  | none ↦ (some confirmation_invalid, s)
  | some r ↦ elim (authorize_check by now r) [
    | some e ↦ (some e, s)
    | none ↦ (none, insert id (record r { status = authorized }) s)
  ]
]

-- The checks that `VerifyAuthorized` and `MarkConsumed` begin with.
unfoldable pub binding_check :
    ConfirmationBinding → Time → ConfirmationState → Option ConfirmationError
binding_check binding now r =
    if not (before now r.proposal.expires_at)
    then some confirmation_expired
    else if not (equal_binding r.binding binding)
    then some confirmation_stale
    else none

unfoldable pub verify_authorized :
    String → ConfirmationBinding → Time → Store → Option ConfirmationError
unfolding binding_check
verify_authorized id binding now s = elim (lookup id s) [
  | none ↦ some confirmation_invalid
  | some r ↦ elim (binding_check binding now r) [
    | some e ↦ some e
    | none ↦
        if not (is_authorized r.status) && not (is_consumed r.status)
        then some confirmation_invalid
        else none
  ]
]

unfoldable pub mark_consumed :
    String → ConfirmationBinding → Time → Store → Option ConfirmationError × Store
unfolding binding_check
mark_consumed id binding now s = elim (lookup id s) [
  | none ↦ (some confirmation_invalid, s)
  | some r ↦ elim (binding_check binding now r) [
    | some e ↦ (some e, s)
    | none ↦
        if is_consumed r.status
        then (none, s)
        else if not (is_authorized r.status)
        then (some confirmation_invalid, s)
        else (none, insert id (record r { status = consumed }) s)
  ]
]
