-- ===== src/Proposals.antt =====
-- internal/confirmations/postgres.go: the confirmation store in the database, SQL statement by
-- statement. A transaction is one step; a row that cannot be inserted rolls it back.
pub mod Authorize
pub mod History
mod Tests
use kontor.Prelude.{
  ℕ, Bool, true, false, not, ◌&&◌, ◌||◌, Option, none, some, List, [], ◌∷◌, String, str_eq, ◌==◌,
  any, length, leb, ltb, if◌then◌else◌, Time, before, after, ◌⊎◌, inl, inr,
}
use kontor.Tools.Types.{TrustedContext, is_empty}
use kontor.Tools.Confirmations.{
  ConfirmationProposal, ConfirmationBinding, ConfirmationState, Status, pending as state_pending,
  authorized, with_id,
}

pub data ProposalStatus : Type 0 where
  pending confirmed consumed rejected expired : ProposalStatus

-- A row of action_proposals; `summary` is the proposal as JSON.
pub record ProposalRow : Type 0 where
  pub tenant_id : String
  pub id : String
  pub conversation_id : String
  pub customer_id : String
  pub tool_name : String
  pub arguments_json : String
  pub arguments_hash : String
  pub summary : String
  pub status : ProposalStatus
  pub expires_at : Time
  pub created_at : Time
  pub proposed_message_id : String
  pub confirmed_message_id : Option String
  pub confirmed_at : Option Time
  pub consumed_at : Option Time

pub record MessageRow : Type 0 where
  pub tenant_id : String
  pub id : String
  pub conversation_id : String
  pub role : String
  pub created_at : Time

pub record ConversationKey : Type 0 where
  pub tenant_id : String
  pub id : String
  pub customer_id : String

pub record Database : Type 0 where
  pub proposals : List ProposalRow
  pub messages : List MessageRow
  pub conversations : List ConversationKey

-- encoding/hex on a digest, encoding/json on a proposal, what PostgreSQL keeps of a text that it
-- takes in as jsonb, and the constraints of the table.
pub record ProposalCodec : Type 0 where
  pub hex : ℕ → String
  pub unhex : String → Option ℕ
  pub encode : ConfirmationProposal → String
  pub decode : String → Option ConfirmationProposal
  pub jsonb : String → String
  pub can_insert : ProposalRow → List ProposalRow → Bool

pub data ProposalError : Type 0 where
  lacks_context unknown_conversation not_inserted : ProposalError

-- `status IN ('pending','confirmed')`
unfoldable pub is_live : ProposalStatus → Bool
is_live pending = true
is_live confirmed = true
is_live _ = false

unfoldable pub is_waiting : ProposalStatus → Bool
is_waiting pending = true
is_waiting _ = false

-- `status IN ('confirmed','consumed')`
unfoldable pub is_granted : ProposalStatus → Bool
is_granted confirmed = true
is_granted consumed = true
is_granted _ = false

unfoldable pub update_rows :
    (ProposalRow → Bool) → (ProposalRow → ProposalRow) → List ProposalRow → List ProposalRow
update_rows p f [] = []
update_rows p f (r ∷ rs) = (if p r then f r else r) ∷ update_rows p f rs

-- The conversation of one customer.
unfoldable pub belongs : String → String → String → ProposalRow → Bool
belongs tenant customer conversation r =
    str_eq r.tenant_id tenant
    && (str_eq r.customer_id customer && str_eq r.conversation_id conversation)

unfoldable pub is_live_in : String → String → String → ProposalRow → Bool
unfolding belongs is_live
is_live_in tenant customer conversation r =
    belongs tenant customer conversation r && is_live r.status

-- `expires_at<=$4`
unfoldable pub is_overdue : String → String → String → Time → ProposalRow → Bool
unfolding is_live_in
is_overdue tenant customer conversation now r =
    is_live_in tenant customer conversation r && not (after r.expires_at now)

unfoldable pub with_status : ProposalStatus → ProposalRow → ProposalRow
with_status s r = record r { status = s }

-- The live proposal of the same action.
unfoldable pub is_same_action : ConfirmationBinding → String → Time → ProposalRow → Bool
unfolding is_live_in
is_same_action b hash now r =
    is_live_in b.tenant_id b.owner_customer_id b.conversation_id r
    && (str_eq r.tool_name b.tool && (str_eq r.arguments_hash hash && after r.expires_at now))

-- `ORDER BY created_at DESC LIMIT 1`, over the rows that match.
unfoldable pub newer : ProposalRow → Option ProposalRow → Option ProposalRow
newer r none = some r
newer r (some s) = if before r.created_at s.created_at then some s else some r

unfoldable pub newest : (ProposalRow → Bool) → List ProposalRow → Option ProposalRow
unfolding newer
newest p [] = none
newest p (r ∷ rs) = let rest = newest p rs in if p r then newer r rest else rest

-- `Scan(&existingID, &existingPayload)` and `json.Unmarshal`
unfoldable pub existing_proposal :
    ProposalCodec → ConfirmationBinding → Time → List ProposalRow → Option ConfirmationProposal
unfolding newest is_same_action
existing_proposal codec b now rows =
    elim (newest (is_same_action b (codec.hex b.arguments_hash) now) rows) [
      | none ↦ none
      | some r ↦ codec.decode r.summary
    ]

unfoldable pub new_row :
    ProposalCodec → ConfirmationBinding → ConfirmationProposal → Time → ProposalRow
new_row codec b p stamp = record {
  tenant_id = b.tenant_id;
  id = p.id;
  conversation_id = b.conversation_id;
  customer_id = b.owner_customer_id;
  tool_name = b.tool;
  arguments_json = codec.jsonb b.arguments_json;
  arguments_hash = codec.hex b.arguments_hash;
  summary = codec.encode p;
  status = pending;
  expires_at = p.expires_at;
  created_at = stamp;
  proposed_message_id = b.proposed_from_message_id;
  confirmed_message_id = none;
  confirmed_at = none;
  consumed_at = none;
}

-- `FOR UPDATE` of the conversation
unfoldable pub is_conversation : ConfirmationBinding → ConversationKey → Bool
is_conversation b k =
    str_eq k.tenant_id b.tenant_id
    && (str_eq k.id b.conversation_id && str_eq k.customer_id b.owner_customer_id)

-- The rows once overdue proposals are expired, and once live ones are replaced.
unfoldable pub expire_overdue : ConfirmationBinding → Time → List ProposalRow → List ProposalRow
unfolding update_rows is_overdue with_status
expire_overdue b now rows =
    update_rows (is_overdue b.tenant_id b.owner_customer_id b.conversation_id now)
      (with_status expired) rows

unfoldable pub reject_live : ConfirmationBinding → List ProposalRow → List ProposalRow
unfolding update_rows is_live_in with_status
reject_live b rows =
    update_rows (is_live_in b.tenant_id b.owner_customer_id b.conversation_id)
      (with_status rejected) rows

-- `Propose`, with a fresh identifier and the time of the insertion.
unfoldable pub propose :
    ProposalCodec
    → String
    → Time
    → ConfirmationBinding
    → ConfirmationProposal
    → Time
    → Database
    → (ProposalError ⊎ ConfirmationProposal) × Database
unfolding expire_overdue existing_proposal reject_live new_row is_conversation
propose codec fresh stamp b proposal now db =
    let p = with_id fresh proposal in
    let rows = expire_overdue b now db.proposals in
    let row = new_row codec b p stamp in
    if is_empty b.proposed_from_message_id || is_empty b.arguments_json
    then (inl lacks_context, db)
    else if not (any (is_conversation b) db.conversations)
    then (inl unknown_conversation, db)
    else elim (existing_proposal codec b now rows) [
      | some found ↦ (inr found, record db { proposals = rows })
      | none ↦
          if codec.can_insert row (reject_live b rows)
          then (inr p, record db { proposals = row ∷ reject_live b rows })
          else (inl not_inserted, db)
    ]

unfoldable pub invalidate_latest : String → String → String → Time → Database → Database
unfolding update_rows is_live_in with_status
invalidate_latest tenant customer conversation now db = record db {
  proposals =
      update_rows (λ r. is_live_in tenant customer conversation r && after r.expires_at now)
        (with_status rejected) db.proposals;
}

pub data LatestError : Type 0 where
  undecodable_summary invalid_hash : LatestError

-- The status of a live row as that of a `ConfirmationState`.
unfoldable pub state_status : ProposalStatus → Status
state_status confirmed = authorized
state_status _ = state_pending

-- What `Latest` reads from a row: the summary has every field of the proposal.
unfoldable pub read_state : ProposalCodec → ProposalRow → LatestError ⊎ ConfirmationState
unfolding state_status
read_state codec r = elim (codec.decode r.summary) [
  | none ↦ inl undecodable_summary
  | some p ↦ elim (codec.unhex r.arguments_hash) [
    | none ↦ inl invalid_hash
    | some hash ↦ inr (record {
      proposal = p;
      binding = record {
        tenant_id = r.tenant_id;
        owner_customer_id = r.customer_id;
        conversation_id = r.conversation_id;
        proposed_from_message_id = r.proposed_message_id;
        tool = r.tool_name;
        arguments_hash = hash;
        arguments_json = r.arguments_json;
      };
      status = state_status r.status;
    })
  ]
]

unfoldable pub latest :
    ProposalCodec
    → String
    → String
    → String
    → Time
    → Database
    → Option (LatestError ⊎ ConfirmationState)
unfolding newest is_live_in read_state
latest codec tenant customer conversation now db =
    elim (newest (λ r. is_live_in tenant customer conversation r && after r.expires_at now)
      db.proposals) [ none ↦ none | some r ↦ some (read_state codec r) ]
