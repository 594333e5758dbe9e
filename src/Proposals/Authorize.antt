-- ===== src/Proposals/Authorize.antt =====
-- The customer's answer and the use of a proposal (internal/confirmations/postgres.go).
use kontor.Prelude.{
  Bool, not, ◌&&◌, ◌||◌, Option, none, some, List, [], ◌∷◌, String, str_eq, any, if◌then◌else◌,
  Time, before, after,
}
use kontor.Tools.Types.{TrustedContext, is_empty}
use kontor.Tools.Confirmations.{
  ConfirmationError, confirmation_invalid, confirmation_expired, confirmation_stale,
  ConfirmationBinding,
}
use kontor.Proposals.{
  ProposalRow, confirmed, consumed, MessageRow, Database, ProposalCodec, is_waiting, is_granted,
  update_rows, belongs,
}

-- `tenant_id=$1 AND id=$2 AND customer_id=$3 AND conversation_id=$4`
unfoldable pub is_named : String → String → String → String → ProposalRow → Bool
unfolding belongs
is_named tenant id customer conversation r =
    str_eq r.id id && belongs tenant customer conversation r

-- A message of the assistant between the proposal and the customer's message.
unfoldable pub is_presented : ProposalRow → MessageRow → MessageRow → Bool
is_presented r answer m =
    str_eq m.tenant_id r.tenant_id
    && (str_eq m.conversation_id r.conversation_id
        && (str_eq m.role "assistant"
            && (not (before m.created_at r.created_at) && before m.created_at answer.created_at)))

-- A message of the customer that may answer the proposal.
unfoldable pub is_answer : List MessageRow → ProposalRow → String → MessageRow → Bool
unfolding is_presented
is_answer messages r id m =
    str_eq m.tenant_id r.tenant_id
    && (str_eq m.id id
        && (str_eq m.conversation_id r.conversation_id
            && (str_eq m.role "user" && any (is_presented r m) messages)))

-- The message with this identifier is an answer, and not the one that led to the proposal.
unfoldable pub has_consent : List MessageRow → ProposalRow → String → Bool
unfolding is_answer
has_consent messages r id =
    not (str_eq r.proposed_message_id id) && any (is_answer messages r id) messages

unfoldable pub can_authorize : List MessageRow → String → TrustedContext → Time → ProposalRow → Bool
unfolding is_named has_consent is_waiting
can_authorize messages id by now r =
    is_named by.tenant_id id by.customer_id by.conversation_id r
    && (is_waiting r.status
        && (after r.expires_at now && has_consent messages r by.inbound_message_id))

unfoldable pub confirm : String → Time → ProposalRow → ProposalRow
confirm message now r = record r {
  status = confirmed;
  confirmed_message_id = some message;
  confirmed_at = some now;
}

unfoldable pub find_proposal : (ProposalRow → Bool) → List ProposalRow → Option ProposalRow
find_proposal p [] = none
find_proposal p (r ∷ rs) = if p r then some r else find_proposal p rs

-- `classifyFailure`
unfoldable pub classify_failure :
    String → String → String → String → Time → List ProposalRow → ConfirmationError
unfolding find_proposal is_named
classify_failure id tenant customer conversation now rows =
    elim (find_proposal (is_named tenant id customer conversation) rows) [
      | none ↦ confirmation_invalid
      | some r ↦
          if not (before now r.expires_at) then confirmation_expired else confirmation_invalid
    ]

unfoldable pub authorize :
    String → TrustedContext → Time → Database → Option ConfirmationError × Database
unfolding can_authorize confirm classify_failure update_rows
authorize id by now db =
    if is_empty by.inbound_message_id
    then (some confirmation_invalid, db)
    else if any (can_authorize db.messages id by now) db.proposals
    then (
      none,
      record db {
        proposals =
            update_rows (can_authorize db.messages id by now) (confirm by.inbound_message_id now)
              db.proposals;
      },
    )
    else (
      some (classify_failure id by.tenant_id by.customer_id by.conversation_id now db.proposals),
      db,
    )

-- The checks of `VerifyAuthorized` on the row that was found.
unfoldable pub verify_row :
    ProposalCodec → ConfirmationBinding → Time → ProposalRow → Option ConfirmationError
unfolding is_granted
verify_row codec b now r =
    if not (before now r.expires_at)
    then some confirmation_expired
    else if not (str_eq r.tool_name b.tool)
        || not (str_eq r.arguments_hash (codec.hex b.arguments_hash))
    then some confirmation_stale
    else if not (is_granted r.status)
    then some confirmation_invalid
    else none

unfoldable pub verify_authorized :
    ProposalCodec → String → ConfirmationBinding → Time → Database → Option ConfirmationError
unfolding find_proposal is_named verify_row
verify_authorized codec id b now db =
    elim (find_proposal (is_named b.tenant_id id b.owner_customer_id b.conversation_id)
      db.proposals) [ none ↦ some confirmation_invalid | some r ↦ verify_row codec b now r ]

unfoldable pub can_consume :
    ProposalCodec → String → ConfirmationBinding → Time → ProposalRow → Bool
unfolding is_named is_granted
can_consume codec id b now r =
    is_named b.tenant_id id b.owner_customer_id b.conversation_id r
    && (str_eq r.tool_name b.tool
        && (str_eq r.arguments_hash (codec.hex b.arguments_hash)
            && (is_granted r.status && after r.expires_at now)))

-- `COALESCE(consumed_at,$6)`
unfoldable pub consume : Time → ProposalRow → ProposalRow
consume now r = record r {
  status = consumed;
  consumed_at = elim r.consumed_at [ none ↦ some now | some t ↦ some t ];
}

unfoldable pub mark_consumed :
    ProposalCodec
    → String
    → ConfirmationBinding
    → Time
    → Database
    → Option ConfirmationError × Database
unfolding can_consume consume update_rows
mark_consumed codec id b now db =
    if any (can_consume codec id b now) db.proposals
    then (
      none,
      record db { proposals = update_rows (can_consume codec id b now) (consume now) db.proposals },
    )
    else (some confirmation_invalid, db)
