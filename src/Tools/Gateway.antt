-- ===== src/Tools/Gateway.antt =====
-- internal/tools/gateway.go: the parts that the handlers share. Package time, crypto and
-- encoding/json enter as `Env`; arguments arrive here checked against the tool's JSON schema.
pub mod Slots
pub mod Bookings
pub mod Handlers
pub mod Execute
use kontor.Prelude.{
  ℕ, ◌+◌, ◌-◌, Bool, true, false, not, ◌&&◌, ◌||◌, Option, none, some, List, [], ◌∷◌, String,
  str_eq, Time, before, after, Dict, lookup, insert, if◌then◌else◌,
}
use kontor.Tools.Types.{
  Capability, schedule_read, booking_create_self, booking_write_self, crm_contact_self,
  crm_deal_after_book, conversation_escalate, TrustedContext, is_empty,
}
use kontor.Tools.Confirmations.{ConfirmationBinding, ConfirmationState, Store, latest}
use kontor.Tools.Tokens.{Codec, Bytes}
use kontor.Tools.Json.{Json, Object, string, is_blank}
use kontor.Tools.Outcome.{
  ErrorCode, Resolution, ToolError, BackendError, Data, Result, success, error,
  not_found_or_not_owned, slot_unavailable, booking_state_conflict, idempotency_conflict,
  dependency_unavailable, internal, invalid_argument, escalate_resolution, find_another_slot,
  ask_customer, fix_arguments, retry, err_not_found_or_not_owned, err_slot_unavailable,
  err_booking_state_conflict, err_idempotency_conflict, err_dependency_unavailable, err_other,
}

-- `marshal` is json.Marshal of a map, `derive_key` the hash of the parts joined by zero bytes after
-- "srv-", `format`, `format_range` and `format_utc` are RFC 3339, `fresh_id` is the random identifier of `newUUID`.
pub record Env : Type 0 where
  pub codec : Codec
  pub token_bytes : String → Bytes
  pub marshal : Object → String
  pub unmarshal : String → Option Object
  pub sha256 : String → ℕ
  pub derive_key : List String → String
  pub format : Time → String
  pub format_utc : Time → String
  pub format_range : Time → Time → String
  pub parse_time : String → Option Time
  pub known_zone : String → Bool
  pub fresh_id : String

-- The settings of a `Gateway`, which `NewGateway` makes positive.
pub record Config : Type 0 where
  pub slot_token_ttl : ℕ
  pub confirmation_ttl : ℕ
  pub min_booking_lead_time : ℕ
  pub max_booking_horizon : ℕ

-- What a call can change: the world of the backend and the confirmation store.
pub record State (W : Type 0) : Type 0 where
  pub world : W
  pub store : Store

pub data ToolName : Type 0 where
  list_services list_staff find_slots create_booking reschedule_booking cancel_booking
        upsert_crm_contact create_deal escalate_to_human respond_to_customer :
      ToolName

abbrev pub tool_name : ToolName → String
tool_name list_services = "list_services"
tool_name list_staff = "list_staff"
tool_name find_slots = "find_slots"
tool_name create_booking = "create_booking"
tool_name reschedule_booking = "reschedule_booking"
tool_name cancel_booking = "cancel_booking"
tool_name upsert_crm_contact = "upsert_crm_contact"
tool_name create_deal = "create_deal"
tool_name escalate_to_human = "escalate_to_human"
tool_name respond_to_customer = "respond_to_customer"

unfoldable pub required_capability : ToolName → Capability
required_capability list_services = schedule_read
required_capability list_staff = schedule_read
required_capability find_slots = schedule_read
required_capability create_booking = booking_create_self
required_capability reschedule_booking = booking_write_self
required_capability cancel_booking = booking_write_self
required_capability upsert_crm_contact = crm_contact_self
required_capability create_deal = crm_deal_after_book
required_capability escalate_to_human = conversation_escalate
required_capability respond_to_customer = Capability.never

unfoldable pub succeed : Result → Data → Bool → Result
succeed r d replayed = record r {
  status = success;
  result_data = some d;
  failure = none;
  confirmation = none;
  idempotency_replayed = replayed;
}

unfoldable pub fail : Result → ErrorCode → Bool → Resolution → Result
fail r code retryable resolution = record r {
  status = error;
  result_data = none;
  confirmation = none;
  failure = some (record { code = code; retryable = retryable; resolution = resolution });
}

unfoldable pub backend_failure : Result → BackendError → Result
backend_failure r err_not_found_or_not_owned =
    fail r not_found_or_not_owned false escalate_resolution
backend_failure r err_slot_unavailable = fail r slot_unavailable false find_another_slot
backend_failure r err_booking_state_conflict = fail r booking_state_conflict false ask_customer
backend_failure r err_idempotency_conflict = fail r idempotency_conflict false escalate_resolution
backend_failure r err_dependency_unavailable = fail r dependency_unavailable true retry
backend_failure r err_other = fail r internal false escalate_resolution

unfoldable pub discovery_failure : Result → BackendError → Result
discovery_failure r err_not_found_or_not_owned = fail r invalid_argument false fix_arguments
discovery_failure r e = backend_failure r e

-- `firstNonEmpty` of two values
unfoldable pub first_non_empty : String → String → String
first_non_empty a b = if not (is_empty a) then a else if not (is_empty b) then b else "unknown"

-- `slotWithinBookingWindow`, with the bounds of `bookingWindow`
unfoldable pub slot_within_booking_window : Config → Time → Time → Time → Bool
slot_within_booking_window c start end now =
    not (before start (now + c.min_booking_lead_time))
    && (before start end && not (after end (now + c.max_booking_horizon)))

unfoldable pub without : String → Object → Object
without name [] = []
without name ((k, v) ∷ o) = if str_eq k name then without name o else (k, v) ∷ without name o

unfoldable pub confirmation_binding : Env → TrustedContext → String → Object → ConfirmationBinding
confirmation_binding env trusted tool arguments =
    let canonical = env.marshal (without "confirmation_id" arguments) in
    record {
      tenant_id = trusted.tenant_id;
      owner_customer_id = trusted.customer_id;
      conversation_id = trusted.conversation_id;
      proposed_from_message_id = trusted.inbound_message_id;
      tool = tool;
      arguments_hash = env.sha256 canonical;
      arguments_json = canonical;
    }

-- `adoptIdempotencyKey`: the key, and the arguments with a derived key written back.
unfoldable pub adopt_idempotency_key :
    Env → Object → String → TrustedContext → ToolName → List String → String × Object
adopt_idempotency_key env object supplied trusted tool facts =
    let derived = env.derive_key (
      trusted.tenant_id ∷ trusted.conversation_id ∷ trusted.customer_id ∷ tool_name tool ∷ facts) in
    if not (is_blank supplied)
    then (supplied, object)
    else (derived, insert "idempotency_key" (string derived) object)

-- The confirmation identifier that a call names, empty if it names none.
unfoldable pub named_confirmation : Object → String
named_confirmation arguments = elim (lookup "confirmation_id" arguments) [
  | some (string id) ↦ id
  | _ ↦ ""
]

-- The frozen action is restored for this live proposal.
unfoldable pub is_restorable : String → ToolName → ConfirmationState → Bool
is_restorable id tool s =
    str_eq s.proposal.id id
    && (str_eq s.binding.tool (tool_name tool) && not (is_empty s.binding.arguments_json))

-- `restoreFrozenAction`; `none` is the error of a frozen action that does not decode.
unfoldable pub restore_frozen_action :
    Env → Time → TrustedContext → ToolName → Object → Store → Option Object
unfolding named_confirmation is_restorable
restore_frozen_action env now trusted tool arguments store =
    let id = named_confirmation arguments in
    if is_empty id
    then some arguments
    else elim (latest trusted.tenant_id trusted.customer_id trusted.conversation_id now store) [
      | none ↦ some arguments
      | some s ↦
          if not (is_restorable id tool s)
          then some arguments
          else elim (env.unmarshal s.binding.arguments_json) [
            | none ↦ none
            | some frozen ↦ some (insert "confirmation_id" (string id) frozen)
          ]
    ]
