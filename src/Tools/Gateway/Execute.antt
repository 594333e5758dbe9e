-- ===== src/Tools/Gateway/Execute.antt =====
-- Execute (internal/tools/gateway.go): the checks of a call, the frozen action of a confirming call,
-- and the dispatch to the handlers listServices, listStaff and escalate, here, and the others.
pub mod Guard
pub mod Frozen
use kontor.Prelude.{
  Bool, true, false, not, Option, none, some, List, [], ◌∷◌, String, str_eq, Time, lookup,
  if◌then◌else◌, ◌>>=◌,
}
use kontor.Tools.Types.{Capability, TrustedContext, allows, valid}
use kontor.Tools.Json.{Json, Object, Fields, object, string, member}
use kontor.Tools.Outcome.{
  Result, Answer, answered, failed, Backend, EscalationCommand, EscalationOutcome, services_data,
  staff_data, escalation_data, error, invalid_argument, tool_not_allowed, policy_denied,
  not_implemented, fix_arguments, escalate_resolution,
}
use kontor.Tools.Gateway.{
  Env, Config, State, ToolName, list_services, list_staff, find_slots, create_booking,
  reschedule_booking, cancel_booking, upsert_crm_contact, create_deal, escalate_to_human,
  respond_to_customer, tool_name, required_capability, succeed, fail, backend_failure,
  discovery_failure, restore_frozen_action,
}
use kontor.Tools.Gateway.Slots.{handle_find_slots, optional_string}
use kontor.Tools.Gateway.Handlers.{
  handle_create_booking, handle_reschedule_booking, handle_cancel_booking,
}

pub record Call : Type 0 where
  pub id : String
  pub name : String
  pub raw_arguments : String

abbrev pub all_tools : List ToolName
all_tools =
    list_services ∷ list_staff ∷ find_slots ∷ create_booking ∷ reschedule_booking ∷ cancel_booking
    ∷ upsert_crm_contact ∷ create_deal ∷ escalate_to_human ∷ respond_to_customer ∷ []

-- `g.definitions[call.Name]`, the allowlist of the server
unfoldable pub find_tool : String → List ToolName → Option ToolName
find_tool name [] = none
find_tool name (t ∷ ts) = if str_eq name (tool_name t) then some t else find_tool name ts

-- The result that `Execute` starts from.
unfoldable pub initial_result : Call → Result
initial_result call = record {
  tool = call.name;
  call_id = call.id;
  status = error;
  result_data = none;
  confirmation = none;
  failure = none;
  idempotency_replayed = false;
  side_effect_committed = false;
}

unfoldable pub escalation_result : Result → Answer EscalationOutcome → Result
escalation_result r (failed e) = backend_failure r e
escalation_result r (answered o) = succeed r (escalation_data o) o.replayed

module _ {W : Type 0} (backend : Backend W) (trusted : TrustedContext) (result : Result) where
  -- `listServices`
  unfoldable pub handle_list_services : W → Result
  handle_list_services w = elim (backend.list_services trusted.tenant_id w) [
    | failed e ↦ backend_failure result e
    | answered services ↦ succeed result (services_data services) false
  ]

  -- `listStaff`
  unfoldable pub handle_list_staff : Object → W → Result
  handle_list_staff o w =
      elim (backend.list_staff trusted.tenant_id (optional_string (lookup "service_id" o)) w) [
        | failed e ↦ discovery_failure result e
        | answered staff ↦ succeed result (staff_data staff) false
      ]

  unfoldable pub escalation_command : Fields → EscalationCommand
  escalation_command reason = record {
    tenant_id = trusted.tenant_id;
    owner_customer_id = trusted.customer_id;
    conversation_id = trusted.conversation_id;
    agent_run_id = trusted.agent_run_id;
    tool_call_id = result.call_id;
    reason_code = optional_string (member "code" reason);
    summary = optional_string (member "summary" reason);
  }

  -- `escalate`
  unfoldable pub handle_escalate : Object → State W → Result × State W
  unfolding escalation_result
  handle_escalate o st = elim (lookup "reason" o) [
    | some (object reason) ↦
        let (outcome, w) = backend.escalate (escalation_command reason) st.world in
        (escalation_result result outcome, record st { world = w })
    | _ ↦ (fail result invalid_argument false fix_arguments, st)
  ]

-- `validate` is validateArguments of the tool's compiled schema. The clock reads `asked` when the
-- frozen action is looked up, `now` when the handler starts, and `later` when slots are signed.
module _ (env : Env) (config : Config) (validate : ToolName → String → Option Object) {W : Type 0}
    (backend : Backend W) (asked now later : Time) (trusted : TrustedContext) where
  unfoldable pub dispatch : ToolName → Object → Result → State W → Result × State W
  dispatch list_services o r st = (handle_list_services backend trusted r st.world, st)
  dispatch list_staff o r st = (handle_list_staff backend trusted r o st.world, st)
  dispatch find_slots o r st =
      (handle_find_slots env config backend now later trusted r st.world o, st)
  dispatch create_booking o r st = handle_create_booking env config now trusted backend r st o
  dispatch reschedule_booking o r st =
      handle_reschedule_booking env config now trusted backend r st o
  dispatch cancel_booking o r st = handle_cancel_booking env config now trusted backend r st o
  dispatch escalate_to_human o r st = handle_escalate backend trusted r o st
  dispatch upsert_crm_contact o r st = (fail r not_implemented false escalate_resolution, st)
  dispatch create_deal o r st = (fail r not_implemented false escalate_resolution, st)
  dispatch respond_to_customer o r st = (fail r not_implemented false escalate_resolution, st)

  -- The part of `Execute` behind the principal's checks.
  unfoldable pub act : ToolName → Object → Result → State W → Result × State W
  act tool o r st = elim (restore_frozen_action env asked trusted tool o st.store) [
    | none ↦ (fail r invalid_argument false fix_arguments, st)
    | some arguments ↦ dispatch tool arguments r st
  ]

  unfoldable pub execute_tool : ToolName → String → Result → State W → Result × State W
  unfolding act
  execute_tool tool raw r st = elim (validate tool raw) [
    | none ↦ (fail r invalid_argument false fix_arguments, st)
    | some o ↦
        if not (valid trusted)
        then (fail r policy_denied false escalate_resolution, st)
        else if not (allows trusted (required_capability tool))
        then (fail r policy_denied false escalate_resolution, st)
        else act tool o r st
  ]

  unfoldable pub execute : Call → State W → Result × State W
  unfolding execute_tool initial_result
  execute call st = elim (find_tool call.name all_tools) [
    | none ↦ (fail (initial_result call) tool_not_allowed false escalate_resolution, st)
    | some tool ↦ execute_tool tool call.raw_arguments (initial_result call) st
  ]
