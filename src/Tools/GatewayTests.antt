-- ===== src/Tools/GatewayTests.antt =====
-- Runs of the tool gateway and of slot tokens (internal/tools/gateway.go and tokens.go): a customer
-- confirms a cancellation, and slots are signed. The backend counts its changes.
use kontor.Prelude.{
  ℕ, suc, ◌≤◌, ◌≡◌, refl, true, false, Option, none, some, List, [], ◌∷◌, String, lookup, insert,
  All, length, arith, pos,
}
use kontor.Tools.Types.{TrustedContext}
use kontor.Tools.Confirmations.{
  ConfirmationState, in_scope, latest, is_candidate, later, propose, authorize, verify_authorized,
  find_live, equal_binding, mark_consumed,
}
use kontor.Tools.Confirmations.History.{run, Granted}
use kontor.Tools.Tokens.{
  Bytes, Codec, SlotClaims, claims, sign, verify, with_version, has_dot, is_nil,
}
use kontor.Tools.Tokens.RoundTrip.{Decodes, verify-sign}
use kontor.Tools.Tokens.Authentic.{IsAuthentic, verify-IsAuthentic}
use kontor.Tools.Json.{Object, string, string_field}
use kontor.Tools.Outcome.{
  Backend, BookingOutcome, answered, failed, err_other, error, AvailableSlot, TokenSlot,
  FindSlotsQuery,
}
use kontor.Tools.Gateway.{
  Env, Config, ToolName, cancel_booking, restore_frozen_action, confirmation_binding,
  adopt_idempotency_key, is_restorable, named_confirmation, slot_within_booking_window,
}
use kontor.Tools.Gateway.Bookings.{cancel_arguments, propose_or_act, act_confirmed}
use kontor.Tools.Gateway.Handlers.{handle_cancel_booking, cancel_key}
use kontor.Tools.Gateway.Slots.{select_slots, max_model_facing_slots}
use kontor.Tools.Gateway.Slots.Laws.{IsOffer, select_slots_lem}
use kontor.Tools.Gateway.Execute.{Call, execute, dispatch, find_tool}
use kontor.Tools.Gateway.Execute.Guard.{execute-Granted, execute_denied}
use kontor.Tools.Tests.{customer, two_steps, waiting_store}

abbrev morning : SlotClaims
morning = record {
  version = 0;
  tenant_id = "t1";
  conversation_id = "c1";
  service_id = "s1";
  service_name = "Cut";
  staff_id = "f1";
  staff_name = "Bo";
  start_at = 5000;
  end_at = 6000;
  timezone = "UTC";
  expires_at = 900;
}

abbrev codec : Codec
codec = record {
  mac = λ b. 77 ∷ b;
  encode64 = λ b. b;
  decode64 = λ b. some b;
  marshal = λ c. 65 ∷ 66 ∷ [];
  unmarshal = λ b. some (record morning { version = 1 });
}

abbrev signed : Bytes
signed = 115 ∷ 108 ∷ 116 ∷ 95 ∷ 118 ∷ 49 ∷ 95 ∷ 65 ∷ 66 ∷ 46 ∷ 77 ∷ 65 ∷ 66 ∷ []

codec-Decodes : Decodes codec (with_version morning)
unfolding with_version has_dot is_nil
codec-Decodes = record {
  payload = refl;
  signature = refl;
  json = refl;
  payload_dotless = refl;
  payload_filled = refl;
  signature_dotless = refl;
  signature_filled = refl;
}

verify-sign_example : verify codec signed customer 30 ≡ claims (with_version morning)
unfolding sign
verify-sign_example =
    verify-sign codec morning signed customer 30 codec-Decodes refl (omega arith) refl refl
      (omega arith)

verify-IsAuthentic_example : IsAuthentic codec signed customer 30 (record morning { version = 1 })
unfolding verify
verify-IsAuthentic_example =
    verify-IsAuthentic codec signed customer 30 (record morning { version = 1 }) refl

abbrev frozen_action : Object
frozen_action =
    ("booking_id", string "b1") ∷ ("reason", string "ill") ∷ ("idempotency_key", string "k1") ∷ []

abbrev env : Env
env = record {
  codec = codec;
  token_bytes = λ s. [];
  marshal = λ o. "frozen";
  unmarshal = λ s. some frozen_action;
  sha256 = λ s. 7;
  derive_key = λ parts. "srv";
  format = λ t. "";
  format_utc = λ t. "";
  format_range = λ a b. "";
  parse_time = λ s. none;
  known_zone = λ s. true;
  fresh_id = "p2";
}

abbrev config : Config
config = record {
  slot_token_ttl = 100;
  confirmation_ttl = 1000;
  min_booking_lead_time = 50;
  max_booking_horizon = 100_000;
}

abbrev cancelled_booking : BookingOutcome
cancelled_booking = record {
  booking = record {
    id = "b1";
    status = "cancelled";
    service_id = "s1";
    staff_id = "f1";
    start_at = 5000;
    end_at = 6000;
    timezone = "UTC";
    version = pos 2;
  };
  calendar_sync = "";
  idempotency_replayed = false;
}

abbrev backend : Backend ℕ
backend = record {
  list_services = λ tenant w. answered [];
  list_staff = λ tenant service w. answered [];
  find_slots = λ q w. answered [];
  create_booking = λ c w. (answered cancelled_booking, suc w);
  reschedule_booking = λ c w. (answered cancelled_booking, suc w);
  cancel_booking = λ c w. (answered cancelled_booking, suc w);
  escalate = λ c w. (failed err_other, w);
}

abbrev validate : ToolName → String → Option Object
validate tool raw = some (("confirmation_id", string "p1") ∷ ("reason", string raw) ∷ [])

abbrev confirm_call : Call
confirm_call = record { id = "tc1"; name = "cancel_booking"; raw_arguments = "{}" }

cancelled_once :
    (execute env config validate backend 30 30 30 customer confirm_call
      (record { world = 0; store = run two_steps })).1.world
    ≡ 1
unfolding execute find_tool restore_frozen_action named_confirmation is_restorable lookup latest
    authorize propose find_live insert in_scope is_candidate later dispatch handle_cancel_booking
    cancel_arguments string_field propose_or_act act_confirmed verify_authorized equal_binding
    confirmation_binding cancel_key adopt_idempotency_key mark_consumed
cancelled_once = refl

execute-Granted_example :
    (id : String) × (r : ConfirmationState) × (lookup id (run two_steps) ≡ some r)
    × (in_scope "t1" "u1" "c1" r.binding ≡ true)
    × Granted id r.binding two_steps
execute-Granted_example =
    execute-Granted env config validate backend 30 30 30 customer two_steps confirm_call 0 refl
      (λ e. omega (arith, cancelled_once))

abbrev stranger : TrustedContext
stranger = record customer { capabilities = λ c. false }

execute_denied_example :
    let (r, after) =
      execute env config validate backend 30 30 30 stranger confirm_call
        (record { world = 0; store = waiting_store }) in
    (r.status ≡ error)
    × (r.side_effect_committed ≡ false)
    × (after ≡ record { world = 0; store = waiting_store })
execute_denied_example =
    execute_denied env config validate backend 30 30 30 stranger confirm_call
      (record { world = 0; store = waiting_store }) (λ tool e. refl)

abbrev query : FindSlotsQuery
query = record {
  tenant_id = "t1";
  service_id = "s1";
  staff_id = "";
  date_from = 100;
  date_to = 9000;
}

abbrev available : List AvailableSlot
available =
    record {
      service_id = "";
      service_name = "Cut";
      staff_id = "f1";
      staff_name = "Bo";
      start_at = 5000;
      end_at = 6000;
      timezone = "UTC";
    }
    ∷ record {
      service_id = "s1";
      service_name = "Cut";
      staff_id = "f1";
      staff_name = "Bo";
      start_at = 120;
      end_at = 800;
      timezone = "UTC";
    }
    ∷ []

abbrev shown : List TokenSlot
shown =
    record {
      slot_token = signed;
      service_id = "s1";
      staff_id = "f1";
      staff_name = "Bo";
      start_at = 5000;
      end_at = 6000;
      timezone = "UTC";
      expires_at = 200;
    }
    ∷ []

select_slots_lem_example :
    All (IsOffer env config customer 100) shown × (length shown ≤ max_model_facing_slots)
unfolding select_slots slot_within_booking_window sign
select_slots_lem_example = select_slots_lem env config customer query 100 available shown false refl
