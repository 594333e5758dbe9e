-- ===== src/Tools/Outcome.antt =====
-- The results, commands and errors of the tool gateway (internal/tools/types.go). The constant
-- fields of a result (schema and contract version) and its duration are left out.
use kontor.Prelude.{Bool, Option, List, String, Time, ℤ}
use kontor.Tools.Confirmations.{ConfirmationProposal}
use kontor.Tools.Tokens.{Bytes}

pub data ErrorCode : Type 0 where
  invalid_argument contact_required tool_not_allowed policy_denied not_found_or_not_owned
        confirmation_invalid_code confirmation_expired_code confirmation_stale_code
        idempotency_conflict slot_unavailable booking_state_conflict dependency_unavailable internal
        not_implemented :
      ErrorCode

pub data Resolution : Type 0 where
  escalate_resolution fix_arguments find_another_slot ask_customer retry : Resolution

-- The message of an error repeats its code and resolution in words, and is left out.
pub record ToolError : Type 0 where
  pub code : ErrorCode
  pub retryable : Bool
  pub resolution : Resolution

-- `errors.Is` of a backend's error against the package's sentinels.
pub data BackendError : Type 0 where
  err_not_found_or_not_owned err_slot_unavailable err_booking_state_conflict
        err_idempotency_conflict err_dependency_unavailable err_other :
      BackendError

pub record CatalogService : Type 0 where
  pub id : String
  pub name : String
  pub duration_minutes : ℤ

pub record CatalogStaff : Type 0 where
  pub id : String
  pub display_name : String
  pub timezone : String

pub record AvailableSlot : Type 0 where
  pub service_id : String
  pub service_name : String
  pub staff_id : String
  pub staff_name : String
  pub start_at : Time
  pub end_at : Time
  pub timezone : String

pub record TokenSlot : Type 0 where
  pub slot_token : Bytes
  pub service_id : String
  pub staff_id : String
  pub staff_name : String
  pub start_at : Time
  pub end_at : Time
  pub timezone : String
  pub expires_at : Time

pub record CustomerProfile : Type 0 where
  pub display_name : String
  pub email : String
  pub phone : String

pub record Booking : Type 0 where
  pub id : String
  pub status : String
  pub service_id : String
  pub staff_id : String
  pub start_at : Time
  pub end_at : Time
  pub timezone : String
  pub version : ℤ

pub record FindSlotsQuery : Type 0 where
  pub tenant_id : String
  pub service_id : String
  pub staff_id : String
  pub date_from : Time
  pub date_to : Time

pub record CreateBookingCommand : Type 0 where
  pub tenant_id : String
  pub owner_customer_id : String
  pub conversation_id : String
  pub service_id : String
  pub staff_id : String
  pub start_at : Time
  pub end_at : Time
  pub timezone : String
  pub customer : CustomerProfile
  pub notes : String
  pub idempotency_key : String

pub record RescheduleBookingCommand : Type 0 where
  pub tenant_id : String
  pub owner_customer_id : String
  pub conversation_id : String
  pub booking_id : String
  pub new_start_at : Time
  pub new_end_at : Time
  pub new_timezone : String
  pub idempotency_key : String

pub record CancelBookingCommand : Type 0 where
  pub tenant_id : String
  pub owner_customer_id : String
  pub conversation_id : String
  pub booking_id : String
  pub reason : String
  pub idempotency_key : String

pub record EscalationCommand : Type 0 where
  pub tenant_id : String
  pub owner_customer_id : String
  pub conversation_id : String
  pub agent_run_id : String
  pub tool_call_id : String
  pub reason_code : String
  pub summary : String

-- The outcome of a booking command; `calendar_sync` is that of `CreateBooking` alone.
pub record BookingOutcome : Type 0 where
  pub booking : Booking
  pub calendar_sync : String
  pub idempotency_replayed : Bool

pub record EscalationOutcome : Type 0 where
  pub id : String
  pub status : String
  pub replayed : Bool

pub data Data : Type 0 where
  services_data : List CatalogService → Data
  staff_data : List CatalogStaff → Data
  slots_data : List TokenSlot → Time → Bool → Data
  create_data : Booking → String → Data
  reschedule_data : Booking → Data
  cancel_data : Booking → Data
  escalation_data : EscalationOutcome → Data

pub data ResultStatus : Type 0 where
  success confirmation_required error : ResultStatus

pub record Result : Type 0 where
  pub tool : String
  pub call_id : String
  pub status : ResultStatus
  pub result_data : Option Data
  pub confirmation : Option ConfirmationProposal
  pub failure : Option ToolError
  pub idempotency_replayed : Bool
  pub side_effect_committed : Bool

pub data Answer (A : Type 0) : Type 0 where
  answered : A → Answer A
  failed : BackendError → Answer A

-- The scheduling backend as it reads and changes a world `W`.
pub record Backend (W : Type 0) : Type 0 where
  pub list_services : String → W → Answer (List CatalogService)
  pub list_staff : String → String → W → Answer (List CatalogStaff)
  pub find_slots : FindSlotsQuery → W → Answer (List AvailableSlot)
  pub create_booking : CreateBookingCommand → W → Answer BookingOutcome × W
  pub reschedule_booking : RescheduleBookingCommand → W → Answer BookingOutcome × W
  pub cancel_booking : CancelBookingCommand → W → Answer BookingOutcome × W
  pub escalate : EscalationCommand → W → Answer EscalationOutcome × W
