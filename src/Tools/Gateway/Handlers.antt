-- ===== src/Tools/Gateway/Handlers.antt =====
-- The handlers createBooking, rescheduleBooking and cancelBooking (internal/tools/gateway.go), with
-- `now` the reading of the clock that each begins with.
use kontor.Prelude.{false, not, none, some, [], ◌∷◌, String, Time, insert, if◌then◌else◌, ◌+◌}
use kontor.Tools.Types.{TrustedContext}
use kontor.Tools.Confirmations.{ConfirmationProposal}
use kontor.Tools.Tokens.{SlotClaims, claims, refused, verify}
use kontor.Tools.Json.{Object}
use kontor.Tools.Outcome.{
  Result, Backend, CreateBookingCommand, RescheduleBookingCommand, CancelBookingCommand,
  reschedule_data, cancel_data, invalid_argument, contact_required, slot_unavailable, fix_arguments,
  find_another_slot, ask_customer,
}
use kontor.Tools.Gateway.{
  Env, Config, State, create_booking, reschedule_booking, cancel_booking, tool_name, fail,
  first_non_empty, slot_within_booking_window, confirmation_binding, adopt_idempotency_key,
}
use kontor.Tools.Gateway.Bookings.{
  CreateBookingArguments, RescheduleBookingArguments, CancelBookingArguments, create_arguments,
  reschedule_arguments, cancel_arguments, trusted_customer_profile, has_contact, profile_json,
  token_failure, propose_or_act, confirmation_expiry, created,
}

module _ (env : Env) (config : Config) (now : Time) (trusted : TrustedContext) where
  -- The facts that the key of a new booking is derived from, and the arguments with that key.
  unfoldable pub create_key : CreateBookingArguments → Object → SlotClaims → String × Object
  create_key a o c =
      adopt_idempotency_key env
        (insert "customer" (profile_json (trusted_customer_profile trusted)) o) a.idempotency_key
        trusted create_booking
        (c.service_id ∷ c.staff_id ∷ env.format_utc c.start_at ∷ env.format_utc c.end_at ∷ [])

  unfoldable pub create_proposal : SlotClaims → ConfirmationProposal
  create_proposal c = record {
    id = "";
    action = tool_name create_booking;
    title = "Confirm this booking";
    facts =
        record { label = "Service"; value = first_non_empty c.service_name c.service_id }
        ∷ record { label = "Staff"; value = first_non_empty c.staff_name c.staff_id }
        ∷ record { label = "Starts"; value = env.format c.start_at }
        ∷ record { label = "Ends"; value = env.format c.end_at }
        ∷ record { label = "Customer"; value = trusted.customer_display_name }
        ∷ [];
    expires_at = confirmation_expiry config now c;
  }

  unfoldable pub create_command :
      CreateBookingArguments → String → SlotClaims → CreateBookingCommand
  create_command a key c = record {
    tenant_id = trusted.tenant_id;
    owner_customer_id = trusted.customer_id;
    conversation_id = trusted.conversation_id;
    service_id = c.service_id;
    staff_id = c.staff_id;
    start_at = c.start_at;
    end_at = c.end_at;
    timezone = c.timezone;
    customer = trusted_customer_profile trusted;
    notes = a.notes;
    idempotency_key = key;
  }

  unfoldable pub reschedule_key : RescheduleBookingArguments → Object → SlotClaims → String × Object
  reschedule_key a o c =
      adopt_idempotency_key env o a.idempotency_key trusted reschedule_booking
        (a.booking_id ∷ c.staff_id ∷ env.format_utc c.start_at ∷ env.format_utc c.end_at ∷ [])

  -- `format_range` is the two instants joined by a dash.
  unfoldable pub reschedule_proposal :
      RescheduleBookingArguments → SlotClaims → ConfirmationProposal
  reschedule_proposal a c = record {
    id = "";
    action = tool_name reschedule_booking;
    title = "Confirm reschedule";
    facts =
        record { label = "Booking"; value = a.booking_id }
        ∷ record { label = "New time"; value = env.format_range c.start_at c.end_at }
        ∷ record { label = "Staff"; value = first_non_empty c.staff_name c.staff_id }
        ∷ [];
    expires_at = confirmation_expiry config now c;
  }

  unfoldable pub reschedule_command :
      RescheduleBookingArguments → String → SlotClaims → RescheduleBookingCommand
  reschedule_command a key c = record {
    tenant_id = trusted.tenant_id;
    owner_customer_id = trusted.customer_id;
    conversation_id = trusted.conversation_id;
    booking_id = a.booking_id;
    new_start_at = c.start_at;
    new_end_at = c.end_at;
    new_timezone = c.timezone;
    idempotency_key = key;
  }

  unfoldable pub cancel_key : CancelBookingArguments → Object → String × Object
  cancel_key a o =
      adopt_idempotency_key env o a.idempotency_key trusted cancel_booking (a.booking_id ∷ [])

  unfoldable pub cancel_proposal : CancelBookingArguments → ConfirmationProposal
  cancel_proposal a = record {
    id = "";
    action = tool_name cancel_booking;
    title = "Confirm cancellation";
    facts =
        record { label = "Booking"; value = a.booking_id }
        ∷ record { label = "Reason"; value = a.reason }
        ∷ [];
    expires_at = now + config.confirmation_ttl;
  }

  unfoldable pub cancel_command : CancelBookingArguments → String → CancelBookingCommand
  cancel_command a key = record {
    tenant_id = trusted.tenant_id;
    owner_customer_id = trusted.customer_id;
    conversation_id = trusted.conversation_id;
    booking_id = a.booking_id;
    reason = a.reason;
    idempotency_key = key;
  }

  module _ {W : Type 0} (backend : Backend W) (result : Result) (st : State W) where
    unfoldable pub create_booking_claimed :
        CreateBookingArguments → Object → SlotClaims → Result × State W
    create_booking_claimed a o c =
        if not (slot_within_booking_window config c.start_at c.end_at now)
        then (fail result slot_unavailable false find_another_slot, st)
        else let (key, filled) = create_key a o c in
          propose_or_act env now a.confirmation_id
            (confirmation_binding env trusted (tool_name create_booking) filled) (create_proposal c)
            (backend.create_booking (create_command a key c)) created result st

    unfoldable pub handle_create_booking : Object → Result × State W
    unfolding create_booking_claimed
    handle_create_booking o = elim (create_arguments o) [
      | none ↦ (fail result invalid_argument false fix_arguments, st)
      | some a ↦
          if not (has_contact (trusted_customer_profile trusted))
          then (fail result contact_required false ask_customer, st)
          else elim (verify env.codec (env.token_bytes a.slot_token) trusted now) [
            | refused e ↦ (token_failure result e, st)
            | claims c ↦ create_booking_claimed a o c
          ]
    ]

    unfoldable pub reschedule_booking_claimed :
        RescheduleBookingArguments → Object → SlotClaims → Result × State W
    reschedule_booking_claimed a o c =
        if not (slot_within_booking_window config c.start_at c.end_at now)
        then (fail result slot_unavailable false find_another_slot, st)
        else let (key, filled) = reschedule_key a o c in
          propose_or_act env now a.confirmation_id
            (confirmation_binding env trusted (tool_name reschedule_booking) filled)
            (reschedule_proposal a c) (backend.reschedule_booking (reschedule_command a key c))
            (λ outcome. reschedule_data outcome.booking) result st

    unfoldable pub handle_reschedule_booking : Object → Result × State W
    unfolding reschedule_booking_claimed
    handle_reschedule_booking o = elim (reschedule_arguments o) [
      | none ↦ (fail result invalid_argument false fix_arguments, st)
      | some a ↦ elim (verify env.codec (env.token_bytes a.slot_token) trusted now) [
        | refused e ↦ (token_failure result e, st)
        | claims c ↦ reschedule_booking_claimed a o c
      ]
    ]

    unfoldable pub handle_cancel_booking : Object → Result × State W
    handle_cancel_booking o = elim (cancel_arguments o) [
      | none ↦ (fail result invalid_argument false fix_arguments, st)
      | some a ↦
          let (key, filled) = cancel_key a o in
          propose_or_act env now a.confirmation_id
            (confirmation_binding env trusted (tool_name cancel_booking) filled) (cancel_proposal a)
            (backend.cancel_booking (cancel_command a key)) (λ outcome. cancel_data outcome.booking)
            result st
    ]
