-- ===== src/Tools/Gateway/Bookings.antt =====
-- createBooking, rescheduleBooking and cancelBooking (internal/tools/gateway.go).
use kontor.Prelude.{
  ◌+◌, Bool, true, false, not, ◌&&◌, ◌||◌, Option, none, some, String, Time, before, if◌then◌else◌,
  ◌>>=◌, lookup, is_some,
}
use kontor.Tools.Types.{TrustedContext, is_empty}
use kontor.Tools.Confirmations.{
  ConfirmationBinding, ConfirmationError, ConfirmationProposal, confirmation_invalid,
  confirmation_expired, confirmation_stale, propose, verify_authorized, mark_consumed,
}
use kontor.Tools.Tokens.{
  SlotClaims, TokenError, invalid_slot_token, expired_slot_token, slot_token_scope,
}
use kontor.Tools.Json.{
  Json, Fields, Object, string, object, no_fields, field, member, string_field, string_of, null,
}
use kontor.Tools.Outcome.{
  Data, Result, Answer, answered, failed, BookingOutcome, CustomerProfile, create_data,
  confirmation_required, invalid_argument, policy_denied, slot_unavailable,
  confirmation_expired_code, confirmation_stale_code, confirmation_invalid_code, internal,
  escalate_resolution, find_another_slot, ask_customer, retry,
}
use kontor.Tools.Gateway.{Env, Config, State, fail, succeed, backend_failure}

unfoldable pub token_failure : Result → TokenError → Result
token_failure r expired_slot_token = fail r slot_unavailable false find_another_slot
token_failure r slot_token_scope = fail r policy_denied false escalate_resolution
token_failure r invalid_slot_token = fail r invalid_argument false find_another_slot

unfoldable pub confirmation_failure : Result → ConfirmationError → Result
confirmation_failure r confirmation_expired = fail r confirmation_expired_code false ask_customer
confirmation_failure r confirmation_stale = fail r confirmation_stale_code false ask_customer
confirmation_failure r confirmation_invalid = fail r confirmation_invalid_code false ask_customer

-- `trustedCustomerProfile`
unfoldable pub trusted_customer_profile : TrustedContext → CustomerProfile
trusted_customer_profile t = record {
  display_name = t.customer_display_name;
  email = t.customer_email;
  phone = t.customer_phone;
}

unfoldable pub has_contact : CustomerProfile → Bool
has_contact p = not (is_empty p.display_name) && (not (is_empty p.email) || not (is_empty p.phone))

-- An `omitempty` member.
unfoldable pub omit_empty : String → String → Fields → Fields
omit_empty name value rest = if is_empty value then rest else field name (string value) rest

-- json.Marshal of the profile
unfoldable pub profile_json : CustomerProfile → Json
unfolding omit_empty
profile_json p = object (
    field "display_name" (string p.display_name) (
      field "contact" (object (omit_empty "email" p.email (omit_empty "phone" p.phone no_fields)))
        no_fields))

module _ {W : Type 0} where
  -- The call names no confirmation: a proposal is stored.
  unfoldable pub propose_action :
      Env → Time → ConfirmationBinding → ConfirmationProposal → Result → State W → Result × State W
  propose_action env now binding proposal result st =
      let (shown, store) = propose env.fresh_id binding proposal now st.store in
      (
        record result { status = confirmation_required; confirmation = some shown; failure = none },
        record st { store = store },
      )

  -- What follows a command of the backend.
  unfoldable pub conclude :
      Time
      → String
      → ConfirmationBinding
      → (BookingOutcome → Data)
      → Result
      → State W
      → Answer BookingOutcome × W
      → Result × State W
  conclude now id binding data_of result st (failed e, w) =
      (backend_failure result e, record st { world = w })
  conclude now id binding data_of result st (answered outcome, w) =
      let committed = record result { side_effect_committed = true } in
      let (e, store) = mark_consumed id binding now st.store in
      (
        elim e [
          | some _ ↦ fail committed internal true retry
          | none ↦ succeed committed (data_of outcome) outcome.idempotency_replayed
        ],
        record { world = w; store = store },
      )

  -- The call names a confirmation: it is verified before the command `act` runs.
  unfoldable pub act_confirmed :
      Time
      → String
      → ConfirmationBinding
      → (W → Answer BookingOutcome × W)
      → (BookingOutcome → Data)
      → Result
      → State W
      → Result × State W
  unfolding conclude
  act_confirmed now id binding act data_of result st =
      elim (verify_authorized id binding now st.store) [
        | some e ↦ (confirmation_failure result e, st)
        | none ↦ conclude now id binding data_of result st (act st.world)
      ]

  unfoldable pub propose_or_act :
      Env
      → Time
      → String
      → ConfirmationBinding
      → ConfirmationProposal
      → (W → Answer BookingOutcome × W)
      → (BookingOutcome → Data)
      → Result
      → State W
      → Result × State W
  propose_or_act env now id binding proposal act data_of result st =
      if is_empty id
      then propose_action env now binding proposal result st
      else act_confirmed now id binding act data_of result st

-- `calendarSync`, queued where the backend says nothing.
unfoldable pub created : BookingOutcome → Data
created o = create_data o.booking (if is_empty o.calendar_sync then "queued" else o.calendar_sync)

-- The earlier of the confirmation's own expiry and the slot token's.
unfoldable pub confirmation_expiry : Config → Time → SlotClaims → Time
confirmation_expiry c now s =
    if before s.expires_at (now + c.confirmation_ttl)
    then s.expires_at
    else now + c.confirmation_ttl

pub record CreateBookingArguments : Type 0 where
  pub slot_token : String
  pub notes : String
  pub idempotency_key : String
  pub confirmation_id : String

-- The `contact` of a CustomerProfile decodes.
unfoldable pub is_contact : Option Json → Bool
unfolding string_of
is_contact none = true
is_contact (some null) = true
is_contact (some (object fs)) =
    is_some (string_of (member "email" fs)) && is_some (string_of (member "phone" fs))
is_contact (some _) = false

-- The legacy `customer` decodes as a CustomerProfile. Its values are not used.
unfoldable pub is_customer_profile : Option Json → Bool
unfolding string_of is_contact
is_customer_profile none = true
is_customer_profile (some null) = true
is_customer_profile (some (object fs)) =
    is_some (string_of (member "display_name" fs))
    && (is_contact (member "contact" fs)
        && (is_some (string_of (member "company" fs)) && is_some (string_of (member "locale" fs))))
is_customer_profile (some _) = false

unfoldable pub create_arguments : Object → Option CreateBookingArguments
create_arguments o = if not (is_customer_profile (lookup "customer" o)) then none else do
  token ← string_field "slot_token" o
  notes ← string_field "notes" o
  key ← string_field "idempotency_key" o
  id ← string_field "confirmation_id" o
  some (record { slot_token = token; notes = notes; idempotency_key = key; confirmation_id = id })

pub record RescheduleBookingArguments : Type 0 where
  pub booking_id : String
  pub slot_token : String
  pub idempotency_key : String
  pub confirmation_id : String

-- The `slot_token` of the nested `new_slot`.
unfoldable pub new_slot_token : Option Json → Option String
new_slot_token none = some ""
new_slot_token (some null) = some ""
new_slot_token (some (object fs)) = string_of (member "slot_token" fs)
new_slot_token (some _) = none

unfoldable pub reschedule_arguments : Object → Option RescheduleBookingArguments
reschedule_arguments o = do
  booking ← string_field "booking_id" o
  token ← new_slot_token (lookup "new_slot" o)
  key ← string_field "idempotency_key" o
  id ← string_field "confirmation_id" o
  some (record {
    booking_id = booking;
    slot_token = token;
    idempotency_key = key;
    confirmation_id = id;
  })

pub record CancelBookingArguments : Type 0 where
  pub booking_id : String
  pub reason : String
  pub idempotency_key : String
  pub confirmation_id : String

unfoldable pub cancel_arguments : Object → Option CancelBookingArguments
cancel_arguments o = do
  booking ← string_field "booking_id" o
  reason ← string_field "reason" o
  key ← string_field "idempotency_key" o
  id ← string_field "confirmation_id" o
  some (record {
    booking_id = booking;
    reason = reason;
    idempotency_key = key;
    confirmation_id = id;
  })
