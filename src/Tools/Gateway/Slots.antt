-- ===== src/Tools/Gateway/Slots.antt =====
-- findSlots (internal/tools/gateway.go): the search range, and the tokens of the slots found.
pub mod Laws
use kontor.Prelude.{
  ℕ, ◌+◌, ◌-◌, ◌*◌, Bool, true, false, not, ◌&&◌, ◌||◌, Option, none, some, List, [], ◌∷◌, ◌++◌,
  String, str_eq, length, Time, before, after, ltb, ◌==◌, if◌then◌else◌, hour, lookup,
}
use kontor.Tools.Types.{TrustedContext, is_empty}
use kontor.Tools.Tokens.{Bytes, SlotClaims, sign}
use kontor.Tools.Json.{Object, Json, string, string_field}
use kontor.Tools.Outcome.{
  Result, Answer, answered, failed, Backend, AvailableSlot, TokenSlot, FindSlotsQuery, slots_data,
  invalid_argument, internal, fix_arguments, escalate_resolution,
}
use kontor.Tools.Gateway.{Env, Config, fail, succeed, discovery_failure, slot_within_booking_window}

abbrev pub max_slot_search_range : ℕ
max_slot_search_range = 31 * 24 * hour

abbrev pub max_model_facing_slots : ℕ
max_model_facing_slots = 12

pub data Selected : Type 0 where
  selected : List TokenSlot → Bool → Selected
  unusable : Selected

-- `if candidate.ServiceID == "" { candidate.ServiceID = query.ServiceID }`
unfoldable pub with_service : FindSlotsQuery → AvailableSlot → AvailableSlot
with_service q s = if is_empty s.service_id then record s { service_id = q.service_id } else s

-- The backend answered within the query.
unfoldable pub answers_query : Env → FindSlotsQuery → AvailableSlot → Bool
answers_query env q s =
    not (
      not (str_eq s.service_id q.service_id)
      || (is_empty s.staff_id
          || ((not (is_empty q.staff_id) && not (str_eq s.staff_id q.staff_id))
              || (is_empty s.timezone
                  || (before s.start_at q.date_from
                      || (after s.end_at q.date_to || not (before s.start_at s.end_at)))))))
    && env.known_zone s.timezone

-- The slot's expiry: the token's life, cut at the lead time before the start.
unfoldable pub slot_expiry : Config → Time → AvailableSlot → Time
slot_expiry c now s =
    let lead_boundary = s.start_at - c.min_booking_lead_time in
    if before lead_boundary (now + c.slot_token_ttl) then lead_boundary else now + c.slot_token_ttl

unfoldable pub slot_claims : TrustedContext → AvailableSlot → Time → SlotClaims
slot_claims t s expires = record {
  version = 0;
  tenant_id = t.tenant_id;
  conversation_id = t.conversation_id;
  service_id = s.service_id;
  service_name = s.service_name;
  staff_id = s.staff_id;
  staff_name = s.staff_name;
  start_at = s.start_at;
  end_at = s.end_at;
  timezone = s.timezone;
  expires_at = expires;
}

unfoldable pub token_slot : AvailableSlot → Time → Bytes → TokenSlot
token_slot s expires token = record {
  slot_token = token;
  service_id = s.service_id;
  staff_id = s.staff_id;
  staff_name = s.staff_name;
  start_at = s.start_at;
  end_at = s.end_at;
  timezone = s.timezone;
  expires_at = expires;
}

-- A slot that may be signed now: inside the booking window, with a token that still lives.
unfoldable pub is_offerable : Config → Time → AvailableSlot → Bool
unfolding slot_expiry
is_offerable c now s =
    slot_within_booking_window c s.start_at s.end_at now && before now (slot_expiry c now s)

module _ (env : Env) (config : Config) (trusted : TrustedContext) (query : FindSlotsQuery)
    (now : Time) where
  -- The loop over the available slots, with the slots signed so far.
  unfoldable pub select_slots : List TokenSlot → List AvailableSlot → Selected
  unfolding with_service answers_query slot_claims is_offerable token_slot
  select_slots slots [] = selected slots false
  select_slots slots (candidate ∷ rest) =
      let s = with_service query candidate in
      let expires = slot_expiry config now s in
      let skipped = select_slots slots rest in
      if length slots == max_model_facing_slots
      then selected slots true
      else if not (answers_query env query s)
      then unusable
      else if not (is_offerable config now s)
      then skipped
      else elim (sign env.codec (slot_claims trusted s expires)) [
        | none ↦ unusable
        | some token ↦ select_slots (slots ++ token_slot s expires token ∷ []) rest
      ]

  unfoldable pub signed_result : Result → Answer (List AvailableSlot) → Result
  signed_result result (failed e) = discovery_failure result e
  signed_result result (answered available) = elim (select_slots [] available) [
    | unusable ↦ fail result internal false escalate_resolution
    | selected slots truncated ↦ succeed result (slots_data slots now truncated) false
  ]

-- The tests of a search range.
unfoldable pub allowed_range : Config → Time → Time → Time → Bool
allowed_range c from to now =
    not (not (before from to) || ltb max_slot_search_range (to - from))
    && (not (before from (now + c.min_booking_lead_time))
        && not (after to (now + c.max_booking_horizon)))

-- An optional string argument: `arguments["staff_id"].(string)` that may not be there.
unfoldable pub optional_string : Option Json → String
optional_string (some (string s)) = s
optional_string _ = ""

unfoldable pub query_of : TrustedContext → Object → Time → Time → FindSlotsQuery
query_of t o from to = record {
  tenant_id = t.tenant_id;
  service_id = optional_string (lookup "service_id" o);
  staff_id = optional_string (lookup "staff_id" o);
  date_from = from;
  date_to = to;
}

-- `now` is the clock when the range is checked and `later` when the backend has answered.
unfoldable pub handle_find_slots :
    {W : Type 0}
    → Env
    → Config
    → Backend W
    → Time
    → Time
    → TrustedContext
    → Result
    → W
    → Object
    → Result
unfolding signed_result optional_string
handle_find_slots env config backend now later trusted result w o =
    elim (env.parse_time (optional_string (lookup "date_from" o))) [
      | none ↦ fail result invalid_argument false fix_arguments
      | some from ↦ elim (env.parse_time (optional_string (lookup "date_to" o))) [
        | none ↦ fail result invalid_argument false fix_arguments
        | some to ↦
            if not (allowed_range config from to now)
            then fail result invalid_argument false fix_arguments
            else signed_result env config trusted (query_of trusted o from to) later result
                (backend.find_slots (query_of trusted o from to) w)
      ]
    ]
