-- ===== src/Tools/Gateway/Slots/Laws.antt =====
-- What findSlots offers (the loop of findSlots in internal/tools/gateway.go).
use kontor.Prelude.{
  inl, inr, subst, refl, some, ◌+◌, ◌<◌, ◌≤◌, ◌≡◌, Bool, true, List, [], ◌∷◌, ◌++◌, arith, length,
  length-append, ◌==◌, Time, All, All-append, Bool-cases, Option-cases,
}
use kontor.Tools.Types.{TrustedContext}
use kontor.Tools.Tokens.{Bytes, SlotClaims, sign}
use kontor.Tools.Outcome.{AvailableSlot, TokenSlot, FindSlotsQuery}
use kontor.Tools.Gateway.{Env, Config, slot_within_booking_window}
use kontor.Tools.Gateway.Slots.{
  select_slots, selected, max_model_facing_slots, with_service, answers_query, slot_expiry,
  slot_claims, token_slot, is_offerable,
}

-- The token of a slot is the signature of claims that say of the slot what is shown of it, with the
-- expiry that is shown, for the conversation of the trusted context.
pub record IsSignedSlot (env : Env) (trusted : TrustedContext) (s : TokenSlot) : Type 0 where
  pub claims : SlotClaims
  pub signed : sign env.codec claims ≡ some s.slot_token
  pub expires_at : claims.expires_at ≡ s.expires_at
  pub start_at : claims.start_at ≡ s.start_at
  pub end_at : claims.end_at ≡ s.end_at
  pub service_id : claims.service_id ≡ s.service_id
  pub staff_id : claims.staff_id ≡ s.staff_id
  pub tenant_id : claims.tenant_id ≡ trusted.tenant_id
  pub conversation_id : claims.conversation_id ≡ trusted.conversation_id

-- A slot that may be shown: it respects the lead time and the horizon, and its signed token is alive
-- now and dies before the lead time of its start.
pub record IsOffer (env : Env) (config : Config) (trusted : TrustedContext) (now : Time)
    (s : TokenSlot) : Type 0 where
  pub token : IsSignedSlot env trusted s
  pub early : now + config.min_booking_lead_time ≤ s.start_at
  pub ordered : s.start_at < s.end_at
  pub near : s.end_at ≤ now + config.max_booking_horizon
  pub alive : now < s.expires_at
  pub dies : s.expires_at + config.min_booking_lead_time ≤ s.start_at
  pub short : s.expires_at ≤ now + config.slot_token_ttl

module _ (env : Env) (config : Config) (trusted : TrustedContext) (query : FindSlotsQuery)
    (now : Time) where
  offer :
      (s : AvailableSlot) (token : Bytes)
      → is_offerable config now s ≡ true
      → sign env.codec (slot_claims trusted s (slot_expiry config now s)) ≡ some token
      → IsOffer env config trusted now (token_slot s (slot_expiry config now s) token)
  unfolding is_offerable slot_within_booking_window slot_expiry token_slot slot_claims
  offer s token h g = record {
    token = record {
      claims = slot_claims trusted s (slot_expiry config now s);
      signed = g;
      expires_at = refl;
      start_at = refl;
      end_at = refl;
      service_id = refl;
      staff_id = refl;
      tenant_id = refl;
      conversation_id = refl;
    };
    early = ground arith;
    ordered = ground arith;
    near = ground arith;
    alive = ground arith;
    dies = ground arith;
    short = ground arith;
  }

  -- From slots that may be shown, the loop ends with slots that may be shown, no more than twelve.
  select_slots_from :
      (slots : List TokenSlot) (available : List AvailableSlot) (out : List TokenSlot) (more : Bool)
      → All (IsOffer env config trusted now) slots
      → length slots ≤ max_model_facing_slots
      → select_slots env config trusted query now slots available ≡ selected out more
      → All (IsOffer env config trusted now) out × (length out ≤ max_model_facing_slots)
  unfolding select_slots
  select_slots_from slots [] out more h n e =
      let same : slots ≡ out = ground (arith, e) in
      subst (λ x. All (IsOffer env config trusted now) x × (length x ≤ max_model_facing_slots)) same
        (h, n)
  select_slots_from slots (candidate ∷ rest) out more h n e =
      elim (Bool-cases (length slots == max_model_facing_slots)) [
        | inl full ↦
            let same : slots ≡ out = ground (arith, e, full) in
            subst
              (λ x. All (IsOffer env config trusted now) x × (length x ≤ max_model_facing_slots))
              same (h, n)
        | inr space ↦ elim (Bool-cases (answers_query env query s)) [
          | inr bad ↦ absurd (ground (arith, e, space, bad))
          | inl good ↦ elim (Bool-cases (is_offerable config now s)) [
            | inr out_of_window ↦
                select_slots_from slots rest out more h n
                  (ground (arith, e, space, good, out_of_window))
            | inl fits ↦ elim (Option-cases (sign env.codec (slot_claims trusted s expires))) [
              | inl unsigned ↦ absurd (ground (arith, e, space, good, fits, unsigned))
              | inr (token, signed) ↦
                  let one = token_slot s expires token ∷ [] in
                  select_slots_from (slots ++ one) rest out more
                    (All-append (IsOffer env config trusted now) slots one h
                      (offer s token fits signed, tt))
                    (ground (arith, length-append slots one))
                    (ground (arith, e, space, good, fits, signed))
            ]
          ]
        ]
      ]
    where
      s : AvailableSlot
      s = with_service query candidate

      expires : Time
      expires = slot_expiry config now s

  -- findSlots shows at most twelve slots. Each of them respects the lead time and the horizon of the
  -- booking window, and its token is the signature of claims that name its service, staff, start and
  -- end and the tenant and the conversation of the trusted context; the expiry in these claims, which
  -- is the one shown, lies after the moment of showing and no later than the lead time before the
  -- slot's start and the token's own life.
  pub select_slots_lem :
      (available : List AvailableSlot) (out : List TokenSlot) (more : Bool)
      → select_slots env config trusted query now [] available ≡ selected out more
      → All (IsOffer env config trusted now) out × (length out ≤ max_model_facing_slots)
  select_slots_lem available out more e = select_slots_from [] available out more tt (omega arith) e
