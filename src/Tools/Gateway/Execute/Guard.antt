-- ===== src/Tools/Gateway/Execute/Guard.antt =====
-- What must have happened before a tool call changes the world of the backend
-- (internal/tools/gateway.go with internal/tools/confirmations.go).
use kontor.Prelude.{
  ◌≡◌, ◌≢◌, ◌⊎◌, inl, inr, refl, true, false, ◌&&◌, Option, none, some, List, [], ◌∷◌, String,
  str_eq, arith, eq_iff, Option-cases, Bool-cases, Time, lookup,
}
use kontor.Tools.Types.{TrustedContext, valid, allows}
use kontor.Tools.Confirmations.{
  ConfirmationBinding, ConfirmationProposal, ConfirmationState, equal_binding, in_scope,
  verify_authorized,
}
use kontor.Tools.Confirmations.History.{Op, run, Granted, verify_authorized-Granted}
use kontor.Tools.Tokens.{SlotClaims, Verified, claims, refused, verify}
use kontor.Tools.Json.{Object}
use kontor.Tools.Outcome.{Result, Answer, Backend, BookingOutcome, Data, error}
use kontor.Tools.Gateway.{
  Env, Config, State, ToolName, list_services, list_staff, find_slots, create_booking,
  reschedule_booking, cancel_booking, upsert_crm_contact, create_deal, escalate_to_human,
  respond_to_customer, confirmation_binding, required_capability, fail, slot_within_booking_window,
  restore_frozen_action, tool_name,
}
use kontor.Tools.Gateway.Bookings.{
  propose_action, token_failure, act_confirmed, propose_or_act, create_arguments,
  reschedule_arguments, cancel_arguments, has_contact, trusted_customer_profile,
  CreateBookingArguments, RescheduleBookingArguments,
}
use kontor.Tools.Gateway.Handlers.{
  create_key, create_booking_claimed, handle_create_booking, reschedule_booking_claimed,
  handle_reschedule_booking, handle_cancel_booking,
}
use kontor.Tools.Gateway.Execute.{
  Call, find_tool, all_tools, dispatch, act, execute_tool, execute, initial_result,
}

-- The grant behind a change: an identifier and a binding of the caller's own conversation that
-- `VerifyAuthorized` accepted.
abbrev pub Confirmed : {W : Type 0} → Time → TrustedContext → State W → Type 0
Confirmed now trusted st =
    (id : String) × (b : ConfirmationBinding) × (in_scope trusted.tenant_id trusted.customer_id
        trusted.conversation_id b
      ≡ true)
    × (verify_authorized id b now st.store ≡ none)

abbrev pub Guarded : {W : Type 0} → Time → TrustedContext → State W → Result × State W → Type 0
Guarded now trusted st out = (out.1.world ≡ st.world) ⊎ Confirmed now trusted st

own_binding :
    (env : Env) (trusted : TrustedContext) (tool : String) (o : Object)
    → in_scope trusted.tenant_id trusted.customer_id trusted.conversation_id
        (confirmation_binding env trusted tool o)
      ≡ true
unfolding in_scope confirmation_binding
own_binding env trusted tool o = ground (
  arith,
  eq_iff trusted.tenant_id trusted.tenant_id,
  eq_iff trusted.customer_id trusted.customer_id,
  eq_iff trusted.conversation_id trusted.conversation_id,
)

same_scope :
    (t : TrustedContext) (a b : ConfirmationBinding)
    → equal_binding a b ≡ true
    → in_scope t.tenant_id t.customer_id t.conversation_id b ≡ true
    → in_scope t.tenant_id t.customer_id t.conversation_id a ≡ true
unfolding equal_binding in_scope
same_scope t a b eq own = ground (
  arith,
  eq_iff a.tenant_id b.tenant_id,
  eq_iff a.owner_customer_id b.owner_customer_id,
  eq_iff a.conversation_id b.conversation_id,
)

find_tool-named :
    (name : String) (ts : List ToolName) (t : ToolName)
    → find_tool name ts ≡ some t
    → str_eq name (tool_name t) ≡ true
unfolding find_tool
find_tool-named name [] t e = ground arith
find_tool-named name (u ∷ ts) t e = elim (Bool-cases (str_eq name (tool_name u))) [
  | inl q ↦ ground (arith, q)
  | inr q ↦ find_tool-named name ts t (ground (arith, q))
]

module _ (env : Env) (config : Config) (now : Time) (trusted : TrustedContext) {W : Type 0}
    (backend : Backend W) (result : Result) (st : State W) where
  propose_or_act-Guarded :
      (id : String) (tool : String) (o : Object) (p : ConfirmationProposal)
      (command : W → Answer BookingOutcome × W) (data_of : BookingOutcome → Data)
      → Guarded now trusted st (
          propose_or_act env now id
            (confirmation_binding env trusted tool o)
            p
            command
            data_of
            result
            st)
  unfolding propose_or_act act_confirmed propose_action
  propose_or_act-Guarded id tool o p command data_of =
      let b = confirmation_binding env trusted tool o in
      elim (Option-cases (verify_authorized id b now st.store)) [
        | inl e ↦ inr (id, b, own_binding env trusted tool o, e)
        | inr (x, e) ↦ inl (ground arith)
      ]

  create_claimed-Guarded :
      (a : CreateBookingArguments) (o : Object) (c : SlotClaims)
      → Guarded now trusted st
          (create_booking_claimed env config now trusted backend result st a o c)
  unfolding create_booking_claimed create_key
  create_claimed-Guarded a o c =
      elim (Bool-cases (slot_within_booking_window config c.start_at c.end_at now)) [
        | inl e ↦
            rw (e, create_booking_claimed) (propose_or_act-Guarded a.confirmation_id _ _ _ _ _)
        | inr e ↦ inl (rw (e, create_booking_claimed) refl)
      ]

  create-Guarded :
      (o : Object)
      → Guarded now trusted st (handle_create_booking env config now trusted backend result st o)
  unfolding handle_create_booking
  create-Guarded o = elim (Option-cases (create_arguments o)) [
    | inl e ↦ inl (rw (e, handle_create_booking) refl)
    | inr (a, e) ↦ elim (Bool-cases (has_contact (trusted_customer_profile trusted))) [
      | inr q ↦ inl (rw (e, handle_create_booking, q) refl)
      | inl q ↦
          rw (e, handle_create_booking, q)
            (claimed a (verify env.codec (env.token_bytes a.slot_token) trusted now))
    ]
  ]
    where
      claimed :
          (a : CreateBookingArguments) (v : Verified)
          → Guarded now trusted st (elim v [
            | refused e ↦ (token_failure result e, st)
            | claims c ↦ create_booking_claimed env config now trusted backend result st a o c
          ])
      claimed a (refused e) = inl refl
      claimed a (claims c) = create_claimed-Guarded a o c

  reschedule_claimed-Guarded :
      (a : RescheduleBookingArguments) (o : Object) (c : SlotClaims)
      → Guarded now trusted st
          (reschedule_booking_claimed env config now trusted backend result st a o c)
  unfolding reschedule_booking_claimed
  reschedule_claimed-Guarded a o c =
      elim (Bool-cases (slot_within_booking_window config c.start_at c.end_at now)) [
        | inl e ↦
            rw (e, reschedule_booking_claimed) (propose_or_act-Guarded a.confirmation_id _ _ _ _ _)
        | inr e ↦ inl (rw (e, reschedule_booking_claimed) refl)
      ]

  reschedule-Guarded :
      (o : Object)
      → Guarded now trusted st
          (handle_reschedule_booking env config now trusted backend result st o)
  unfolding handle_reschedule_booking
  reschedule-Guarded o = elim (Option-cases (reschedule_arguments o)) [
    | inl e ↦ inl (rw (e, handle_reschedule_booking) refl)
    | inr (a, e) ↦
        rw (e, handle_reschedule_booking)
          (claimed a (verify env.codec (env.token_bytes a.slot_token) trusted now))
  ]
    where
      claimed :
          (a : RescheduleBookingArguments) (v : Verified)
          → Guarded now trusted st (elim v [
            | refused e ↦ (token_failure result e, st)
            | claims c ↦ reschedule_booking_claimed env config now trusted backend result st a o c
          ])
      claimed a (refused e) = inl refl
      claimed a (claims c) = reschedule_claimed-Guarded a o c

  cancel-Guarded :
      (o : Object)
      → Guarded now trusted st (handle_cancel_booking env config now trusted backend result st o)
  unfolding handle_cancel_booking
  cancel-Guarded o = elim (Option-cases (cancel_arguments o)) [
    | inl e ↦ inl (rw (e, handle_cancel_booking) refl)
    | inr (a, e) ↦
        rw (e, handle_cancel_booking) (propose_or_act-Guarded a.confirmation_id _ _ _ _ _)
  ]

module _ (env : Env) (config : Config) (validate : ToolName → String → Option Object) {W : Type 0}
    (backend : Backend W) (asked now later : Time) (trusted : TrustedContext) where
  dispatch-Guarded :
      (tool : ToolName) (o : Object) (r : Result) (st : State W)
      → tool ≢ escalate_to_human
      → Guarded now trusted st
          (dispatch env config validate backend asked now later trusted tool o r st)
  unfolding dispatch
  dispatch-Guarded list_services o r st h = inl refl
  dispatch-Guarded list_staff o r st h = inl refl
  dispatch-Guarded find_slots o r st h = inl refl
  dispatch-Guarded create_booking o r st h = create-Guarded env config now trusted backend r st o
  dispatch-Guarded reschedule_booking o r st h =
      reschedule-Guarded env config now trusted backend r st o
  dispatch-Guarded cancel_booking o r st h = cancel-Guarded env config now trusted backend r st o
  dispatch-Guarded escalate_to_human o r st h = absurd (h refl)
  dispatch-Guarded upsert_crm_contact o r st h = inl refl
  dispatch-Guarded create_deal o r st h = inl refl
  dispatch-Guarded respond_to_customer o r st h = inl refl

  execute_tool-Guarded :
      (tool : ToolName) (raw : String) (r : Result) (st : State W)
      → tool ≢ escalate_to_human
      → Guarded now trusted st
          (execute_tool env config validate backend asked now later trusted tool raw r st)
  unfolding execute_tool act
  execute_tool-Guarded tool raw r st h = elim (Option-cases (validate tool raw)) [
    | inl e ↦ inl (rw (e, execute_tool) refl)
    | inr (o, e) ↦ elim (Bool-cases (valid trusted && allows trusted (required_capability tool))) [
      | inr q ↦ inl (ground (arith, e))
      | inl q ↦ elim (Option-cases (restore_frozen_action env asked trusted tool o st.store)) [
        | inl f ↦ inl (ground (arith, e, f))
        | inr (restored, f) ↦
            let done = dispatch-Guarded tool restored r st h in
            elim done [ inl w ↦ inl (ground (arith, e, f, w)) | inr c ↦ inr c ]
      ]
    ]
  ]

  -- A call that changes the world of the backend and is not a call of escalate_to_human carries a
  -- grant: with the confirmation store reached by any history, the store holds a record of the
  -- caller's own tenant, customer and conversation, granted by an earlier successful `Authorize` of
  -- that customer in another message than the one that the proposal answered.
  pub execute-Granted :
      (past : List Op) (call : Call) (w : W)
      → str_eq call.name (tool_name escalate_to_human) ≡ false
      → (execute env config validate backend asked now later trusted call
          (record { world = w; store = run past })).1.world
        ≢ w
      → (id : String) × (r : ConfirmationState) × (lookup id (run past) ≡ some r)
        × (in_scope trusted.tenant_id trusted.customer_id trusted.conversation_id r.binding ≡ true)
        × Granted id r.binding past
  unfolding execute
  execute-Granted past call w other changed = elim (Option-cases (find_tool call.name all_tools)) [
    | inl e ↦ absurd (changed (rw (e, execute) refl))
    | inr (tool, e) ↦ elim (guarded tool e) [
      | inl same ↦ absurd (changed (rw (e, execute) same))
      | inr (id, b, own, v) ↦
          let (r, f, eq, g) = verify_authorized-Granted past id b now v in
          (id, r, f, same_scope trusted r.binding b eq own, g)
    ]
  ]
    where
      guarded :
          (tool : ToolName)
          → find_tool call.name all_tools ≡ some tool
          → Guarded now trusted
              (record { world = w; store = run past })
              (execute_tool env config validate backend asked now later trusted tool
                call.raw_arguments
                (initial_result call)
                (record { world = w; store = run past }))
      guarded tool e =
          let named = find_tool-named call.name all_tools tool e in
          execute_tool-Guarded tool _ _ _ (λ q. ground (arith, rw q at named))

  -- A call of a tool outside the allowlist, of a principal whose context is incomplete, or of one who
  -- lacks the tool's capability fails and changes neither the backend nor the confirmations.
  pub execute_denied :
      (call : Call) (st : State W)
      → ((tool : ToolName)
          → find_tool call.name all_tools ≡ some tool
          → (valid trusted && allows trusted (required_capability tool)) ≡ false)
      → let (r, after) = execute env config validate backend asked now later trusted call st in
        (r.status ≡ error) × (r.side_effect_committed ≡ false) × (after ≡ st)
  unfolding execute execute_tool fail initial_result
  execute_denied call st h = elim (Option-cases (find_tool call.name all_tools)) [
    | inl e ↦ ground (arith, e)
    | inr (tool, e) ↦ elim (Option-cases (validate tool call.raw_arguments)) [
      | inl f ↦ ground (arith, e, f)
      | inr (o, f) ↦ ground (arith, e, f, h tool e)
    ]
  ]
