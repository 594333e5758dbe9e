-- ===== src/Tools/Tests.antt =====
-- Runs of the confirmation store (internal/tools/confirmations.go): one booking is proposed,
-- authorized by the customer's next message, and consumed.
use kontor.Prelude.{◌≡◌, ◌↔◌, refl, true, none, some, List, [], ◌∷◌, lookup, insert}
use kontor.Tools.Types.{TrustedContext}
use kontor.Tools.Confirmations.{
  ConfirmationBinding, ConfirmationProposal, ConfirmationState, Store, authorized, pending,
  authorize, verify_authorized, mark_consumed, latest, invalidate_latest, is_candidate,
  equal_binding, propose, find_live, in_scope, later,
}
use kontor.Tools.Confirmations.Authorize.{CanAuthorize, authorize_iff, consume_replay}
use kontor.Tools.Confirmations.History.{
  Op, propose_op, authorize_op, run, Granted, verify_authorized-Granted,
}
use kontor.Tools.Confirmations.Latest.{latest_lem, latest-invalidate_latest, Holds, ExpiresLast}

abbrev pub customer : TrustedContext
customer = record {
  tenant_id = "t1";
  customer_id = "u1";
  customer_display_name = "Ada";
  customer_email = "ada@example.org";
  customer_phone = "";
  conversation_id = "c1";
  inbound_message_id = "m2";
  agent_run_id = "r1";
  capabilities = λ c. true;
}

abbrev pub cancel_binding : ConfirmationBinding
cancel_binding = record {
  tenant_id = "t1";
  owner_customer_id = "u1";
  conversation_id = "c1";
  proposed_from_message_id = "m1";
  tool = "cancel_booking";
  arguments_hash = 7;
  arguments_json = "frozen";
}

abbrev pub cancel_shown : ConfirmationProposal
cancel_shown = record {
  id = "p1";
  action = "cancel_booking";
  title = "Confirm cancellation";
  facts = [];
  expires_at = 1000;
}

abbrev pub two_steps : List Op
two_steps = authorize_op "p1" customer 20 ∷ propose_op "p1" cancel_binding cancel_shown 10 ∷ []

abbrev pub waiting : ConfirmationState
waiting = record { proposal = cancel_shown; binding = cancel_binding; status = pending }

abbrev pub waiting_store : Store
waiting_store = ("p1", waiting) ∷ []

abbrev granted_store : Store
granted_store = ("p1", record waiting { status = authorized }) ∷ []

verify_authorized-Granted_example :
    (r : ConfirmationState) × (lookup "p1" (run two_steps) ≡ some r)
    × (equal_binding r.binding cancel_binding ≡ true)
    × Granted "p1" r.binding two_steps
unfolding propose authorize verify_authorized lookup find_live insert in_scope equal_binding
verify_authorized-Granted_example = verify_authorized-Granted two_steps "p1" cancel_binding 30 refl

authorize_iff_example :
    ((authorize "p1" customer 20 waiting_store).0 ≡ none)
    ↔ ((r : ConfirmationState) × (lookup "p1" waiting_store ≡ some r) × CanAuthorize customer 20 r)
authorize_iff_example = authorize_iff "p1" customer 20 waiting_store

consume_replay_example :
    let (e, t) = mark_consumed "p1" cancel_binding 30 granted_store in
    (e ≡ none)
    × (verify_authorized "p1" cancel_binding 30 t ≡ none)
    × (mark_consumed "p1" cancel_binding 30 t ≡ (none, t))
unfolding verify_authorized lookup equal_binding
consume_replay_example = consume_replay "p1" cancel_binding 30 granted_store refl

latest_lem_example :
    Holds "t1" "u1" "c1" 20 waiting waiting_store
    × (is_candidate "t1" "u1" "c1" 20 waiting ≡ true)
    × ExpiresLast "t1" "u1" "c1" 20 waiting waiting_store
unfolding latest is_candidate in_scope later
latest_lem_example = latest_lem "t1" "u1" "c1" 20 waiting_store waiting refl

latest-invalidate_latest_example :
    latest "t1" "u1" "c1" 20 (invalidate_latest "t1" "u1" "c1" 20 granted_store) ≡ none
latest-invalidate_latest_example = latest-invalidate_latest "t1" "u1" "c1" 20 granted_store
