-- ===== src/Proposals/Tests.antt =====
-- Runs of the confirmation store in the database (internal/confirmations/postgres.go).
use kontor.Prelude.{◌≡◌, refl, true, false, none, some, List, [], ◌∷◌, String, Time, before, arith}
use kontor.Tools.Types.{TrustedContext}
use kontor.Tools.Confirmations.{ConfirmationProposal, ConfirmationBinding, with_id}
use kontor.Proposals.{ProposalRow, MessageRow, Database, ProposalCodec, propose}
use kontor.Proposals.Authorize.{is_named, find_proposal, authorize, verify_authorized}
use kontor.Proposals.History.{ProposalOp, propose_op, authorize_op, message_op, run}
use kontor.Proposals.History.Single.{IsSingle, run-IsSingle}
use kontor.Proposals.History.Consented.{is_consented}
use kontor.Proposals.History.Verified.{verify_authorized-IsConsented}

abbrev binding : ConfirmationBinding
binding = record {
  tenant_id = "t";
  owner_customer_id = "k";
  conversation_id = "c";
  proposed_from_message_id = "m1";
  tool = "create_booking";
  arguments_hash = 7;
  arguments_json = "{}";
}

abbrev proposal : ConfirmationProposal
proposal = record {
  id = "";
  action = "create_booking";
  title = "A haircut";
  facts = [];
  expires_at = 100;
}

abbrev codec : ProposalCodec
codec = record {
  hex = λ n. "7";
  unhex = λ s. some 7;
  encode = λ p. p.id;
  decode = λ s. some (record proposal { id = s });
  jsonb = λ s. s;
  can_insert = λ r rows. true;
}

abbrev message : String → String → Time → MessageRow
message id role at_time = record {
  tenant_id = "t";
  id = id;
  conversation_id = "c";
  role = role;
  created_at = at_time;
}

abbrev empty_store : Database
empty_store = record {
  proposals = [];
  messages = message "m1" "user" 1 ∷ [];
  conversations = record { tenant_id = "t"; id = "c"; customer_id = "k" } ∷ [];
}

abbrev customer : TrustedContext
customer = record {
  tenant_id = "t";
  customer_id = "k";
  customer_display_name = "";
  customer_email = "";
  customer_phone = "";
  conversation_id = "c";
  inbound_message_id = "m3";
  agent_run_id = "";
  capabilities = λ c. false;
}

-- Two proposals, the assistant's question, the customer's answer, and the confirmation of the
-- second one.
abbrev some_ops : List ProposalOp
some_ops =
    propose_op "p1" 2 (record binding { arguments_hash = 8; tool = "cancel_booking" }) proposal 2
    ∷ propose_op "p2" 3 binding proposal 3
    ∷ message_op (message "m2" "assistant" 4)
    ∷ message_op (message "m3" "user" 5)
    ∷ authorize_op "p2" customer 6
    ∷ []

run-IsSingle_example : IsSingle (run codec some_ops empty_store).proposals
run-IsSingle_example = run-IsSingle codec some_ops empty_store (λ t k c. omega arith)

accepted : verify_authorized codec "p2" binding 7 (run codec some_ops empty_store) ≡ none
unfolding run verify_authorized authorize propose with_id
accepted = refl

verify_authorized-IsConsented_example :
    (r : ProposalRow) × (find_proposal
        (is_named "t" "p2" "k" "c")
        (run codec some_ops empty_store).proposals
      ≡ some r)
    × (r.tool_name ≡ "create_booking")
    × (r.arguments_hash ≡ "7")
    × (before 7 r.expires_at ≡ true)
    × (is_consented (run codec some_ops empty_store).messages r ≡ true)
verify_authorized-IsConsented_example =
    verify_authorized-IsConsented codec some_ops empty_store "p2" binding 7 tt accepted
