-- ===== src/Agent/Runner/Terminal.antt =====
-- executeCustomerResponse (internal/agent/runner.go): the terminal call respond_to_customer, which
-- the runner validates itself.
use Prim.Native.String.{len}
use kontor.Prelude.{
  ℕ, Bool, not, Option, none, some, List, [], ◌∷◌, String, str_eq, any, ltb, if◌then◌else◌,
}
use kontor.Llm.{Message, ToolCall, role_assistant}
use kontor.Action.{pure, raise, modify, or_raise, ◌>>=◌, ◌>>◌}
use kontor.Agent.Runner.{
  terminal_protocol, ToolStatus, succeeded, failed, ToolRequest, CustomerResponse, TurnRequest,
  Runner, Turn,
}
use kontor.Agent.Runner.Shown.{max_tool_argument_bytes, redacted_terminal_arguments}
use kontor.Agent.Runner.Tools.{
  Run, record_started, record_completed, tool_message, append_message, check_turn, tool_request,
}

-- `tools.ToolRespondToCustomer`
abbrev pub respond_to_customer : String
respond_to_customer = "respond_to_customer"

unfoldable pub has_terminal_call : List ToolCall → Bool
has_terminal_call calls = any (λ c. str_eq c.name respond_to_customer) calls

-- The message of an assistant with no tool calls.
unfoldable pub assistant_message : String → Message
assistant_message content = record {
  role = role_assistant;
  content = content;
  name = "";
  tool_call_id = "";
  tool_calls = [];
}

module _ {W : Type 0} (r : Runner W) where
  -- The response of a call, unless its arguments are too long or do not parse.
  unfoldable pub parsed_response : ToolCall → Option CustomerResponse
  parsed_response c =
      if ltb max_tool_argument_bytes (len c.arguments) then none else r.parse_response c.arguments

  unfoldable pub response_status : Option CustomerResponse → ToolStatus
  response_status none = failed
  response_status (some _) = succeeded

  -- The tool message is appended by `Run` once it has been built, with the error or without.
  unfoldable pub execute_customer_response : ToolRequest → Run W CustomerResponse
  unfolding parsed_response response_status
  execute_customer_response q =
      let response = parsed_response q.call in
      let content = r.response_content response in
      do
        record_started r redacted_terminal_arguments q
        append_message r (tool_message r q.call content)
        record_completed r q (response_status response) content 0
        answer ← or_raise response terminal_protocol
        check_turn r
        pure answer

  unfoldable pub deliver : ToolCall → CustomerResponse → Turn W → Turn W
  unfolding assistant_message
  deliver c a t = record t {
    message = some (assistant_message a.text);
    disposition = some a.disposition;
    response_call_id = c.id;
  }

  unfoldable pub respond_alone : TurnRequest → ℕ → ToolCall → Run W Unit
  unfolding execute_customer_response deliver append_message assistant_message tool_request
  respond_alone turn iteration c = do
    answer ← execute_customer_response (tool_request r turn iteration 1 1 c)
    modify (deliver c answer)
    append_message r (assistant_message answer.text)

  -- A response with the terminal call: it must be the only one, without other content.
  unfoldable pub respond : TurnRequest → ℕ → String → List ToolCall → Run W Unit
  unfolding respond_alone
  respond turn iteration content (c ∷ []) =
      if not (str_eq (r.trim_space content) "")
      then raise terminal_protocol
      else respond_alone turn iteration c
  respond turn iteration content _ = raise terminal_protocol
