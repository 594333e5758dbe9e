-- ===== src/Llm.antt =====
-- internal/llm/types.go: the provider-neutral messages, requests and responses of the agent loop.
use kontor.Prelude.{Bool, List, String, ℤ, pos, ltb_ℤ, add64, if◌then◌else◌}

-- The role of a message; the zero value of a response that names none is `role_none`, and any
-- other text that a provider may send is `role_other`.
pub data Role : Type 0 where
  role_none role_system role_user role_assistant role_tool : Role
  role_other : String → Role

pub record ToolCall : Type 0 where
  pub id : String
  pub name : String
  pub arguments : String

pub record Message : Type 0 where
  pub role : Role
  pub content : String
  pub name : String
  pub tool_call_id : String
  pub tool_calls : List ToolCall

pub record ToolDefinition : Type 0 where
  pub name : String
  pub version : String
  pub description : String
  pub parameters : String

pub record Request : Type 0 where
  pub messages : List Message
  pub tools : List ToolDefinition
  pub max_output_tokens : ℤ

pub record Usage : Type 0 where
  pub input_tokens : ℤ
  pub output_tokens : ℤ
  pub total_tokens : ℤ

-- `Usage.Total`
unfoldable pub total : Usage → ℤ
total u =
    if ltb_ℤ (pos 0) u.total_tokens then u.total_tokens else add64 u.input_tokens u.output_tokens

pub record Response : Type 0 where
  pub model : String
  pub message : Message
  pub finish_reason : String
  pub usage : Usage
  pub usage_incomplete : Bool
  pub unknown_usage_attempts : ℤ
