-- ===== src/Agent/Runner/Names.antt =====
-- normalizeToolCallNames and normalizeToolCallIDs (internal/agent/runner.go).
use Prim.Native.Char.{code}
use Prim.Native.String.{len}
use kontor.Prelude.{
  ℕ, zero, suc, ◌+◌, Bool, ◌||◌, Option, none, some, List, [], ◌∷◌, String, str_eq, any, ltb, ◌==◌,
  if◌then◌else◌, length,
}
use kontor.Llm.{ToolCall, ToolDefinition}

unfoldable pub is_registered : List ToolDefinition → String → Bool
is_registered tools name = any (λ t. str_eq t.name name) tools

-- `strings.HasPrefix` with `strings.TrimPrefix`
unfoldable pub strip_prefix : String → String → Option String
strip_prefix String.[] s = some s
strip_prefix (String.◌∷◌ p ps) String.[] = none
strip_prefix (String.◌∷◌ p ps) (String.◌∷◌ c s) =
    if code p == code c then strip_prefix ps s else none

unfoldable pub canonical_name : List ToolDefinition → String → String
unfolding is_registered strip_prefix
canonical_name tools name = elim (strip_prefix "default_api." name) [
  | none ↦ name
  | some canonical ↦ if is_registered tools canonical then canonical else name
]

unfoldable pub normalize_tool_call_names : List ToolDefinition → List ToolCall → List ToolCall
unfolding canonical_name
normalize_tool_call_names tools [] = []
normalize_tool_call_names tools (c ∷ cs) =
    record c { name = canonical_name tools c.name } ∷ normalize_tool_call_names tools cs

unfoldable pub is_used : String → List String → Bool
is_used id seen = any (λ s. str_eq s id) seen

-- The loop over `suffix`, with the rounds left.
unfoldable pub next_free : (ℕ → String) → List String → ℕ → ℕ → String
unfolding is_used
next_free candidate seen zero suffix = candidate suffix
next_free candidate seen (suc rounds) suffix =
    let rest = next_free candidate seen rounds (suffix + 1) in
    if is_used (candidate suffix) seen then rest else candidate suffix

-- `base` for the suffix 1, which the source does not write, and `base-suffix` from 2 on.
unfoldable pub candidate_id : (String → ℕ → String) → String → ℕ → String
candidate_id suffixed base suffix = if suffix == 1 then base else suffixed base suffix

unfoldable pub needs_id : String → List String → Bool
unfolding is_used
needs_id id seen = str_eq id "" || (ltb 200 (len id) || is_used id seen)

module _ (base_id : ℕ → ℕ → String) (suffixed_id : String → ℕ → String) (iteration : ℕ) where
  -- One call, `number` from 1: one more round than there are used identifiers is enough.
  unfoldable pub unique_id : ℕ → String → List String → String
  unfolding candidate_id needs_id
  unique_id number id seen =
      if needs_id id seen
      then next_free (candidate_id suffixed_id (base_id iteration number)) seen (length seen) 1
      else id

  -- The calls, and `seen` afterwards.
  unfoldable pub normalize_tool_call_ids :
      ℕ → List ToolCall → List String → List ToolCall × List String
  unfolding unique_id
  normalize_tool_call_ids number [] seen = ([], seen)
  normalize_tool_call_ids number (c ∷ cs) seen =
      let id = unique_id number c.id seen in
      let (rest, seen') = normalize_tool_call_ids (number + 1) cs (id ∷ seen) in
      (record c { id = id } ∷ rest, seen')
