-- ===== src/Agent/Runner/Shown.antt =====
-- What the trace keeps of a call (internal/agent/runner.go).
use Prim.Native.Char.{len_utf8}
use Prim.Native.String.{len}
use kontor.Prelude.{
  ℕ, zero, suc, ◌*◌, ◌-◌, Bool, not, ◌||◌, Option, none, some, String, str_eq, leb, ltb, ◌==◌,
  if◌then◌else◌,
}

abbrev pub max_tool_argument_bytes : ℕ
max_tool_argument_bytes = 64 * 1024

-- `value[:n]` where that cuts between two characters. A text of the model is valid UTF-8, so any
-- other slice is not, and `utf8.ValidString` refuses it.
unfoldable pub first_bytes : ℕ → String → Option String
first_bytes n String.[] = if n == 0 then some "" else none
first_bytes n (String.◌∷◌ c s) =
    let rest = first_bytes (n - len_utf8 c) s in
    if n == 0
    then some ""
    else if ltb n (len_utf8 c)
    then none
    else elim rest [ none ↦ none | some t ↦ some (String.◌∷◌ c t) ]

-- The loop over `end`, downwards.
unfoldable pub longest_valid : ℕ → String → String
unfolding first_bytes
longest_valid zero s = ""
longest_valid (suc end) s =
    let rest = longest_valid end s in elim (first_bytes (suc end) s) [ some t ↦ t | none ↦ rest ]

-- `truncateUTF8`
unfoldable pub truncate_utf8 : String → ℕ → String
unfolding longest_valid
truncate_utf8 value max_bytes =
    if leb (len value) max_bytes then value else longest_valid max_bytes value

unfoldable pub shown_name : String → String
unfolding truncate_utf8
shown_name name =
    let shown = truncate_utf8 name 100 in if str_eq shown "" then "unknown_tool" else shown

abbrev pub redacted_tool_arguments : String
redacted_tool_arguments = "{\"redacted\":\"invalid or oversized tool arguments\"}"

abbrev pub redacted_terminal_arguments : String
redacted_terminal_arguments = "{\"redacted\":\"invalid or oversized terminal arguments\"}"

unfoldable pub shown_arguments : (String → Bool) → String → String → String
shown_arguments valid_json redacted arguments =
    if ltb max_tool_argument_bytes (len arguments) || not (valid_json arguments)
    then redacted
    else arguments
