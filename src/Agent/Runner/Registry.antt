-- ===== src/Agent/Runner/Registry.antt =====
-- NewRunner (internal/agent/runner.go): the limits and the registry of tools that a runner is built
-- from.
use Prim.Native.String.{len}
use kontor.Prelude.{
  ◌≤◌, ◌≡◌, refl, Bool, true, false, not, ◌||◌, Option, none, some, List, [], ◌∷◌, String, str_eq,
  ltb, ◌==◌, All, arith, eq_iff, if◌then◌else◌, ℤ, pos, pos_part, leb_ℤ, negsuc, subst,
}
use kontor.Llm.{ToolDefinition}
use kontor.Action.{Outcome, done, raised}
use kontor.Agent.Runner.{Runner}
use kontor.Agent.Runner.Names.{is_registered, is_used}
use kontor.Agent.Runner.Tools.{tool_version}
use kontor.Agent.Runner.Terminal.{respond_to_customer}

pub record RunnerConfig : Type 0 where
  pub max_iterations : ℤ
  pub turn_timeout : ℤ
  pub max_output_tokens : ℤ
  pub token_limit : ℤ

pub data NewRunnerError : Type 0 where
  invalid_max_iterations invalid_turn_timeout invalid_max_output_tokens invalid_token_limit no_model
        no_name long_name duplicate_tool no_version long_version invalid_schema no_terminal_tool :
      NewRunnerError

-- The checks of one definition, with the names registered before it.
unfoldable pub tool_error : (String → Bool) → List String → ToolDefinition → Option NewRunnerError
unfolding is_used
tool_error valid_json allowed tool =
    if str_eq tool.name ""
    then some no_name
    else if ltb 100 (len tool.name)
    then some long_name
    else if is_used tool.name allowed
    then some duplicate_tool
    else if str_eq tool.version ""
    then some no_version
    else if ltb 32 (len tool.version)
    then some long_version
    else if len tool.parameters == 0 || not (valid_json tool.parameters)
    then some invalid_schema
    else none

-- The loop over the definitions.
unfoldable pub registry_error :
    (String → Bool) → List String → List ToolDefinition → Option NewRunnerError
unfolding tool_error
registry_error valid_json allowed [] = none
registry_error valid_json allowed (tool ∷ rest) =
    let later = registry_error valid_json (tool.name ∷ allowed) rest in
    elim (tool_error valid_json allowed tool) [ some e ↦ some e | none ↦ later ]

unfoldable pub config_error : RunnerConfig → Bool → Option NewRunnerError
config_error c has_model =
    if leb_ℤ c.max_iterations (pos 0)
    then some invalid_max_iterations
    else if leb_ℤ c.turn_timeout (pos 0)
    then some invalid_turn_timeout
    else if leb_ℤ c.max_output_tokens (pos 0)
    then some invalid_max_output_tokens
    else if leb_ℤ c.token_limit (pos 0)
    then some invalid_token_limit
    else if not has_model
    then some no_model
    else none

-- `interfaces` has the interfaces, the defaults in place of those that are missing.
unfoldable pub new_runner :
    {W : Type 0}
    → RunnerConfig
    → Bool
    → Runner W
    → List ToolDefinition
    → Outcome NewRunnerError (Runner W)
unfolding config_error registry_error is_registered
new_runner c has_model interfaces tools = elim (config_error c has_model) [
  | some e ↦ raised e
  | none ↦ elim (registry_error interfaces.valid_json [] tools) [
    | some e ↦ raised e
    | none ↦
        if not (is_registered tools respond_to_customer)
        then raised no_terminal_tool
        else done (record interfaces {
          max_iterations = pos_part c.max_iterations;
          max_output_tokens = c.max_output_tokens;
          tools = tools;
        })
  ]
]

-- No two tools share a name, and each has a version.
abbrev pub IsRegistry : List ToolDefinition → Type 0
IsRegistry [] = Unit
IsRegistry (t ∷ ts) =
    (is_registered ts t.name ≡ false) × (str_eq t.version "" ≡ false) × IsRegistry ts

-- None of the names is registered.
abbrev IsFresh : List String → List ToolDefinition → Type 0
IsFresh allowed tools = All (λ t. is_used t.name allowed ≡ false) tools

tool_error-none :
    (valid_json : String → Bool) (allowed : List String) (t : ToolDefinition)
    → tool_error valid_json allowed t ≡ none
    → (is_used t.name allowed ≡ false) × (str_eq t.version "" ≡ false)
unfolding tool_error
tool_error-none valid_json allowed t h = (ground (arith, h), ground (arith, h))

IsFresh-registered :
    (name : String) (allowed : List String) (tools : List ToolDefinition)
    → IsFresh (name ∷ allowed) tools
    → (is_registered tools name ≡ false) × IsFresh allowed tools
unfolding is_used is_registered
IsFresh-registered name allowed [] h = (refl, tt)
IsFresh-registered name allowed (t ∷ ts) h =
    let rest = IsFresh-registered name allowed ts h.1 in
    (
      ground (arith, h.0, rest.0, eq_iff name t.name, eq_iff t.name name),
      (ground (arith, h.0), rest.1),
    )

registry_error-none :
    (valid_json : String → Bool) (allowed : List String) (tools : List ToolDefinition)
    → registry_error valid_json allowed tools ≡ none
    → IsRegistry tools × IsFresh allowed tools
unfolding registry_error
registry_error-none valid_json allowed [] h = (tt, tt)
registry_error-none valid_json allowed (t ∷ ts) h =
    let first : tool_error valid_json allowed t ≡ none = ground (arith, h) in
    let (fresh, version) = tool_error-none valid_json allowed t first in
    let (registry, others) =
      registry_error-none valid_json (t.name ∷ allowed) ts (ground (arith, h, first)) in
    let (unique, rest) = IsFresh-registered t.name allowed ts others in
    ((unique, version, registry), (fresh, rest))

abbrev HasVersion : List ToolDefinition → ToolDefinition → Type 0
HasVersion tools t = (tool_version tools t.name ≡ t.version) × (str_eq t.version "" ≡ false)

-- A definition in front with another name changes nothing.
HasVersion-cons :
    (t : ToolDefinition) (tools some_tools : List ToolDefinition)
    → is_registered some_tools t.name ≡ false
    → All (HasVersion tools) some_tools
    → All (HasVersion (t ∷ tools)) some_tools
unfolding tool_version is_registered
HasVersion-cons t tools [] h all = tt
HasVersion-cons t tools (u ∷ us) h all = (
  (ground (arith, h, all.0.0, eq_iff t.name u.name, eq_iff u.name t.name), all.0.1),
  HasVersion-cons t tools us (ground (arith, h)) all.1,
)

IsRegistry-HasVersion :
    (tools : List ToolDefinition) → IsRegistry tools → All (HasVersion tools) tools
unfolding tool_version
IsRegistry-HasVersion [] h = tt
IsRegistry-HasVersion (t ∷ ts) h = (
  (ground (arith, h.1, eq_iff t.name t.name), h.1),
  HasVersion-cons t ts ts h.0 (IsRegistry-HasVersion ts h.2),
)

abbrev IsBuilt : {W : Type 0} → Runner W → Type 0
IsBuilt r =
    (1 ≤ r.max_iterations)
    × (is_registered r.tools respond_to_customer ≡ true)
    × All (HasVersion r.tools) r.tools

abbrev IfBuilt : {W : Type 0} → Outcome NewRunnerError (Runner W) → Type 0
IfBuilt (done r) = IsBuilt r
IfBuilt (raised e) = Unit

config_error-none :
    (c : RunnerConfig) (has_model : Bool)
    → config_error c has_model ≡ none
    → 1 ≤ pos_part c.max_iterations
unfolding config_error
config_error-none c has_model h = first c.max_iterations (ground (arith, h))
  where
    first : (n : ℤ) → leb_ℤ n (pos 0) ≡ false → 1 ≤ pos_part n
    first (pos n) e = grind (arith, e)
    first (negsuc n) e = grind (arith, e)

module _ {W : Type 0} (c : RunnerConfig) (has_model : Bool) (interfaces : Runner W)
    (tools : List ToolDefinition) where
  new_runner-IfBuilt : IfBuilt (new_runner c has_model interfaces tools)
  unfolding new_runner
  new_runner-IfBuilt =
      built (config_error c has_model) refl (registry_error interfaces.valid_json [] tools) refl
        (is_registered tools respond_to_customer) refl
    where
      built :
          (x : Option NewRunnerError)
          → config_error c has_model ≡ x
          → (y : Option NewRunnerError) → registry_error interfaces.valid_json [] tools ≡ y
          → (b : Bool) → is_registered tools respond_to_customer ≡ b
          → IfBuilt {W = W} (elim x [
            | some e ↦ raised e
            | none ↦ elim y [
              | some e ↦ raised e
              | none ↦
                  if not b
                  then raised no_terminal_tool
                  else done (record interfaces {
                    max_iterations = pos_part c.max_iterations;
                    max_output_tokens = c.max_output_tokens;
                    tools = tools;
                  })
            ]
          ])
      built (some e) hx y hy b hb = tt
      built none hx (some e) hy b hb = tt
      built none hx none hy false hb = tt
      built none hx none hy true hb = (
        config_error-none c has_model hx,
        hb,
        IsRegistry-HasVersion tools (registry_error-none interfaces.valid_json [] tools hy).0,
      )

  -- A runner that NewRunner returns has at least one iteration and the terminal tool, and for each of
  -- its tools toolVersion finds that tool's own contract version, which is not empty.
  pub new_runner-registry :
      (r : Runner W)
      → new_runner c has_model interfaces tools ≡ done r
      → (1 ≤ r.max_iterations)
        × (is_registered r.tools respond_to_customer ≡ true)
        × All
            (λ t. (tool_version r.tools t.name ≡ t.version) × (str_eq t.version "" ≡ false))
            r.tools
  new_runner-registry r h = subst IfBuilt h new_runner-IfBuilt
