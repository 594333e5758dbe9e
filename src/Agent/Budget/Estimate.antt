-- ===== src/Agent/Budget/Estimate.antt =====
-- ConservativeTokenEstimator.Estimate (internal/agent/budget.go). Byte counts are those of texts in
-- memory and stay far below 2^63, so their sum is exact; the sums with the configured sizes and the
-- product with the attempts wrap around.
use Prim.Native.String.{len}
use kontor.Prelude.{
  ℕ, suc, negsuc, to_word, ◌==◌, refl, ◌+◌, ◌-◌, ◌*◌, ◌/◌, ◌≤◌, ◌<◌, ◌≡◌, false, List, [], ◌∷◌,
  arith, if◌then◌else◌, ℤ, pos, pos_part, ltb_ℤ, leb_ℤ, mul64, of_word, of_word_small, max_int,
  word_mod, length, ◌%◌, leb, Bool-cases, inl, inr,
}
use kontor.Llm.{
  Role, role_none, role_system, role_user, role_assistant, role_tool, role_other, ToolCall, Message,
  ToolDefinition, Request,
}

pub record ConservativeTokenEstimator : Type 0 where
  pub base_overhead : ℤ
  pub per_message_overhead : ℤ
  pub per_tool_overhead : ℤ
  pub bytes_per_token : ℤ
  pub provider_attempts : ℤ

pub data EstimateError : Type 0 where
  max_output_not_positive estimate_overflow : EstimateError

pub data Estimated : Type 0 where
  tokens : ℤ → Estimated
  failed : EstimateError → Estimated

-- A setting that is not positive takes its default.
unfoldable pub or_default : ℤ → ℕ → ℕ
or_default n d = if leb_ℤ n (pos 0) then d else pos_part n

unfoldable pub role_bytes : Role → ℕ
role_bytes role_none = 0
role_bytes role_system = 6
role_bytes role_user = 4
role_bytes role_assistant = 9
role_bytes role_tool = 4
role_bytes (role_other s) = len s

unfoldable pub call_bytes : List ToolCall → ℕ
call_bytes [] = 0
call_bytes (c ∷ cs) = len c.id + len c.name + len c.arguments + call_bytes cs

unfoldable pub message_bytes : List Message → ℕ
unfolding role_bytes call_bytes
message_bytes [] = 0
message_bytes (m ∷ ms) =
    role_bytes m.role
    + len m.content
    + len m.name
    + len m.tool_call_id
    + call_bytes m.tool_calls
    + message_bytes ms

unfoldable pub tool_bytes : List ToolDefinition → ℕ
tool_bytes [] = 0
tool_bytes (t ∷ ts) = len t.name + len t.description + len t.parameters + tool_bytes ts

unfoldable pub raw_bytes : Request → ℕ
unfolding message_bytes tool_bytes
raw_bytes r = message_bytes r.messages + tool_bytes r.tools

-- Division of an `int`, which rounds towards zero.
unfoldable pub quotient : ℤ → ℕ → ℤ
quotient (pos m) n = pos (m / n)
quotient (negsuc m) n = if suc m / n == 0 then pos 0 else negsuc (suc m / n - 1)

-- `(rawBytes + bytesPerToken - 1) / bytesPerToken`; the sum wraps around.
unfoldable pub content_tokens : ConservativeTokenEstimator → Request → ℤ
unfolding raw_bytes or_default of_word quotient
content_tokens e r =
    let ratio = or_default e.bytes_per_token 4 in
    quotient (of_word ((raw_bytes r + ratio - 1) % word_mod)) ratio

-- The tokens of one attempt, up to a multiple of 2^64.
unfoldable pub attempt_tokens : ConservativeTokenEstimator → Request → ℕ
unfolding content_tokens to_word
attempt_tokens e r =
    pos_part r.max_output_tokens
    + to_word (content_tokens e r)
    + or_default e.base_overhead 256
    + length r.messages * or_default e.per_message_overhead 64
    + length r.tools * or_default e.per_tool_overhead 64

unfoldable pub estimate : ConservativeTokenEstimator → Request → Estimated
unfolding attempt_tokens
estimate e r =
    let per_attempt = of_word (attempt_tokens e r % word_mod) in
    let attempts = or_default e.provider_attempts 1 in
    if leb_ℤ r.max_output_tokens (pos 0)
    then failed max_output_not_positive
    else if ltb_ℤ (pos (max_int / attempts)) per_attempt
    then failed estimate_overflow
    else tokens (mul64 per_attempt (pos attempts))

or_default_pos : (n : ℤ) (d : ℕ) → 0 < d → 0 < or_default n d
unfolding or_default
or_default_pos n d h = ground arith

le_of_div : (a m n : ℕ) → 0 < n → a ≤ m / n → a * n ≤ m
le_of_div a m n p h = grind arith

div_le : (a n m : ℕ) → 0 < n → a ≤ m → a / n ≤ m
div_le a n m p h = grind arith

lt_of_div : (a m n : ℕ) → 0 < n → m / n < a → m < a * n
lt_of_div a m n p h = grind arith

-- The cost of one attempt in exact numbers: the output, the content rounded up to whole tokens, and
-- the overheads.
abbrev pub exact_tokens : ConservativeTokenEstimator → Request → ℕ
exact_tokens e r =
    let ratio = or_default e.bytes_per_token 4 in
    pos_part r.max_output_tokens
    + (raw_bytes r + ratio - 1) / ratio
    + or_default e.base_overhead 256
    + length r.messages * or_default e.per_message_overhead 64
    + length r.tools * or_default e.per_tool_overhead 64

content_exact :
    (e : ConservativeTokenEstimator) (r : Request)
    → raw_bytes r + or_default e.bytes_per_token 4 ≤ max_int
    → to_word (content_tokens e r)
      ≡ (raw_bytes r + or_default e.bytes_per_token 4 - 1) / or_default e.bytes_per_token 4
unfolding content_tokens quotient to_word
content_exact e r h =
    let ratio = or_default e.bytes_per_token 4 in
    let sum = raw_bytes r + ratio - 1 in
    let wrap : sum % word_mod ≡ sum = omega arith in
    let small : sum / ratio ≤ max_int =
      div_le sum ratio max_int (or_default_pos e.bytes_per_token 4 (omega arith)) (omega arith) in
    rw (wrap, of_word_small sum (omega arith)) (omega arith)

attempt_exact :
    (e : ConservativeTokenEstimator) (r : Request)
    → raw_bytes r + or_default e.bytes_per_token 4 ≤ max_int
    → attempt_tokens e r ≡ exact_tokens e r
unfolding attempt_tokens
attempt_exact e r h = rw (content_exact e r h) refl

mul64_pos :
    (a b : ℕ)
    → a < suc max_int
    → b < suc max_int
    → a * b < suc max_int
    → mul64 (pos a) (pos b) ≡ pos (a * b)
unfolding mul64
mul64_pos a b ha hb h =
    let ea : a % word_mod ≡ a = omega arith in
    let eb : b % word_mod ≡ b = omega arith in
    let ep : a * b % word_mod ≡ a * b = omega arith in rw (ea, eb, ep) (of_word_small (a * b) h)

-- For a request that asks for output, where the bytes of its content with the configured number of
-- bytes per token and the exact cost of one attempt fit an `int`: the estimate is the exact cost of
-- all attempts where that fits, and the overflow error where it does not.
pub estimate_lem :
    (e : ConservativeTokenEstimator) (r : Request)
    → leb_ℤ r.max_output_tokens (pos 0) ≡ false
    → raw_bytes r + or_default e.bytes_per_token 4 ≤ max_int
    → exact_tokens e r ≤ max_int
    → or_default e.provider_attempts 1 ≤ max_int
    → estimate e r ≡ (
        if leb (exact_tokens e r * or_default e.provider_attempts 1) max_int
        then tokens (pos (exact_tokens e r * or_default e.provider_attempts 1))
        else failed estimate_overflow)
unfolding estimate
estimate_lem e r asks room fits small =
    let a = exact_tokens e r in
    let n = or_default e.provider_attempts 1 in
    let p = or_default_pos e.provider_attempts 1 (omega arith) in
    let exact = attempt_exact e r room in
    let wrap : a % word_mod ≡ a = omega arith in
    let signed = of_word_small a (omega arith) in
    elim (Bool-cases (leb (a * n) max_int)) [
      | inl h ↦
          rw (exact, wrap, signed, asks, h) (ground (arith, mul64_pos a n, lt_of_div a max_int n p))
      | inr h ↦ rw (exact, wrap, signed, asks, h) (ground (arith, le_of_div a max_int n p))
    ]
