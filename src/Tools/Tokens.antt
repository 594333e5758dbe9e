-- ===== src/Tools/Tokens.antt =====
-- internal/tools/tokens.go: the signed slot tokens that the model sees. The keyed hash, base64 and
-- JSON of the standard library are a parameter, the `Codec`; the layout of a token, the order of
-- the checks and their errors are the source's. Tokens are lists of bytes.
pub mod RoundTrip
pub mod Authentic
use kontor.Prelude.{
  ℕ, Bool, true, false, not, ◌&&◌, ◌||◌, Option, none, some, List, [], ◌∷◌, ◌++◌, String, str_eq,
  length, Time, before, is_zero, ltb, ◌==◌, if◌then◌else◌,
}
use kontor.Tools.Types.{TrustedContext, is_empty}

abbrev pub Bytes : Type 0
Bytes = List ℕ

pub record SlotClaims : Type 0 where
  pub version : ℕ
  pub tenant_id : String
  pub conversation_id : String
  pub service_id : String
  pub service_name : String
  pub staff_id : String
  pub staff_name : String
  pub start_at : Time
  pub end_at : Time
  pub timezone : String
  pub expires_at : Time

-- `mac` is HMAC-SHA256 under the signer's key and its prefix; `encode64` and `decode64` are
-- base64.RawURLEncoding; the last two are encoding/json on `SlotClaims`.
pub record Codec : Type 0 where
  pub mac : Bytes → Bytes
  pub encode64 : Bytes → Bytes
  pub decode64 : Bytes → Option Bytes
  pub marshal : SlotClaims → Bytes
  pub unmarshal : Bytes → Option SlotClaims

pub data TokenError : Type 0 where
  invalid_slot_token expired_slot_token slot_token_scope : TokenError

pub data Verified : Type 0 where
  claims : SlotClaims → Verified
  refused : TokenError → Verified

unfoldable pub same_bytes : Bytes → Bytes → Bool
same_bytes [] [] = true
same_bytes (x ∷ xs) (y ∷ ys) = x == y && same_bytes xs ys
same_bytes _ _ = false

-- "slt_v1_"
abbrev pub prefix : Bytes
prefix = 115 ∷ 108 ∷ 116 ∷ 95 ∷ 118 ∷ 49 ∷ 95 ∷ []

abbrev pub dot : ℕ
dot = 46

-- `strings.TrimPrefix`, where the prefix is there.
unfoldable pub strip : Bytes → Bytes → Option Bytes
strip [] s = some s
strip (p ∷ ps) [] = none
strip (p ∷ ps) (c ∷ s) = if p == c then strip ps s else none

unfoldable pub has_dot : Bytes → Bool
has_dot [] = false
has_dot (c ∷ s) = c == dot || has_dot s

unfoldable pub is_nil : Bytes → Bool
is_nil [] = true
is_nil (_ ∷ _) = false

-- What stands before the first dot and after it.
unfoldable pub split_dot : Bytes → Option (Bytes × Bytes)
split_dot [] = none
split_dot (c ∷ s) =
    if c == dot
    then some ([], s)
    else elim (split_dot s) [ none ↦ none | some (before_it, rest) ↦ some (c ∷ before_it, rest) ]

-- `strings.Split(s, ".")` gives two parts, and neither is empty.
unfoldable pub two_parts : Bytes → Option (Bytes × Bytes)
unfolding split_dot has_dot is_nil
two_parts s = elim (split_dot s) [
  | none ↦ none
  | some (payload, signature) ↦
      if has_dot signature || (is_nil payload || is_nil signature)
      then none
      else some (payload, signature)
]

-- The claims that `Sign` and `Verify` both insist on.
unfoldable pub complete : SlotClaims → Bool
complete c =
    c.version == 1
    && (not (is_empty c.tenant_id)
        && (not (is_empty c.conversation_id)
            && (not (is_empty c.service_id)
                && (not (is_empty c.staff_id)
                    && (not (is_zero c.start_at)
                        && (not (is_zero c.end_at)
                            && (before c.start_at c.end_at && not (is_zero c.expires_at))))))))

unfoldable pub with_version : SlotClaims → SlotClaims
with_version c = if c.version == 0 then record c { version = 1 } else c

unfoldable pub sign : Codec → SlotClaims → Option Bytes
unfolding with_version complete
sign k c =
    let full = with_version c in
    let encoded = k.encode64 (k.marshal full) in
    if not (complete full)
    then none
    else some (prefix ++ (encoded ++ (dot ∷ k.encode64 (k.mac encoded))))

-- The checks of `Verify` on decoded claims.
unfoldable pub check_claims : SlotClaims → TrustedContext → Time → Verified
unfolding complete
check_claims c trusted now =
    if not (complete c)
    then refused invalid_slot_token
    else if not (str_eq c.tenant_id trusted.tenant_id)
        || not (str_eq c.conversation_id trusted.conversation_id)
    then refused slot_token_scope
    else if not (before now c.expires_at)
    then refused expired_slot_token
    else claims c

-- The parts of a token whose signature is the hash of its payload, decoded.
unfoldable pub open_token : Codec → Bytes → Option SlotClaims
unfolding strip two_parts same_bytes
open_token k token = if ltb 1024 (length token) then none else elim (strip prefix token) [
  | none ↦ none
  | some body ↦ elim (two_parts body) [
    | none ↦ none
    | some (payload, signature) ↦ elim (k.decode64 signature) [
      | none ↦ none
      | some mac ↦
          if not (same_bytes mac (k.mac payload))
          then none
          else elim (k.decode64 payload) [ none ↦ none | some raw ↦ k.unmarshal raw ]
    ]
  ]
]

unfoldable pub verify : Codec → Bytes → TrustedContext → Time → Verified
unfolding open_token check_claims
verify k token trusted now = elim (open_token k token) [
  | none ↦ refused invalid_slot_token
  | some c ↦ check_claims c trusted now
]
