-- ===== src/Tools/Tokens/RoundTrip.antt =====
-- A token that was signed is accepted (internal/tools/tokens.go).
use kontor.Prelude.{
  ℕ, ◌≤◌, ◌<◌, ◌≡◌, refl, Bool, true, false, some, [], ◌∷◌, ◌++◌, arith, length, Time, str_eq, ltb,
  eq_iff, if◌then◌else◌, subst, ◌∙◌, ◌↔◌, ◌||◌, String, before, not,
}
use kontor.Tools.Types.{TrustedContext}
use kontor.Tools.Tokens.{
  Bytes, Codec, SlotClaims, claims, refused, invalid_slot_token, slot_token_scope,
  expired_slot_token, same_bytes, prefix, dot, strip, has_dot, is_nil, split_dot, two_parts,
  complete, with_version, sign, check_claims, open_token, verify,
}

same_bytes_refl : (xs : Bytes) → same_bytes xs xs ≡ true
unfolding same_bytes
same_bytes_refl [] = refl
same_bytes_refl (x ∷ xs) = ground (arith, same_bytes_refl xs)

strip-append : (p s : Bytes) → strip p (p ++ s) ≡ some s
unfolding strip
strip-append [] s = refl
strip-append (x ∷ p) s = ground (arith, strip-append p s)

split_dot-append : (p s : Bytes) → has_dot p ≡ false → split_dot (p ++ (dot ∷ s)) ≡ some (p, s)
unfolding split_dot has_dot
split_dot-append [] s h = refl
split_dot-append (x ∷ p) s h = ground (arith, split_dot-append p s)

two_parts-append :
    (p s : Bytes)
    → has_dot p ≡ false
    → has_dot s ≡ false
    → is_nil p ≡ false
    → is_nil s ≡ false
    → two_parts (p ++ (dot ∷ s)) ≡ some (p, s)
unfolding two_parts
two_parts-append p s a b c d = rw (split_dot-append p s a, two_parts) (ground arith)

-- What base64 and JSON are relied on for, at the two texts of one token: decoding undoes encoding,
-- and an encoding is not empty and has no dot.
pub record Decodes (k : Codec) (c : SlotClaims) : Type 0 where
  pub payload : k.decode64 (k.encode64 (k.marshal c)) ≡ some (k.marshal c)
  pub signature :
      k.decode64 (k.encode64 (k.mac (k.encode64 (k.marshal c))))
      ≡ some (k.mac (k.encode64 (k.marshal c)))
  pub json : k.unmarshal (k.marshal c) ≡ some c
  pub payload_dotless : has_dot (k.encode64 (k.marshal c)) ≡ false
  pub payload_filled : is_nil (k.encode64 (k.marshal c)) ≡ false
  pub signature_dotless : has_dot (k.encode64 (k.mac (k.encode64 (k.marshal c)))) ≡ false
  pub signature_filled : is_nil (k.encode64 (k.mac (k.encode64 (k.marshal c)))) ≡ false

abbrev token_of : Codec → SlotClaims → Bytes
token_of k c =
    let encoded = k.encode64 (k.marshal c) in
    prefix ++ (encoded ++ (dot ∷ k.encode64 (k.mac encoded)))

ltb-false : (a b : ℕ) → b ≤ a → ltb a b ≡ false
ltb-false a b h = ground arith

open_token-token_of :
    (k : Codec) (c : SlotClaims)
    → Decodes k c
    → length (token_of k c) ≤ 1024
    → open_token k (token_of k c) ≡ some c
unfolding open_token
open_token-token_of k c d small =
    let encoded = k.encode64 (k.marshal c) in
    let signature = k.encode64 (k.mac encoded) in
    let parts =
      two_parts-append encoded signature d.payload_dotless d.signature_dotless d.payload_filled
        d.signature_filled in
    let fits = ltb-false 1024 (length (token_of k c)) small in
    rw (fits, parts, d.signature, same_bytes_refl (k.mac encoded), d.payload, open_token) d.json

sign_parts :
    (k : Codec) (c : SlotClaims) (token : Bytes)
    → sign k c ≡ some token
    → (token ≡ token_of k (with_version c)) × (complete (with_version c) ≡ true)
unfolding sign
sign_parts k c token h = ground arith

with_version_scope :
    (c : SlotClaims)
    → ((with_version c).tenant_id ≡ c.tenant_id)
      × ((with_version c).conversation_id ≡ c.conversation_id)
      × ((with_version c).expires_at ≡ c.expires_at)
unfolding with_version
with_version_scope c = ground arith

check_scope :
    (t t' v v' : String) (now expires : Time) (ok : Bool) (c d : SlotClaims)
    → ((if not ok
          then refused invalid_slot_token
          else if not (str_eq t t') || not (str_eq v v')
          then refused slot_token_scope
          else if not (before now expires)
          then refused expired_slot_token
          else claims c)
        ≡ claims d)
      ↔ ((ok ≡ true) × (t ≡ t') × (v ≡ v') × (now < expires) × (c ≡ d))
check_scope t t' v v' now expires ok c d =
    (λ h. ground (arith, eq_iff t t', eq_iff v v'), λ h. ground (arith, eq_iff t t', eq_iff v v'))

pub check_claims_lem :
    (c d : SlotClaims) (trusted : TrustedContext) (now : Time)
    → (check_claims c trusted now ≡ claims d) ↔ (
        (complete c ≡ true)
        × (c.tenant_id ≡ trusted.tenant_id)
        × (c.conversation_id ≡ trusted.conversation_id)
        × (now < c.expires_at)
        × (c ≡ d))
unfolding check_claims
check_claims_lem c d trusted now =
    check_scope c.tenant_id trusted.tenant_id c.conversation_id trusted.conversation_id now
      c.expires_at (complete c) c d

-- A token that was signed and is not too long is accepted, in the scope that its claims name and
-- before they expire, as the claims that were signed, with the version filled in.
pub verify-sign :
    (k : Codec) (c : SlotClaims) (token : Bytes) (trusted : TrustedContext) (now : Time)
    → Decodes k (with_version c)
    → sign k c ≡ some token
    → length token ≤ 1024
    → c.tenant_id ≡ trusted.tenant_id
    → c.conversation_id ≡ trusted.conversation_id
    → now < c.expires_at
    → verify k token trusted now ≡ claims (with_version c)
unfolding verify
verify-sign k c token trusted now d h small tenant conversation alive =
    let (built, full) = sign_parts k c token h in
    let opened =
      open_token-token_of k (with_version c) d (subst (λ t. length t ≤ 1024) built small) in
    let (same_tenant, same_conversation, same_expiry) = with_version_scope c in
    let live : now < (with_version c).expires_at = omega (arith, same_expiry) in
    rw (built, opened, verify)
      ((check_claims_lem (with_version c) (with_version c) trusted now).1
        (full, same_tenant ∙ tenant, same_conversation ∙ conversation, live, refl))
