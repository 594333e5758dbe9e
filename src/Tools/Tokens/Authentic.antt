-- ===== src/Tools/Tokens/Authentic.antt =====
-- Only a token that was signed with the key is accepted (internal/tools/tokens.go).
use kontor.Prelude.{
  ◌≤◌, ◌<◌, ◌≡◌, refl, true, some, [], ◌∷◌, ◌++◌, arith, length, Time, ltb, Option-cases, inl, inr,
  subst, ◌∙◌, ap, Bool-cases, ◌==◌,
}
use kontor.Tools.Types.{TrustedContext}
use kontor.Tools.Tokens.{
  Bytes, Codec, SlotClaims, claims, same_bytes, prefix, dot, strip, split_dot, two_parts, complete,
  open_token, verify,
}
use kontor.Tools.Tokens.RoundTrip.{check_claims_lem}

same_bytes_sound : (xs ys : Bytes) → same_bytes xs ys ≡ true → xs ≡ ys
unfolding same_bytes
same_bytes_sound [] [] h = refl
same_bytes_sound [] (y ∷ ys) h = absurd (ground arith)
same_bytes_sound (x ∷ xs) [] h = absurd (ground arith)
same_bytes_sound (x ∷ xs) (y ∷ ys) h =
    let head : x ≡ y = ground arith in let tail = same_bytes_sound xs ys (ground arith) in cc

strip-some : (p s body : Bytes) → strip p s ≡ some body → s ≡ p ++ body
unfolding strip
strip-some [] s body h = ground (arith, h)
strip-some (x ∷ p) [] body h = absurd (ground arith)
strip-some (x ∷ p) (c ∷ s) body h = elim (Bool-cases (x == c)) [
  | inr e ↦ absurd (ground (arith, h, e))
  | inl e ↦
      let head : x ≡ c = ground arith in let tail = strip-some p s body (ground (arith, h, e)) in cc
]

split_dot-some :
    (s payload rest : Bytes) → split_dot s ≡ some (payload, rest) → s ≡ payload ++ (dot ∷ rest)
unfolding split_dot
split_dot-some [] payload rest h = absurd (ground arith)
split_dot-some (c ∷ s) payload rest h = elim (Bool-cases (c == dot)) [
  | inl e ↦
      let head : c ≡ dot = ground arith in
      let none_before : [] ≡ payload = ground (arith, h, e) in
      let same : s ≡ rest = ground (arith, h, e) in
      subst (λ x. c ∷ s ≡ x ++ (dot ∷ rest)) none_before cc
  | inr e ↦ elim (Option-cases (split_dot s)) [
    | inl k ↦ absurd (ground (arith, h, e, k))
    | inr (x, k) ↦
        let same : c ∷ x.0 ≡ payload = ground (arith, h, e, k) in
        let after : x.1 ≡ rest = ground (arith, h, e, k) in
        let tail = split_dot-some s x.0 x.1 k in
        subst (λ y. c ∷ s ≡ y ++ (dot ∷ rest)) same
          (subst (λ y. c ∷ s ≡ c ∷ (x.0 ++ (dot ∷ y))) after (ap (λ y. c ∷ y) tail))
  ]
]

two_parts-some :
    (s payload rest : Bytes)
    → two_parts s ≡ some (payload, rest)
    → split_dot s ≡ some (payload, rest)
unfolding two_parts
two_parts-some s payload rest h = ground (arith, h)

-- The bytes of a token that was signed with the key, and what its payload says.
pub record IsSigned (k : Codec) (token : Bytes) (c : SlotClaims) : Type 0 where
  pub payload : Bytes
  pub signature : Bytes
  pub raw : Bytes
  pub layout : token ≡ prefix ++ (payload ++ (dot ∷ signature))
  pub keyed : k.decode64 signature ≡ some (k.mac payload)
  pub decoded : k.decode64 payload ≡ some raw
  pub read : k.unmarshal raw ≡ some c
  pub short : length token ≤ 1024

open_token-IsSigned :
    (k : Codec) (token : Bytes) (c : SlotClaims) → open_token k token ≡ some c → IsSigned k token c
unfolding open_token
open_token-IsSigned k token c h = elim (Bool-cases (ltb 1024 (length token))) [
  | inl long ↦ absurd (ground (arith, rw long at h))
  | inr small ↦ elim (Option-cases (strip prefix token)) [
    | inl e ↦ absurd (ground (arith, h, small, e))
    | inr (body, e) ↦ elim (Option-cases (two_parts body)) [
      | inl e2 ↦ absurd (ground (arith, h, small, e, e2))
      | inr ((payload, signature), e2) ↦ elim (Option-cases (k.decode64 signature)) [
        | inl e3 ↦ absurd (ground (arith, h, small, e, e2, e3))
        | inr (mac, e3) ↦ elim (Bool-cases (same_bytes mac (k.mac payload))) [
          | inr e4 ↦ absurd (ground (arith, h, small, e, e2, e3, e4))
          | inl e4 ↦ elim (Option-cases (k.decode64 payload)) [
            | inl e5 ↦ absurd (ground (arith, h, small, e, e2, e3, e4, e5))
            | inr (raw, e5) ↦ record {
              payload = payload;
              signature = signature;
              raw = raw;
              layout =
                  strip-some prefix token body e
                  ∙ ap (λ x. prefix ++ x)
                      (split_dot-some body payload signature
                        (two_parts-some body payload signature e2));
              keyed = e3 ∙ ap some (same_bytes_sound mac (k.mac payload) e4);
              decoded = e5;
              read = ground (arith, h, small, e, e2, e3, e4, e5);
              short = ground arith;
            }
          ]
        ]
      ]
    ]
  ]
]

-- The token was signed, and its claims hold for the trusted context now.
pub record IsAuthentic (k : Codec) (token : Bytes) (trusted : TrustedContext) (now : Time)
    (c : SlotClaims) : Type 0 where
  pub signed : IsSigned k token c
  pub full : complete c ≡ true
  pub tenant : c.tenant_id ≡ trusted.tenant_id
  pub conversation : c.conversation_id ≡ trusted.conversation_id
  pub alive : now < c.expires_at

-- A token that `Verify` accepts is the prefix, a payload, a dot and a signature, at most 1024 bytes
-- together; its signature decodes to the keyed hash of its payload, its payload decodes to the
-- claims returned, and these are complete, belong to the tenant and the conversation of the trusted
-- context, and have not expired.
pub verify-IsAuthentic :
    (k : Codec) (token : Bytes) (trusted : TrustedContext) (now : Time) (c : SlotClaims)
    → verify k token trusted now ≡ claims c
    → IsAuthentic k token trusted now c
unfolding verify
verify-IsAuthentic k token trusted now c h = elim (Option-cases (open_token k token)) [
  | inl e ↦ absurd (ground arith)
  | inr (d, e) ↦
      let (full, tenant, conversation, alive, same) =
        (check_claims_lem d c trusted now).0 (rw (e, verify) at h) in
      subst (IsAuthentic k token trusted now) same (record {
        signed = open_token-IsSigned k token d e;
        full = full;
        tenant = tenant;
        conversation = conversation;
        alive = alive;
      })
]
