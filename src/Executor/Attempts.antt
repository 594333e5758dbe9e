-- ===== src/Executor/Attempts.antt =====
-- The attempts that an execution records (internal/agenttools/executor.go).
use kontor.Prelude.{
  ℕ, zero, suc, ◌+◌, ◌≤◌, ◌≡◌, refl, Bool, true, false, Option, none, some, List, [], ◌∷◌, ◌++◌,
  String, ◌==◌, if◌then◌else◌, length, length-append, arith,
}
use kontor.Tools.Types.{TrustedContext}
use kontor.Tools.Gateway.Execute.{Call}
use kontor.Agent.Runner.{
  succeeded, failed, refused, confirmation_required, running, unset, ToolAttempt, ToolExecution,
  ToolRequest, Executed,
}
use kontor.Executor.{
  Attempted, Executor, empty_execution, add_commit, add_attempt, is_failed_attempt, Next,
  return_error, return_execution, retry_attempt, next_step, returned, run_attempts, execute_request,
  call_of,
}

abbrev pub is_failed : ToolAttempt → Bool
is_failed a = elim a.status [
  | failed ↦ true
  | running ↦ false
  | succeeded ↦ false
  | refused ↦ false
  | confirmation_required ↦ false
  | unset ↦ false
]

-- Every attempt but the last one failed.
abbrev pub IsRetried : List ToolAttempt → Type 0
IsRetried [] = Unit
IsRetried (a ∷ []) = Unit
IsRetried (a ∷ b ∷ rest) = (is_failed a ≡ true) × IsRetried (b ∷ rest)

AllFailed : List ToolAttempt → Type 0
AllFailed [] = Unit
AllFailed (a ∷ rest) = (is_failed a ≡ true) × AllFailed rest

AllFailed-IsRetried : (list : List ToolAttempt) → AllFailed list → IsRetried list
unfolding AllFailed
AllFailed-IsRetried [] h = tt
AllFailed-IsRetried (a ∷ []) h = tt
AllFailed-IsRetried (a ∷ b ∷ rest) h = (h.0, AllFailed-IsRetried (b ∷ rest) h.1)

IsRetried-append :
    (list : List ToolAttempt) (a : ToolAttempt) → AllFailed list → IsRetried (list ++ a ∷ [])
unfolding AllFailed
IsRetried-append [] a h = tt
IsRetried-append (b ∷ []) a h = (h.0, tt)
IsRetried-append (b ∷ c ∷ rest) a h = (h.0, IsRetried-append (c ∷ rest) a h.1)

AllFailed-append :
    (list : List ToolAttempt) (a : ToolAttempt)
    → AllFailed list
    → is_failed a ≡ true
    → AllFailed (list ++ a ∷ [])
unfolding AllFailed
AllFailed-append [] a h e = (e, tt)
AllFailed-append (b ∷ rest) a h e = (h.0, AllFailed-append rest a h.1 e)

pub next_step-failed :
    (last : Bool) (a : Attempted) → next_step last a ≡ retry_attempt → is_failed_attempt a ≡ true
unfolding next_step is_failed_attempt
next_step-failed last a h = ground (arith, h)

-- What the loop promises of an execution.
pub record IsBounded (limit : ℕ) (x : Executed) : Type 0 where
  pub few : length x.execution.attempts ≤ limit
  pub retried : IsRetried x.execution.attempts

abbrev InLimit : {W : Type 0} → ℕ → Executed × W → Type 0
InLimit limit y = IsBounded limit y.0

module _ {W : Type 0} (x : Executor W) (trusted : TrustedContext) (c : Call) where
  noted-IsRetried :
      (a : Attempted) (payload : String) (e : ToolExecution)
      → AllFailed e.attempts
      → IsRetried (add_attempt a payload (add_commit a e)).attempts
  unfolding add_attempt add_commit
  noted-IsRetried a payload e h = IsRetried-append e.attempts _ h

  noted-length :
      (a : Attempted) (payload : String) (e : ToolExecution)
      → length (add_attempt a payload (add_commit a e)).attempts ≡ length e.attempts + 1
  unfolding add_attempt add_commit
  noted-length a payload e = length-append e.attempts _

  noted-AllFailed :
      (last : Bool) (a : Attempted) (payload : String) (e : ToolExecution)
      → next_step last a ≡ retry_attempt
      → AllFailed e.attempts
      → AllFailed (add_attempt a payload (add_commit a e)).attempts
  unfolding add_attempt add_commit
  noted-AllFailed last a payload e h all =
      AllFailed-append e.attempts _ all (rw (next_step-failed last a h) refl)

  committed_once :
      (a : Attempted) (rounds : ℕ) (e : ToolExecution)
      → AllFailed e.attempts
      → IsBounded (length e.attempts + suc rounds) (returned true (add_commit a e))
  unfolding add_commit
  committed_once a rounds e h = record {
    few = omega arith;
    retried = AllFailed-IsRetried e.attempts h;
  }

  IsBounded-le : (m n : ℕ) (y : Executed) → m ≤ n → IsBounded m y → IsBounded n y
  IsBounded-le m n y le h = record { few = omega (arith, le, h.few); retried = h.retried }

  run_attempts-IsBounded :
      (rounds n : ℕ) (e : ToolExecution) (w : W)
      → AllFailed e.attempts
      → IsBounded (length e.attempts + rounds) (run_attempts x trusted c rounds n e w).0
  unfolding run_attempts
  run_attempts-IsBounded zero n e w h = record {
    few = omega arith;
    retried = AllFailed-IsRetried e.attempts h;
  }
  run_attempts-IsBounded (suc rounds) n e w h =
      let a = (x.gateway trusted c w).0 in
      let w1 = (x.gateway trusted c w).1 in
      encoded (x.encode a.result) a w1
        (λ payload w2.
          run_attempts x trusted c rounds (n + 1) (add_attempt a payload (add_commit a e)) w2)
        (λ payload w2 all.
          IsBounded-le (length (add_attempt a payload (add_commit a e)).attempts + rounds)
            (length e.attempts + suc rounds) _ (omega (arith, noted-length a payload e))
            (run_attempts-IsBounded rounds (n + 1) (add_attempt a payload (add_commit a e)) w2 all))
    where
      noted_once :
          (a : Attempted) (payload : String) (has_error : Bool)
          → IsBounded
              (length e.attempts + suc rounds)
              (returned has_error (add_attempt a payload (add_commit a e)))
      noted_once a payload has_error = record {
        few = omega (arith, noted-length a payload e);
        retried = noted-IsRetried a payload e h;
      }

      unnoted :
          (a : Attempted)
          → IsBounded (length e.attempts + suc rounds) (returned true (add_commit a e))
      unnoted a = committed_once a rounds e h

      waited :
          (a : Attempted) (payload : String) (b : Bool) (w2 : W) (rest : Executed × W)
          → IsBounded (length e.attempts + suc rounds) rest.0
          → IsBounded
              (length e.attempts + suc rounds)
              (if b then rest else (returned true (add_attempt a payload (add_commit a e)), w2)).0
      waited a payload true w2 rest good = good
      waited a payload false w2 rest good = noted_once a payload true

      followed :
          (a : Attempted) (payload : String) (s : Next) (w1 : W) (rest : W → Executed × W)
          → next_step (n == x.max_attempts) a ≡ s
          → ((w2 : W)
              → AllFailed (add_attempt a payload (add_commit a e)).attempts
              → IsBounded (length e.attempts + suc rounds) (rest w2).0)
          → InLimit {W = W} (length e.attempts + suc rounds) (elim s [
            | return_error ↦ (returned true (add_attempt a payload (add_commit a e)), w1)
            | return_execution ↦ (returned false (add_attempt a payload (add_commit a e)), w1)
            | retry_attempt ↦
                if (x.wait n w1).0
                then rest (x.wait n w1).1
                else (returned true (add_attempt a payload (add_commit a e)), (x.wait n w1).1)
          ])
      followed a payload return_error w1 rest q good = noted_once a payload true
      followed a payload return_execution w1 rest q good = noted_once a payload false
      followed a payload retry_attempt w1 rest q good =
          waited a payload (x.wait n w1).0 (x.wait n w1).1 (rest (x.wait n w1).1)
            (good (x.wait n w1).1 (noted-AllFailed (n == x.max_attempts) a payload e q h))

      encoded :
          (p : Option String) (a : Attempted) (w1 : W) (rest : String → W → Executed × W)
          → ((payload : String) (w2 : W)
              → AllFailed (add_attempt a payload (add_commit a e)).attempts
              → IsBounded (length e.attempts + suc rounds) (rest payload w2).0)
          → InLimit {W = W} (length e.attempts + suc rounds) (elim p [
            | none ↦ (returned true (add_commit a e), w1)
            | some payload ↦ elim (next_step (n == x.max_attempts) a) [
              | return_error ↦ (returned true (add_attempt a payload (add_commit a e)), w1)
              | return_execution ↦ (returned false (add_attempt a payload (add_commit a e)), w1)
              | retry_attempt ↦
                  if (x.wait n w1).0
                  then rest payload (x.wait n w1).1
                  else (returned true (add_attempt a payload (add_commit a e)), (x.wait n w1).1)
            ]
          ])
      encoded none a w1 rest good = unnoted a
      encoded (some payload) a w1 rest good =
          followed a payload (next_step (n == x.max_attempts) a) w1 (rest payload) refl
            (good payload)

none_yet : AllFailed []
unfolding AllFailed
none_yet = tt

module _ {W : Type 0} (x : Executor W) where
  -- An execution records at most `max_attempts` attempts, and every one but the last failed.
  pub execute_request-IsBounded :
      (q : ToolRequest) (w : W) → IsBounded x.max_attempts (execute_request x q w).0
  unfolding execute_request
  execute_request-IsBounded q w = resolved (x.resolve q w).0
    where
      resolved :
          (t : Option TrustedContext)
          → InLimit {W = W} x.max_attempts (elim t [
            | none ↦ (returned true empty_execution, (x.resolve q w).1)
            | some trusted ↦
                run_attempts x trusted
                  (call_of q)
                  x.max_attempts
                  1
                  empty_execution
                  (x.resolve q w).1
          ])
      resolved none = record { few = omega arith; retried = tt }
      resolved (some trusted) =
          IsBounded-le x trusted (call_of q) (0 + x.max_attempts) x.max_attempts _ (omega arith) (
            run_attempts-IsBounded x trusted (call_of q) x.max_attempts 1 empty_execution
              (x.resolve q w).1 none_yet)
