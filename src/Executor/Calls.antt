-- ===== src/Executor/Calls.antt =====
-- The calls of the gateway that an execution makes (internal/agenttools/executor.go), whether they
-- are recorded or not.
use kontor.Prelude.{
  ℕ, zero, suc, ◌+◌, ◌≤◌, ◌≡◌, refl, Bool, true, false, Option, none, some, List, [], ◌∷◌, String,
  ◌==◌, if◌then◌else◌, length, All, arith, sym, subst, ◌∙◌,
}
use kontor.Tools.Types.{TrustedContext}
use kontor.Tools.Gateway.Execute.{Call}
use kontor.Agent.Runner.{ToolExecution, ToolRequest, Executed}
use kontor.Executor.{
  Attempted, Executor, empty_execution, add_commit, add_attempt, is_failed_attempt, Next,
  return_error, return_execution, retry_attempt, next_step, returned, run_attempts, execute_request,
  call_of,
}
use kontor.Executor.Attempts.{IsBounded, execute_request-IsBounded, next_step-failed}

abbrev pub IsFailure : Attempted → Type 0
IsFailure a = is_failed_attempt a ≡ true

-- Every call before the newest one, the first of the list, failed.
abbrev pub IsRetriedOnly : List Attempted → Type 0
IsRetriedOnly [] = Unit
IsRetriedOnly (a ∷ rest) = All IsFailure rest

pub record IsCalled (limit : ℕ) (answers : List Attempted) : Type 0 where
  pub few : length answers ≤ limit
  pub retried : IsRetriedOnly answers

All-IsCalled :
    (limit : ℕ) (answers : List Attempted)
    → All IsFailure answers
    → length answers ≤ limit
    → IsCalled limit answers
All-IsCalled limit [] h few = record { few = few; retried = tt }
All-IsCalled limit (a ∷ rest) h few = record { few = few; retried = h.1 }

-- `log` observes in the world what the gateway answered, the newest answer first; nothing else
-- writes there.
module _ {W : Type 0} (x : Executor W) (log : W → List Attempted)
    (gateway_logs : (t : TrustedContext) (c : Call) (w : W)
      → log (x.gateway t c w).1 ≡ (x.gateway t c w).0 ∷ log w)
    (wait_keeps : (n : ℕ) (w : W) → log (x.wait n w).1 ≡ log w)
    (resolve_keeps : (q : ToolRequest) (w : W) → log (x.resolve q w).1 ≡ log w) where
  abbrev Called : ℕ → Executed × W → Type 0
  Called limit y = IsCalled limit (log y.1)

  module _ (trusted : TrustedContext) (c : Call) (limit : ℕ) where
    run_attempts-IsCalled :
        (rounds n : ℕ) (e : ToolExecution) (w : W)
        → All IsFailure (log w)
        → length (log w) + rounds ≤ limit
        → Called limit (run_attempts x trusted c rounds n e w)
    unfolding run_attempts
    run_attempts-IsCalled zero n e w h room = All-IsCalled limit (log w) h (omega arith)
    run_attempts-IsCalled (suc rounds) n e w h room =
        let a = (x.gateway trusted c w).0 in
        let w1 = (x.gateway trusted c w).1 in
        encoded (x.encode a.result) a w1 (gateway_logs trusted c w)
          (λ payload w2.
            run_attempts x trusted c rounds (n + 1) (add_attempt a payload (add_commit a e)) w2)
          (λ payload w2 same failed.
            run_attempts-IsCalled rounds (n + 1) (add_attempt a payload (add_commit a e)) w2
              (subst (All IsFailure) (sym same) (failed, h)) (rw same (omega arith)))
      where
        once : (a : Attempted) (w1 : W) → log w1 ≡ a ∷ log w → IsCalled limit (log w1)
        once a w1 same =
            subst (IsCalled limit) (sym same) (record { few = omega arith; retried = h })

        waited :
            (y : Executed) (b : Bool) (w2 : W) (rest : Executed × W)
            → IsCalled limit (log w2)
            → Called limit rest
            → Called limit (if b then rest else (y, w2))
        waited y true w2 rest now good = good
        waited y false w2 rest now good = now

        followed :
            (a : Attempted) (noted : ToolExecution) (s : Next) (w1 : W) (rest : W → Executed × W)
            → next_step (n == x.max_attempts) a ≡ s
            → log w1 ≡ a ∷ log w
            → ((w2 : W) → log w2 ≡ a ∷ log w → IsFailure a → Called limit (rest w2))
            → Called limit (elim s [
              | return_error ↦ (returned true noted, w1)
              | return_execution ↦ (returned false noted, w1)
              | retry_attempt ↦
                  if (x.wait n w1).0
                  then rest (x.wait n w1).1
                  else (returned true noted, (x.wait n w1).1)
            ])
        followed a noted return_error w1 rest q same good = once a w1 same
        followed a noted return_execution w1 rest q same good = once a w1 same
        followed a noted retry_attempt w1 rest q same good =
            let later = wait_keeps n w1 ∙ same in
            let failed = next_step-failed (n == x.max_attempts) a q in
            waited (returned true noted) (x.wait n w1).0 (x.wait n w1).1 (rest (x.wait n w1).1)
              (once a (x.wait n w1).1 later) (good (x.wait n w1).1 later failed)

        encoded :
            (p : Option String) (a : Attempted) (w1 : W)
            → log w1 ≡ a ∷ log w
            → (rest : String → W → Executed × W)
            → ((payload : String) (w2 : W)
                → log w2 ≡ a ∷ log w
                → IsFailure a
                → Called limit (rest payload w2))
            → Called limit (elim p [
              | none ↦ (returned true (add_commit a e), w1)
              | some payload ↦ elim (next_step (n == x.max_attempts) a) [
                | return_error ↦ (returned true (add_attempt a payload (add_commit a e)), w1)
                | return_execution ↦ (returned false (add_attempt a payload (add_commit a e)), w1)
                | retry_attempt ↦
                    if (x.wait n w1).0
                    then rest payload (x.wait n w1).1
                    else (returned true (add_attempt a payload (add_commit a e)), (x.wait n w1).1)
              ]
            ])
        encoded none a w1 same rest good = once a w1 same
        encoded (some payload) a w1 same rest good =
            followed a (add_attempt a payload (add_commit a e)) (next_step (n == x.max_attempts) a)
              w1 (rest payload) refl same (good payload)

  -- Where the gateway's answers are logged as they are given, an execution calls the gateway at most
  -- `max_attempts` times, and every call but the last one failed: the gateway is not called again
  -- after an attempt that did not fail, also not where its answer could not be recorded. The
  -- attempts that the execution records keep to the same.
  pub execute_request-IsCalled :
      (q : ToolRequest) (w : W)
      → log w ≡ []
      → IsCalled x.max_attempts (log (execute_request x q w).1)
        × IsBounded x.max_attempts (execute_request x q w).0
  unfolding execute_request
  execute_request-IsCalled q w h = (resolved (x.resolve q w).0, execute_request-IsBounded x q w)
    where
      start : log (x.resolve q w).1 ≡ []
      start = resolve_keeps q w ∙ h

      resolved :
          (t : Option TrustedContext)
          → Called x.max_attempts (elim t [
            | none ↦ (returned true empty_execution, (x.resolve q w).1)
            | some trusted ↦
                run_attempts x trusted
                  (call_of q)
                  x.max_attempts
                  1
                  empty_execution
                  (x.resolve q w).1
          ])
      resolved none = rw start (record { few = omega arith; retried = tt })
      resolved (some trusted) =
          run_attempts-IsCalled trusted (call_of q) x.max_attempts x.max_attempts 1 empty_execution
            (x.resolve q w).1 (rw start tt) (rw start (omega arith))
