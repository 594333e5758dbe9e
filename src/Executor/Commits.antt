-- ===== src/Executor/Commits.antt =====
-- The side effects that an execution reports (internal/agenttools/executor.go).
use kontor.Prelude.{
  ℕ, zero, suc, ◌+◌, ◌≡◌, refl, Bool, true, false, ◌||◌, Option, none, some, String, ◌==◌,
  if◌then◌else◌, arith, ap, sym, ◌∙◌,
}
use kontor.Tools.Types.{TrustedContext}
use kontor.Tools.Gateway.Execute.{Call}
use kontor.Agent.Runner.{ToolExecution, ToolRequest, Executed}
use kontor.Executor.{
  Attempted, Executor, empty_execution, add_commit, add_attempt, Next, return_error,
  return_execution, retry_attempt, next_step, returned, run_attempts, execute_request, call_of,
}

-- `has_committed` observes in the world whether a side effect was committed; an attempt of the
-- gateway reports its own, and nothing else commits one.
module _ {W : Type 0} (x : Executor W) (has_committed : W → Bool)
    (gateway_reports : (t : TrustedContext) (c : Call) (w : W)
      → has_committed (x.gateway t c w).1
        ≡ (has_committed w || (x.gateway t c w).0.result.side_effect_committed))
    (wait_keeps : (n : ℕ) (w : W) → has_committed (x.wait n w).1 ≡ has_committed w)
    (resolve_keeps : (q : ToolRequest) (w : W)
      → has_committed (x.resolve q w).1 ≡ has_committed w) where
  -- The flag has what was committed since `before`.
  abbrev Reports : Bool → Executed × W → Type 0
  Reports before y = has_committed y.1 ≡ (before || y.0.execution.side_effect_committed)

  noted-commit :
      (a : Attempted) (payload : String) (e : ToolExecution)
      → (add_attempt a payload (add_commit a e)).side_effect_committed
        ≡ (e.side_effect_committed || a.result.side_effect_committed)
  unfolding add_attempt add_commit
  noted-commit a payload e = refl

  added-commit :
      (a : Attempted) (e : ToolExecution)
      → (add_commit a e).side_effect_committed
        ≡ (e.side_effect_committed || a.result.side_effect_committed)
  unfolding add_commit
  added-commit a e = refl

  module _ (trusted : TrustedContext) (c : Call) (before : Bool) where
    run_attempts-Reports :
        (rounds n : ℕ) (e : ToolExecution) (w : W)
        → has_committed w ≡ (before || e.side_effect_committed)
        → Reports before (run_attempts x trusted c rounds n e w)
    unfolding run_attempts
    run_attempts-Reports zero n e w h = h
    run_attempts-Reports (suc rounds) n e w h =
        let a = (x.gateway trusted c w).0 in
        let w1 = (x.gateway trusted c w).1 in
        encoded (x.encode a.result) a w1 (ground (arith, h, gateway_reports trusted c w))
          (λ payload w2.
            run_attempts x trusted c rounds (n + 1) (add_attempt a payload (add_commit a e)) w2)
          (λ payload w2 same.
            run_attempts-Reports rounds (n + 1) (add_attempt a payload (add_commit a e)) w2 same)
      where
        waited :
            (a : Attempted) (payload : String) (b : Bool) (w2 : W) (rest : Executed × W)
            → has_committed w2
              ≡ (before || (add_attempt a payload (add_commit a e)).side_effect_committed)
            → Reports before rest
            → Reports before
                (if b then rest else (returned true (add_attempt a payload (add_commit a e)), w2))
        waited a payload true w2 rest same good = good
        waited a payload false w2 rest same good = same

        followed :
            (a : Attempted) (payload : String) (s : Next) (w1 : W) (rest : W → Executed × W)
            → has_committed w1
              ≡ (before || (add_attempt a payload (add_commit a e)).side_effect_committed)
            → ((w2 : W)
                → has_committed w2
                  ≡ (before || (add_attempt a payload (add_commit a e)).side_effect_committed)
                → Reports before (rest w2))
            → Reports before (elim s [
              | return_error ↦ (returned true (add_attempt a payload (add_commit a e)), w1)
              | return_execution ↦ (returned false (add_attempt a payload (add_commit a e)), w1)
              | retry_attempt ↦
                  if (x.wait n w1).0
                  then rest (x.wait n w1).1
                  else (returned true (add_attempt a payload (add_commit a e)), (x.wait n w1).1)
            ])
        followed a payload return_error w1 rest same good = same
        followed a payload return_execution w1 rest same good = same
        followed a payload retry_attempt w1 rest same good =
            let later = wait_keeps n w1 ∙ same in
            waited a payload (x.wait n w1).0 (x.wait n w1).1 (rest (x.wait n w1).1) later
              (good (x.wait n w1).1 later)

        encoded :
            (p : Option String) (a : Attempted) (w1 : W)
            → has_committed w1
              ≡ (before || (e.side_effect_committed || a.result.side_effect_committed))
            → (rest : String → W → Executed × W)
            → ((payload : String) (w2 : W)
                → has_committed w2
                  ≡ (before || (add_attempt a payload (add_commit a e)).side_effect_committed)
                → Reports before (rest payload w2))
            → Reports before (elim p [
              | none ↦ (returned true (add_commit a e), w1)
              | some payload ↦ elim (next_step (n == x.max_attempts) a) [
                | return_error ↦ (returned true (add_attempt a payload (add_commit a e)), w1)
                | return_execution ↦ (returned false (add_attempt a payload (add_commit a e)), w1)
                | retry_attempt ↦
                    if (x.wait n w1).0
                    then rest payload (x.wait n w1).1
                    else (returned true (add_attempt a payload (add_commit a e)), (x.wait n w1).1)
              ]
            ])
        encoded none a w1 same rest good = same ∙ ap (λ b. before || b) (sym (added-commit a e))
        encoded (some payload) a w1 same rest good =
            followed a payload (next_step (n == x.max_attempts) a) w1 (rest payload)
              (same ∙ ap (λ b. before || b) (sym (noted-commit a payload e))) (good payload)

  -- Where only the gateway commits side effects and each answer of it says whether it did, the
  -- execution says that a side effect was committed whenever one of its attempts committed one, also
  -- where later attempts fail or the execution ends with an error, and never without one.
  pub execute_request-Reports :
      (q : ToolRequest) (w : W)
      → has_committed w ≡ false
      → has_committed (execute_request x q w).1
        ≡ (execute_request x q w).0.execution.side_effect_committed
  unfolding execute_request
  execute_request-Reports q w h = resolved (x.resolve q w).0
    where
      start : has_committed (x.resolve q w).1 ≡ false
      start = resolve_keeps q w ∙ h

      resolved :
          (t : Option TrustedContext)
          → Reports false (elim t [
            | none ↦ (returned true empty_execution, (x.resolve q w).1)
            | some trusted ↦
                run_attempts x trusted
                  (call_of q)
                  x.max_attempts
                  1
                  empty_execution
                  (x.resolve q w).1
          ])
      resolved none = start
      resolved (some trusted) =
          run_attempts-Reports trusted (call_of q) false x.max_attempts 1 empty_execution
            (x.resolve q w).1 start
