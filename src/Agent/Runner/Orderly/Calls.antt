-- ===== src/Agent/Runner/Orderly/Calls.antt =====
-- One call of a tool and what it did to the tools (internal/agent/runner.go).
use kontor.Prelude.{
  ℕ, length, ◌≡◌, refl, Bool, true, false, ◌&&◌, ◌||◌, Option, none, some, str_eq, arith,
}
use kontor.Llm.{ToolCall}
use kontor.Action.{pure, tried, ◌>>=◌, ◌>>◌}
use kontor.Action.Triple.{
  Triple, Triple-pure, Triple-modify, Triple-bind, Triple-then, Triple-tried,
}
use kontor.Agent.Runner.{
  failed, unset, ToolExecution, ToolRequest, Executed, RunError, Runner, Turn,
}
use kontor.Agent.Runner.Names.{is_registered}
use kontor.Agent.Runner.Tools.{
  final_status, refusal, perform, call_executor, note_execution, execute_tool,
  model_facing_tool_error, checked, executed, with_attempt, ToolReturn, no_message, tool_message,
  record_attempts, record_completed, check_turn,
}
use kontor.Agent.Runner.Terminal.{respond_to_customer}
use kontor.Agent.Runner.Loop.{run}
use kontor.Agent.Runner.Keeps.{
  View, On, in_world-Keeps, check_turn-Keeps, record_started-Keeps, record_completed-Keeps,
  record_attempts-Keeps,
}
use kontor.Agent.Runner.Orderly.{IsSound, Sound, Reported, Free}
use kontor.Agent.Runner.Orderly.Results.{
  final_status-with_attempt, refusal-failed, refusal-registered, committed-checked,
  committed-with_attempt, refusal-committed, unavailable-failed, unavailable-committed,
}

module _ {W : Type 0} (r : Runner W) (n : ℕ) where
  note_execution-Reported :
      (c : ToolCall) (e : ToolExecution) (f : Bool) (t : Turn W)
      → is_registered r.tools c.name ≡ true
      → str_eq c.name respond_to_customer ≡ false
      → On (Free r n) t
      → On (Reported r n c (final_status e) f) (note_execution r c f e t)
  unfolding note_execution
  note_execution-Reported c e f t known other h = (
    record {
      orderly = (ground (arith, h.3), h.0.orderly);
      allowed = ((known, other), h.0.allowed);
      bounded = h.0.bounded;
      committed = ground (arith, h.0.committed);
    },
    h.1,
    h.2,
    ground (arith, h.3),
  )

  -- What a call leaves behind: the event, and in its result the flag that goes with it.
  abbrev Left : ToolRequest → ToolExecution → View
  Left q e = Reported r n q.call (final_status e) e.side_effect_committed

  Free-Left :
      (q : ToolRequest) (e : ToolExecution) (t : Turn W)
      → final_status e ≡ failed
      → e.side_effect_committed ≡ false
      → On (Free r n) t
      → On (Left q e) t
  Free-Left q e t h k f =
      rw (h, k)
        (
          record {
            orderly = f.0.orderly;
            allowed = f.0.allowed;
            bounded = f.0.bounded;
            committed = ground (arith, f.0.committed);
          },
          f.1,
          f.2,
          f.3,
        )

  -- An answer of the runner itself leaves the turn as it was.
  answer-Triple :
      (q : ToolRequest) (e : ToolExecution)
      → final_status e ≡ failed
      → e.side_effect_committed ≡ false
      → Triple {E = RunError}
          (On {W = W} (Free r n))
          (pure e)
          (λ e. On (Left q e))
          (On (Sound r.tools n))
  answer-Triple q e h k = Triple-pure e (λ t f. Free-Left q e t h k f)

  call_executor-Triple :
      (run : ToolRequest → W → Executed × W) (q : ToolRequest)
      → is_registered r.tools q.call.name ≡ true
      → str_eq q.call.name respond_to_customer ≡ false
      → Triple (On (Free r n)) (call_executor r run q) (λ e. On (Left q e)) (On (Sound r.tools n))
  unfolding call_executor
  call_executor-Triple run q known other =
      Triple-bind _ _ (in_world-Keeps r (Free r n) (Sound r.tools n) (λ es p h k b f. f.0) (run q))
        (λ x.
          let e = checked r (executed r x) in
          let f = x.execution.side_effect_committed in
          Triple-then _ _
            (Triple-modify {Q = λ _. On (Reported r n q.call (final_status e) f)}
              (note_execution r q.call f e)
              (λ t h. note_execution-Reported q.call e f t known other h))
            (λ _. Triple-pure (with_attempt r e) (λ t h.
              rw (final_status-with_attempt r e, committed-with_attempt r e, committed-checked r x)
                h)))

  perform-Triple :
      (q : ToolRequest)
      → str_eq q.call.name respond_to_customer ≡ false
      → Triple (On (Free r n)) (perform r q) (λ e. On (Left q e)) (On (Sound r.tools n))
  unfolding perform
  perform-Triple q other = answered (refusal r q.call) refl
    where
      carried_out :
          refusal r q.call ≡ none
          → (x : Option (ToolRequest → W → Executed × W))
          → Triple {E = RunError}
              (On {W = W} (Free r n))
              (elim x [
                | none ↦ pure (
                    checked r (
                      model_facing_tool_error r "TOOL_UNAVAILABLE"
                        "The tool is temporarily unavailable."))
                | some run ↦ call_executor r run q
              ])
              (λ e. On (Left q e))
              (On (Sound r.tools n))
      carried_out h none = answer-Triple q _ (unavailable-failed r) (unavailable-committed r)
      carried_out h (some run) = call_executor-Triple run q (refusal-registered r q.call h) other

      answered :
          (x : Option ToolExecution)
          → refusal r q.call ≡ x
          → Triple {E = RunError}
              (On {W = W} (Free r n))
              (elim x [
                | some e ↦ pure (checked r e)
                | none ↦ elim r.executor [
                  | none ↦ pure (
                      checked r (
                        model_facing_tool_error r "TOOL_UNAVAILABLE"
                          "The tool is temporarily unavailable."))
                  | some run ↦ call_executor r run q
                ]
              ])
              (λ e. On (Left q e))
              (On (Sound r.tools n))
      answered none h = carried_out h r.executor
      answered (some e) h =
          answer-Triple q (checked r e) (refusal-failed r q.call e h)
            (refusal-committed r q.call e h)

  -- A call's return, with its error or without.
  abbrev pub Returned : ToolRequest → ToolReturn → View
  Returned q x es pending handoff skip booked = elim x.problem [
    | none ↦ Reported r n q.call x.status x.side_effect_committed es pending handoff skip booked
    | some _ ↦
        IsSound r.tools n es
          (booked || (x.side_effect_committed && str_eq q.call.name "create_booking"))
  ]

  Free-IsSound :
      (c : ToolCall) (t : Turn W)
      → On (Free r n) t
      → IsSound r.tools n t.events
          (t.booking_committed || (false && str_eq c.name "create_booking"))
  Free-IsSound c t f = record {
    orderly = f.0.orderly;
    allowed = f.0.allowed;
    bounded = f.0.bounded;
    committed = ground (arith, f.0.committed);
  }

  traced-Triple :
      (q : ToolRequest) (e : ToolExecution)
      → Triple {E = RunError}
          (On {W = W} (Left q e))
          (record_attempts r q e 1 e.attempts
            >> record_completed r q (final_status e) e.content (length e.attempts)
            >> check_turn r)
          (λ _. On (Left q e))
          (On (Left q e))
  traced-Triple q e =
      let after = Left q e in
      Triple-then _ _
        (Triple-then _ _ (record_attempts-Keeps r after after (λ es p h k b f. f) q e 1 e.attempts)
          (λ _. record_completed-Keeps r after after (λ es p h k b f. f) q _ _ _))
        (λ _. check_turn-Keeps r after after (λ es p h k b f. f))

  returned :
      (q : ToolRequest) (e : ToolExecution) (problem : Option RunError) (t : Turn W)
      → On (Left q e) t
      → On
          (Returned q (record {
            message = tool_message r q.call e.content;
            status = final_status e;
            side_effect_committed = e.side_effect_committed;
            problem = problem;
          }))
          t
  returned q e none t h = h
  returned q e (some _) t h = h.0

  executed-Triple :
      (q : ToolRequest) (problem : Option RunError)
      → str_eq q.call.name respond_to_customer ≡ false
      → Triple
          (On (Free r n))
          (elim problem [
            | some e ↦ pure (record {
              message = no_message;
              status = unset;
              side_effect_committed = false;
              problem = some e;
            })
            | none ↦ perform r q >>= λ e.
                (tried (
                    record_attempts r q e 1 e.attempts
                    >> record_completed r q (final_status e) e.content (length e.attempts)
                    >> check_turn r)
                  >>= λ problem. pure (record {
                    message = tool_message r q.call e.content;
                    status = final_status e;
                    side_effect_committed = e.side_effect_committed;
                    problem = problem;
                  }))
          ])
          (λ x. On (Returned q x))
          (On (Sound r.tools n))
  executed-Triple q (some e) other = Triple-pure _ (λ t f. Free-IsSound q.call t f)
  executed-Triple q none other = Triple-bind _ _ (perform-Triple q other) (λ e.
      Triple-bind _ _ (Triple-tried (On (Left q e)) (On (Sound r.tools n)) _ (traced-Triple q e))
        (λ problem. Triple-pure _ (λ t h. returned q e problem t h)))

  pub execute_tool-Triple :
      (q : ToolRequest)
      → str_eq q.call.name respond_to_customer ≡ false
      → Triple (On (Free r n)) (execute_tool r q) (λ x. On (Returned q x)) (On (Sound r.tools n))
  unfolding execute_tool
  execute_tool-Triple q other =
      Triple-bind _ _
        (Triple-tried (On (Free r n)) (On (Sound r.tools n)) _
          (record_started-Keeps r (Free r n) (Free r n) (λ es p h k b f. f) _ q))
        (λ problem. executed-Triple q problem other)
