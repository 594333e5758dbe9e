-- ===== src/Agent/Runner/Orderly/Batch.antt =====
-- The tool calls of one response and what they did to the tools (internal/agent/runner.go).
use kontor.Prelude.{
  ℕ, ◌+◌, ◌≡◌, refl, Bool, true, false, Option, none, some, List, [], ◌∷◌, str_eq, is_some, arith,
  length, ap, if◌then◌else◌,
}
use kontor.Llm.{Message, ToolCall}
use kontor.Action.{pure, modify, raise_some, ◌>>=◌, ◌>>◌}
use kontor.Action.Triple.{
  Triple, Triple-pure, Triple-modify, Triple-bind, Triple-then, Triple-gets, Triple-from,
}
use kontor.Agent.Runner.{ToolRequest, ToolStatus, TurnRequest, RunError, Runner, SkipReason, Turn}
use kontor.Agent.Runner.Tools.{
  execute_tool, note_booking, note_status, run_call, run_calls, append_message, record_skipped_tool,
  tool_request,
}
use kontor.Agent.Runner.Terminal.{has_terminal_call, respond_to_customer}
use kontor.Agent.Runner.Loop.{start_batch, run_batch, hand_off}
use kontor.Agent.Runner.Keeps.{
  View, On, Keeps, check_turn-Keeps, append_message-Keeps, record_skipped_tool-Keeps,
}
use kontor.Agent.Runner.Orderly.{Ready, InBatch, Sound, Free, Pending, note_status-InBatch}
use kontor.Agent.Runner.Orderly.Calls.{Returned, execute_tool-Triple}

module _ {W : Type 0} (r : Runner W) (n : ℕ) where
  abbrev Batch : View
  Batch = InBatch r.tools n

  abbrev Failed : View
  Failed = Sound r.tools n

  InBatch-Free : (t : Turn W) → On Batch t → t.skip ≡ none → On (Free r n) t
  InBatch-Free t h e =
      (h.0, ap is_some e, ground (arith, h.2, ap is_some e), ground (arith, h.1, ap is_some e))

  -- After `Run` took in what the call reports, with its error or without.
  abbrev TakenWith : ToolRequest → ToolStatus → Option RunError → View
  TakenWith q s problem es pending handoff skip booked = elim problem [
    | none ↦ Pending r n q.call s es pending handoff skip booked
    | some _ ↦ Failed es pending handoff skip booked
  ]

  note_booking-Taken :
      (q : ToolRequest) (m : Message) (s : ToolStatus) (f : Bool) (problem : Option RunError)
      (t : Turn W)
      → On
          (Returned r n q
            (record { message = m; status = s; side_effect_committed = f; problem = problem }))
          t
      → On (TakenWith q s problem) (note_booking r q.call f t)
  unfolding note_booking
  note_booking-Taken q m s f none t h = h
  note_booking-Taken q m s f (some e) t h = h

  raise_some-Triple :
      (q : ToolRequest) (s : ToolStatus) (problem : Option RunError)
      → Triple
          (On {W = W} (TakenWith q s problem))
          (raise_some problem)
          (λ _. On (Pending r n q.call s))
          (On Failed)
  unfolding raise_some
  raise_some-Triple q s none = record { at = λ t h. h }
  raise_some-Triple q s (some e) = record { at = λ t h. h }

  -- A call that is not skipped.
  execute-Triple :
      (q : ToolRequest)
      → str_eq q.call.name respond_to_customer ≡ false
      → Triple
          (On (Free r n))
          (execute_tool r q >>= λ x.
            (modify (note_booking r q.call x.side_effect_committed)
              >> (raise_some x.problem
                  >> (modify (note_status r q.call x.status) >> append_message r x.message))))
          (λ _. On Batch)
          (On Failed)
  execute-Triple q other = Triple-bind _ _ (execute_tool-Triple r n q other) (λ x.
      Triple-then _ _
        (Triple-modify {Q = λ _. On (TakenWith q x.status x.problem)} _
          (λ t h. note_booking-Taken q x.message x.status x.side_effect_committed x.problem t h))
        (λ _. Triple-then _ _ (raise_some-Triple q x.status x.problem) (λ _.
          Triple-then _ _ (Triple-modify _ (λ t h. note_status-InBatch r n q.call x.status t h))
            (λ _. append_message-Keeps r Batch Failed (λ es p h k b f. f.0) x.message))))

  run_call-Triple :
      (q : ToolRequest)
      → str_eq q.call.name respond_to_customer ≡ false
      → Keeps Batch Failed (run_call r q)
  unfolding run_call
  run_call-Triple q other =
      Triple-then _ _ (check_turn-Keeps r Batch Failed (λ es p h k b f. f.0)) (λ _.
        Triple-bind {M = λ skip t. On Batch t × (t.skip ≡ skip)} _ _
          (Triple-gets _ (λ t h. (h, refl))) (λ skip. decided skip))
    where
      decided :
          (skip : Option SkipReason)
          → Triple {E = RunError}
              (λ t. On Batch t × (t.skip ≡ skip))
              (elim skip [
                | some reason ↦ record_skipped_tool r q reason >>= λ m. append_message r m
                | none ↦ execute_tool r q >>= λ x.
                    (modify (note_booking r q.call x.side_effect_committed)
                      >> (raise_some x.problem
                          >> (modify (note_status r q.call x.status)
                              >> append_message r x.message)))
              ])
              (λ _. On Batch)
              (On Failed)
      decided none = Triple-from (λ t h. InBatch-Free t h.0 h.1) (execute-Triple q other)
      decided (some reason) =
          Triple-from (λ t h. h.0)
            (Triple-bind _ _
              (record_skipped_tool-Keeps r Batch Failed (λ es p h k b f. f.0) q reason)
              (λ m. append_message-Keeps r Batch Failed (λ es p h k b f. f.0) m))

  run_calls-Triple :
      (turn : TurnRequest) (iteration index count : ℕ) (calls : List ToolCall)
      → has_terminal_call calls ≡ false
      → Keeps Batch Failed (run_calls r turn iteration index count calls)
  unfolding run_calls has_terminal_call tool_request
  run_calls-Triple turn iteration index count [] h = Triple-pure tt (λ t b. b)
  run_calls-Triple turn iteration index count (c ∷ cs) h =
      Triple-then _ _ (run_call-Triple _ (ground (arith, h)))
        (λ _. run_calls-Triple turn iteration (index + 1) count cs (ground (arith, h)))

  -- What holds between iterations; a turn that is finished is only sound.
  abbrev pub After : Bool → View
  After true = Failed
  After false = Ready r.tools n

  pub run_batch-Triple :
      (turn : TurnRequest) (iteration : ℕ) (calls : List ToolCall)
      → has_terminal_call calls ≡ false
      → Triple
          (λ t. On (Ready r.tools n) t × (t.proposal_pending ≡ false))
          (run_batch r turn iteration calls)
          (λ b. On (After b))
          (On Failed)
  unfolding run_batch start_batch hand_off
  run_batch-Triple turn iteration calls h =
      Triple-then _ _
        (Triple-modify {Q = λ _. On Batch} (start_batch r)
          (λ t f. (f.0.0, ground (arith, f.0.1, f.1), ground (arith, f.1))))
        (λ _. Triple-then _ _ (run_calls-Triple turn iteration 1 (length calls) calls h) (λ _.
          Triple-bind {M = λ b t. On Batch t × (t.terminal_handoff ≡ b)} _ _
            (Triple-gets _ (λ t f. (f, refl))) (λ b. ended b)))
    where
      ended :
          (b : Bool)
          → Triple {E = RunError}
              (λ t. On Batch t × (t.terminal_handoff ≡ b))
              (if b then modify (hand_off r) >> pure true else pure false)
              (λ b. On (After b))
              (On Failed)
      ended true =
          Triple-then _ _ (Triple-modify {Q = λ _. On Failed} (hand_off r) (λ t f. f.0.0))
            (λ _. Triple-pure true (λ t f. f))
      ended false = Triple-pure false (λ t f. (f.0.0, ground (arith, f.0.1, f.0.2, f.1)))
