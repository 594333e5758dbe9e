-- ===== src/Agent/Runner/Answered.antt =====
-- A turn that ends without an error has an answer (internal/agent/runner.go).
use kontor.Prelude.{
  ℕ, zero, suc, ◌+◌, ◌≡◌, refl, Bool, true, false, some, List, [], ◌∷◌, ◌++◌, String, str_eq, arith,
  Bool-cases, inl, inr, ◌==◌, not,
}
use kontor.Llm.{Message, ToolCall, role_assistant}
use kontor.Action.{Outcome, done, raised, Action}
use kontor.Action.Triple.{
  Triple, Triple-pure, Triple-modify, Triple-bind, Triple-then, Triple-if, Triple-raise,
  Triple-from, Post,
}
use kontor.Agent.Runner.{RunError, TurnRequest, Runner, Turn, terminal_protocol, iteration_limit}
use kontor.Agent.Runner.Tools.{append_message}
use kontor.Agent.Runner.Terminal.{
  assistant_message, has_terminal_call, respond, respond_alone, deliver,
}
use kontor.Agent.Runner.Loop.{
  correct, proposal_correction, protocol_correction, hand_off, handoff_message, run_batch, answer,
  iterate, run_rounds, start, run,
}

-- The turn's message is a plain message of the assistant, and the last one of the history.
abbrev pub IsAnswered : {W : Type 0} → Turn W → Type 0
IsAnswered t =
    (m : Message) × (t.message ≡ some m)
    × (m.role ≡ role_assistant)
    × (m.tool_calls ≡ [])
    × ((earlier : List Message) × (t.history ≡ earlier ++ m ∷ []))

-- Answered, if the turn is finished.
abbrev If : {W : Type 0} → Bool → Turn W → Type 0
If true t = IsAnswered t
If false t = Unit

abbrev Any : {W : Type 0} → Turn W → Type 0
Any t = Unit

-- Every action keeps what is always true.
Any-Triple : {W A : Type 0} (m : Action (Turn W) RunError A) → Triple Any m (λ _. Any) Any
Any-Triple {W = W} {A = A} m = record { at = λ s h. always (m s) }
  where
    always : (x : Outcome RunError A × Turn W) → Post (λ _. Any) Any x
    always (done a, t) = tt
    always (raised e, t) = tt

module _ {W : Type 0} (r : Runner W) where
  respond_alone-Triple :
      (turn : TurnRequest) (iteration : ℕ) (c : ToolCall)
      → Triple Any (respond_alone r turn iteration c) (λ _. IsAnswered) Any
  unfolding respond_alone deliver append_message assistant_message
  respond_alone-Triple turn iteration c = Triple-bind _ _ (Any-Triple _) (λ a.
      Triple-then {M = λ _ t. t.message ≡ some (assistant_message a.text)} _ _
        (Triple-modify (deliver r c a) (λ t h. refl))
        (λ _.
          Triple-modify _ (λ t h. (assistant_message a.text, h, refl, refl, (t.history, refl)))))

  respond-Triple :
      (turn : TurnRequest) (iteration : ℕ) (content : String) (calls : List ToolCall)
      → Triple Any (respond r turn iteration content calls) (λ _. IsAnswered) Any
  unfolding respond
  respond-Triple turn iteration content [] = Triple-raise terminal_protocol (λ t h. tt)
  respond-Triple turn iteration content (c ∷ []) =
      Triple-if (not (str_eq (r.trim_space content) "")) _ _
        (λ _. Triple-raise terminal_protocol (λ t h. tt))
        (λ _. respond_alone-Triple turn iteration c)
  respond-Triple turn iteration content (c ∷ d ∷ cs) = Triple-raise terminal_protocol (λ t h. tt)

  run_batch-If :
      (turn : TurnRequest) (iteration : ℕ) (calls : List ToolCall)
      → Triple Any (run_batch r turn iteration calls) (λ b. If b) Any
  unfolding run_batch hand_off handoff_message assistant_message
  run_batch-If turn iteration calls = Triple-then _ _ (Any-Triple _) (λ _.
      Triple-then _ _ (Any-Triple _) (λ _. Triple-bind _ _ (Any-Triple _) (λ ended.
        Triple-if ended _ _
          (λ _.
            Triple-then {M = λ _. IsAnswered} _ _
              (Triple-modify (hand_off r)
                (λ t h. (handoff_message r t, refl, refl, refl, (t.history, refl))))
              (λ _. Triple-pure true (λ t h. h)))
          (λ _. Triple-pure false (λ t h. tt)))))

  correct-If :
      (iteration : ℕ) (text : String) → Triple Any (correct r iteration text) (λ b. If b) Any
  unfolding correct
  correct-If iteration text = Triple-then _ _ (Any-Triple _) (λ _.
      Triple-bind _ _ (Any-Triple _) (λ spent.
        Triple-then _ _ (Any-Triple _)
          (λ _. Triple-then _ _ (Any-Triple _) (λ _. Triple-pure false (λ t h. tt)))))

  answer-If :
      (turn : TurnRequest) (iteration : ℕ) (content : String) (calls : List ToolCall)
      → Triple Any (answer r turn iteration content calls) (λ b. If b) Any
  unfolding answer
  answer-If turn iteration content [] = correct-If iteration protocol_correction
  answer-If turn iteration content (c ∷ cs) =
      Triple-if (has_terminal_call (c ∷ cs)) _ _
        (λ _.
          Triple-then _ _ (respond-Triple turn iteration content (c ∷ cs))
            (λ _. Triple-pure true (λ t h. h)))
        (λ _. Triple-bind _ _ (Any-Triple _) (λ pending.
          Triple-if pending _ _ (λ _. correct-If iteration proposal_correction)
            (λ _.
              Triple-if (iteration == r.max_iterations) _ _
                (λ _. Triple-raise iteration_limit (λ t h. tt))
                (λ _. run_batch-If turn iteration (c ∷ cs)))))

  iterate-If :
      (turn : TurnRequest) (iteration : ℕ) → Triple Any (iterate r turn iteration) (λ b. If b) Any
  unfolding iterate
  iterate-If turn iteration = Triple-bind _ _ (Any-Triple _) (λ x.
      Triple-then _ _ (Any-Triple _) (λ _. Triple-then _ _ (Any-Triple _) (λ _.
        Triple-bind _ _ (Any-Triple _) (λ calls.
          Triple-then _ _ (Any-Triple _) (λ _. answer-If turn iteration x.message.content calls)))))

  run_rounds-Answered :
      (turn : TurnRequest) (rounds iteration : ℕ)
      → Triple Any (run_rounds r turn rounds iteration) (λ _. IsAnswered) Any
  unfolding run_rounds
  run_rounds-Answered turn zero iteration = Triple-raise iteration_limit (λ t h. tt)
  run_rounds-Answered turn (suc rounds) iteration =
      Triple-bind _ _ (iterate-If turn iteration) (λ finished.
        Triple-if finished _ _ (λ eq. Triple-pure tt (λ t h. at_end finished eq t h))
          (λ _. Triple-from (λ t h. tt) (run_rounds-Answered turn rounds (iteration + 1))))
    where
      at_end : (finished : Bool) → finished ≡ true → (t : Turn W) → If finished t → IsAnswered t
      at_end true eq t h = h
      at_end false eq t h = ground (arith, eq)

  returned :
      (x : Outcome RunError Unit × Turn W)
      → Post {A = Unit} (λ _. IsAnswered) Any x
      → x.0 ≡ done tt
      → IsAnswered x.1
  returned (done a, t) p h = p
  returned (raised e, t) p h = ground (arith, h)

  -- A turn that ends without an error has an answer for the customer: a message of the assistant
  -- without tool calls, which is also the last message of the history.
  pub run-IsAnswered :
      (turn : TurnRequest) (w : W) → (run r turn w).0 ≡ done tt → IsAnswered (run r turn w).1
  unfolding run
  run-IsAnswered turn w = elim (Bool-cases (str_eq turn.conversation_id "")) [
    | inl e ↦ rw (e, run) (λ h. ground (arith, h))
    | inr e ↦
        rw (e, run)
          (returned _ ((run_rounds-Answered turn r.max_iterations 1).at (start r turn w) tt))
  ]
