-- ===== src/Agent/Runner/Orderly/Rounds.antt =====
-- The loop and what it did to the tools (internal/agent/runner.go).
use kontor.Prelude.{
  ℕ, zero, suc, ◌+◌, ◌≤◌, ◌≡◌, refl, Bool, true, false, not, Option, List, [], ◌∷◌, String, str_eq,
  arith, ◌==◌, ◌∙◌, Bool-cases, inl, inr,
}
use kontor.Llm.{ToolCall}
use kontor.Action.{Outcome, done, raised, pure, ◌>>◌}
use kontor.Action.Triple.{
  Triple, Triple-pure, Triple-modify, Triple-bind, Triple-then, Triple-gets, Triple-if,
  Triple-raise, Triple-from, Triple-to, Post,
}
use kontor.Agent.Runner.{
  RunError, estimate_failed, budget_refused, settle_failed, model_failed, wrong_role,
  terminal_protocol, iteration_limit, TurnRequest, Runner, SkipReason, Event, Turn,
}
use kontor.Agent.Runner.Terminal.{has_terminal_call, respond}
use kontor.Agent.Runner.Loop.{
  protocol_correction, proposal_correction, model_request, note_model, call_model, correct, answer,
  iterate, count_response, take_response, run_rounds, start, run, user_message,
}
use kontor.Agent.Runner.Keeps.{
  View, On, in_world-Keeps, or_raise-Keeps, raise_if-Keeps, raise-Keeps, trace-Keeps,
  check_turn-Keeps, respond-Keeps, append_message-Keeps,
}
use kontor.Agent.Runner.Orderly.{IsSound, Ready, Sound}
use kontor.Agent.Runner.Orderly.Batch.{After, run_batch-Triple}

module _ {W : Type 0} (r : Runner W) (n : ℕ) where
  -- Before iteration `n + 1`.
  abbrev Before : View
  Before = Ready r.tools n

  abbrev Called : View
  Called = Ready r.tools (n + 1)

  abbrev Failed : View
  Failed = Sound r.tools (n + 1)

  one_more : (es : List Event) (b : Bool) → IsSound r.tools n es b → IsSound r.tools (n + 1) es b
  one_more es b h = record {
    orderly = h.orderly;
    allowed = h.allowed;
    bounded = omega (arith, h.bounded);
    committed = h.committed;
  }

  before :
      (es : List Event) (p h : Bool) (k : Option SkipReason) (b : Bool)
      → Before es p h k b
      → Failed es p h k b
  before es p h k b f = one_more es b f.0

  called :
      (es : List Event) (p h : Bool) (k : Option SkipReason) (b : Bool)
      → Called es p h k b
      → Failed es p h k b
  called es p h k b f = f.0

  call_model-Triple :
      (turn : TurnRequest) (iteration : ℕ)
      → Triple (On Before) (call_model r turn iteration) (λ _. On Called) (On Failed)
  unfolding call_model note_model
  call_model-Triple turn iteration = Triple-then _ _ (check_turn-Keeps r Before Failed before) (λ _.
      Triple-bind {M = λ _. On Before} _ _ (Triple-gets (model_request r) (λ t f. f)) (λ request.
        Triple-bind _ _ (or_raise-Keeps r Before Failed before _ estimate_failed) (λ wanted.
          Triple-bind _ _ (in_world-Keeps r Before Failed before _) (λ granted.
            Triple-bind _ _ (or_raise-Keeps r Before Failed before granted budget_refused)
              (λ reservation.
                Triple-bind _ _ (in_world-Keeps r Before Failed before (r.complete request)) (λ x.
                  Triple-then {M = λ _. On Called} _ _
                    (Triple-modify (note_model r _ _) (λ t f. (
                      record {
                        orderly = (refl, f.0.orderly);
                        allowed = (tt, f.0.allowed);
                        bounded = omega (arith, f.0.bounded);
                        committed = f.0.committed;
                      },
                      f.1,
                    )))
                    (λ _. Triple-bind _ _ (in_world-Keeps r Called Failed called _) (λ settled.
                      Triple-then _ _
                        (raise_if-Keeps r Called Failed called (not settled) settle_failed)
                        (λ _. Triple-then _ _ (trace-Keeps r Called Failed called _) (λ _.
                          Triple-if x.has_error _ _
                            (λ _.
                              Triple-then _ _ (check_turn-Keeps r Called Failed called)
                                (λ _. raise-Keeps r Called Failed called model_failed))
                            (λ _. Triple-pure _ (λ t f. f))))))))))))

  finished :
      (turn : TurnRequest) (iteration : ℕ) (content : String) (calls : List ToolCall)
      → Triple
          (On Called)
          (respond r turn iteration content calls >> pure true)
          (λ b. On (After r (n + 1) b))
          (On Failed)
  finished turn iteration content calls =
      Triple-then _ _ (respond-Keeps r Called Failed called turn iteration content calls)
        (λ _. Triple-pure true (λ t f. f.0))

  -- A correction leaves the turn unfinished.
  correct-After :
      (iteration : ℕ) (text : String)
      → Triple (On Called) (correct r iteration text) (λ b. On (After r (n + 1) b)) (On Failed)
  unfolding correct
  correct-After iteration text =
      Triple-then _ _ (Triple-modify {Q = λ _. On Called} _ (λ t f. f)) (λ _.
        Triple-bind {M = λ _. On Called} _ _ (Triple-gets _ (λ t f. f)) (λ spent.
          Triple-then _ _ (raise_if-Keeps r Called Failed called _ terminal_protocol) (λ _.
            Triple-then _ _ (append_message-Keeps r Called Failed called (user_message text))
              (λ _. Triple-pure false (λ t f. f)))))

  answer-Triple :
      (turn : TurnRequest) (iteration : ℕ) (content : String) (calls : List ToolCall)
      → Triple
          (On Called)
          (answer r turn iteration content calls)
          (λ b. On (After r (n + 1) b))
          (On Failed)
  unfolding answer
  answer-Triple turn iteration content [] = correct-After iteration protocol_correction
  answer-Triple turn iteration content (c ∷ cs) =
      Triple-if (has_terminal_call (c ∷ cs)) _ _ (λ _. finished turn iteration content (c ∷ cs))
        (λ ordinary.
          Triple-bind {M = λ b t. On Called t × (t.proposal_pending ≡ b)} _ _
            (Triple-gets _ (λ t f. (f, refl)))
            (λ pending.
              Triple-if pending _ _
                (λ _. Triple-from (λ t f. f.0) (correct-After iteration proposal_correction))
                (λ open_turn.
                  Triple-if (iteration == r.max_iterations) _ _
                    (λ _. Triple-from (λ t f. f.0) (Triple-raise iteration_limit (λ t f. f.0)))
                    (λ _.
                      Triple-from (λ t f. (f.0, f.1 ∙ open_turn))
                        (run_batch-Triple r (n + 1) turn iteration (c ∷ cs) ordinary)))))

  iterate-Triple :
      (turn : TurnRequest) (iteration : ℕ)
      → Triple (On Before) (iterate r turn iteration) (λ b. On (After r (n + 1) b)) (On Failed)
  unfolding iterate count_response take_response
  iterate-Triple turn iteration = Triple-bind _ _ (call_model-Triple turn iteration) (λ x.
      Triple-then {M = λ _. On Called} _ _ (Triple-modify (count_response r iteration x) (λ t f. f))
        (λ _. Triple-then _ _ (raise_if-Keeps r Called Failed called _ wrong_role) (λ _.
          Triple-bind {M = λ _. On Called} _ _ (Triple-gets _ (λ t f. f)) (λ calls.
            Triple-then {M = λ _. On Called} _ _
              (Triple-modify (take_response r iteration x) (λ t f. f))
              (λ _. answer-Triple turn iteration x.message.content calls)))))

module _ {W : Type 0} (r : Runner W) where
  abbrev Ended : View
  Ended = Sound r.tools r.max_iterations

  IsSound-≤ :
      {m n : ℕ} (es : List Event) (b : Bool)
      → m ≤ n
      → IsSound r.tools m es b
      → IsSound r.tools n es b
  IsSound-≤ es b le h = record {
    orderly = h.orderly;
    allowed = h.allowed;
    bounded = omega (arith, le, h.bounded);
    committed = h.committed;
  }

  After-Ended :
      (m n : ℕ) (b : Bool) (t : Turn W) → m ≤ n → On (After r m b) t → On (Sound r.tools n) t
  After-Ended m n true t le h = IsSound-≤ t.events t.booking_committed le h
  After-Ended m n false t le h = IsSound-≤ t.events t.booking_committed le h.0

  run_rounds-Triple :
      (turn : TurnRequest) (rounds n : ℕ)
      → n + rounds ≡ r.max_iterations
      → Triple (On (Ready r.tools n)) (run_rounds r turn rounds (n + 1)) (λ _. On Ended) (On Ended)
  unfolding run_rounds
  run_rounds-Triple turn zero n e =
      Triple-raise iteration_limit
        (λ t h. IsSound-≤ t.events t.booking_committed (omega (arith, e)) h.0)
  run_rounds-Triple turn (suc rounds) n e =
      Triple-bind _ _
        (Triple-to (λ b t h. h) (λ t h. IsSound-≤ t.events t.booking_committed (omega (arith, e)) h)
          (iterate-Triple r n turn (n + 1)))
        (λ finished.
          Triple-if finished _ _
            (λ _.
              Triple-pure tt
                (λ t h. After-Ended (n + 1) r.max_iterations finished t (omega (arith, e)) h))
            (λ eq.
              Triple-from (λ t h. unfinished finished eq t h)
                (run_rounds-Triple turn rounds (n + 1) (omega (arith, e)))))
    where
      unfinished :
          (finished : Bool)
          → finished ≡ false
          → (t : Turn W) → On (After r (n + 1) finished) t
          → On (Ready r.tools (n + 1)) t
      unfinished true eq t h = ground (arith, eq)
      unfinished false eq t h = h

  -- However it ends, `run` leaves a sound turn.
  pub run-IsSound :
      (turn : TurnRequest) (w : W)
      → IsSound r.tools r.max_iterations (run r turn w).1.events (run r turn w).1.booking_committed
  unfolding run start
  run-IsSound turn w = elim (Bool-cases (str_eq turn.conversation_id "")) [
    | inl e ↦ rw (e, run) empty_turn
    | inr e ↦
        rw (e, run)
          (of_post _ (
            (run_rounds-Triple turn r.max_iterations 0 (omega arith)).at (start r turn w)
              (fresh, refl)))
  ]
    where
      fresh : IsSound r.tools 0 [] false
      fresh = record { orderly = tt; allowed = tt; bounded = omega arith; committed = refl }

      empty_turn : IsSound r.tools r.max_iterations [] false
      empty_turn = IsSound-≤ [] false (omega arith) fresh

      of_post :
          (x : Outcome RunError Unit × Turn W)
          → Post {A = Unit} (λ _. On Ended) (On Ended) x
          → On Ended x.1
      of_post (done a, t) h = h
      of_post (raised e, t) h = h
