-- ===== src/Agent/Runner/Keeps.antt =====
-- The steps of a turn that leave the executor alone (internal/agent/runner.go): they keep every
-- predicate on the events, the flags of the batch and `BookingCommitted`.
use kontor.Prelude.{ℕ, ◌+◌, Bool, false, not, Option, none, some, List, [], ◌∷◌, String, str_eq}
use kontor.Llm.{Message, ToolCall}
use kontor.Action.{done, raised, pure, raise, or_raise, raise_if, ◌>>=◌, ◌>>◌}
use kontor.Action.Triple.{
  Triple, Triple-pure, Triple-raise, Triple-modify, Triple-raise_if, Triple-bind, Triple-then,
  Triple-gets, Triple-if, Post,
}
use kontor.Agent.Runner.{
  RunError, terminal_protocol, trace_failed, turn_context_error, ContextError, ToolStatus,
  ToolAttempt, ToolExecution, ToolRequest, TurnRequest, Runner, SkipReason, Event, Turn,
}
use kontor.Agent.Runner.Tools.{
  Run, in_world, trace, check_turn, record_attempts, record_started, record_completed,
  record_skipped_tool, append_message,
}
use kontor.Agent.Runner.Terminal.{execute_customer_response, respond, respond_alone, deliver}
use kontor.Agent.Runner.Loop.{correct}

abbrev pub View : Type 1
View = List Event → Bool → Bool → Option SkipReason → Bool → Type 0

abbrev pub On : {W : Type 0} → View → Turn W → Type 0
On P t = P t.events t.proposal_pending t.terminal_handoff t.skip t.booking_committed

-- `m` keeps `P` when it returns and leaves `R` when it fails.
abbrev pub Keeps : {W A : Type 0} → View → View → Run W A → Type 0
Keeps P R m = Triple (On P) m (λ _. On P) (On R)

module _ {W : Type 0} (r : Runner W) (P R : View)
    (weaken : (es : List Event) (p h : Bool) (k : Option SkipReason) (b : Bool)
      → P es p h k b
      → R es p h k b) where
  pub in_world-Keeps : {A : Type 0} (f : W → A × W) → Keeps P R (in_world r f)
  unfolding in_world
  in_world-Keeps f = record { at = λ t h. h }

  pub or_raise-Keeps : {A : Type 0} (x : Option A) (e : RunError) → Keeps {W = W} P R (or_raise x e)
  unfolding or_raise
  or_raise-Keeps none e = record { at = λ t h. weaken _ _ _ _ _ h }
  or_raise-Keeps (some a) e = record { at = λ t h. h }

  pub raise_if-Keeps : (b : Bool) (e : RunError) → Keeps {W = W} P R (raise_if b e)
  raise_if-Keeps b e = Triple-raise_if b e (λ q t h. weaken _ _ _ _ _ h) (λ q t h. h)

  pub raise-Keeps : {A : Type 0} (e : RunError) → Keeps {W = W} {A = A} P R (raise e)
  raise-Keeps e = Triple-raise e (λ t h. weaken _ _ _ _ _ h)

  pub pure-Keeps : {A : Type 0} (a : A) → Keeps {W = W} P R (pure a)
  pure-Keeps a = Triple-pure a (λ t h. h)

  pub then-Keeps :
      {A B : Type 0} (m : Run W A) (n : Run W B) → Keeps P R m → Keeps P R n → Keeps P R (m >> n)
  then-Keeps m n hm hn = Triple-then m n hm (λ _. hn)

  pub bind-Keeps :
      {A B : Type 0} (m : Run W A) (f : A → Run W B)
      → Keeps P R m
      → ((a : A) → Keeps P R (f a))
      → Keeps P R (m >>= f)
  bind-Keeps m f hm hf = Triple-bind m f hm hf

  pub trace-Keeps : (f : W → Bool × W) → Keeps P R (trace r f)
  unfolding trace
  trace-Keeps f = bind-Keeps _ _ (in_world-Keeps f) (λ w. raise_if-Keeps (not w) trace_failed)

  pub check_turn-Keeps : Keeps P R (check_turn r)
  unfolding check_turn
  check_turn-Keeps = record { at = λ t h. read (r.turn_error t.world) t h }
    where
      read :
          (x : Option ContextError) (t : Turn W)
          → On P t
          → Post
              (λ _. On P)
              (On R)
              (elim x [ none ↦ done tt | some e ↦ raised (turn_context_error e) ], t)
      read none t h = h
      read (some e) t h = weaken _ _ _ _ _ h

  pub append_message-Keeps : (m : Message) → Keeps P R (append_message r m)
  unfolding append_message
  append_message-Keeps m = Triple-modify _ (λ t h. h)

  pub record_started-Keeps :
      (redacted : String) (q : ToolRequest) → Keeps P R (record_started r redacted q)
  unfolding record_started
  record_started-Keeps redacted q = trace-Keeps _

  pub record_completed-Keeps :
      (q : ToolRequest) (s : ToolStatus) (c : String) (n : ℕ)
      → Keeps P R (record_completed r q s c n)
  unfolding record_completed
  record_completed-Keeps q s c n = trace-Keeps _

  pub record_attempts-Keeps :
      (q : ToolRequest) (e : ToolExecution) (n : ℕ) (list : List ToolAttempt)
      → Keeps P R (record_attempts r q e n list)
  unfolding record_attempts
  record_attempts-Keeps q e n [] = pure-Keeps tt
  record_attempts-Keeps q e n (a ∷ rest) =
      then-Keeps _ _ (trace-Keeps _) (record_attempts-Keeps q e (n + 1) rest)

  pub record_skipped_tool-Keeps :
      (q : ToolRequest) (k : SkipReason) → Keeps P R (record_skipped_tool r q k)
  unfolding record_skipped_tool
  record_skipped_tool-Keeps q k =
      then-Keeps _ _ (record_started-Keeps _ q)
        (then-Keeps _ _ (record_completed-Keeps q _ _ 0) (pure-Keeps _))

  pub execute_customer_response-Keeps :
      (q : ToolRequest) → Keeps P R (execute_customer_response r q)
  unfolding execute_customer_response
  execute_customer_response-Keeps q = then-Keeps _ _ (record_started-Keeps _ q) (
      then-Keeps _ _ (append_message-Keeps _) (
        then-Keeps _ _ (record_completed-Keeps q _ _ 0) (
          bind-Keeps _ _ (or_raise-Keeps _ terminal_protocol)
            (λ a. then-Keeps _ _ check_turn-Keeps (pure-Keeps a)))))

  pub respond_alone-Keeps :
      (turn : TurnRequest) (i : ℕ) (c : ToolCall) → Keeps P R (respond_alone r turn i c)
  unfolding respond_alone deliver
  respond_alone-Keeps turn i c =
      bind-Keeps _ _ (execute_customer_response-Keeps _)
        (λ a. then-Keeps _ _ (Triple-modify (deliver r c a) (λ t h. h)) (append_message-Keeps _))

  pub respond-Keeps :
      (turn : TurnRequest) (i : ℕ) (content : String) (calls : List ToolCall)
      → Keeps P R (respond r turn i content calls)
  unfolding respond
  respond-Keeps turn i content [] = raise-Keeps terminal_protocol
  respond-Keeps turn i content (c ∷ []) =
      Triple-if (not (str_eq (r.trim_space content) "")) (raise terminal_protocol)
        (respond_alone r turn i c) (λ _. raise-Keeps terminal_protocol)
        (λ _. respond_alone-Keeps turn i c)
  respond-Keeps turn i content (c ∷ d ∷ cs) = raise-Keeps terminal_protocol

  pub correct-Keeps : (i : ℕ) (text : String) → Keeps P R (correct r i text)
  unfolding correct
  correct-Keeps i text = then-Keeps _ _ (Triple-modify _ (λ t h. h)) (
      bind-Keeps _ _ (Triple-gets _ (λ t h. h)) (λ spent.
        then-Keeps _ _ (raise_if-Keeps _ terminal_protocol)
          (then-Keeps _ _ (append_message-Keeps _) (pure-Keeps false))))
