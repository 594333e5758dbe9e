-- ===== src/Agent/Runner/Safety.antt =====
-- What one turn of the agent does to the tools, whatever the model, the tools, the budget and the
-- trace answer and however the turn ends (internal/agent/runner.go).
use kontor.Prelude.{◌≤◌, ◌≡◌, All, any}
use kontor.Agent.Runner.{TurnRequest, Runner}
use kontor.Agent.Runner.Loop.{run}
use kontor.Agent.Runner.Orderly.{IsOrderly, IsAllowed, model_calls, is_booking}
use kontor.Agent.Runner.Orderly.Rounds.{run-IsSound}

module _ {W : Type 0} (r : Runner W) (turn : TurnRequest) (w : W) where
  -- In every turn, also one that fails, no tool is executed after a call that was refused, that
  -- proposed an action to be confirmed by the customer, or that handed the conversation to a person:
  -- neither later in the same response of the model nor in a later iteration.
  pub run-IsOrderly : IsOrderly (run r turn w).1.events
  run-IsOrderly = (run-IsSound r turn w).orderly

  -- Every tool that a turn hands to the executor is one of the runner's registered tools, and never
  -- the terminal call respond_to_customer.
  pub run-IsAllowed : All (IsAllowed r.tools) (run r turn w).1.events
  run-IsAllowed = (run-IsSound r turn w).allowed

  -- A turn calls the model at most `max_iterations` times.
  pub model_calls-run : model_calls (run r turn w).1.events ≤ r.max_iterations
  model_calls-run = (run-IsSound r turn w).bounded

  -- A turn's result says that a booking was committed exactly when the executor reported a committed
  -- side effect for one of the turn's calls of create_booking, also where the runner replaced the
  -- executor's answer, and where a failure to write the trace or the end of the context then ends
  -- the turn.
  pub booking_committed-run :
      (run r turn w).1.booking_committed ≡ any is_booking (run r turn w).1.events
  booking_committed-run = (run-IsSound r turn w).committed
