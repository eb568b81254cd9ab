-- ===== src/Pipe/Transition.antt =====
-- pipe/state.go: `transition`, what an event does in each of the four states.
use phono.Base.{List, [], ◌∷◌, Option, none, some, String, if◌then◌else◌}
use phono.Base.Outcome.{Outcome, done, panic, ◌>>=◌}
use phono.Pipe.Params.{World, Params, merge, apply_to}
use phono.Pipe.Message.{live, Pipe}
use phono.Pipe.Machine.{
  State, ready, running, pausing, paused, Event, run, pause, resume, push, measure, cancel, Error,
  invalid_state, EventMessage, wait, interrupt,
}

-- What a `transition` leaves: the pipe, the components, the next state and the error.
pub record Moved (C : Type 0) : Type 0 where
  pub pipe : Pipe C
  pub world : World C
  pub next : Option State
  pub error : Option Error

module _ {C : Type 0} where
  abbrev pub stay : State → Pipe C → World C → Outcome (Moved C)
  stay s p w = done (record { pipe = p; world = w; next = some s; error = none })

  abbrev pub invalid : State → Pipe C → World C → Outcome (Moved C)
  invalid s p w = done (record { pipe = p; world = w; next = some s; error = some invalid_state })

  -- `for _, id := range e.components { e.params.applyTo(id) }`
  unfoldable pub apply_components : Params C → List String → World C → World C
  apply_components ps [] w = w
  apply_components ps (id ∷ ids) w = let (ps', w') = apply_to ps id w in apply_components ps' ids w'

  -- The case `push`, the same in every state.
  unfoldable pub push_params : State → Pipe C → EventMessage C → World C → Outcome (Moved C)
  push_params s p e w = do
    let (ps, w') = apply_to e.params p.uid w
    merged ← merge p.params ps
    stay s (record p { params = merged }) w'

  -- The case `measure` of the active states.
  unfoldable pub feed_back : State → Pipe C → EventMessage C → World C → Outcome (Moved C)
  feed_back s p e w = do
    let (ps, w') = apply_to e.params p.uid w
    merged ← merge p.feedback ps
    stay s (record p { feedback = merged }) w'

  -- The case `cancel` of the states with a run under way; `received` is what `p.errc` delivers
  -- until the components have closed it.
  unfoldable pub cancel_run : Pipe C → List (Option Error) → World C → Outcome (Moved C)
  cancel_run p received w = do
    signal ← interrupt p.cancel
    done (record {
      pipe = record p { cancel = signal };
      world = w;
      next = none;
      error = wait received;
    })

  -- The methods `transition` of the four states. `start`, which is modelled in Building/Wiring, opens
  -- the cancellation channel and panics without a pump.
  unfoldable pub transition :
      State → Event → Pipe C → EventMessage C → List (Option Error) → World C → Outcome (Moved C)
  transition ready cancel p e received w =
      done (record { pipe = p; world = w; next = none; error = none })
  transition ready push p e received w = push_params ready p e w
  transition ready measure p e received w = stay ready p (apply_components e.params e.components w)
  transition ready run p e received w =
      if p.has_pump
      then done (record {
        pipe = record p { cancel = live };
        world = w;
        next = some running;
        error = none;
      })
      else panic
  transition running cancel p e received w = cancel_run p received w
  transition running measure p e received w = feed_back running p e w
  transition running push p e received w = push_params running p e w
  transition running pause p e received w =
      done (record { pipe = p; world = w; next = some pausing; error = none })
  transition pausing cancel p e received w = cancel_run p received w
  transition pausing measure p e received w = feed_back pausing p e w
  transition pausing push p e received w = push_params pausing p e w
  transition paused cancel p e received w = cancel_run p received w
  transition paused push p e received w = push_params paused p e w
  transition paused measure p e received w =
      stay paused p (apply_components e.params e.components w)
  transition paused resume p e received w =
      done (record { pipe = p; world = w; next = some running; error = none })
  transition s _ p e received w = invalid s p w
