-- ===== src/Pipe/Loop/Diagram.antt =====
-- pipe/state.go: the state diagram that the loop follows.
use phono.Base.{◌≡◌, refl, Bool, String, sym, ◌∙◌, List, [], ◌∷◌, Option, none, some, arith}
use phono.Base.Outcome.{done, ◌>>=◌, >>=-eq-done, done-injective}
use phono.Pipe.Params.{World, Param, no_params, add, wait_all}
use phono.Pipe.Message.{Pipe}
use phono.Pipe.Broadcast.{confirm_all}
use phono.Pipe.Machine.{
  State, ready, running, pausing, paused, Event, run, pause, resume, push, cancel, Error,
  EventMessage, Target, Machine, interrupt, handle,
}
use phono.Pipe.Transition.{Moved, push_params, feed_back, cancel_run, transition}
use phono.Pipe.Loop.{
  Input, call_run, call_pause, call_resume, call_close, call_push, measured, provided, failed,
  finished, enter, proceed, pausing_message, answer, on_event, on_call, on_push, on_provide,
  on_error, listen, step, leave_unread,
}

-- Where an event leads.
abbrev after_event : State → Event → Option State
after_event s cancel = none
after_event ready run = some running
after_event running pause = some pausing
after_event paused resume = some running
after_event s _ = some s

-- Where an input leads.
abbrev pub next_state : {C : Type 0} → State → Input C → Option State
next_state s (call_close received behind) = none
next_state ready call_run = some running
next_state running call_pause = some pausing
next_state pausing (provided confirmed) = some paused
next_state paused call_resume = some running
next_state running (failed err) = some ready
next_state pausing (failed err) = some ready
next_state running finished = some ready
next_state pausing finished = some ready
next_state s _ = some s

module _ {C : Type 0} where
  transition_next :
      (s : State) (e : Event) (p : Pipe C) (em : EventMessage C) (received : List (Option Error))
      (w : World C) {r : Moved C}
      → transition s e p em received w ≡ done r
      → r.next ≡ after_event s e
  unfolding transition push_params feed_back cancel_run
  transition_next ready run p em received w h = ground arith
  transition_next s e p em received w h = ground arith

module _ {A C : Type 0} where
  answer_state :
      (err : Option Error) (t : Target) (m : Machine A C) {m' : Machine A C}
      → answer err t m ≡ done m'
      → m'.state ≡ m.state
  unfolding answer
  answer_state none t m h = ground arith
  answer_state (some err) t m h = ground arith

  proceed_state :
      (s : State) (next : Option State) (m : Machine A C) {m' : Machine A C}
      → m.state ≡ some s
      → proceed s next m ≡ done m'
      → m'.state ≡ next
  unfolding proceed enter
  proceed_state s none m at h = ground arith
  proceed_state ready (some next) m at h = ground arith
  proceed_state s (some next) m at h = ground arith

  on_event_state :
      (s : State) (e : EventMessage C) (received : List (Option Error)) (m : Machine A C)
      {m' : Machine A C}
      → m.state ≡ some s
      → on_event s e received m ≡ done m'
      → m'.state ≡ after_event s e.event
  unfolding on_event
  on_event_state s e received m at h =
      let (r, moves, h') = >>=-eq-done (transition s e.event m.pipe e received m.world) _ h in
      let m₁ : Machine A C = record m { pipe = r.pipe; world = r.world } in
      let (m₂, answers, h'') = >>=-eq-done (answer r.error e.target m₁) _ h' in
      proceed_state s r.next m₂ (answer_state r.error e.target m₁ answers ∙ at) h''
      ∙ transition_next s e.event m.pipe e received m.world moves

  on_push_state :
      (s : State) (values : List (Param C)) (m : Machine A C) {m' : Machine A C}
      → m.state ≡ some s
      → on_push s values m ≡ done m'
      → m'.state ≡ after_event s push
  unfolding on_push
  on_push_state s [] m at h = rw (← done-injective h) at
  on_push_state s (v ∷ values) m at h =
      let (ps, _, h') = >>=-eq-done (add no_params (v ∷ values)) _ h in
      on_event_state s _ [] m at h'

  on_provide_state :
      (s : State) (confirmed : List String) (m : Machine A C) {m' : Machine A C}
      → m.state ≡ some s
      → on_provide s confirmed m ≡ done m'
      → m'.state ≡ next_state {C = C} s (provided confirmed)
  unfolding on_provide
  on_provide_state ready confirmed m at h = rw (← done-injective h) at
  on_provide_state paused confirmed m at h = rw (← done-injective h) at
  on_provide_state running confirmed m at h = proceed_state running (some running) _ at h
  on_provide_state pausing confirmed m at h =
      let ((p, message, w), _, h') = >>=-eq-done (pausing_message m.pipe m.world) _ h in
      let (w', _, h'') = >>=-eq-done (wait_all (confirm_all message confirmed w)) _ h' in
      proceed_state pausing (some paused)
        (record m { pipe = p; world = w'; emitted = message ∷ m.emitted }) at h''

  failed_state :
      (s : State) (err : Error) (m : Machine A C) {m' : Machine A C}
      → m.state ≡ some s
      → (do
        signal ← interrupt m.pipe.cancel
        errcs ← handle m.target err m.errcs
        proceed s
            (some ready)
            (record m { pipe = record m.pipe { cancel = signal }; errcs = errcs }))
        ≡ done m'
      → m'.state ≡ some ready
  failed_state s err m at h =
      let (signal, _, h') = >>=-eq-done (interrupt m.pipe.cancel) _ h in
      let (errcs, _, h'') = >>=-eq-done (handle m.target err m.errcs) _ h' in
      proceed_state s (some ready)
        (record m { pipe = record m.pipe { cancel = signal }; errcs = errcs }) at h''

  on_error_state :
      (s : State) (err : Option Error) (m : Machine A C) {m' : Machine A C}
      → m.state ≡ some s
      → on_error s err m ≡ done m'
      → m'.state ≡ next_state {C = C} s finished
  unfolding on_error
  on_error_state ready err m at h = rw (← done-injective h) at
  on_error_state paused err m at h = rw (← done-injective h) at
  on_error_state running none m at h = proceed_state running (some ready) m at h
  on_error_state running (some err) m at h = failed_state running err m at h
  on_error_state pausing none m at h = proceed_state pausing (some ready) m at h
  on_error_state pausing (some err) m at h = failed_state pausing err m at h

  unread_state :
      (behind : Bool) (m : Machine A C) {m' : Machine A C}
      → done (leave_unread behind m) ≡ done m'
      → m'.state ≡ m.state
  unfolding leave_unread
  unread_state behind m h = rw (← done-injective h) refl

  listen_state :
      (s : State) (i : Input C) (m : Machine A C) {m' : Machine A C}
      → m.state ≡ some s
      → listen s i m ≡ done m'
      → m'.state ≡ next_state s i
  unfolding listen on_call
  listen_state s call_run m at h = on_event_state s _ [] _ at h ∙ (ground arith)
  listen_state s call_pause m at h = on_event_state s _ [] _ at h ∙ (ground arith)
  listen_state s call_resume m at h = on_event_state s _ [] _ at h ∙ (ground arith)
  listen_state s (call_close received behind) m at h =
      let (m', closes, h') = >>=-eq-done (on_call s cancel none received m) _ h in
      let ends = on_event_state s _ received _ at closes in
      unread_state behind m' h' ∙ ends ∙ (ground arith)
  listen_state s (call_push values) m at h = on_push_state s values m at h ∙ (ground arith)
  listen_state s (measured ps ids) m at h = on_event_state s _ [] m at h ∙ (ground arith)
  listen_state s (provided confirmed) m at h = on_provide_state s confirmed m at h
  listen_state s (failed err) m at h = on_error_state s (some err) m at h ∙ (ground arith)
  listen_state s finished m at h = on_error_state s none m at h

  pub step_at :
      (m : Machine A C) (s : State) (i : Input C) → m.state ≡ some s → step m i ≡ listen s i m
  unfolding step
  step_at m s i e = simp (e, step)

  -- Whenever a round of the loop returns, the next state is that of the diagram, which names every
  -- pair of a state and an input.
  pub step-next_state :
      (m : Machine A C) (s : State) (i : Input C) {m' : Machine A C}
      → m.state ≡ some s
      → step m i ≡ done m'
      → m'.state ≡ next_state s i
  step-next_state m s i at h = listen_state s i m at (sym (step_at m s i at) ∙ h)
