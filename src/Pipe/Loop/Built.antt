-- ===== src/Pipe/Loop/Built.antt =====
-- pipe/state.go: what `New` has built stays: the loop changes neither the sinks nor the pump.
use phono.Base.{◌≡◌, sym, ap, ◌∙◌, Bool, List, [], ◌∷◌, Option, none, some, String, arith}
use phono.Base.Outcome.{done, ◌>>=◌, >>=-eq-done, done-injective}
use phono.Pipe.Params.{World, Param, no_params, add, wait_all}
use phono.Pipe.Message.{Message, Pipe, new_message}
use phono.Pipe.Broadcast.{confirm_all}
use phono.Pipe.Machine.{
  State, ready, running, pausing, paused, Event, run, cancel, Error, EventMessage, Target, Machine,
  interrupt, handle,
}
use phono.Pipe.Transition.{Moved, push_params, feed_back, cancel_run, transition}
use phono.Pipe.Loop.{
  Input, call_run, call_pause, call_resume, call_close, call_push, measured, provided, failed,
  finished, enter, proceed, add_received, pausing_message, answer, on_event, on_call, on_push,
  on_provide, on_error, listen, step, leave_unread,
}
use phono.Pipe.Loop.Diagram.{step_at}

abbrev pub built : {C : Type 0} → Pipe C → List String × Bool
built p = (p.sinks, p.has_pump)

module _ {C : Type 0} where
  transition-built :
      (s : State) (e : Event) (p : Pipe C) (em : EventMessage C) (received : List (Option Error))
      (w : World C) {r : Moved C}
      → transition s e p em received w ≡ done r
      → built r.pipe ≡ built p
  unfolding transition push_params feed_back cancel_run
  transition-built ready run p em received w h = ground arith
  transition-built s e p em received w h = ground arith

module _ {A C : Type 0} where
  pausing_message-built :
      (p : Pipe C) (w : World C) {p' : Pipe C} {m : Message A C} {w' : World C}
      → pausing_message p w ≡ done (p', m, w')
      → built p' ≡ built p
  unfolding pausing_message new_message
  pausing_message-built p w h =
      let (q, _, h') = >>=-eq-done (add_received p.sinks _) _ h in
      sym (ap (λ (r : Pipe C × Message A C × World C). built r.0) (done-injective h'))

  answer-built :
      (err : Option Error) (t : Target) (m : Machine A C) {m' : Machine A C}
      → answer err t m ≡ done m'
      → built m'.pipe ≡ built m.pipe
  unfolding answer
  answer-built none t m h = ground arith
  answer-built (some err) t m h = ground arith

  proceed-built :
      (s : State) (next : Option State) (m : Machine A C) {m' : Machine A C}
      → proceed s next m ≡ done m'
      → built m'.pipe ≡ built m.pipe
  unfolding proceed enter
  proceed-built s none m h = ground arith
  proceed-built s (some next) m h = ground arith

  on_event-built :
      (s : State) (e : EventMessage C) (received : List (Option Error)) (m : Machine A C)
      {m' : Machine A C}
      → on_event s e received m ≡ done m'
      → built m'.pipe ≡ built m.pipe
  unfolding on_event
  on_event-built s e received m h =
      let (r, moves, h') = >>=-eq-done (transition s e.event m.pipe e received m.world) _ h in
      let m₁ : Machine A C = record m { pipe = r.pipe; world = r.world } in
      let (m₂, answers, h'') = >>=-eq-done (answer r.error e.target m₁) _ h' in
      proceed-built s r.next m₂ h''
      ∙ answer-built r.error e.target m₁ answers
      ∙ transition-built s e.event m.pipe e received m.world moves

  on_push-built :
      (s : State) (values : List (Param C)) (m : Machine A C) {m' : Machine A C}
      → on_push s values m ≡ done m'
      → built m'.pipe ≡ built m.pipe
  unfolding on_push
  on_push-built s [] m h = sym (ap (λ (m : Machine A C). built m.pipe) (done-injective h))
  on_push-built s (v ∷ values) m h =
      let (ps, _, h') = >>=-eq-done (add no_params (v ∷ values)) _ h in on_event-built s _ [] m h'

  same-built :
      (m : Machine A C) {m' : Machine A C} → done m ≡ done m' → built m'.pipe ≡ built m.pipe
  same-built m h = sym (ap (λ (m : Machine A C). built m.pipe) (done-injective h))

  on_provide-built :
      (s : State) (confirmed : List String) (m : Machine A C) {m' : Machine A C}
      → on_provide s confirmed m ≡ done m'
      → built m'.pipe ≡ built m.pipe
  unfolding on_provide new_message
  on_provide-built ready confirmed m h = same-built m h
  on_provide-built paused confirmed m h = same-built m h
  on_provide-built running confirmed m h = proceed-built running (some running) _ h
  on_provide-built pausing confirmed m h =
      let ((p, message, w), sends, h') = >>=-eq-done (pausing_message m.pipe m.world) _ h in
      let (w', _, h'') = >>=-eq-done (wait_all (confirm_all message confirmed w)) _ h' in
      proceed-built pausing (some paused)
        (record m { pipe = p; world = w'; emitted = message ∷ m.emitted }) h''
      ∙ pausing_message-built m.pipe m.world sends

  failed-built :
      (s : State) (err : Error) (m : Machine A C) {m' : Machine A C}
      → (do
        signal ← interrupt m.pipe.cancel
        errcs ← handle m.target err m.errcs
        proceed s
            (some ready)
            (record m { pipe = record m.pipe { cancel = signal }; errcs = errcs }))
        ≡ done m'
      → built m'.pipe ≡ built m.pipe
  failed-built s err m h =
      let (signal, _, h') = >>=-eq-done (interrupt m.pipe.cancel) _ h in
      let (errcs, _, h'') = >>=-eq-done (handle m.target err m.errcs) _ h' in
      proceed-built s (some ready)
        (record m { pipe = record m.pipe { cancel = signal }; errcs = errcs }) h''

  on_error-built :
      (s : State) (err : Option Error) (m : Machine A C) {m' : Machine A C}
      → on_error s err m ≡ done m'
      → built m'.pipe ≡ built m.pipe
  unfolding on_error
  on_error-built ready err m h = same-built m h
  on_error-built paused err m h = same-built m h
  on_error-built running none m h = proceed-built running (some ready) m h
  on_error-built running (some err) m h = failed-built running err m h
  on_error-built pausing none m h = proceed-built pausing (some ready) m h
  on_error-built pausing (some err) m h = failed-built pausing err m h

  unread-built :
      (behind : Bool) (m : Machine A C) {m' : Machine A C}
      → done (leave_unread behind m) ≡ done m'
      → built m'.pipe ≡ built m.pipe
  unfolding leave_unread
  unread-built behind m h = same-built (leave_unread behind m) h

  listen-built :
      (s : State) (i : Input C) (m : Machine A C) {m' : Machine A C}
      → listen s i m ≡ done m'
      → built m'.pipe ≡ built m.pipe
  unfolding listen on_call
  listen-built s call_run m h = on_event-built s _ [] _ h
  listen-built s call_pause m h = on_event-built s _ [] _ h
  listen-built s call_resume m h = on_event-built s _ [] _ h
  listen-built s (call_close received behind) m h =
      let (m', closes, h') = >>=-eq-done (on_call s cancel none received m) _ h in
      unread-built behind m' h' ∙ on_event-built s _ received _ closes
  listen-built s (call_push values) m h = on_push-built s values m h
  listen-built s (measured ps ids) m h = on_event-built s _ [] m h
  listen-built s (provided confirmed) m h = on_provide-built s confirmed m h
  listen-built s (failed err) m h = on_error-built s (some err) m h
  listen-built s finished m h = on_error-built s none m h

  pub step-built :
      (m : Machine A C) (s : State) (i : Input C) {m' : Machine A C}
      → m.state ≡ some s
      → step m i ≡ done m'
      → built m'.pipe ≡ built m.pipe
  step-built m s i at h = listen-built s i m (sym (step_at m s i at) ∙ h)
