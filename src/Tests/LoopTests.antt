-- ===== src/Tests/LoopTests.antt =====
-- pipe/pipe_test.go: sequences of calls, and the components' reports between them.
use text.Mathlib.TextEquality.{eq_iff}
use phono.Base.{ℕ, ◌≡◌, ◌≢◌, refl, true, false, List, [], ◌∷◌, ◌++◌, some, String, inl}
use phono.Base.Int.{pos}
use phono.Base.Dict.{lookup, insert}
use phono.Base.Outcome.{done, panic, blocked, ◌>>=◌}
use phono.Pipe.Params.{
  World, Param, Params, no_params, add, assign, apply_all, received_by, wait_add, wait_all,
  wait_done, apply_to, detach,
}
use phono.Pipe.Params.Laws.{funcs, funcs_of, IsSound}
use phono.Pipe.Message.{Pipe, Message, unset, live, new_message}
use phono.Pipe.Machine.{
  ready, running, pausing, paused, component, Machine, new_chan, send, interrupt, dismiss, handle,
}
use phono.Pipe.Transition.{transition}
use phono.Pipe.Loop.{
  Input, call_run, call_pause, call_resume, call_close, call_push, provided, failed, finished,
  enter, proceed, answer, on_event, on_call, add_received, pausing_message, on_provide, on_error,
  listen, step, run_all, new_machine,
}
use phono.Pipe.Loop.Diagram.{step-next_state}
use phono.Pipe.Loop.Refusals.{refused_chan, refused_call}
use phono.Pipe.Loop.Pushing.{step-push}
use phono.Pipe.Broadcast.{confirm_all, confirm, sink_message}
use phono.Pipe.Loop.Confirmed.{IsDistinct}
use phono.Pipe.Broadcast.Confirming.{pausing_confirmed}

abbrev pipe : Pipe ℕ
pipe = record {
  uid = "p";
  name = "";
  has_pump = true;
  sinks = "s1" ∷ "s2" ∷ [];
  params = no_params;
  feedback = no_params;
  cancel = unset;
}

abbrev world : World ℕ
world = record { components = 0; waiting = 0; negative = false }

abbrev start : Machine ℕ ℕ
start = new_machine pipe world

abbrev both : List String
both = "s1" ∷ "s2" ∷ []

both-IsDistinct : IsDistinct both
both-IsDistinct = (((λ e. let f : false ≡ true = (eq_iff "s1" "s2").1 e in cc), tt), (tt, tt))

abbrev paused_once : List (Input ℕ)
paused_once =
    call_run ∷ provided [] ∷ call_pause ∷ provided both ∷ call_run ∷ call_resume ∷ finished ∷ []

-- A second `Run` while the pipe is ready for `Pause` only.
refused_call_example :
    step start call_pause ≡ done (record start { errcs = start.errcs ++ refused_chan ∷ [] })
unfolding new_machine
refused_call_example = refused_call start ready call_pause refl tt

abbrev started : Machine ℕ ℕ
started = record {
  pipe = record pipe { cancel = live };
  state = some running;
  target = record { state = some ready; errc = some 0 };
  errcs = new_chan ∷ [];
  world = world;
  emitted = [];
  unread = [];
}

run_starts : step start call_run ≡ done started
unfolding step listen on_call on_event transition answer proceed enter dismiss new_machine
run_starts = refl

step-next_state_example : started.state ≡ some running
unfolding new_machine
step-next_state_example = step-next_state start ready call_run refl run_starts

-- The answers of a run that is paused, resumed and finished: three channels closed with no error,
-- and one with `ErrInvalidState`.
answers_of_session :
    (do m ← run_all start paused_once; done m.errcs)
    ≡ done (
        record { sent = []; is_closed = true }
        ∷ record { sent = []; is_closed = true }
        ∷ refused_chan
        ∷ record { sent = []; is_closed = true }
        ∷ [])
unfolding run_all step listen on_call on_event on_provide on_error pausing_message add_received
    transition answer proceed enter dismiss handle send interrupt new_message new_machine add assign
    lookup insert received_by wait_add wait_all wait_done confirm_all confirm sink_message detach
    apply_to apply_all
answers_of_session = refl

abbrev to_sink : Param ℕ
to_sink = record {
  id = "s1";
  apply = λ w. record w { components = 7 };
  at = pos 0;
  at_time = pos 0;
}

step-push_example :
    (q : Params ℕ) × (step started (call_push (to_sink ∷ []))
      ≡ done (record started {
        pipe = record started.pipe { params = q };
        world = apply_all (funcs_of "p" (to_sink ∷ [])) started.world;
      }))
    × IsSound q
    × (funcs "p" q ≡ funcs "p" started.pipe.params)
    × ((id : String)
        → "p" ≢ id
        → funcs id q ≡ funcs id started.pipe.params ++ funcs_of id (to_sink ∷ []))
step-push_example = step-push started running to_sink [] refl tt

-- A pipe that is paused while it runs, when only the first sink confirms the message.
abbrev stopping : Machine ℕ ℕ
stopping = record started {
  state = some pausing;
  target = record { state = some paused; errc = some 0 };
}

pausing_confirmed_example :
    let p : Pipe ℕ = (new_message {A = ℕ} stopping.pipe).0 in
    (msg : Message ℕ ℕ) × (w : World ℕ) × (pausing_message stopping.pipe world ≡ done (p, msg, w))
    × (w.waiting ≡ 2)
    × (let w' = confirm_all msg ("s1" ∷ []) w in
        ((w'.waiting ≡ 1) × (w'.negative ≡ false))
        × (step stopping (provided ("s1" ∷ [])) ≡ blocked))
unfolding lookup
pausing_confirmed_example =
    pausing_confirmed stopping ("s1" ∷ []) 1 refl both-IsDistinct tt tt (λ id. tt) (tt, tt)
      (inl refl, tt) refl

-- A failure of the pump on that message is no matter: no sink confirms, and `Close` is not handled.
pump_ended :
    run_all stopping (provided [] ∷ failed (component 3) ∷ call_close [] false ∷ []) ≡ blocked
unfolding run_all step listen on_provide pausing_message add_received wait_add wait_all confirm_all
    new_message add assign lookup insert received_by
pump_ended = refl

-- Without a pump `Run` panics.
run_without_pump :
    step (new_machine {A = ℕ} (record pipe { has_pump = false }) world) call_run ≡ panic
unfolding step listen on_call on_event transition new_machine
run_without_pump = refl
