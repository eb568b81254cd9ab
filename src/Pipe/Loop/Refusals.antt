-- ===== src/Pipe/Loop/Refusals.antt =====
-- pipe/state.go: calls that do not fit the state.
use phono.Base.{
  ◌≡◌, refl, ap, ◌∙◌, true, false, List, [], ◌∷◌, ◌++◌, Option, some, arith, length,
  get_elem?-append_right, set-append,
}
use phono.Base.Outcome.{done}
use phono.Pipe.Machine.{
  State, ready, running, pausing, paused, Event, run, pause, resume, invalid_state, EventMessage,
  same, ErrChan, Machine, new_chan, send, handle,
}
use phono.Pipe.Transition.{transition}
use phono.Pipe.Loop.Diagram.{step_at}
use phono.Pipe.Loop.{
  Input, call_run, call_pause, call_resume, answer, proceed, on_event, on_call, listen, step,
}

-- The methods that each state refuses.
abbrev pub IsRefused : {C : Type 0} → State → Input C → Type 0
IsRefused ready call_pause = Unit
IsRefused ready call_resume = Unit
IsRefused running call_run = Unit
IsRefused running call_resume = Unit
IsRefused pausing call_run = Unit
IsRefused pausing call_pause = Unit
IsRefused pausing call_resume = Unit
IsRefused paused call_run = Unit
IsRefused paused call_pause = Unit
IsRefused _ _ = ⊥

-- A channel that holds the one error, and is not closed.
abbrev pub refused_chan : ErrChan
refused_chan = record { sent = invalid_state ∷ []; is_closed = false }

handle_new :
    (errcs : List ErrChan) (goal : Option State)
    → handle
        (record { state = goal; errc = some (length errcs) })
        invalid_state
        (errcs ++ new_chan ∷ [])
      ≡ done (errcs ++ refused_chan ∷ [])
unfolding handle send
handle_new errcs goal =
    rw (get_elem?-append_right errcs (new_chan ∷ []) (length errcs) 0 (omega arith), send)
      (ap done (set-append errcs [] new_chan refused_chan (length errcs) refl))

module _ {A C : Type 0} where
  refused_event :
      (m : Machine A C) (s : State) (e : Event) (goal : Option State)
      → same s s ≡ true
      → ((em : EventMessage C)
          → transition s e m.pipe em [] m.world
            ≡ done (record {
              pipe = m.pipe;
              world = m.world;
              next = some s;
              error = some invalid_state;
            }))
      → on_call s e goal [] m ≡ done (record m { errcs = m.errcs ++ refused_chan ∷ [] })
  unfolding on_call on_event answer proceed
  refused_event m s e goal r t = rw (t _, handle_new m.errcs goal, r)

  listen_refused :
      (m : Machine A C) (s : State) (i : Input C)
      → IsRefused s i
      → listen s i m ≡ done (record m { errcs = m.errcs ++ refused_chan ∷ [] })
  unfolding listen transition
  listen_refused m ready call_pause h = refused_event m ready pause _ refl (λ e. refl)
  listen_refused m ready call_resume h = refused_event m ready resume _ refl (λ e. refl)
  listen_refused m running call_run h = refused_event m running run _ refl (λ e. refl)
  listen_refused m running call_resume h = refused_event m running resume _ refl (λ e. refl)
  listen_refused m pausing call_run h = refused_event m pausing run _ refl (λ e. refl)
  listen_refused m pausing call_pause h = refused_event m pausing pause _ refl (λ e. refl)
  listen_refused m pausing call_resume h = refused_event m pausing resume _ refl (λ e. refl)
  listen_refused m paused call_run h = refused_event m paused run _ refl (λ e. refl)
  listen_refused m paused call_pause h = refused_event m paused pause _ refl (λ e. refl)
  listen_refused m s i h = absurd h

  -- A call that does not fit the state gets `ErrInvalidState` on its own channel, and nothing else
  -- of the machine changes.
  pub refused_call :
      (m : Machine A C) (s : State) (i : Input C)
      → m.state ≡ some s
      → IsRefused s i
      → step m i ≡ done (record m { errcs = m.errcs ++ refused_chan ∷ [] })
  refused_call m s i at h = step_at m s i at ∙ listen_refused m s i h
