-- ===== src/Pipe/Loop/Pushing.antt =====
-- pipe/state.go and pipe/pipe.go: the way of a parameter from `Push` to the next message.
use phono.Base.{◌≡◌, ◌≢◌, refl, ap, ◌∙◌, List, [], ◌∷◌, ◌++◌, none, some, String, if◌then◌else◌}
use mathlib.Core.List.{append-nil}
use phono.Base.Dict.{IsMap}
use phono.Base.Outcome.{done}
use phono.Pipe.Params.{Param, Params, no_params, entries, merge, apply_all, apply_to}
use phono.Pipe.Params.Laws.{funcs, funcs_of, lookup-nil, IsSound, add_lem, merge_lem, apply_to_lem}
use phono.Pipe.Message.{Message, Pipe, new_message, has_params}
use phono.Pipe.Machine.{State, ready, running, pausing, paused, push, EventMessage, Machine}
use phono.Pipe.Transition.{push_params, transition}
use phono.Pipe.Loop.{
  call_push, provided, no_target, answer, proceed, on_event, on_push, on_provide, listen, step,
}
use phono.Pipe.Loop.Diagram.{step_at}

module _ {C : Type 0} where
  taken : (id : String) (p : Params C) → funcs id (if has_params p then p else none) ≡ funcs id p
  taken id none = refl
  taken id (some []) = refl
  taken id (some (e ∷ m)) = refl

  left : (id : String) (p : Params C) → funcs id (if has_params p then no_params else p) ≡ []
  left id none = rw (lookup-nil id)
  left id (some []) = rw (lookup-nil id)
  left id (some (e ∷ m)) = rw (lookup-nil id)

module _ {A C : Type 0} where
  push_event :
      (s : State) (m : Machine A C) (e : EventMessage C) (q : Params C)
      → e.event ≡ push
      → e.target ≡ no_target
      → merge m.pipe.params (apply_to e.params m.pipe.uid m.world).0 ≡ done q
      → on_event s e [] m
        ≡ done (record m {
          pipe = record m.pipe { params = q };
          world = (apply_to e.params m.pipe.uid m.world).1;
        })
  unfolding on_event transition push_params answer proceed
  push_event ready m e q ev t merged = rw (ev, t, merged)
  push_event running m e q ev t merged = rw (ev, t, merged)
  push_event pausing m e q ev t merged = rw (ev, t, merged)
  push_event paused m e q ev t merged = rw (ev, t, merged)

  -- `Push` in any state: the mutators for the pipe itself run at once, in order; those for any
  -- other id are put behind what the pipe holds for it; nothing else of the machine changes.
  pub step-push :
      (m : Machine A C) (s : State) (x : Param C) (xs : List (Param C))
      → m.state ≡ some s
      → IsSound m.pipe.params
      → (q : Params C) × (step m (call_push (x ∷ xs))
          ≡ done (record m {
            pipe = record m.pipe { params = q };
            world = apply_all (funcs_of m.pipe.uid (x ∷ xs)) m.world;
          }))
        × IsSound q
        × (funcs m.pipe.uid q ≡ funcs m.pipe.uid m.pipe.params)
        × ((id : String)
            → m.pipe.uid ≢ id
            → funcs id q ≡ funcs id m.pipe.params ++ funcs_of id (x ∷ xs))
  unfolding listen on_push
  step-push m s x xs at h =
      let (ps, adds, sound, f) = add_lem no_params (x ∷ xs) tt in
      let (world, gone, others, rest) =
        apply_to_lem ps m.pipe.uid m.world (map_of_sound ps sound) in
      let (q, merged, sound', g) =
        merge_lem m.pipe.params (apply_to ps m.pipe.uid m.world).0 h rest in
      let held = λ (id : String). f id ∙ ap (λ t. t ++ funcs_of id (x ∷ xs)) (funcs_empty id) in
      (
        q,
        step_at m s (call_push (x ∷ xs)) at
            ∙ rw adds (
                push_event s m _ q refl refl merged
                ∙ ap (λ w. done (record m { pipe = record m.pipe { params = q }; world = w }))
                    (world ∙ ap (λ fs. apply_all fs m.world) (held m.pipe.uid))),
        sound',
        g m.pipe.uid ∙ ap (◌++◌ (funcs m.pipe.uid m.pipe.params)) gone ∙ append-nil _,
        λ id ne. g id ∙ ap (◌++◌ (funcs id m.pipe.params)) (others id ne ∙ held id),
      )
    where
      map_of_sound : (p : Params C) → IsSound p → IsMap (entries p)
      map_of_sound none k = absurd k
      map_of_sound (some p) k = k

      funcs_empty : (id : String) → funcs {C = C} id no_params ≡ []
      funcs_empty id = rw (lookup-nil id)

  -- A message that a running pipe sends takes along all that the pipe holds for any id, and the
  -- pipe holds nothing afterwards: no parameter is lost, and none is sent twice.
  step-provided :
      (m : Machine A C) (confirmed : List String)
      → m.state ≡ some running
      → (p : Pipe C) × (msg : Message A C) × (step m (provided confirmed)
          ≡ done (record m { pipe = p; emitted = msg ∷ m.emitted }))
        × ((id : String) → funcs id msg.params ≡ funcs id m.pipe.params)
        × ((id : String) → funcs id msg.feedback ≡ funcs id m.pipe.feedback)
        × ((id : String) → funcs id p.params ≡ [])
        × ((id : String) → funcs id p.feedback ≡ [])
  unfolding listen on_provide new_message proceed
  step-provided m confirmed at = (
    (new_message {A = A} m.pipe).0,
    (new_message m.pipe).1,
    step_at m running (provided confirmed) at,
    λ id. taken id m.pipe.params,
    λ id. taken id m.pipe.feedback,
    λ id. left id m.pipe.params,
    λ id. left id m.pipe.feedback,
  )
