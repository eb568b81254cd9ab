-- ===== src/Pipe/Loop/Calls.antt =====
-- pipe/state.go: every event that a state receives is handled, and the invariant holds again.
use text.Mathlib.Text.{◌==◌ as str_eq}
use text.Mathlib.TextEquality.{eq_iff}
use mathlib.Core.Path.{subst}
use phono.Base.{
  All, Bool-cases, arith, sym, true, ◌++◌, ◌≡◌, refl, ◌∙◌, inl, inr, List, [], ◌∷◌, Option, none,
  some, length, Option-cases, String,
}
use phono.Base.Dict.{IsMap}
use phono.Base.Outcome.{done, ◌>>=◌}
use phono.Pipe.Params.{World, ParamFunc, Param, Params, no_params, entries, apply_to}
use phono.Pipe.Params.Laws.{funcs, IsSound, add_lem, merge_lem, apply_to_lem}
use phono.Pipe.Loop.Confirmed.{IsFed, IsQuiet, KeepsGroup}
use phono.Pipe.Message.{live, fired, Pipe}
use phono.Pipe.Machine.{
  State, ready, running, pausing, paused, run, pause, resume, push, measure, cancel, Error,
  invalid_state, EventMessage, Machine, interrupt, wait,
}
use phono.Pipe.Transition.{Moved, push_params, feed_back, cancel_run, transition}
use phono.Pipe.Loop.{no_target, proceed, answer, on_event, on_call, on_push}
use phono.Pipe.Loop.Invariant.{
  Inv, Keeps, goal_of, called, accepted, closed, closed_failed, refused, quiet,
}

module _ {C : Type 0} where
  push_lem :
      (s : State) (p : Pipe C) (e : EventMessage C) (w : World C)
      → IsSound p.params
      → IsMap (entries e.params)
      → (r : Moved C) × (push_params s p e w ≡ done r)
        × (r.next ≡ some s)
        × (r.error ≡ none)
        × (r.pipe.cancel ≡ p.cancel)
        × IsSound r.pipe.params
        × (r.pipe.feedback ≡ p.feedback)
  unfolding push_params
  push_lem s p e w h k =
      let (_, _, _, rest) = apply_to_lem e.params p.uid w k in
      let (q, merged, sound, _) = merge_lem p.params (apply_to e.params p.uid w).0 h rest in
      (
        record {
          pipe = record p { params = q };
          world = (apply_to e.params p.uid w).1;
          next = some s;
          error = none;
        },
        rw merged,
        refl,
        refl,
        refl,
        sound,
        refl,
      )

  rest-IsQuiet :
      (p : Params C) (id : String) (w : World C)
      → IsMap (entries p)
      → IsQuiet p
      → IsQuiet (apply_to p id w).0
  rest-IsQuiet p id w k quiet j =
      let (_, gone, others, _) = apply_to_lem p id w k in
      elim (Bool-cases (str_eq id j)) [
        | inl e ↦
            subst (λ x. All KeepsGroup (funcs x (apply_to p id w).0)) ((eq_iff id j).0 e)
              (subst (All KeepsGroup) (sym gone) tt)
        | inr e ↦
            subst (All KeepsGroup) (sym (others j (λ q. absurd (ground (arith, eq_iff id j)))))
              (quiet j)
      ]

  All-append :
      (fs gs : List (ParamFunc C))
      → All KeepsGroup fs
      → All KeepsGroup gs
      → All KeepsGroup (fs ++ gs)
  All-append [] gs h k = k
  All-append (f ∷ fs) gs h k = (h.0, All-append fs gs h.1 k)

  feed_lem :
      (s : State) (p : Pipe C) (e : EventMessage C) (w : World C)
      → IsFed p.feedback
      → IsMap (entries e.params)
      → IsQuiet e.params
      → (r : Moved C) × (feed_back s p e w ≡ done r)
        × (r.next ≡ some s)
        × (r.error ≡ none)
        × (r.pipe.cancel ≡ p.cancel)
        × IsFed r.pipe.feedback
        × (r.pipe.params ≡ p.params)
  unfolding feed_back
  feed_lem s p e w h k l =
      let (_, _, _, rest) = apply_to_lem e.params p.uid w k in
      let (q, merged, sound, f) = merge_lem p.feedback (apply_to e.params p.uid w).0 h.0 rest in
      (
        record {
          pipe = record p { feedback = q };
          world = (apply_to e.params p.uid w).1;
          next = some s;
          error = none;
        },
        rw merged,
        refl,
        refl,
        refl,
        (
          sound,
          λ id.
              subst (All KeepsGroup) (sym (f id)) (
                All-append (funcs id p.feedback) _ (h.1 id) (rest-IsQuiet e.params p.uid w k l id)),
        ),
        refl,
      )

module _ {C : Type 0} where
  start_returns :
      (p : Pipe C) (e : EventMessage C) (w : World C)
      → p.has_pump ≡ true
      → transition ready run p e [] w
        ≡ done (record {
          pipe = record p { cancel = live };
          world = w;
          next = some running;
          error = none;
        })
  unfolding transition
  start_returns p e w pump = ground arith

module _ {A C : Type 0} where
  -- `Close` in a state with a run under way.
  cancel-Keeps :
      (m : Machine A C) (s : State) (received : List (Option Error))
      → Inv m
      → m.pipe.cancel ≡ live
      → ((p : Pipe C) (e : EventMessage C) (w : World C)
          → transition s cancel p e received w ≡ cancel_run p received w)
      → Keeps (on_call s cancel none received m)
  unfolding on_call on_event cancel_run interrupt
  cancel-Keeps m s received v run_live t = elim (Option-cases (wait received)) [
    | inl e ↦
        rw (t, run_live, interrupt, e)
          (closed m s (record m.pipe { cancel = fired }) m.world v v.params v.feedback)
    | inr (err, e) ↦
        rw (t, run_live, interrupt, e)
          (closed_failed m s (record m.pipe { cancel = fired }) m.world err v v.params v.feedback)
  ]

  pub close-Keeps :
      (s : State) (received : List (Option Error)) (m : Machine A C)
      → m.state ≡ some s
      → Inv m
      → Keeps (on_call s cancel none received m)
  unfolding on_call on_event transition
  close-Keeps ready received m at v = closed m ready m.pipe m.world v v.params v.feedback
  close-Keeps running received m at v =
      cancel-Keeps m running received v (rw at at v.fits).2 (λ p e w. refl)
  close-Keeps pausing received m at v =
      cancel-Keeps m pausing received v (rw at at v.fits).2 (λ p e w. refl)
  close-Keeps paused received m at v =
      cancel-Keeps m paused received v (rw at at v.fits).1 (λ p e w. refl)

  -- A call that is refused.
  refused-Keeps :
      (m : Machine A C) (s : State) (goal : Option State)
      → m.state ≡ some s
      → Inv m
      → Keeps (do
        m' ← answer (some invalid_state) (goal_of m goal) (called m m.pipe m.world)
        proceed s (some s) m')
  refused-Keeps m s goal at v =
      let (errcs', e, i) = refused m s invalid_state goal v at in
      (record m { errcs = errcs' }, e, i)

  run_ready-Keeps :
      (m : Machine A C)
      → m.pipe.has_pump ≡ true
      → Inv m
      → Keeps (on_call ready run (some ready) [] m)
  unfolding on_call on_event
  run_ready-Keeps m pump v = rw (start_returns m.pipe _ m.world pump) (
      accepted m ready running (record m.pipe { cancel = live }) m.world (some ready) v refl refl
        ((length m.errcs, refl), refl, refl) v.params v.feedback)

  pub run-Keeps :
      (s : State) (m : Machine A C)
      → m.state ≡ some s
      → m.pipe.has_pump ≡ true
      → Inv m
      → Keeps (on_call s run (some ready) [] m)
  unfolding on_call on_event transition
  run-Keeps ready m at pump v = run_ready-Keeps m pump v
  run-Keeps running m at pump v = refused-Keeps m running (some ready) at v
  run-Keeps pausing m at pump v = refused-Keeps m pausing (some ready) at v
  run-Keeps paused m at pump v = refused-Keeps m paused (some ready) at v

  pub pause-Keeps :
      (s : State) (m : Machine A C)
      → m.state ≡ some s
      → Inv m
      → Keeps (on_call s pause (some paused) [] m)
  unfolding on_call on_event transition
  pause-Keeps ready m at v = refused-Keeps m ready (some paused) at v
  pause-Keeps running m at v =
      accepted m running pausing m.pipe m.world (some paused) v refl refl
        ((length m.errcs, refl), refl, (rw at at v.fits).2) v.params v.feedback
  pause-Keeps pausing m at v = refused-Keeps m pausing (some paused) at v
  pause-Keeps paused m at v = refused-Keeps m paused (some paused) at v

  pub resume-Keeps :
      (s : State) (m : Machine A C)
      → m.state ≡ some s
      → Inv m
      → Keeps (on_call s resume (some ready) [] m)
  unfolding on_call on_event transition
  resume-Keeps ready m at v = refused-Keeps m ready (some ready) at v
  resume-Keeps running m at v = refused-Keeps m running (some ready) at v
  resume-Keeps pausing m at v = refused-Keeps m pausing (some ready) at v
  resume-Keeps paused m at v =
      accepted m paused running m.pipe m.world (some ready) v refl refl
        ((length m.errcs, refl), refl, (rw at at v.fits).1) v.params v.feedback

  -- An event without a target whose transition returns and stays.
  quiet-Keeps :
      (m : Machine A C) (s : State) (e : EventMessage C) (r : Moved C)
      → Inv m
      → e.target ≡ no_target
      → transition s e.event m.pipe e [] m.world ≡ done r
      → r.next ≡ some s
      → r.error ≡ none
      → r.pipe.cancel ≡ m.pipe.cancel
      → IsSound r.pipe.params
      → IsFed r.pipe.feedback
      → Keeps (on_event s e [] m)
  unfolding on_event
  quiet-Keeps m s e r v nt t next err c ps fb =
      rw (t, next, err, nt) (quiet m s r.pipe r.world v c ps fb)

  push_event-Keeps :
      (s : State) (m : Machine A C) (ps : Params C)
      → Inv m
      → IsMap (entries ps)
      → ((e : EventMessage C)
          → transition s push m.pipe e [] m.world ≡ push_params s m.pipe e m.world)
      → Keeps (
          on_event s
            (record { event = push; params = ps; components = []; target = no_target })
            []
            m)
  push_event-Keeps s m ps v k t =
      let e : EventMessage C = record {
        event = push;
        params = ps;
        components = [];
        target = no_target;
      } in
      let (r, returns, next, err, c, sound, same_feedback) =
        push_lem s m.pipe e m.world v.params k in
      quiet-Keeps m s e r v refl (t e ∙ returns) next err c sound (rw same_feedback v.feedback)

  pub push-Keeps :
      (s : State) (m : Machine A C) (values : List (Param C))
      → m.state ≡ some s
      → Inv m
      → Keeps (on_push s values m)
  unfolding on_push transition
  push-Keeps s m [] at v = (m, refl, v)
  push-Keeps s m (x ∷ xs) at v =
      let (ps, e, sound, _) = add_lem no_params (x ∷ xs) tt in
      rw e (push_event-Keeps s m ps v (map_of_sound ps sound) (push_everywhere s m))
    where
      map_of_sound : (q : Params C) → IsSound q → IsMap (entries q)
      map_of_sound none h = absurd h
      map_of_sound (some q) h = h

      push_everywhere :
          (s' : State) (m' : Machine A C) (e : EventMessage C)
          → transition s' push m'.pipe e [] m'.world ≡ push_params s' m'.pipe e m'.world
      push_everywhere ready m' e = refl
      push_everywhere running m' e = refl
      push_everywhere pausing m' e = refl
      push_everywhere paused m' e = refl

  feed_event-Keeps :
      (s : State) (m : Machine A C) (e : EventMessage C)
      → Inv m
      → IsMap (entries e.params)
      → IsQuiet e.params
      → e.target ≡ no_target
      → transition s e.event m.pipe e [] m.world ≡ feed_back s m.pipe e m.world
      → Keeps (on_event s e [] m)
  feed_event-Keeps s m e v k l nt t =
      let (r, returns, next, err, c, sound, same_params) =
        feed_lem s m.pipe e m.world v.feedback k l in
      quiet-Keeps m s e r v nt (t ∙ returns) next err c (rw same_params v.params) sound

  pub measure-Keeps :
      (s : State) (m : Machine A C) (ps : Params C) (ids : List String)
      → Inv m
      → IsMap (entries ps)
      → IsQuiet ps
      → Keeps (
          on_event s
            (record { event = measure; params = ps; components = ids; target = no_target })
            []
            m)
  unfolding transition
  measure-Keeps ready m ps ids v k l =
      quiet-Keeps m ready _ _ v refl refl refl refl refl v.params v.feedback
  measure-Keeps running m ps ids v k l = feed_event-Keeps running m _ v k l refl refl
  measure-Keeps pausing m ps ids v k l = feed_event-Keeps pausing m _ v k l refl refl
  measure-Keeps paused m ps ids v k l =
      quiet-Keeps m paused _ _ v refl refl refl refl refl v.params v.feedback
