-- ===== src/Pipe/Loop/Delivery.antt =====
-- pipe/state.go and pipe/pipe.go: what the messages carry.
use mathlib.Core.List.{append_assoc, append-nil}
use text.Mathlib.Text.{◌==◌ as str_eq}
use phono.Base.{
  ◌≡◌, refl, sym, ap, ◌∙◌, List, [], ◌∷◌, ◌++◌, none, some, String, length, if◌then◌else◌,
  Bool-cases, inl, inr,
}
use phono.Base.Outcome.{done}
use phono.Pipe.Params.{World, ParamFunc, Params, wait_add, no_params, received_by, wait_done}
use phono.Pipe.Params.Laws.{funcs, funcs_of, IsSound, add_lem}
use phono.Pipe.Message.{Message, Pipe, new_message, has_params}
use phono.Pipe.Loop.{add_received, pausing_message}

module _ {C : Type 0} where
  -- A `Done` for each time that an id stands among the sinks.
  abbrev pub dones : String → List String → List (ParamFunc C)
  dones id [] = []
  dones id (sink ∷ sinks) =
      let rest = dones id sinks in if str_eq sink id then wait_done ∷ rest else rest

  dones-step :
      (id sink : String) (xs : List (ParamFunc C)) (sinks : List String)
      → (xs ++ funcs_of id (received_by sink ∷ [])) ++ dones id sinks
        ≡ xs ++ dones id (sink ∷ sinks)
  unfolding received_by
  dones-step id sink xs sinks = elim (Bool-cases (str_eq sink id)) [
    | inl e ↦ rw e (append_assoc xs (wait_done ∷ []) (dones id sinks))
    | inr e ↦ rw (e, append-nil xs)
  ]

  pub add_received_lem :
      (sinks : List String) (p : Params C)
      → IsSound p
      → (q : Params C) × (add_received sinks p ≡ done q)
        × IsSound q
        × ((id : String) → funcs id q ≡ funcs id p ++ dones id sinks)
  unfolding add_received
  add_received_lem [] p h = (p, refl, h, λ id. sym (append-nil (funcs id p)))
  add_received_lem (sink ∷ sinks) p h =
      let (q, e, s, f) = add_lem p (received_by sink ∷ []) h in
      let (r, e', s', f') = add_received_lem sinks q s in
      (
        r,
        rw (e, e'),
        s',
        λ id. f' id ∙ ap (λ t. t ++ dones id sinks) (f id) ∙ dones-step id sink (funcs id p) sinks,
      )

  IsSound-left : (p : Params C) → IsSound p → IsSound (if has_params p then no_params else p)
  IsSound-left none h = h
  IsSound-left (some []) h = tt
  IsSound-left (some (e ∷ m)) h = tt

  IsSound-taken :
      (p : Params C)
      → IsSound p
      → let m = if has_params p then p else none in IsSound (if has_params m then m else no_params)
  IsSound-taken none h = absurd h
  IsSound-taken (some []) h = tt
  IsSound-taken (some (e ∷ m)) h = h

  funcs_taken :
      (id : String) (p : Params C)
      → IsSound p
      → let m = if has_params p then p else none in
        funcs id (if has_params m then m else no_params) ≡ funcs id p
  funcs_taken id none h = absurd h
  funcs_taken id (some []) h = refl
  funcs_taken id (some (e ∷ m)) h = refl

  -- `newMessage` hands the cached sets over and leaves empty ones.
  pub new_message-IsSound :
      (A : Type 0) (p : Pipe C)
      → IsSound p.params
      → IsSound p.feedback
      → let p' = (new_message {A = A} p).0 in
        IsSound p'.params × IsSound p'.feedback × (p'.cancel ≡ p.cancel) × (p'.sinks ≡ p.sinks)
  unfolding new_message
  new_message-IsSound A p h k = (IsSound-left p.params h, IsSound-left p.feedback k, refl, refl)

module _ {A C : Type 0} where
  pub pausing_message_lem :
      (p : Pipe C) (w : World C)
      → IsSound p.params
      → IsSound p.feedback
      → (p' : Pipe C) × (m : Message A C) × (pausing_message p w
          ≡ done (p', m, wait_add (length p.sinks) w))
        × (p' ≡ (new_message {A = A} p).0)
        × ((id : String) → funcs id m.feedback ≡ funcs id p.feedback ++ dones id p.sinks)
  unfolding pausing_message new_message
  pausing_message_lem p w h k =
      let (p', m) = new_message {A = A} p in
      let base = if has_params m.feedback then m.feedback else no_params in
      let (q, e, _, f) = add_received_lem p.sinks base (IsSound-taken p.feedback k) in
      (
        p',
        record m { feedback = q },
        rw e,
        refl,
        λ id. f id ∙ ap (λ t. t ++ dones id p.sinks) (funcs_taken id p.feedback k),
      )
