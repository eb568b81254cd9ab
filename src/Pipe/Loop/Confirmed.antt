-- ===== src/Pipe/Loop/Confirmed.antt =====
-- pipe/state.go: the wait group of the pausing state, and who brings it to zero.
use text.Mathlib.TextEquality.{eq_iff}
use mathlib.Core.Path.{subst}
use phono.Base.{
  ℕ, suc, ◌+◌, ◌≡◌, ◌≢◌, refl, sym, ap, ◌∙◌, false, List, [], ◌∷◌, ◌++◌, none, some, String, arith,
  length, All, Option-cases, inl, inr, ◌⊎◌,
}
use phono.Base.Dict.{IsMap, lookup}
use phono.Base.Outcome.{done}
use phono.Pipe.Params.{World, ParamFunc, Params, apply_all, detach, wait_done, wait_add, entries}
use phono.Pipe.Params.Laws.{funcs, lookup-nil, IsSound, apply_to_lem, detach_lem}
use phono.Pipe.Message.{Message, Pipe, new_message}
use phono.Pipe.Loop.{pausing_message}
use phono.Pipe.Loop.Delivery.{dones, pausing_message_lem}
use phono.Pipe.Broadcast.{sink_message, confirm, confirm_all}

-- A mutator that leaves the wait group alone.
abbrev pub KeepsGroup : {C : Type 0} → ParamFunc C → Type 0
KeepsGroup {C = C} f = (w : World C) → ((f w).waiting ≡ w.waiting) × ((f w).negative ≡ w.negative)

-- A map whose mutators leave the wait group alone.
abbrev pub IsQuiet : {C : Type 0} → Params C → Type 0
IsQuiet p = (id : String) → All KeepsGroup (funcs id p)

-- What the pipe holds of feedback between two rounds.
abbrev pub IsFed : {C : Type 0} → Params C → Type 0
IsFed p = IsSound p × IsQuiet p

abbrev pub IsAmong : String → List String → Type 0
IsAmong id [] = ⊥
IsAmong id (x ∷ ids) = (id ≡ x) ⊎ IsAmong id ids

-- No id stands in the list twice.
abbrev pub IsDistinct : List String → Type 0
IsDistinct [] = Unit
IsDistinct (id ∷ ids) = All (λ other. id ≢ other) ids × IsDistinct ids

All-IsAmong :
    (P : String → Type 0) (id : String) (ids : List String) → All P ids → IsAmong id ids → P id
All-IsAmong P id [] h i = absurd i
All-IsAmong P id (x ∷ ids) h (inl e) = subst P (sym e) h.0
All-IsAmong P id (x ∷ ids) h (inr i) = All-IsAmong P id ids h.1 i

module _ (C : Type 0) where
  dones_absent :
      (id : String) (ids : List String) → All (λ other. id ≢ other) ids → dones {C = C} id ids ≡ []
  dones_absent id [] h = refl
  dones_absent id (x ∷ ids) h = ground (arith, eq_iff x id, dones_absent id ids h.1)

  dones_behind :
      (x : String) (ids all : List String)
      → All (λ other. x ≢ other) ids
      → All (λ id. dones {C = C} id all ≡ wait_done ∷ []) ids
      → All (λ id. dones {C = C} id (x ∷ all) ≡ wait_done ∷ []) ids
  dones_behind x [] all h k = tt
  dones_behind x (id ∷ ids) all h k = (ground (arith, eq_iff x id), dones_behind x ids all h.1 k.1)

  dones_once :
      (ids : List String) → IsDistinct ids → All (λ id. dones {C = C} id ids ≡ wait_done ∷ []) ids
  dones_once [] h = tt
  dones_once (x ∷ ids) h = (
    ground (arith, eq_iff x x, dones_absent x ids h.0),
    dones_behind x ids ids h.0 (dones_once ids h.1),
  )

module _ {C : Type 0} where
  detach-IsMap : (p : Params C) (id : String) → IsMap (entries (detach p id))
  unfolding detach
  detach-IsMap none id = tt
  detach-IsMap (some m) id = elim (Option-cases (lookup id m)) [
    | inl e ↦ let d : detach (some m) id ≡ none = rw (e, detach) in rw d tt
    | inr (fs, e) ↦
        let d : detach (some m) id ≡ some ((id, fs) ∷ []) = rw (e, detach) in
        rw d (lookup-nil id, tt)
  ]

  done_next :
      (w : World C) (n : ℕ)
      → w.waiting ≡ suc n
      → w.negative ≡ false
      → let w' = wait_done w in (w'.waiting ≡ n) × (w'.negative ≡ false)
  unfolding wait_done
  done_next w n h k = ground arith

  confirm_next :
      (fs : List (ParamFunc C)) (w : World C) (n : ℕ)
      → All KeepsGroup fs
      → w.waiting ≡ suc n
      → w.negative ≡ false
      → let w' = apply_all (fs ++ wait_done ∷ []) w in (w'.waiting ≡ n) × (w'.negative ≡ false)
  unfolding apply_all
  confirm_next [] w n h k l = done_next w n k l
  confirm_next (f ∷ fs) w n h k l = confirm_next fs (f w) n h.1 ((h.0 w).0 ∙ k) ((h.0 w).1 ∙ l)

module _ {A C : Type 0} where
  -- A sink runs the mutators that the message holds for it, each once.
  confirm_lem :
      (msg : Message A C) (sink : String) (w : World C)
      → confirm (sink_message msg sink) sink w ≡ apply_all (funcs sink msg.feedback) w
  unfolding confirm sink_message
  confirm_lem msg sink w =
      (apply_to_lem (detach msg.feedback sink) sink w (detach-IsMap msg.feedback sink)).0
      ∙ ap (λ fs. apply_all fs w)
          (detach_lem msg.feedback sink sink ∙ ground (arith, eq_iff sink sink))

  -- Every one of these sinks has one `Done` to run.
  abbrev Confirms : Message A C → String → Type 0
  Confirms msg id =
      (fs : List (ParamFunc C)) × (funcs id msg.feedback ≡ fs ++ wait_done ∷ []) × All KeepsGroup fs

  confirm_rest :
      (msg : Message A C) (confirmed : List String) (rest : ℕ) (w : World C)
      → All (Confirms msg) confirmed
      → w.waiting ≡ length confirmed + rest
      → w.negative ≡ false
      → let w' = confirm_all msg confirmed w in (w'.waiting ≡ rest) × (w'.negative ≡ false)
  unfolding confirm_all
  confirm_rest msg [] rest w h k l = (k ∙ (omega arith), l)
  confirm_rest msg (id ∷ confirmed) rest w ((fs, e, quiet), h) k l =
      let one = confirm_next fs w (length confirmed + rest) quiet (k ∙ (omega arith)) l in
      let same : confirm (sink_message msg id) id w ≡ apply_all (fs ++ wait_done ∷ []) w =
        confirm_lem msg id w ∙ ap (λ fs. apply_all fs w) e in
      confirm_rest msg confirmed rest (confirm (sink_message msg id) id w) h
        (ap (λ (w : World C). w.waiting) same ∙ one.0)
        (ap (λ (w : World C). w.negative) same ∙ one.1)

  -- The wait group of the pausing state, when some of the sinks have confirmed its message.
  pub pausing_rest :
      (p : Pipe C) (w : World C) (confirmed : List String) (rest : ℕ)
      → IsDistinct p.sinks
      → IsSound p.params
      → IsSound p.feedback
      → IsQuiet p.feedback
      → All (λ id. IsAmong id p.sinks) confirmed
      → length confirmed + rest ≡ length p.sinks
      → (m : Message A C) × (w' : World C) × (pausing_message p w
          ≡ done ((new_message {A = A} p).0, m, w'))
        × (w'.waiting ≡ length p.sinks)
        × ((confirm_all m confirmed w').waiting ≡ rest)
        × ((confirm_all m confirmed w').negative ≡ false)
  unfolding wait_add
  pausing_rest p w confirmed rest d ps fb quiet among count =
      let (p', m, e, same, f) = pausing_message_lem {A = A} p w ps fb in
      let w' : World C = wait_add (length p.sinks) w in
      let confirms = All-Confirms m f confirmed among in
      let left = confirm_rest m confirmed rest w' confirms (sym count) refl in
      (m, w', e ∙ ap (λ p. done (p, m, w')) same, refl, left.0, left.1)
    where
      All-Confirms :
          (m : Message A C)
          → ((id : String) → funcs id m.feedback ≡ funcs id p.feedback ++ dones id p.sinks)
          → (ids : List String) → All (λ id. IsAmong id p.sinks) ids
          → All (Confirms m) ids
      All-Confirms m f [] h = tt
      All-Confirms m f (id ∷ ids) (here, h) = (
        (
          funcs id p.feedback,
          f id
              ∙ ap (λ t. funcs id p.feedback ++ t)
                  (All-IsAmong (λ id. dones {C = C} id p.sinks ≡ wait_done ∷ []) id p.sinks
                    (dones_once C p.sinks d) here),
          quiet id,
        ),
        All-Confirms m f ids h,
      )
