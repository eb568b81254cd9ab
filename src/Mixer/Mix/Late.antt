-- ===== src/Mixer/Mix/Late.antt =====
-- mixer/mixer.go: an input that is registered while no frame is waiting, and a last input that ends
-- before the others' buffers are used up.
use text.Mathlib.TextEquality.{eq_iff}
use phono.Base.{
  ℕ, suc, ◌≤◌, ◌≡◌, refl, ap, ◌∙◌, List, [], ◌∷◌, ◌++◌, Option, none, some, String, length,
  get_elem?, ◌==◌, if◌then◌else◌, arith, get_elem?-lt, inl, inr, Bool-cases, ltb, ltb→lt,
}
use phono.Base.Dict.{lookup, insert, delete, lookup-insert}
use phono.Base.Outcome.{done, panic}
use phono.Mixer.Frames.{Frame, reset_expectations}
use phono.Mixer.Mix.{Mixer, stopped, on_register, on_buffer, on_end, on_message, or_nil}
use phono.Mixer.Mix.Chain.{reset_lem}
use phono.Mixer.Mix.Invariant.{Inv}
use phono.Mixer.Mix.Sending.{send_incomplete}
use phono.Mixer.Mix.Contents.{contents, contents-reset}

lookup-insert_self :
    (s : String) (p : Option ℕ) (l : List (String × Option ℕ)) → lookup s (insert s p l) ≡ some p
lookup-insert_self s p l = ground (arith, lookup-insert s s p l, eq_iff s s)

module _ {A : Type 0} where
  -- A mixer whose `frame` is nil, as it is when every frame was sent that the last message
  -- completed: an input that is registered then gets a nil frame, and its first buffer is a nil
  -- dereference.
  on_register-panic :
      (s : String) (cut : Option ℕ) (b : List (List A)) (m : Mixer A)
      → m.frame ≡ none
      → (m' : Mixer A) × (on_register s m ≡ done m')
        × (on_message cut (record { input_id = s; buffer = some b }) m' ≡ panic)
  unfolding on_register on_message on_buffer reset_expectations
  on_register-panic s cut b m h =
      let m' = record m { frames = insert s m.frame m.frames } in
      let pointer : or_nil (lookup s m'.frames) ≡ none =
        ap or_nil (lookup-insert_self s m.frame m.frames) ∙ h in
      (m', rw h refl, ap (λ p. on_buffer cut p s (some b) m') pointer)

  not_beyond :
      (id : String) (c longest : ℕ) (m : Mixer A) → Inv ((id, c) ∷ []) longest m → length m.out ≤ c
  not_beyond id c longest m inv = elim (Bool-cases (ltb c (length m.out))) [
    | inl beyond ↦
        let (f, is) = get_elem?-lt m.heap c inv.below.0 in
        let waits = (inv.are_sent c f is (ltb→lt c (length m.out) beyond)).1 in
        absurd (ground (arith, waits))
    | inr within ↦ ground arith
  ]

  -- One input is left and has given c buffers, in a state that a run of messages leads to; a frame
  -- number j, not below c, holds a buffer of an input that ended before. When the last input ends, the
  -- goroutine returns, has sent nothing more, and frame j, with its buffer, was not sent.
  pub on_end-lost :
      (id : String) (c longest j : ℕ) (m : Mixer A)
      → Inv ((id, c) ∷ []) longest m
      → c ≤ j
      → 1 ≤ length (contents m.heap j)
      → (m' : Mixer A) × (on_end none (some c) id m ≡ done m')
        × (m'.phase ≡ stopped)
        × (m'.out ≡ m.out)
        × (length m'.out ≤ j)
        × (1 ≤ length (contents m'.heap j))
  unfolding on_end delete
  on_end-lost id c longest j m inv le held =
      let chain =
        λ (k : ℕ) (f : Frame A) (e : get_elem? m.heap k ≡ some f). (inv.are_frames k f e).next in
      let lt = inv.below.0 in
      let (heap', e, resets) = reset_lem (suc (length m.heap)) c 0 m.heap chain lt (omega arith) in
      let (f, is) = get_elem?-lt heap' c (omega (arith, resets.0)) in
      let expectation = (resets.1 c f is).expectation in
      let still = send_incomplete (length heap') c f heap' m.out is (ground arith) in
      let frames' : delete id m.frames ≡ [] =
        ap (delete id) inv.inputs ∙ ground (arith, eq_iff id id) in
      let unsent = not_beyond id c longest m inv in
      (
        record m {
          heap = heap';
          frame = some c;
          frames = delete id m.frames;
          ended = m.ended ++ id ∷ [];
          phase = if length (delete id m.frames) == 0 then stopped else m.phase;
        },
        rw (ap length frames', e, still) refl,
        rw frames' refl,
        refl,
        omega arith,
        rw (contents-reset c m.heap heap' 0 resets j) held,
      )
