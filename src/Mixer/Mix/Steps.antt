-- ===== src/Mixer/Mix/Steps.antt =====
-- mixer/mixer.go: every message keeps the invariant, and changes the frames as follows.
use phono.Base.{
  ℕ, suc, ◌≤◌, ◌<◌, ◌≡◌, refl, sym, ap, ◌∙◌, List, [], ◌∷◌, ◌++◌, Option, none, some, String,
  length, get_elem?, set, ltb, ◌==◌, if◌then◌else◌, arith, inl, inr, Bool-cases, ltb→lt,
  get_elem?-set_self, length-set, set-set, lt_of_get_elem?,
}
use phono.Base.Dict.{lookup, insert, delete, insert-IsMap, delete-IsMap}
use phono.Base.Outcome.{done}
use phono.Buffer.{Buffer}
use phono.Mixer.Frames.{Frame, deref, send}
use phono.Mixer.Mix.{Mixer, stopped, proceed, on_buffer, on_end}
use phono.Mixer.Mix.Waiting.{
  Live, waiting-le, waiting-lookup, IsBelow, length-insert, insert-IsBelow, delete-IsBelow,
  lookup-IsBelow,
}
use phono.Mixer.Mix.Chain.{reset_lem}
use phono.Mixer.Mix.Invariant.{SameFormat, Inv, pointers}
use phono.Mixer.Mix.Messages.{buffer_frames, buffer-Sends}
use phono.Mixer.Mix.Extending.{
  extended, length-extended, extended-AreFrames, extended-AreSent, extended-IsStalled,
}
use phono.Mixer.Mix.Ending.{end_frames, end-Sends}
use phono.Mixer.Mix.Contents.{
  insert-pointers, delete-pointers, length-pointers, contents, contents-append, contents-filled,
  contents-reset, IsBelow-mono,
}

module _ {A : Type 0} where
  on_buffer_same :
      (id : String) (c : ℕ) (b : Buffer A) (m : Mixer A) (f : Frame A) (p : Option ℕ)
      (out : List (List (Buffer A)))
      → get_elem? m.heap c ≡ some f
      → (let heap = set m.heap c (record f { buffers = f.buffers ++ b ∷ [] }) in
          send (suc (length heap)) none (some c) heap m.out ≡ done (p, out))
      → (let heap = set m.heap c (record f { buffers = f.buffers ++ b ∷ [] }) in
          let next =
            proceed c f.next (length m.frames) (record f { buffers = f.buffers ++ b ∷ [] }) heap in
          on_buffer none (some c) id b m
          ≡ done (record m {
            heap = next.1;
            frame = p;
            out = out;
            frames = insert id next.0 m.frames;
          }))
  unfolding on_buffer deref
  on_buffer_same id c b m f p out e s = rw (e, s) refl

module _ {A : Type 0} (id : String) (c : ℕ) (b : Buffer A) (live : Live) (longest : ℕ) (m : Mixer A)
    (inv : Inv live longest m) (is_live : lookup id live ≡ some c) (f : Frame A)
    (found : get_elem? m.heap c ≡ some f) where
  abbrev pub BufferStep : Type 0
  BufferStep =
      (m' : Mixer A) × (on_buffer none (some c) id b m ≡ done m')
      × SameFormat m.num_channels m.buffer_size m'
      × Inv (insert id (suc c) live) longest m'
      × ((k : ℕ) → contents m'.heap k ≡ contents m.heap k ++ (if c == k then b ∷ [] else []))

  abbrev full : Frame A
  full = record f { buffers = f.buffers ++ b ∷ [] }

  abbrev filled_heap : List (Frame A)
  filled_heap = set m.heap c full

  pointers-insert : insert id (some (suc c)) m.frames ≡ pointers (insert id (suc c) live)
  pointers-insert = ap (insert id (some (suc c))) inv.inputs ∙ insert-pointers id (suc c) live

  step_inside : f.next ≡ some (suc c) → suc c < length m.heap → BufferStep
  step_inside next more =
      let size = length-set m.heap c full in
      let below : IsBelow (length filled_heap) live = rw size inv.below in
      let waits = waiting-lookup c c id live is_live (omega arith) in
      let most = waiting-le c live in
      let some_live : 1 ≤ length live = omega arith in
      let inputs = length-insert c (suc c) id live is_live in
      let frames = buffer_frames id c b live longest m.heap f is_live found inv.are_frames in
      let (p, out, e, sent, stalled, le) =
        buffer-Sends id c b live longest m.heap f is_live found m.out inv.are_frames inv.are_sent
          (inv.stalled some_live) in
      let to = λ (n : Option ℕ × List (Frame A)).
        done (record m { heap = n.1; frame = p; out = out; frames = insert id n.0 m.frames }) in
      (
        record m {
          heap = filled_heap;
          frame = p;
          out = out;
          frames = insert id (some (suc c)) m.frames;
        },
        on_buffer_same id c b m f p out found e
            ∙ ap (λ n. to (proceed c n (length m.frames) full filled_heap)) next,
        (refl, refl),
        record {
          inputs = pointers-insert;
          distinct = insert-IsMap id (suc c) live inv.distinct;
          below = insert-IsBelow (length filled_heap) (suc c) id live (omega arith) below;
          are_frames = frames;
          are_sent = sent;
          within = stalled.0;
          stalled = λ h. stalled;
          finished = λ h. absurd (omega arith);
          returned = λ h. absurd (omega arith);
        },
        λ k. contents-filled m.heap c k f full b found refl,
      )

  step_last : f.next ≡ none → suc c ≡ length m.heap → BufferStep
  step_last next last =
      let size = length-set m.heap c full in
      let live' = insert id (suc c) live in
      let lt = lt_of_get_elem? m.heap c found in
      let is = get_elem?-set_self m.heap c full lt in
      let wider : IsBelow (suc (length filled_heap)) live =
        IsBelow-mono (length filled_heap) live (rw size inv.below) in
      let below = insert-IsBelow (suc (length filled_heap)) (suc c) id live (omega arith) wider in
      let is_last : suc c ≡ length filled_heap = omega arith in
      let waits = waiting-lookup c c id live is_live (omega arith) in
      let most = waiting-le c live in
      let some_live : 1 ≤ length live = omega arith in
      let inputs = length-insert c (suc c) id live is_live in
      let frames = buffer_frames id c b live longest m.heap f is_live found inv.are_frames in
      let (p, out, e, sent, stalled, le) =
        buffer-Sends id c b live longest m.heap f is_live found m.out inv.are_frames inv.are_sent
          (inv.stalled some_live) in
      let count : length m.frames ≡ length live' =
        ap length inv.inputs ∙ length-pointers live ∙ sym inputs in
      let to = λ (n : Option ℕ × List (Frame A)).
        done (record m { heap = n.1; frame = p; out = out; frames = insert id n.0 m.frames }) in
      let heap' = extended live' longest filled_heap c full is is_last below in
      let longer = length-extended live' longest filled_heap c full is is_last below in
      let linked = record full { next = some (length filled_heap) } in
      (
        record m {
          heap = heap';
          frame = p;
          out = out;
          frames = insert id (some (length filled_heap)) m.frames;
        },
        on_buffer_same id c b m f p out found e
            ∙ ap (λ n. to (proceed c n (length m.frames) full filled_heap)) next
            ∙ ap (λ n. to (proceed c none n full filled_heap)) count,
        (refl, refl),
        record {
          inputs = ap (λ k. insert id (some k) m.frames) (sym is_last) ∙ pointers-insert;
          distinct = insert-IsMap id (suc c) live inv.distinct;
          below = rw longer below;
          are_frames = extended-AreFrames live' longest filled_heap c full is is_last below frames;
          are_sent =
              extended-AreSent live' longest filled_heap c full is is_last below out stalled.0 sent;
          within = omega arith;
          stalled = λ h.
              extended-IsStalled live' longest filled_heap c full is is_last below (length out)
                (omega arith) stalled;
          finished = λ h. absurd (omega arith);
          returned = λ h. absurd (omega arith);
        },
        λ k.
            contents-append (set filled_heap c linked) (length live') k
            ∙ ap (λ h. contents h k) (set-set m.heap c full linked)
            ∙ contents-filled m.heap c k f linked b found refl,
      )

  pub buffer_step : BufferStep
  buffer_step =
      let next = (inv.are_frames c f found).next in
      elim (Bool-cases (ltb (suc c) (length m.heap))) [
        | inl more ↦ step_inside (next ∙ rw more refl) (ltb→lt (suc c) (length m.heap) more)
        | inr last ↦
            let lt = lt_of_get_elem? m.heap c found in
            step_last (next ∙ rw last refl) (ground arith)
      ]

module _ {A : Type 0} (id : String) (c : ℕ) (live : Live) (longest : ℕ) (m : Mixer A)
    (inv : Inv live longest m) (is_live : lookup id live ≡ some c) (fair : longest ≤ c) where
  pub end_step :
      (m' : Mixer A) × (on_end none (some c) id m ≡ done m')
      × SameFormat m.num_channels m.buffer_size m'
      × Inv (delete id live) c m'
      × ((k : ℕ) → contents m'.heap k ≡ contents m.heap k)
  unfolding on_end
  end_step =
      let waits = waiting-lookup c c id live is_live (omega arith) in
      let most = waiting-le c live in
      let lt = lookup-IsBelow (length m.heap) c id live inv.below is_live in
      let live' = delete id live in
      let frames' : delete id m.frames ≡ pointers live' =
        ap (delete id) inv.inputs ∙ delete-pointers id live in
      let count : length (delete id m.frames) ≡ length live' =
        ap length frames' ∙ length-pointers live' in
      let chain =
        λ (k : ℕ) (f : Frame A) (e : get_elem? m.heap k ≡ some f). (inv.are_frames k f e).next in
      let (heap', e, resets) =
        reset_lem (suc (length m.heap)) c (length live') m.heap chain lt (omega arith) in
      let (p, out, s, sent, stalled, finished, within) =
        end-Sends id c live longest m.heap heap' inv.distinct is_live fair lt resets m.out
          inv.are_frames inv.are_sent (inv.stalled (omega arith)) in
      (
        record m {
          heap = heap';
          frame = p;
          out = out;
          frames = delete id m.frames;
          ended = m.ended ++ id ∷ [];
          phase = if length (delete id m.frames) == 0 then stopped else m.phase;
        },
        rw (count, e, s) refl,
        (refl, refl),
        record {
          inputs = frames';
          distinct = delete-IsMap id live inv.distinct;
          below = rw resets.0 (delete-IsBelow (length m.heap) id live inv.below);
          are_frames =
              end_frames id c live longest m.heap heap' inv.distinct is_live fair lt resets
                inv.are_frames;
          are_sent = sent;
          within = within;
          stalled = stalled;
          finished = finished;
          returned = λ h. rw (count, h) refl;
        },
        contents-reset c m.heap heap' (length live') resets,
      )
