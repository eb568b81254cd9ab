-- ===== src/Mixer/Mix/Columns.antt =====
-- mixer/mixer.go: what is sent for a sequence of messages, while no input is registered.
use phono.Base.{
  ℕ, zero, suc, ◌≤◌, ◌<◌, ◌≡◌, refl, sym, ap, ◌∙◌, List, [], ◌∷◌, ◌++◌, some, String, length,
  get_elem?, ltb, arith, inl, inr, Bool-cases, ltb→lt, get_elem?-lt, get_elem?-ge,
}
use phono.Base.Dict.{insert, IsMap, insert-IsMap}
use phono.Base.Outcome.{done}
use phono.Mixer.Frames.{Frame, new_frame}
use phono.Mixer.Mix.{Mixer, InMessage, stopped, new_mixer, add_inputs, start_mix, mix_all}
use phono.Mixer.Mix.Waiting.{Live, waiting, IsBelow, waiting-IsBelow, insert-IsBelow}
use phono.Base.{some-injective}
use phono.Mixer.Mix.Invariant.{AreFrames, SameFormat, Inv, pointers}
use phono.Mixer.Mix.Contents.{
  insert-pointers, length-pointers, buffers_or_none, contents, IsBelow-mono,
}
use phono.Mixer.Mix.Runs.{count_all, column, IsFair, mix_all-Inv}

-- The inputs that are registered, before their first buffers.
abbrev pub add_live : List String → Live → Live
add_live [] live = live
add_live (id ∷ ids) live = add_live ids (insert id 0 live)

add_inputs-pointers :
    (ids : List String) (live : Live)
    → add_inputs ids (some 0) (pointers live) ≡ pointers (add_live ids live)
unfolding add_inputs
add_inputs-pointers [] live = refl
add_inputs-pointers (id ∷ ids) live =
    ap (add_inputs ids (some 0)) (insert-pointers id 0 live)
    ∙ add_inputs-pointers ids (insert id 0 live)

le-insert : (id : String) (c : ℕ) (live : Live) → length live ≤ length (insert id c live)
unfolding insert
le-insert id c [] = omega arith
le-insert id c ((other, d) ∷ live) = ground (arith, le-insert id c live)

add_live-le : (ids : List String) (live : Live) → length live ≤ length (add_live ids live)
add_live-le [] live = omega arith
add_live-le (id ∷ ids) live = omega (arith, le-insert id 0 live, add_live-le ids (insert id 0 live))

add_live-some : (ids : List String) → 1 ≤ length ids → 1 ≤ length (add_live ids [])
unfolding insert
add_live-some [] h = h
add_live-some (id ∷ ids) h = add_live-le ids ((id, 0) ∷ [])

add_live-IsMap : (ids : List String) (live : Live) → IsMap live → IsMap (add_live ids live)
add_live-IsMap [] live h = h
add_live-IsMap (id ∷ ids) live h = add_live-IsMap ids (insert id 0 live) (insert-IsMap id 0 live h)

add_live-IsBelow :
    (ids : List String) (live : Live) → IsBelow 1 live → IsBelow 1 (add_live ids live)
add_live-IsBelow [] live h = h
add_live-IsBelow (id ∷ ids) live h =
    add_live-IsBelow ids (insert id 0 live) (insert-IsBelow 1 0 id live (omega arith) h)

nil_of_length : {B : Type 0} (l : List B) → length l ≡ 0 → l ≡ []
nil_of_length [] h = refl
nil_of_length (x ∷ l) h = absurd (omega arith)

first_frame :
    {A : Type 0} (n : ℕ) (live : Live)
    → n ≡ length live
    → waiting 0 live ≡ length live
    → AreFrames live 0 (new_frame {A = A} n ∷ [])
first_frame {A} n live inputs all zero f e =
    let is : f ≡ new_frame {A = A} n = some-injective (sym e) in
    let expected : f.expected ≡ n = ap (λ (x : Frame A). x.expected) is in
    let buffers : length f.buffers ≡ 0 = ap (λ (x : Frame A). length x.buffers) is in
    record {
      next = ap (λ (x : Frame A). x.next) is;
      total = omega arith;
      enough = omega arith;
      fresh = λ h. expected ∙ inputs;
    }
first_frame n live inputs all (suc k) f e = cc

module _ {A : Type 0} (uid : String) (buffer_size num_channels : ℕ) (ids : List String) where
  -- A new mixer with these inputs, at the start of its goroutine.
  abbrev pub ready_mixer : Mixer A
  ready_mixer = start_mix (record (new_mixer uid buffer_size num_channels) { registered = ids })

  pub ready_mixer-Inv : 1 ≤ length ids → Inv (add_live ids []) 0 ready_mixer
  unfolding start_mix new_mixer add_inputs
  ready_mixer-Inv some_input =
      let live = add_live ids [] in
      let inputs = add_inputs-pointers ids [] in
      let below = add_live-IsBelow ids [] tt in
      let count : length (add_inputs ids (some 0) []) ≡ length live =
        ap length inputs ∙ length-pointers live in
      let all = waiting-IsBelow 0 live below in
      record {
        inputs = inputs;
        distinct = add_live-IsMap ids [] tt;
        below = below;
        are_frames = first_frame (length (add_inputs ids (some 0) [])) live count all;
        are_sent = λ k f is lt. absurd (omega arith);
        within = omega arith;
        stalled = λ h. (omega arith, λ less. omega arith);
        finished = λ h. omega arith;
        returned = λ h. absurd (omega (arith, add_live-some ids some_input));
      }

  -- What was sent is the first columns of the messages, each of them complete; the next one waits
  -- for an input, and when all inputs have ended nothing is left and
  -- the goroutine has returned.
  pub record IsMixed (messages : List (InMessage A)) (m : Mixer A) : Type 0 where
    pub columns :
        (k : ℕ) → k < length m.out → get_elem? m.out k ≡ some (column k (add_live ids []) messages)
    pub complete : (k : ℕ) → k < length m.out → waiting k (count_all (add_live ids []) messages) ≡ 0
    pub next :
        1 ≤ length (count_all (add_live ids []) messages)
        → 1 ≤ waiting (length m.out) (count_all (add_live ids []) messages)
    pub end :
        length (count_all (add_live ids []) messages) ≡ 0
        → (k : ℕ) → length m.out ≤ k
        → column k (add_live ids []) messages ≡ []
    pub returned : length (count_all (add_live ids []) messages) ≡ 0 → m.phase ≡ stopped
    pub format : SameFormat num_channels buffer_size m

  ready_contents : (k : ℕ) → contents ready_mixer.heap k ≡ []
  unfolding start_mix new_mixer
  ready_contents zero = refl
  ready_contents (suc k) = refl

  Inv-IsMixed :
      (messages : List (InMessage A)) (longest : ℕ) (m : Mixer A)
      → SameFormat num_channels buffer_size m
      → Inv (count_all (add_live ids []) messages) longest m
      → ((k : ℕ) → contents m.heap k ≡ column k (add_live ids []) messages)
      → IsMixed messages m
  Inv-IsMixed messages longest m format inv cols =
      let live = count_all (add_live ids []) messages in
      let all =
        waiting-IsBelow (length m.heap) live (IsBelow-mono (length m.heap) live inv.below) in
      record {
        columns = λ k lt.
            let (f, is) = get_elem?-lt m.heap k (omega (arith, inv.within)) in
            (inv.are_sent k f is lt).0 ∙ ap some (sym (ap buffers_or_none is) ∙ cols k);
        complete = λ k lt.
            let (f, is) = get_elem?-lt m.heap k (omega (arith, inv.within)) in
            (inv.are_sent k f is lt).1;
        next = λ some_live. elim (Bool-cases (ltb (length m.out) (length m.heap))) [
          | inl inside ↦ (inv.stalled some_live).1 (ltb→lt (length m.out) (length m.heap) inside)
          | inr outside ↦
              let same : length m.out ≡ length m.heap = ground (arith, inv.within) in
              rw same (omega arith)
        ];
        end = λ nobody k far. sym (cols k) ∙ (elim (Bool-cases (ltb k (length m.heap))) [
          | inl inside ↦
              let (f, is) = get_elem?-lt m.heap k (ltb→lt k (length m.heap) inside) in
              let frame = inv.are_frames k f is in
              let fresh : f.expected ≡ length live =
                frame.fresh (omega (arith, inv.finished nobody)) in
              let total = frame.total in
              ap buffers_or_none is ∙ nil_of_length f.buffers (omega arith)
          | inr outside ↦ ap buffers_or_none (get_elem?-ge m.heap k (ground arith))
        ]);
        returned = inv.returned;
        format = format;
      }

  -- A new mixer with at least one input, all of them registered before it starts, that is not
  -- cancelled; messages come only from inputs that have not ended, and an input ends only after at
  -- least as many buffers as each that ended before. In whatever order such messages come, the
  -- goroutine handles them without a panic. Frame number k that it sends has the buffers number k of all
  -- inputs, in the order of their arrival; frames are sent in order, each when no input that goes on
  -- still has to give its buffer, and the next one still waits for an input that goes on. When all
  -- inputs have ended, every buffer has been sent and the goroutine has returned. The mixer's
  -- numbers of channels and samples stay as they are.
  pub mix_all-columns :
      (messages : List (InMessage A))
      → 1 ≤ length ids
      → IsFair (add_live ids []) 0 messages
      → (m : Mixer A) × (mix_all messages ready_mixer ≡ done m) × IsMixed messages m
  unfolding start_mix new_mixer
  mix_all-columns messages some_input fair =
      let live = add_live ids [] in
      let (m, longest, e, format, inv, more) =
        mix_all-Inv messages live 0 ready_mixer (ready_mixer-Inv some_input) fair in
      let cols = λ (k : ℕ). more k ∙ ap (λ l. l ++ column k live messages) (ready_contents k) in
      (m, e, Inv-IsMixed messages longest m format inv cols)
