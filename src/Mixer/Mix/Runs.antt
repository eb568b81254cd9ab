-- ===== src/Mixer/Mix/Runs.antt =====
-- mixer/mixer.go: a sequence of messages keeps the invariant, and adds buffers to columns.
use mathlib.Core.List.{append_assoc}
use phono.Base.{
  ℕ, suc, ◌≤◌, ◌≡◌, refl, sym, ap, ◌∙◌, List, [], ◌∷◌, ◌++◌, Option, none, some, String, length,
  ◌==◌, if◌then◌else◌, get_elem?-lt, append_nil,
}
use phono.Base.Dict.{lookup, insert, delete}
use phono.Base.Outcome.{done, ◌>>=◌}
use phono.Buffer.{Buffer}
use phono.Mixer.Mix.{Mixer, InMessage, on_buffer, on_end, on_message, or_nil, mix_all}
use phono.Mixer.Mix.Waiting.{Live, lookup-IsBelow}
use phono.Mixer.Mix.Invariant.{SameFormat, Inv}
use phono.Mixer.Mix.Contents.{lookup-pointers, contents}
use phono.Mixer.Mix.Steps.{buffer_step, end_step}

abbrev pub or_zero : Option ℕ → ℕ
or_zero none = 0
or_zero (some c) = c

module _ {A : Type 0} where
  -- The inputs that have not ended, with the numbers of their buffers, after a message.
  abbrev pub count_message : Live → String → Buffer A → Live
  count_message live id none = delete id live
  count_message live id (some b) = insert id (suc (or_zero (lookup id live))) live

  abbrev pub count_all : Live → List (InMessage A) → Live
  count_all live [] = live
  count_all live (msg ∷ messages) = count_all (count_message live msg.input_id msg.buffer) messages

  -- What a message adds to column number k: its buffer, if that is number k of its input.
  abbrev pub in_column : ℕ → Live → String → Buffer A → List (Buffer A)
  in_column k live id none = []
  in_column k live id (some b) = if or_zero (lookup id live) == k then some b ∷ [] else []

  -- The buffers number k of all inputs, as they arrive.
  abbrev pub column : ℕ → Live → List (InMessage A) → List (Buffer A)
  column k live [] = []
  column k live (msg ∷ messages) =
      in_column k live msg.input_id msg.buffer
      ++ column k (count_message live msg.input_id msg.buffer) messages

  -- Messages come from inputs that have not ended, and an input ends only after at least as many
  -- buffers as each of those that ended before.
  abbrev pub MayEnd : ℕ → ℕ → Buffer A → Type 0
  MayEnd longest c none = longest ≤ c
  MayEnd longest c (some b) = Unit

  abbrev pub longest_after : ℕ → ℕ → Buffer A → ℕ
  longest_after longest c none = c
  longest_after longest c (some b) = longest

  abbrev pub IsFair : Live → ℕ → List (InMessage A) → Type 0
  IsFair live longest [] = Unit
  IsFair live longest (msg ∷ messages) =
      (c : ℕ) × (lookup msg.input_id live ≡ some c)
      × MayEnd longest c msg.buffer
      × IsFair (count_message live msg.input_id msg.buffer) (longest_after longest c msg.buffer)
          messages

  message_step :
      (id : String) (b : Buffer A) (c : ℕ) (live : Live) (longest : ℕ) (m : Mixer A)
      → Inv live longest m
      → lookup id live ≡ some c
      → MayEnd longest c b
      → (m' : Mixer A) × (on_message none (record { input_id = id; buffer = b }) m ≡ done m')
        × SameFormat m.num_channels m.buffer_size m'
        × Inv (count_message live id b) (longest_after longest c b) m'
        × ((k : ℕ) → contents m'.heap k ≡ contents m.heap k ++ in_column k live id b)
  unfolding on_message
  message_step id none c live longest m inv is_live fair =
      let pointer : or_nil (lookup id m.frames) ≡ some c =
        ap (λ l. or_nil (lookup id l)) inv.inputs ∙ ap or_nil (lookup-pointers id c live is_live) in
      let (m', e, format, inv', same) = end_step id c live longest m inv is_live fair in
      (
        m',
        ap (λ p. on_end none p id m) pointer ∙ e,
        format,
        inv',
        λ k. same k ∙ sym (append_nil (contents m.heap k)),
      )
  message_step id (some b) c live longest m inv is_live fair =
      let pointer : or_nil (lookup id m.frames) ≡ some c =
        ap (λ l. or_nil (lookup id l)) inv.inputs ∙ ap or_nil (lookup-pointers id c live is_live) in
      let (f, found) =
        get_elem?-lt m.heap c (lookup-IsBelow (length m.heap) c id live inv.below is_live) in
      let (m', e, format, inv', same) =
        buffer_step id c (some b) live longest m inv is_live f found in
      (
        m',
        ap (λ p. on_buffer none p id (some b) m) pointer ∙ e,
        format,
        rw is_live inv',
        λ k. rw is_live (same k),
      )

  pub mix_all-Inv :
      (messages : List (InMessage A)) (live : Live) (longest : ℕ) (m : Mixer A)
      → Inv live longest m
      → IsFair live longest messages
      → (m' : Mixer A) × (longest' : ℕ) × (mix_all messages m ≡ done m')
        × SameFormat m.num_channels m.buffer_size m'
        × Inv (count_all live messages) longest' m'
        × ((k : ℕ) → contents m'.heap k ≡ contents m.heap k ++ column k live messages)
  unfolding mix_all
  mix_all-Inv [] live longest m inv fair =
      (m, longest, refl, (refl, refl), inv, λ k. sym (append_nil (contents m.heap k)))
  mix_all-Inv (msg ∷ messages) live longest m inv (c, is_live, ends, fair) =
      let (m1, e, format, inv1, more) =
        message_step msg.input_id msg.buffer c live longest m inv is_live ends in
      let live1 = count_message live msg.input_id msg.buffer in
      let (m', longest', e', format', inv', more') =
        mix_all-Inv messages live1 (longest_after longest c msg.buffer) m1 inv1 fair in
      (
        m',
        longest',
        rw (e, ◌>>=◌) e',
        (format'.0 ∙ format.0, format'.1 ∙ format.1),
        inv',
        λ k.
            more' k
            ∙ ap (λ l. l ++ column k live1 messages) (more k)
            ∙ append_assoc (contents m.heap k) (in_column k live msg.input_id msg.buffer)
                (column k live1 messages),
      )
