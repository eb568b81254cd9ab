-- ===== src/Tests/MixTests.antt =====
-- mixer/mixer.go: two inputs of a mixer whose buffers arrive in turns, an input that comes late, and
-- one that ends early.
use phono.Base.{
  ℕ, suc, ◌+◌, ◌≤◌, ◌<◌, ◌≡◌, refl, sym, ◌∙◌, List, [], ◌∷◌, Option, none, some, String, length,
  arith,
}
use phono.Base.Dict.{lookup, insert, delete}
use phono.Base.Outcome.{Outcome, done, panic, blocked, done-injective}
use phono.Mixer.Frames.{new_frame, deref, send, reset_expectations}
use phono.Mixer.Mix.{
  InMessage, Mixer, stopped, new_mixer, start_mix, add_inputs, on_message, on_buffer, on_end,
  mix_all,
}
use phono.Mixer.Mix.Invariant.{Inv}
use phono.Mixer.Mix.Contents.{contents}
use phono.Mixer.Mix.Runs.{IsFair, column, count_all, mix_all-Inv}
use phono.Mixer.Mix.Columns.{add_live, ready_mixer, IsMixed, ready_mixer-Inv, mix_all-columns}
use phono.Mixer.Methods.{end_of_pipe, give, pump_buffer}
use phono.Mixer.Mixed.{pump_buffer-mix_all}
use phono.Mixer.Mix.Late.{on_end-lost}

abbrev from : String → ℕ → InMessage ℕ
from id n = record { input_id = id; buffer = some ((n ∷ []) ∷ []) }

abbrev ending_of : String → InMessage ℕ
ending_of id = record { input_id = id; buffer = none }

abbrev inputs : List String
inputs = "a" ∷ "b" ∷ []

-- "b" is one buffer longer.
abbrev messages : List (InMessage ℕ)
messages =
    from "a" 1
    ∷ from "a" 2
    ∷ from "b" 3
    ∷ ending_of "a"
    ∷ from "b" 4
    ∷ from "b" 5
    ∷ ending_of "b"
    ∷ []

messages-IsFair : IsFair (add_live inputs []) 0 messages
unfolding lookup insert delete
messages-IsFair = (
  0,
  refl,
  tt,
  (
    1,
    refl,
    tt,
    (0, refl, tt, (2, refl, omega arith, (1, refl, tt, (2, refl, tt, (3, refl, omega arith, tt))))),
  ),
)

mix_all-columns_example :
    (m : Mixer ℕ) × (mix_all messages (ready_mixer "mixer" 1 1 inputs) ≡ done m)
    × IsMixed "mixer" 1 1 inputs messages m
mix_all-columns_example = mix_all-columns "mixer" 1 1 inputs messages (omega arith) messages-IsFair

-- The frames that the run sends, in order.
abbrev sent : Outcome (Mixer ℕ) → List (List (Option (List (List ℕ))))
sent (done m) = m.out
sent panic = []
sent blocked = []

mixed :
    sent (mix_all messages (ready_mixer "mixer" 1 1 inputs))
    ≡ (some ((1 ∷ []) ∷ []) ∷ some ((3 ∷ []) ∷ []) ∷ [])
      ∷ (some ((2 ∷ []) ∷ []) ∷ some ((4 ∷ []) ∷ []) ∷ [])
      ∷ (some ((5 ∷ []) ∷ []) ∷ [])
      ∷ []
unfolding mix_all start_mix new_mixer on_message on_buffer on_end send deref reset_expectations
    add_inputs lookup insert delete
mixed = refl

-- A mixer with one input, when its first buffer was sent.
abbrev waiting_mixer : Mixer ℕ
waiting_mixer = record (ready_mixer "mixer" 1 1 ("a" ∷ [])) {
  frames = ("a", some 1) ∷ [];
  heap =
      record { buffers = some ((1 ∷ []) ∷ []) ∷ []; expected = 1; next = some 1 }
      ∷ new_frame 1
      ∷ [];
  out = (some ((1 ∷ []) ∷ []) ∷ []) ∷ [];
  frame = none;
}

waiting_mixer_run :
    mix_all (from "a" 1 ∷ []) (ready_mixer "mixer" 1 1 ("a" ∷ [])) ≡ done waiting_mixer
unfolding mix_all start_mix new_mixer on_message on_buffer send deref add_inputs lookup insert
waiting_mixer_run = refl

-- "a" gave one buffer and ended, and "b" gave none.
abbrev early_mixer : Mixer ℕ
early_mixer = record (ready_mixer "mixer" 1 1 inputs) {
  frames = ("b", some 0) ∷ [];
  heap =
      record { buffers = some ((1 ∷ []) ∷ []) ∷ []; expected = 2; next = some 1 }
      ∷ new_frame 1
      ∷ [];
  ended = "a" ∷ [];
  frame = some 1;
}

abbrev early_messages : List (InMessage ℕ)
early_messages = from "a" 1 ∷ ending_of "a" ∷ []

early_mixer_run : mix_all early_messages (ready_mixer "mixer" 1 1 inputs) ≡ done early_mixer
unfolding mix_all start_mix new_mixer on_message on_buffer on_end send deref reset_expectations
    add_inputs lookup insert delete
early_mixer_run = refl

early_mixer-Inv : (n : ℕ) × Inv (("b", 0) ∷ []) n early_mixer
unfolding lookup insert delete
early_mixer-Inv =
    let fair : IsFair (add_live inputs []) 0 early_messages =
      (0, refl, tt, (1, refl, omega arith, tt)) in
    let start = ready_mixer "mixer" 1 1 inputs in
    let (m, n, e, format, inv, more) =
      mix_all-Inv early_messages (add_live inputs []) 0 start
        (ready_mixer-Inv "mixer" 1 1 inputs (omega arith)) fair in
    (n, rw (done-injective (sym early_mixer_run ∙ e)) inv)

on_end-lost_example :
    (m : Mixer ℕ) × (on_end none (some 0) "b" early_mixer ≡ done m)
    × (m.phase ≡ stopped)
    × (m.out ≡ [])
    × (length m.out ≤ 0)
    × (1 ≤ length (contents m.heap 0))
unfolding start_mix new_mixer
on_end-lost_example =
    on_end-lost "b" 0 early_mixer-Inv.0 0 early_mixer early_mixer-Inv.1 (omega arith) (omega arith)

messages_end : length (count_all (add_live inputs []) messages) ≡ 0
unfolding lookup insert delete
messages_end = refl

abbrev quotient : ℕ → ℕ → ℕ
quotient a b = a

pump_buffer-mix_all_example :
    (m : Mixer ℕ) × (n : ℕ) × (mix_all messages (ready_mixer "mixer" 1 1 inputs) ≡ done m)
    × ((k : ℕ)
        → k < n
        → pump_buffer ◌+◌ quotient suc 0 k m
          ≡ give ◌+◌ quotient suc 0 1 1 (column k (add_live inputs []) messages))
    × ((k : ℕ)
        → n ≤ k
        → (column k (add_live inputs []) messages ≡ [])
          × (pump_buffer ◌+◌ quotient suc 0 k m ≡ done end_of_pipe))
pump_buffer-mix_all_example =
    pump_buffer-mix_all ◌+◌ quotient suc 0 "mixer" 1 1 inputs messages (omega arith) messages-IsFair
      messages_end
