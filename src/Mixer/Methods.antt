-- ===== src/Mixer/Methods.antt =====
-- mixer/mixer.go: the methods of the mixer, and the functions that `Sink` and `Pump` return. The
-- operations on float64 are those of `sum`.
use phono.Base.{
  ℕ, Bool, true, false, List, [], ◌∷◌, ◌++◌, Option, none, some, String, get_elem?, if◌then◌else◌,
}
use text.Mathlib.Text.{◌==◌ as str_eq}
use phono.Base.Outcome.{Outcome, done, panic, blocked, ◌>>=◌}
use phono.Buffer.{Buffer}
use phono.Mixer.{sum}
use phono.Mixer.Mix.{Mixer, Phase, stopped, mixing, start_mix}

-- What the function of a sink returns.
pub data Taken : Type 0 where
  taken interrupted : Taken

-- What the function of a pump returns: a buffer, or the end of the pipe.
pub data Given (A : Type 0) : Type 0 where
  given : Buffer A → Given A
  end_of_pipe : Given A

module _ {A : Type 0} where
  -- `isOutput`: before `Pump` there is no id, and the type assertion panics.
  unfoldable pub is_output : String → Mixer A → Outcome Bool
  is_output source_id m = elim m.output_id [ none ↦ panic | some id ↦ done (str_eq source_id id) ]

  -- A message without a buffer.
  abbrev pub end_input : String → Mixer A → Mixer A
  end_input id m = record m { waiting = m.waiting ++ record { input_id = id; buffer = none } ∷ [] }

  -- `Sink`
  unfoldable pub sink : String → Mixer A → Mixer A
  sink input_id m = record m { registered = m.registered ++ input_id ∷ [] }

  -- Its function. When `cancel` is closed the select may take either case: `gives_up` is its choice.
  unfoldable pub sink_buffer : Bool → String → Buffer A → Mixer A → Taken × Mixer A
  sink_buffer gives_up input_id b m =
      let sent = record m {
        waiting = m.waiting ++ record { input_id = input_id; buffer = b } ∷ [];
      } in
      if m.is_cancelled
      then (if gives_up then (interrupted, m) else (taken, sent))
      else (taken, sent)

  -- `Flush`
  unfoldable pub flush : String → Mixer A → Outcome (Mixer A)
  flush source_id m = do
    output ← is_output source_id m
    done (if output then record m { is_cancelled = false } else end_input source_id m)

  -- `Reset`
  unfoldable pub reset : String → Mixer A → Outcome (Mixer A)
  reset source_id m = do
    output ← is_output source_id m
    done (if output then start_mix (record m { out = [] }) else m)

  -- `close(m.cancel)`: a channel that is closed already panics.
  abbrev pub close_cancel : Mixer A → Outcome (Mixer A)
  close_cancel m = if m.is_cancelled then panic else done (record m { is_cancelled = true })

  -- `Interrupt`
  unfoldable pub interrupt : String → Mixer A → Outcome (Mixer A)
  interrupt source_id m = do
    output ← is_output source_id m
    if output then close_cancel m else done (end_input source_id m)

  -- The case `<-m.cancel` of the main loop.
  unfoldable pub on_cancel : Mixer A → Mixer A
  on_cancel m = record m { phase = stopped }

  -- `Pump`
  unfoldable pub pump : String → Mixer A → Mixer A
  pump output_id m = record m { output_id = some output_id }

module _ {A : Type 0} (add div : A → A → A) (increment : A → A) (nought : A) where
  -- The mix of a frame that was received.
  abbrev pub give : ℕ → ℕ → List (Buffer A) → Outcome (Given A)
  give num_channels buffer_size buffers = do
    (b, _) ← sum add div increment nought num_channels buffer_size buffers
    done (given b)

  -- Receiving from `out`, which is closed when the goroutine has returned.
  abbrev pub receive : ℕ → ℕ → Phase → Option (List (Buffer A)) → Outcome (Given A)
  receive num_channels buffer_size phase (some buffers) = give num_channels buffer_size buffers
  receive num_channels buffer_size stopped none = done end_of_pipe
  receive num_channels buffer_size mixing none = blocked

  -- The function of `Pump`, after a number of calls: it waits while the goroutine runs and has sent no
  -- other frame.
  unfoldable pub pump_buffer : ℕ → Mixer A → Outcome (Given A)
  pump_buffer calls m = receive m.num_channels m.buffer_size m.phase (get_elem? m.out calls)
