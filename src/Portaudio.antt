-- ===== src/Portaudio.antt =====
-- portaudio/portaudio.go: the sink that plays on the default device. The device and its library are
-- other code's: a state, and functions on it that may return an error. The conversion to float32 is a
-- parameter. Sizes are numbers.
pub mod Playing
use phono.Base.{
  ℕ, zero, suc, ◌*◌, List, [], ◌∷◌, Option, none, some, String, length, replicate, ◌⊎◌, inl, inr,
}
use phono.Base.Outcome.{Outcome, done, panic, ◌>>=◌}
use phono.Buffer.{Buffer}
use phono.Pcm.{write_frames}

-- The functions of the library, on the state of the device, a stream, and the samples of a sink. An
-- error is a number.
pub record Library (P S B : Type 0) : Type 0 where
  pub initialize : P → P × Option ℕ
  pub open_default_stream : ℕ → ℕ → ℕ → P → P × (S ⊎ ℕ)
  pub start : S → P → P × Option ℕ
  pub write : S → List B → P → P × Option ℕ
  pub stop : S → P → P × Option ℕ
  pub close : S → P → P × Option ℕ
  pub terminate : P → P × Option ℕ

pub record Sink (S B : Type 0) : Type 0 where
  pub uid : String
  pub buf : List B
  pub stream : Option S
  pub sr : ℕ
  pub bs : ℕ
  pub nc : ℕ

-- `NewSink`, with the id that `NewUID` makes.
unfoldable pub new_sink : {S B : Type 0} → String → ℕ → ℕ → ℕ → Sink S B
new_sink uid bs sr nc = record { uid = uid; buf = []; stream = none; sr = sr; bs = bs; nc = nc }

-- A call of the library, and what follows if it returns no error.
abbrev pub or_return : {P X : Type 0} → P × Option ℕ → X → (P → P × X × Option ℕ) → P × X × Option ℕ
or_return (p, none) x rest = rest p
or_return (p, some err) x rest = (p, x, some err)

module _ {P S B : Type 0} (lib : Library P S B) (zero_sample : B) where
  -- The stream that was opened is started.
  unfoldable pub start_stream : Sink S B → P × (S ⊎ ℕ) → P × Sink S B × Option ℕ
  start_stream s (p, inr err) = (p, s, some err)
  start_stream s (p, inl stream) =
      let s' = record s { stream = some stream } in
      or_return (lib.start stream p) s' (λ p. (p, s', none))

  -- `Sink`, before it returns its function.
  unfoldable pub open_sink : Sink S B → P → P × Sink S B × Option ℕ
  unfolding start_stream
  open_sink s p =
      let s' = record s { buf = replicate (s.bs * s.nc) zero_sample } in
      or_return (lib.initialize p) s'
        (λ p. start_stream s' (lib.open_default_stream s.nc s.sr s.bs p))

module _ {P S A B : Type 0} (lib : Library P S B) (to_float32 : A → B) where
  -- `s.stream.Write()`, of the samples that the sink shares with the stream.
  unfoldable pub write_stream : Option S → Sink S B → P → Outcome (P × Sink S B × Option ℕ)
  write_stream none s p = panic
  write_stream (some stream) s p = let (p', err) = lib.write stream s.buf p in done (p', s, err)

  -- The function that `Sink` returns; `b[0]` panics without a channel.
  unfoldable pub sink : Buffer A → Sink S B → P → Outcome (P × Sink S B × Option ℕ)
  unfolding write_stream
  sink none s p = panic
  sink (some []) s p = panic
  sink (some (c ∷ cs)) s p = do
    buf ← write_frames to_float32 s.nc (c ∷ cs) (length c) 0 s.buf
    write_stream s.stream (record s { buf = buf }) p

module _ {P S B : Type 0} (lib : Library P S B) where
  -- The calls of `Flush`, for a stream that is there.
  unfoldable pub flush_stream : S → P → P × Option ℕ
  flush_stream stream p =
      let (p1, stopped) = lib.stop stream p in
      let (p2, closed) = lib.close stream p1 in
      elim stopped [
        | some err ↦ (p1, some err)
        | none ↦ elim closed [ some err ↦ (p2, some err) | none ↦ lib.terminate p2 ]
      ]

  -- `Flush`
  unfoldable pub flush_sink : Sink S B → P → Outcome (P × Option ℕ)
  unfolding flush_stream
  flush_sink s p = elim s.stream [ none ↦ panic | some stream ↦ done (flush_stream stream p) ]
