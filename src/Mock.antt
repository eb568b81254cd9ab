-- ===== src/Mock.antt =====
-- mock/mock.go: the components that the tests of the other packages use. `time.Sleep` is left out:
-- it changes no state. An `int` and an `int64` are ℤ.
pub mod Limits
use phono.Base.{
  ℕ, zero, suc, ◌≡◌, Bool, ◌&&◌, ◌||◌, List, [], ◌∷◌, Option, none, some, String, replicate,
  if◌then◌else◌,
}
use phono.Base.Int.{ℤ, pos, pos_part, ltb_ℤ, leb_ℤ, add64}
use phono.Base.Outcome.{Outcome, done, panic, ◌>>=◌}
use phono.Buffer.{Buffer, size, append}
use phono.Pipe.Params.{World, Param}
use phono.Pipe.Runner.{eop}
use phono.Pipe.Runner.PumpRunner.{Pumped, buffer, failure}

-- `counter`
pub record Counter : Type 0 where
  pub messages : ℤ
  pub samples : ℤ

-- `reset`
abbrev pub reset_counter : Counter → Counter
reset_counter c = record c { messages = pos 0; samples = pos 0 }

pub record Pump (A : Type 0) : Type 0 where
  pub uid : String
  pub counter : Counter
  pub interval : ℤ
  pub limit : ℤ
  pub value : A
  pub buffer_size : ℤ
  pub num_channels : ℤ

pub record Sink (A : Type 0) : Type 0 where
  pub uid : String
  pub counter : Counter
  pub kept : Buffer A

pub record Processor : Type 0 where
  pub uid : String
  pub counter : Counter

-- `Reset` of the processor
unfoldable pub reset_processor : Processor → Processor
reset_processor m = record m { counter = reset_counter m.counter }

module _ {A : Type 0} where
  -- `Advance`
  unfoldable pub advance : Buffer A → Counter → Counter
  unfolding add64
  advance b c = record c {
    messages = add64 c.messages (pos 1);
    samples = add64 c.samples (pos (size b));
  }

  abbrev pub param : (Pump A → Pump A) → Pump A → Param (Pump A)
  param f m = record {
    id = m.uid;
    apply = λ w. record w { components = f w.components };
    at = pos 0;
    at_time = pos 0;
  }

  -- `IntervalParam`
  unfoldable pub interval_param : ℤ → Pump A → Param (Pump A)
  interval_param i m = param (λ p. record p { interval = i }) m

  -- `LimitParam`
  unfoldable pub limit_param : ℤ → Pump A → Param (Pump A)
  limit_param l m = param (λ p. record p { limit = l }) m

  -- `ValueParam`
  unfoldable pub value_param : A → Pump A → Param (Pump A)
  value_param v m = param (λ p. record p { value = v }) m

  -- `NumChannelsParam`
  unfoldable pub num_channels_param : ℤ → Pump A → Param (Pump A)
  num_channels_param nc m = param (λ p. record p { num_channels = nc }) m

  -- `make` of the buffer and of its channels: a negative length panics.
  unfoldable pub make_buffer : ℤ → ℤ → A → Outcome (Buffer A)
  make_buffer nc bs v =
      if ltb_ℤ nc (pos 0) || (ltb_ℤ (pos 0) nc && ltb_ℤ bs (pos 0))
      then panic
      else done (some (replicate (pos_part nc) (replicate (pos_part bs) v)))

  -- The function that `Pump` returns.
  unfoldable pub pump : Pump A → Outcome (Pump A × Pumped A)
  unfolding make_buffer advance
  pump m = if leb_ℤ m.limit m.counter.messages then done (m, failure eop) else (do
    b ← make_buffer m.num_channels m.buffer_size m.value
    done (record m { counter = advance b m.counter }, buffer b))

  -- Its calls, one after another.
  unfoldable pub pump_calls : ℕ → Pump A → Outcome (Pump A × List (Pumped A))
  unfolding pump
  pump_calls zero m = done (m, [])
  pump_calls (suc n) m = do (m1, x) ← pump m; (m2, xs) ← pump_calls n m1; done (m2, x ∷ xs)

  -- `Reset` of the pump
  unfoldable pub reset_pump : Pump A → Pump A
  reset_pump m = record m { counter = reset_counter m.counter }

  -- The function that `Process` returns.
  unfoldable pub process : Buffer A → Processor → Processor × Buffer A
  unfolding advance
  process b m = (record m { counter = advance b m.counter }, b)

  -- The function that `Sink` returns.
  unfoldable pub sink : Buffer A → Sink A → Outcome (Sink A)
  unfolding append advance
  sink b m = do
    kept ← append m.kept b
    done (record m { kept = kept; counter = advance b m.counter })

  -- `Reset` of the sink
  unfoldable pub reset_sink : Sink A → Sink A
  reset_sink m = record m { kept = none; counter = reset_counter m.counter }
