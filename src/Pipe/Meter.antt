-- ===== src/Pipe/Meter.antt =====
-- pipe/runner.go: `meter`, the counters of one runner. Instants and durations are int64
-- nanoseconds; the readings of the clock are arguments, and so is `SampleRate.DurationOf` (phono.go), since
-- it stands on the arithmetic of float64. What is stored in the component's `phono.Meter` is kept as a list, latest
-- first; `none` is a runner without a metric.
use phono.Base.{List, ◌∷◌, Option, none, some}
use phono.Base.Int.{ℤ, pos, add64, sub64}

-- What `DurationOf` uses of float64.
pub record FloatArithmetic (F : Type 0) : Type 0 where
  pub of_int64 : ℤ → F
  pub mul : F → F → F
  pub div : F → F → F
  pub to_int64 : F → ℤ

-- `SampleRate.DurationOf`; a second is 1000000000 nanoseconds.
unfoldable pub duration_of : {F : Type 0} → FloatArithmetic F → ℤ → ℤ → ℤ
duration_of a rate v =
    a.to_int64 (a.mul (a.div (a.of_int64 v) (a.of_int64 rate)) (a.of_int64 (pos 1000000000)))

-- `MessageCounter` to `DurationCounter`
pub data Counter : Type 0 where
  messages samples start latency elapsed duration : Counter

pub data Value : Type 0 where
  count : ℤ → Value
  instant : ℤ → Value
  span : ℤ → Value

pub record Meter : Type 0 where
  pub stored : Option (List (Counter × Value))
  pub sample_rate : ℤ
  pub started_at : ℤ
  pub messages : ℤ
  pub samples : ℤ
  pub latency : ℤ
  pub processed_at : ℤ
  pub elapsed : ℤ
  pub duration : ℤ

-- The three readings of the clock in `message`.
pub record Readings : Type 0 where
  pub since : ℤ
  pub now : ℤ
  pub total : ℤ

-- `if m.Meter != nil { m.Store(...) }`
abbrev pub store_value :
    Counter → Value → Option (List (Counter × Value)) → Option (List (Counter × Value))
store_value c v none = none
store_value c v (some l) = some ((c, v) ∷ l)

-- `newMeter`, from the two readings of the clock; `metered` is the test `m != nil`.
unfoldable pub new_meter : ℤ → ℤ → ℤ → Option (List (Counter × Value)) → Meter
new_meter sample_rate started processed stored = record {
  stored = store_value Counter.start (instant started) stored;
  sample_rate = sample_rate;
  started_at = started;
  messages = pos 0;
  samples = pos 0;
  latency = pos 0;
  processed_at = processed;
  elapsed = pos 0;
  duration = pos 0;
}

-- The method `message`.
unfoldable pub message : Readings → Meter → Meter
message t m =
    let n = add64 m.messages (pos 1) in
    let l = sub64 t.since m.processed_at in
    let e = sub64 t.total m.started_at in
    record m {
      messages = n;
      latency = l;
      processed_at = t.now;
      elapsed = e;
      stored =
          store_value Counter.elapsed (span e) (
            store_value Counter.latency (span l) (store_value Counter.messages (count n) m.stored));
    }

-- The method `sample`.
unfoldable pub sample : (ℤ → ℤ → ℤ) → ℤ → Meter → Meter
sample duration_of s m =
    let n = add64 m.samples s in
    let d = duration_of m.sample_rate n in
    record m {
      samples = n;
      duration = d;
      stored =
          store_value Counter.duration (span d) (store_value Counter.samples (count n) m.stored);
    }
