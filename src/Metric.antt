-- ===== src/Metric.antt =====
-- metric/metric.go: the meters of components by the components' ids. A meter is shared by the
-- metric and the runner that stores into it, so the meters are in a store and a pointer to one is
-- its number there; `none` is the nil pointer. The locks order the calls and are left out. A
-- counter is an `atomic.Value`: `none` before the first store, and a store of a value of another
-- type panics.
pub mod Measuring
use phono.Base.{
  ℕ, ◌≡◌, Bool, List, [], ◌∷◌, ◌++◌, Option, none, some, String, length, get_elem?, set,
  if◌then◌else◌,
}
use phono.Base.Dict.{lookup, insert, delete}
use phono.Base.Outcome.{Outcome, done, panic, ◌>>=◌}

abbrev pub Values : Type 0 → Type 0
Values V = List (String × Option V)

pub record Metric (V : Type 0) : Type 0 where
  pub meters : Option (List (String × ℕ))
  pub heap : List (Values V)

abbrev pub entries : Option (List (String × ℕ)) → List (String × ℕ)
entries none = []
entries (some m) = m

module _ {V : Type 0} where
  -- The loop over the counters in `Meter`.
  unfoldable pub new_values : List String → Values V → Values V
  new_values [] values = values
  new_values (counter ∷ counters) values = new_values counters (insert counter none values)

  -- The method `Meter` of `Metric`: the new state, and the pointer.
  unfoldable pub meter : String → List String → Metric V → Metric V × Option ℕ
  unfolding new_values
  meter id counters m =
      let n = length m.heap in
      (
        record {
          meters = some (insert id n (delete id (entries m.meters)));
          heap = m.heap ++ new_values counters [] ∷ [];
        },
        some n,
      )

  -- The values behind a pointer.
  abbrev pub or_nothing : Option (Values V) → Values V
  or_nothing none = []
  or_nothing (some values) = values

  abbrev pub deref : ℕ → List (Values V) → Values V
  deref n heap = or_nothing (get_elem? heap n)

  -- `Load`
  unfoldable pub load : Option ℕ → String → List (Values V) → Option V
  load none c heap = none
  load (some n) c heap = elim (lookup c (deref n heap)) [ none ↦ none | some v ↦ v ]

  -- The loops of `Measure`, into the map r.
  unfoldable pub measure_all :
      List (String × ℕ) → List (Values V) → List (String × Values V) → List (String × Values V)
  measure_all [] heap r = r
  measure_all ((name, n) ∷ rest) heap r = measure_all rest heap (insert name (deref n heap) r)

  -- `Measure`
  unfoldable pub measure : Metric V → List (String × Values V)
  unfolding measure_all
  measure m = measure_all (entries m.meters) m.heap []

module _ {V : Type 0} (same_type : V → V → Bool) where
  -- `counter.Store(v)` on an `atomic.Value`
  unfoldable pub store_atomic : Option V → V → Outcome (Option V)
  store_atomic none v = done (some v)
  store_atomic (some old) v = if same_type old v then done (some v) else panic

  -- `Store`
  unfoldable pub store : Option ℕ → String → V → List (Values V) → Outcome (List (Values V))
  unfolding store_atomic
  store none c v heap = done heap
  store (some n) c v heap = elim (lookup c (deref n heap)) [
    | none ↦ panic
    | some old ↦ (do held ← store_atomic old v; done (set heap n (insert c held (deref n heap))))
  ]
