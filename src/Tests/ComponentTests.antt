-- ===== src/Tests/ComponentTests.antt =====
-- asset/asset_test.go, mock/mock_test.go, metric/metric_test.go: an asset of two buffers, a pump
-- limited to two messages, a metric of two components.
use phono.Base.{
  ℕ, ◌<◌, arith, ◌≡◌, ◌≢◌, refl, Bool, true, List, [], ◌∷◌, map, none, some, String, length,
  if◌then◌else◌,
}
use phono.Base.Dict.{lookup}
use phono.Base.Outcome.{done}
use phono.Asset.{new_asset, reset, sink_all, single_use_reused}
use phono.Asset.Keeping.{channel, channel_of_all, new_asset-sink_all}
use phono.Metric.{Metric, meter, deref, measure}
use phono.Metric.Measuring.{is_among, meter_lem}

abbrev stereo : List (List ℕ)
stereo = (1 ∷ 2 ∷ []) ∷ (3 ∷ 4 ∷ []) ∷ []

abbrev short : List (List ℕ)
short = (5 ∷ []) ∷ (6 ∷ []) ∷ []

new_asset-sink_all_example :
    let a = (reset (new_asset "a")).0 in
    ((reset (new_asset {A = ℕ} "a")).1 ≡ none)
    × (r : List (List ℕ)) × (sink_all (map some (stereo ∷ short ∷ [])) a
        ≡ done (record a { buffer = some r }))
    × (length r ≡ 2)
    × ((i : ℕ) → channel i r ≡ channel_of_all i (stereo ∷ short ∷ []))
    × ((reset (record a { buffer = some r })).1 ≡ some single_use_reused)
new_asset-sink_all_example = new_asset-sink_all 2 "a" stereo (short ∷ []) (refl, (refl, tt))

abbrev measured_pump : Metric ℕ
measured_pump = record {
  meters = some (("pump", 0) ∷ []);
  heap = (("Messages", some 4) ∷ ("Samples", none) ∷ []) ∷ [];
}

measured_pump-bound : (id : String) (n : ℕ) → lookup id (("pump", 0) ∷ []) ≡ some n → n < 1
unfolding lookup
measured_pump-bound id n e = ground arith

meter_lem_example :
    let counters : List String = "Messages" ∷ [] in
    (n : ℕ) × ((meter "sink" counters measured_pump).1 ≡ some n)
    × (let m' = (meter "sink" counters measured_pump).0 in
        ((c : String)
          → lookup c (deref n m'.heap) ≡ (if is_among c counters then some none else none))
        × ((k : ℕ) → k < 1 → deref k m'.heap ≡ deref k measured_pump.heap)
        × (lookup "sink" (measure m') ≡ some (deref n m'.heap))
        × ((other : String)
            → other ≢ "sink"
            → lookup other (measure m') ≡ lookup other (measure measured_pump)))
unfolding lookup
meter_lem_example =
    meter_lem "sink" ("Messages" ∷ []) measured_pump ((refl, tt), measured_pump-bound)

abbrev any_type : ℕ → ℕ → Bool
any_type a b = true
