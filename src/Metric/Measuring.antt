-- ===== src/Metric/Measuring.antt =====
-- metric/metric.go: what is loaded and measured after a store and after a new meter.
use text.Mathlib.Text.{◌==◌ as str_eq}
use text.Mathlib.TextEquality.{eq_iff}
use phono.Base.{
  ℕ, zero, suc, ◌<◌, ◌≡◌, refl, sym, ap, ◌∙◌, Bool, ◌||◌, false, List, [], ◌∷◌, ◌++◌, Option, none,
  some, String, if◌then◌else◌, length, length-append, set, arith, ◌⊎◌, inl, inr, ◌≢◌,
}
use phono.Base.Dict.{
  lookup, insert, delete, IsMap, lookup-insert, lookup-delete, insert-IsMap, delete-IsMap,
}
use phono.Base.Outcome.{done}
use phono.Metric.{
  Values, Metric, entries, new_values, meter, deref, load, measure_all, measure, store_atomic,
  store,
}

abbrev pub is_among : String → List String → Bool
is_among c [] = false
is_among c (counter ∷ counters) = str_eq counter c || is_among c counters

lookup-meter :
    (id other : String) (n : ℕ) (l : List (String × ℕ))
    → lookup other (insert id n (delete id l))
      ≡ (if str_eq id other then some n else lookup other l)
lookup-meter id other n l =
    lookup-insert id other n (delete id l) ∙ ground (arith, lookup-delete id other l)

lookup-meter_self :
    (id : String) (n : ℕ) (l : List (String × ℕ)) → lookup id (insert id n (delete id l)) ≡ some n
lookup-meter_self id n l = ground (arith, lookup-meter id id n l, eq_iff id id)

lookup-meter_other :
    (id other : String) (n : ℕ) (l : List (String × ℕ))
    → other ≢ id
    → lookup other (insert id n (delete id l)) ≡ lookup other l
lookup-meter_other id other n l h =
    let differ = λ (e : id ≡ other). h (sym e) in
    ground (arith, lookup-meter id other n l, eq_iff id other)

module _ {V : Type 0} where
  deref-append :
      (n : ℕ) (heap l : List (Values V)) → n < length heap → deref n (heap ++ l) ≡ deref n heap
  deref-append n [] l h = absurd (omega arith)
  deref-append zero (x ∷ heap) l h = refl
  deref-append (suc n) (x ∷ heap) l h = deref-append n heap l (omega arith)

  deref_last : (heap : List (Values V)) (x : Values V) → deref (length heap) (heap ++ x ∷ []) ≡ x
  deref_last [] x = refl
  deref_last (y ∷ heap) x = deref_last heap x

  deref-set :
      (n : ℕ) (heap : List (Values V)) (x : Values V) → n < length heap → deref n (set heap n x) ≡ x
  deref-set n [] x h = absurd (omega arith)
  deref-set zero (y ∷ heap) x h = refl
  deref-set (suc n) (y ∷ heap) x h = deref-set n heap x (omega arith)

  deref-set_other :
      (n other : ℕ) (heap : List (Values V)) (x : Values V)
      → other ≢ n
      → deref other (set heap n x) ≡ deref other heap
  deref-set_other n other [] x h = refl
  deref-set_other zero zero (y ∷ heap) x h = absurd (h refl)
  deref-set_other zero (suc other) (y ∷ heap) x h = refl
  deref-set_other (suc n) zero (y ∷ heap) x h = refl
  deref-set_other (suc n) (suc other) (y ∷ heap) x h =
      deref-set_other n other heap x (λ e. h (ap suc e))

  -- Replacing values by others that agree for one counter.
  lookup-set :
      (n k : ℕ) (other : String) (heap : List (Values V)) (x : Values V)
      → n < length heap
      → lookup other x ≡ lookup other (deref n heap)
      → lookup other (deref k (set heap n x)) ≡ lookup other (deref k heap)
  lookup-set n k other [] x h e = absurd (omega arith)
  lookup-set zero zero other (y ∷ heap) x h e = e
  lookup-set zero (suc k) other (y ∷ heap) x h e = refl
  lookup-set (suc n) zero other (y ∷ heap) x h e = refl
  lookup-set (suc n) (suc k) other (y ∷ heap) x h e = lookup-set n k other heap x (omega arith) e

  lookup-insert_self : (c : String) (v : Option V) (m : Values V) → lookup c (insert c v m) ≡ some v
  lookup-insert_self c v m = ground (arith, lookup-insert c c v m, eq_iff c c)

  lookup-insert_other :
      (c other : String) (v : Option V) (m : Values V)
      → other ≢ c
      → lookup other (insert c v m) ≡ lookup other m
  lookup-insert_other c other v m h =
      let differ = λ (e : c ≡ other). h (sym e) in
      ground (arith, lookup-insert c other v m, eq_iff c other)

  load-eq :
      (k : ℕ) (c : String) (h1 h2 : List (Values V))
      → lookup c (deref k h1) ≡ lookup c (deref k h2)
      → load (some k) c h1 ≡ load (some k) c h2
  unfolding load
  load-eq k c h1 h2 e = rw (e, load) refl

  -- What a lookup in the measure gives for an id that is bound to a pointer, or is not bound.
  abbrev measured : Option ℕ → List (Values V) → Option (Values V) → Option (Values V)
  measured none heap rest = rest
  measured (some n) heap rest = some (deref n heap)

  lookup-measure_all :
      (id : String) (l : List (String × ℕ)) (heap : List (Values V)) (r : List (String × Values V))
      → IsMap l
      → lookup id (measure_all l heap r) ≡ measured (lookup id l) heap (lookup id r)
  unfolding measure_all lookup
  lookup-measure_all id [] heap r h = refl
  lookup-measure_all id ((name, n) ∷ rest) heap r h =
      let kept = lookup-measure_all id rest heap (insert name (deref n heap) r) h.1 in
      let put = lookup-insert name id (deref n heap) r in
      kept ∙ rw put (ground (arith, h.0, eq_iff name id))

  -- Every id is bound once, and to a meter of the store.
  abbrev pub IsSound : Metric V → Type 0
  IsSound m =
      IsMap (entries m.meters)
      × ((id : String) (n : ℕ) → lookup id (entries m.meters) ≡ some n → n < length m.heap)

  measured-append :
      (o : Option ℕ) (heap l : List (Values V))
      → ((n : ℕ) → o ≡ some n → n < length heap)
      → measured o (heap ++ l) none ≡ measured o heap none
  measured-append none heap l h = refl
  measured-append (some n) heap l h = ap some (deref-append n heap l (h n refl))

  lookup-measure :
      (id : String) (m : Metric V)
      → IsSound m
      → lookup id (measure m) ≡ measured (lookup id (entries m.meters)) m.heap none
  unfolding measure lookup
  lookup-measure id m h = lookup-measure_all id (entries m.meters) m.heap [] h.0

  lookup-new_values :
      (c : String) (counters : List String) (values : Values V)
      → lookup c (new_values counters values)
        ≡ (if is_among c counters then some none else lookup c values)
  unfolding new_values lookup
  lookup-new_values c [] values = refl
  lookup-new_values c (counter ∷ counters) values =
      lookup-new_values c counters (insert counter none values)
      ∙ ground (arith, lookup-insert counter c none values)

  meter-IsSound :
      (id : String) (counters : List String) (m : Metric V)
      → IsSound m
      → IsSound (meter id counters m).0
  unfolding meter
  meter-IsSound id counters m h =
      let l = entries m.meters in
      let n = length m.heap in
      (
        insert-IsMap id n (delete id l) (delete-IsMap id l h.0),
        λ other k e.
            let looked = lookup-meter id other n l in
            let known = h.1 other k in
            let longer = length-append m.heap (new_values counters [] ∷ []) in
            ground (arith, longer),
      )

  -- `Meter` returns a pointer to new counters, all of them without a value, and no other. What
  -- earlier pointers point to is as it was. The next measure shows the new counters under the id,
  -- in place of what the id had, and under every other id what it showed before.
  pub meter_lem :
      (id : String) (counters : List String) (m : Metric V)
      → IsSound m
      → (n : ℕ) × ((meter id counters m).1 ≡ some n)
        × (let m' = (meter id counters m).0 in
            ((c : String)
              → lookup c (deref n m'.heap) ≡ (if is_among c counters then some none else none))
            × ((k : ℕ) → k < length m.heap → deref k m'.heap ≡ deref k m.heap)
            × (lookup id (measure m') ≡ some (deref n m'.heap))
            × ((other : String)
                → other ≢ id
                → lookup other (measure m') ≡ lookup other (measure m)))
  unfolding meter lookup
  meter_lem id counters m h =
      let l = entries m.meters in
      let n = length m.heap in
      let values = new_values counters [] in
      let m' = (meter id counters m).0 in
      let sound = meter-IsSound id counters m h in
      (
        n,
        refl,
        (
          λ c. rw (deref_last m.heap values) (lookup-new_values c counters []),
          λ k lt. deref-append k m.heap (values ∷ []) lt,
          lookup-measure id m' sound ∙ rw (lookup-meter_self id n l) refl,
          λ other ne.
              lookup-measure other m' sound
              ∙ rw (lookup-meter_other id other n l ne)
                  (measured-append (lookup other l) m.heap (values ∷ []) (h.1 other))
              ∙ sym (lookup-measure other m h),
        ),
      )

module _ {V : Type 0} (same_type : V → V → Bool) where
  -- `Store` of a value in a counter of the meter that a pointer points to, when the counter is
  -- empty or holds a value of the same type: the counter then loads that value, and every other
  -- counter, of this meter or another, loads what it did.
  pub load-store :
      (n : ℕ) (c : String) (v : V) (old : Option V) (heap : List (Values V))
      → n < length heap
      → lookup c (deref n heap) ≡ some old
      → store_atomic same_type old v ≡ done (some v)
      → (heap' : List (Values V)) × (store same_type (some n) c v heap ≡ done heap')
        × (load (some n) c heap' ≡ some v)
        × ((k : ℕ) (other : String)
            → (k ≢ n) ⊎ (other ≢ c)
            → load (some k) other heap' ≡ load (some k) other heap)
  unfolding store load
  load-store n c v old heap lt bound e =
      let values = insert c (some v) (deref n heap) in
      (
        set heap n values,
        rw (bound, e, store) refl,
        rw (load, deref-set n heap values lt, lookup-insert_self c (some v) (deref n heap)) refl,
        λ k other differ. load-eq k other (set heap n values) heap (elim differ [
          | inl ne ↦ ap (lookup other) (deref-set_other n k heap values ne)
          | inr ne ↦
              lookup-set n k other heap values lt
                (lookup-insert_other c other (some v) (deref n heap) ne)
        ]),
      )
