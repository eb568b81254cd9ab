-- ===== src/Track/Playing.antt =====
-- track/track.go: a buffer that lies inside a clip.
use phono.Base.{
  ℕ, suc, ◌+◌, ◌-◌, ◌^◌, ◌≤◌, ◌<◌, ◌≡◌, refl, ap, ◌∙◌, true, false, ltb, List, [], ◌∷◌, Option,
  none, some, map, take, drop, length-take, length-drop, arith, if◌then◌else◌, Bool-cases, inl, inr,
}
use phono.Base.Int.{sub64_le, pos, sub64, add64, add64_pos, leb_ℤ}
use phono.Base.Outcome.{done}
use phono.Buffer.{IsRect, size, slice}
use phono.Buffer.Appending.{append-none}
use phono.Buffer.Slicing.{slice_in}
use phono.Track.{Node, Track, node, clips_end}
use phono.Track.Pumping.{given, going_part, part, round, fill, current_at, buffer_at, pump}

module _ {A : Type 0} where
  size-map :
      (cs : List (List A)) (from n : ℕ)
      → IsRect (size (some cs)) cs
      → 1 ≤ n
      → from + n ≤ size (some cs)
      → size (some (map (λ c. take n (drop from c)) cs)) ≡ n
  size-map [] from n rect some_size covered = absurd (omega arith)
  size-map (c ∷ cs) from n rect some_size covered =
      length-take n (drop from c) ∙ omega (arith, length-drop from c)

-- A clip at a, which has l samples of its buffer from s on.
abbrev pub clip_at : {A : Type 0} → ℕ → ℕ → ℕ → List (List A) → Option ℕ → Option ℕ → Node A
clip_at a s l cs next prev = record {
  at = pos a;
  clip = record { buffer = some cs; start = pos s; len = pos l };
  next = next;
  prev = prev;
}

module _ {A : Type 0} (t : Track A) (a s l i : ℕ) (cs : List (List A)) where
  -- The samples that a buffer at i plays.
  abbrev pub played_at : List (List A)
  played_at = map (λ c. take t.bs (drop (i - a + s) c)) cs

  -- The buffer begins behind the start of the clip, and ends at the latest with it; the clip lies
  -- in its own buffer, and the numbers are ints.
  pub record IsInside : Type 0 where
    pub some_size : 1 ≤ t.bs
    pub begun : a < i
    pub inside : i + t.bs ≤ a + l
    pub rect : IsRect (size (some cs)) cs
    pub covered : i - a + s + t.bs ≤ size (some cs)
    pub int_size : size (some cs) < 2 ^ 63
    pub int_end : a + l < 2 ^ 63

module _ {A : Type 0} (t : Track A) (a s l i : ℕ) (cs : List (List A)) (next prev : Option ℕ)
    (h : IsInside t a s l i cs) where
  abbrev pub node_at : Node A
  node_at = clip_at a s l cs next prev

  abbrev pub samples : List (List A)
  samples = played_at t a s l i cs

  start_lem : add64 (sub64 (pos i) (pos a)) (pos s) ≡ pos (i - a + s)
  start_lem =
      ap (λ x. add64 x (pos s))
        (sub64_le i a (omega (arith, h.begun)) (omega (arith, h.inside, h.int_end)))
      ∙ add64_pos (i - a) s (omega (arith, h.covered, h.int_size))

  slice_lem : slice (some cs) (pos (i - a + s)) (pos t.bs) ≡ done (some samples)
  slice_lem =
      slice_in cs (i - a + s) t.bs h.rect (omega (arith, h.covered, h.some_size))
        (omega (arith, h.covered, h.int_size))

  going_part_lem : going_part t.bs (pos i) (pos (i + t.bs)) node_at ≡ done (some samples)
  unfolding going_part
  going_part_lem =
      let ends = add64_pos a l h.int_end in
      elim (Bool-cases (leb_ℤ (pos (a + l)) (pos (i + t.bs)))) [
        | inl last ↦
            let left : sub64 (pos (a + l)) (pos i) ≡ pos t.bs =
              sub64_le (a + l) i (omega (arith, h.inside)) h.int_end
              ∙ ap pos (ground (arith, h.inside)) in
            rw (start_lem, ends, last, left) slice_lem
        | inr more ↦ rw (start_lem, ends, more) slice_lem
      ]

  length-samples : size (some samples) ≡ t.bs
  length-samples = size-map cs (i - a + s) t.bs h.rect h.some_size h.covered

  module _ (zero_sample : A) (p : ℕ) (found : node (some p) t.heap ≡ done node_at) where
    -- The clip at which the next buffer starts.
    abbrev pub next_clip : Option ℕ
    next_clip = if leb_ℤ (pos (a + l)) (pos (i + t.bs)) then next else some p

    part_lem :
        part zero_sample t.bs t.num_channels (pos i) (pos (i + t.bs)) node_at none
        ≡ done (none, some samples)
    unfolding part
    part_lem =
        let before : leb_ℤ (pos i) (pos a) ≡ false = ground (arith, h.begun) in
        rw (before, going_part_lem) refl

    round_lem :
        round zero_sample (pos (i + t.bs)) t (pos i) (some p) none
        ≡ done (pos (i + t.bs), (next_clip, some samples))
    unfolding round
    round_lem =
        let here : leb_ℤ (pos (i + t.bs)) (pos a) ≡ false = ground (arith, h.begun) in
        let step = add64_pos i t.bs (omega (arith, h.inside, h.int_end)) in
        rw
          (
            found,
            here,
            part_lem,
            length-samples,
            append-none samples,
            add64_pos a l h.int_end,
            step,
          )
          refl

    fill_lem :
        (fuel : ℕ)
        → fill zero_sample (suc (suc fuel)) (pos (i + t.bs)) t (pos i) (some p) none
          ≡ done (next_clip, some samples)
    unfolding fill
    fill_lem fuel =
        let more : ltb 0 t.bs ≡ true = ground (arith, h.some_size) in
        let full : ltb t.bs t.bs ≡ false = ground arith in
        rw (more, round_lem, length-samples, full) refl

    starts_here : t.current ≡ some p → current_at (pos i) t ≡ done (some p)
    unfolding current_at
    starts_here is_current = rw is_current refl

    buffer_at_lem :
        t.current ≡ some p
        → (fuel : ℕ)
        → buffer_at zero_sample (suc (suc fuel)) (pos i) t
          ≡ done (record t { current = next_clip }, some samples)
    unfolding buffer_at
    buffer_at_lem is_current fuel =
        let step = add64_pos i t.bs (omega (arith, h.inside, h.int_end)) in
        simp (starts_here is_current, step, fill_lem fuel)

    -- The track plays a clip and is asked for a buffer that lies inside it: the buffer has, for
    -- every channel, the samples of the clip at these positions. The track goes on with the clip,
    -- or with the next one if the clip ends here. Two rounds are enough.
    pub pump-inside :
        t.current ≡ some p
        → t.next_index ≡ pos i
        → (end : ℕ) → clips_end t ≡ done (pos end)
        → i < end
        → (fuel : ℕ)
        → pump zero_sample (suc (suc fuel)) t
          ≡ done
              (record t { current = next_clip; next_index = pos (i + t.bs) }, given (some samples))
    unfolding pump
    pump-inside is_current is_index end is_end goes_on fuel =
        let unfinished : leb_ℤ (pos end) (pos i) ≡ false = ground arith in
        let step = add64_pos i t.bs (omega (arith, h.inside, h.int_end)) in
        simp (is_end, is_index, unfinished, buffer_at_lem is_current fuel, step)
