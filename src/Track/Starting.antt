-- ===== src/Track/Starting.antt =====
-- track/track.go: a buffer in which a clip starts that goes on behind it.
use phono.Base.{
  ℕ, zero, suc, ◌+◌, ◌-◌, ◌^◌, ◌≤◌, ◌<◌, ◌≡◌, refl, sym, ap, ◌∙◌, true, false, ltb, List, [], ◌∷◌,
  Option, none, some, length, map, take, drop, replicate, length-replicate, length-take,
  length-drop, arith,
}
use phono.Base.Int.{sub64_le, pos, sub64, add64_pos, leb_ℤ}
use phono.Base.Outcome.{done}
use phono.Buffer.{IsRect, size, append, slice, empty_buffer}
use phono.Buffer.Appending.{append-none, append-parts}
use phono.Buffer.Slicing.{slice_in}
use phono.Track.{Node, Track, node, clips_end}
use phono.Track.Pumping.{
  given, silence, starting_part, part, round, fill, current_at, buffer_at, pump,
}
use phono.Track.Playing.{clip_at}

module _ {A : Type 0} where
  replicate-IsRect : (nc n : ℕ) (x : A) → IsRect n (replicate nc (replicate n x))
  replicate-IsRect zero n x = tt
  replicate-IsRect (suc nc) n x = (length-replicate n x, replicate-IsRect nc n x)

  IsRect-size : (n : ℕ) (cs : List (List A)) → IsRect n cs → 1 ≤ length cs → size (some cs) ≡ n
  IsRect-size n [] rect some_channel = absurd (omega arith)
  IsRect-size n (c ∷ cs) rect some_channel = rect.0

  cut-IsRect :
      (cs : List (List A)) (size from n : ℕ)
      → IsRect size cs
      → from + n ≤ size
      → IsRect n (map (λ c. take n (drop from c)) cs)
  cut-IsRect [] size from n rect covered = tt
  cut-IsRect (c ∷ cs) size from n rect covered =
      let one = rect.0 in
      (
        length-take n (drop from c) ∙ omega (arith, length-drop from c),
        cut-IsRect cs size from n rect.1 covered,
      )

  length-map : (f : List A → List A) (cs : List (List A)) → length (map f cs) ≡ length cs
  length-map f [] = refl
  length-map f (c ∷ cs) = ap suc (length-map f cs)

module _ {A : Type 0} (t : Track A) (a s l i : ℕ) (cs : List (List A)) where
  -- The clip starts in the buffer at i and goes on behind it; it lies in its own buffer, which has the
  -- track's channels, and the numbers are ints.
  pub record IsStarting : Type 0 where
    pub late : i ≤ a
    pub here : a < i + t.bs
    pub goes_on : i + t.bs < a + l
    pub some_channel : 1 ≤ length cs
    pub channels : t.num_channels ≡ length cs
    pub rect : IsRect (size (some cs)) cs
    pub covered : s + (i + t.bs - a) ≤ size (some cs)
    pub int_size : size (some cs) < 2 ^ 63
    pub int_end : a + l < 2 ^ 63

  -- The samples of the clip that the buffer has.
  abbrev pub beginning : List (List A)
  beginning = map (λ c. take (i + t.bs - a) (drop s c)) cs

  -- Silence up to the clip, and then its samples.
  pub record IsOffset (zero_sample : A) (r : List (List A)) : Type 0 where
    pub channels : length r ≡ t.num_channels
    pub rect : IsRect t.bs r
    pub offset : map (take (a - i)) r ≡ replicate t.num_channels (replicate (a - i) zero_sample)
    pub clip : map (drop (a - i)) r ≡ beginning

module _ {A : Type 0} (t : Track A) (a s l i : ℕ) (cs : List (List A)) (next prev : Option ℕ)
    (h : IsStarting t a s l i cs) (zero_sample : A) where
  abbrev pub node_at : Node A
  node_at = clip_at a s l cs next prev

  abbrev pub quiet : List (List A)
  quiet = replicate t.num_channels (replicate (a - i) zero_sample)

  abbrev pub heard : List (List A)
  heard = beginning t a s l i cs

  size-quiet : size (some quiet) ≡ a - i
  size-quiet = IsRect-size (a - i) quiet (replicate-IsRect t.num_channels (a - i) zero_sample) (
      omega (
        arith,
        length-replicate t.num_channels (replicate (a - i) zero_sample),
        h.channels,
        h.some_channel,
      ))

  slice_lem : slice (some cs) (pos s) (pos (i + t.bs - a)) ≡ done (some heard)
  slice_lem =
      slice_in cs s (i + t.bs - a) h.rect (omega (arith, h.covered, h.here))
        (omega (arith, h.covered, h.int_size))

  starting_part_lem :
      starting_part zero_sample t.bs t.num_channels (pos i) (pos (i + t.bs)) node_at none
      ≡ done (some quiet, some heard)
  unfolding starting_part silence empty_buffer
  starting_part_lem =
      let beyond : leb_ℤ (pos (a + l)) (pos (i + t.bs)) ≡ false = ground (arith, h.goes_on) in
      let rest : sub64 (pos t.bs) (pos (a - i)) ≡ pos (i + t.bs - a) =
        sub64_le t.bs (a - i) (omega (arith, h.late, h.here)) (omega (arith, h.goes_on, h.int_end))
        ∙ ap pos (omega (arith, h.late, h.here)) in
      rw
        (
          sub64_le a i h.late (omega (arith, h.int_end)),
          append-none quiet,
          add64_pos a l h.int_end,
          beyond,
          size-quiet,
          rest,
          slice_lem,
        )
        refl

  -- The buffer that is played.
  abbrev pub Heard : Type 0
  Heard =
      (r : List (List A)) × (append (some quiet) (some heard) ≡ done (some r))
      × IsOffset t a s l i cs zero_sample r

  heard_lem : Heard
  heard_lem =
      let n = i + t.bs - a in
      let (r, e, rect, size', before, behind) =
        append-parts (a - i) n quiet heard (replicate-IsRect t.num_channels (a - i) zero_sample)
          (cut-IsRect cs (size (some cs)) s n h.rect h.covered)
          (length-replicate t.num_channels (replicate (a - i) zero_sample)
            ∙ h.channels
            ∙ sym (length-map (λ c. take n (drop s c)) cs)) in
      let whole : a - i + n ≡ t.bs = omega (arith, h.late, h.here) in
      (
        r,
        e,
        record {
          channels = size' ∙ length-replicate t.num_channels (replicate (a - i) zero_sample);
          rect = rw (← whole) rect;
          offset = before;
          clip = behind;
        },
      )

  module _ (p : ℕ) (found : node (some p) t.heap ≡ done node_at) (r : List (List A))
      (appended : append (some quiet) (some heard) ≡ done (some r))
      (size_r : size (some r) ≡ t.bs) where
    part_lem :
        part zero_sample t.bs t.num_channels (pos i) (pos (i + t.bs)) node_at none
        ≡ done (some quiet, some heard)
    unfolding part
    part_lem =
        let starts : leb_ℤ (pos i) (pos a) ≡ true = ground (arith, h.late) in
        rw (starts, starting_part_lem) refl

    size-heard : size (some heard) ≡ i + t.bs - a
    size-heard =
        IsRect-size (i + t.bs - a) heard
          (cut-IsRect cs (size (some cs)) s (i + t.bs - a) h.rect h.covered)
          (omega (arith, length-map (λ c. take (i + t.bs - a) (drop s c)) cs, h.some_channel))

    round_lem :
        round zero_sample (pos (i + t.bs)) t (pos i) (some p) none
        ≡ done (pos (i + (i + t.bs - a)), (some p, some r))
    unfolding round
    round_lem =
        let here : leb_ℤ (pos (i + t.bs)) (pos a) ≡ false = ground (arith, h.here) in
        let step = add64_pos i (i + t.bs - a) (omega (arith, h.late, h.goes_on, h.int_end)) in
        let stays : leb_ℤ (pos (a + l)) (pos (i + (i + t.bs - a))) ≡ false =
          ground (arith, h.late, h.goes_on) in
        rw (found, here, part_lem, size-heard, appended, add64_pos a l h.int_end, step, stays) refl

    fill_lem :
        (fuel : ℕ)
        → fill zero_sample (suc (suc fuel)) (pos (i + t.bs)) t (pos i) (some p) none
          ≡ done (some p, some r)
    unfolding fill
    fill_lem fuel =
        let more : ltb 0 t.bs ≡ true = ground (arith, h.late, h.here) in
        let full : ltb t.bs t.bs ≡ false = ground arith in rw (more, round_lem, size_r, full) refl

    buffer_at_lem :
        current_at (pos i) t ≡ done (some p)
        → (fuel : ℕ)
        → buffer_at zero_sample (suc (suc fuel)) (pos i) t
          ≡ done (record t { current = some p }, some r)
    unfolding buffer_at
    buffer_at_lem is_current fuel =
        let step = add64_pos i t.bs (omega (arith, h.goes_on, h.int_end)) in
        simp (is_current, step, fill_lem fuel)

  -- The track is asked for a buffer in which its next clip starts, and which ends before the clip does:
  -- the buffer has silence up to the clip and then its samples from the first one on, as many as it takes.
  -- The track goes on with the clip. Two rounds are enough.
  pub pump-starting :
      (p : ℕ)
      → node (some p) t.heap ≡ done node_at
      → current_at (pos i) t ≡ done (some p)
      → t.next_index ≡ pos i
      → (end : ℕ) → clips_end t ≡ done (pos end)
      → i < end
      → (fuel : ℕ)
      → (r : List (List A)) × (pump zero_sample (suc (suc fuel)) t
          ≡ done (record t { current = some p; next_index = pos (i + t.bs) }, given (some r)))
        × IsOffset t a s l i cs zero_sample r
  unfolding pump
  pump-starting p found is_current is_index end is_end more fuel =
      let (r, appended, offset) = heard_lem in
      let unfinished : leb_ℤ (pos end) (pos i) ≡ false = ground arith in
      let step = add64_pos i t.bs (omega (arith, h.goes_on, h.int_end)) in
      let some_channel : 1 ≤ length r =
        omega (arith, offset.channels, h.channels, h.some_channel) in
      let whole = IsRect-size t.bs r offset.rect some_channel in
      let buffer = buffer_at_lem p found r appended whole is_current fuel in
      (r, simp (is_end, is_index, unfinished, buffer, step), offset)
