-- ===== src/Track/Waiting.antt =====
-- track/track.go: a track without channels, such as `New` makes for an asset that is empty.
use phono.Base.{
  ℕ, zero, suc, ◌^◌, ◌≤◌, ◌<◌, ◌≡◌, refl, true, false, ltb, [], Option, none, some, length, arith,
}
use phono.Base.Int.{ℤ, pos, ◌-ℤ◌, wrap64, sub64, add64, leb_ℤ}
use phono.Base.Outcome.{done, blocked}
use phono.Buffer.{Buffer, size, append, append_channels, empty_buffer}
use phono.Track.{Node, Track, node, clip_after, clips_end}
use phono.Track.Pumping.{silence, silent_round, round, fill, current_at, buffer_at, pump}

sub64_pos : (n : ℕ) → n < 2 ^ 63 → sub64 (pos n) (pos 0) ≡ pos n
unfolding sub64 wrap64 ◌-ℤ◌
sub64_pos n h = ground arith

module _ {A : Type 0} (zero_sample : A) (t : Track A) (no_channel : t.num_channels ≡ 0)
    (some_size : 1 ≤ t.bs) (int_size : t.bs < 2 ^ 63) where
  -- Nothing is appended.
  silent_round-nothing :
      (index : ℤ) (current : Option ℕ) (result : Buffer A)
      → size result ≡ 0
      → append result (some []) ≡ done (some [])
      → silent_round zero_sample t index current result ≡ done (index, (current, some []))
  unfolding silent_round silence empty_buffer
  silent_round-nothing index current result is_empty e =
      rw (is_empty, sub64_pos t.bs int_size, no_channel, e) refl

  module _ (p : ℕ) (n : Node A) (found : node (some p) t.heap ≡ done n) where
    fill-blocked :
        (fuel : ℕ) (buffer_end index : ℤ)
        → leb_ℤ buffer_end n.at ≡ true
        → fill zero_sample fuel buffer_end t index (some p) (some []) ≡ blocked
    unfolding fill round append append_channels
    fill-blocked zero buffer_end index far = refl
    fill-blocked (suc fuel) buffer_end index far =
        let more : ltb 0 t.bs ≡ true = ground arith in
        rw (more, found, far, silent_round-nothing index (some p) (some []) refl refl)
          (fill-blocked fuel buffer_end index far)

    fill-blocked_nil :
        (fuel : ℕ) (buffer_end index : ℤ)
        → leb_ℤ buffer_end n.at ≡ true
        → fill zero_sample fuel buffer_end t index (some p) none ≡ blocked
    unfolding fill round append append_channels
    fill-blocked_nil zero buffer_end index far = refl
    fill-blocked_nil (suc fuel) buffer_end index far =
        let more : ltb 0 t.bs ≡ true = ground arith in
        rw (more, found, far, silent_round-nothing index (some p) none refl refl)
          (fill-blocked fuel buffer_end index far)

    starts_at :
        t.current ≡ none
        → clip_after (suc (length t.heap)) t.next_index t.first t.heap ≡ done (some p)
        → current_at t.next_index t ≡ done (some p)
    unfolding current_at
    starts_at no_current next = rw no_current next

    -- A track without channels, with a size of buffers that is positive and an int, that has not
    -- come to the end of its clips and has no current clip; the next one is found and starts behind the
    -- buffer that is asked for: the function of its pump does not return, whatever the fuel.
    pub pump-blocked :
        t.current ≡ none
        → clip_after (suc (length t.heap)) t.next_index t.first t.heap ≡ done (some p)
        → leb_ℤ (add64 t.next_index (pos t.bs)) n.at ≡ true
        → (end : ℤ) → clips_end t ≡ done end
        → leb_ℤ end t.next_index ≡ false
        → (fuel : ℕ) → pump zero_sample fuel t ≡ blocked
    unfolding pump buffer_at
    pump-blocked no_current next far end is_end goes_on fuel =
        rw
          (
            is_end,
            goes_on,
            starts_at no_current next,
            fill-blocked_nil fuel (add64 t.next_index (pos t.bs)) t.next_index far,
          )
          refl
