-- ===== src/Tests/TrackTests.antt =====
-- track/track.go: the table of `TestSliceOverlaps`, with numbers as samples.
use phono.Base.{ℕ, zero, suc, ◌≡◌, refl, List, [], ◌∷◌, ◌++◌, some}
use phono.Base.Int.{pos, ◌+ℤ◌, ◌-ℤ◌, wrap64, add64, sub64}
use phono.Base.Outcome.{Outcome, done, blocked, ◌>>=◌}
use phono.Buffer.{
  Buffer, Clip, clip, append, append_channels, slice, slice_channels, slice_expr, empty_buffer,
}
use phono.Track.{
  Track, new_track, add_clip, clip_after, clips_end, node, update, insert_clip, link_next,
  link_prev, align_with, align_next, align_behind, add_with, align_prev, remove_next,
}
use phono.Track.Pumping.{
  Given, given, end_of_pipe, start_pump, pump, buffer_at, current_at, fill, round, part,
  starting_part, going_part, silent_round, silence,
}

abbrev pub buffer_1 : Buffer ℕ
buffer_1 = some ((1 ∷ 1 ∷ 1 ∷ 1 ∷ 1 ∷ 1 ∷ 1 ∷ 1 ∷ 1 ∷ 1 ∷ []) ∷ [])

abbrev pub buffer_2 : Buffer ℕ
buffer_2 = some ((2 ∷ 2 ∷ 2 ∷ 2 ∷ 2 ∷ 2 ∷ 2 ∷ 2 ∷ 2 ∷ 2 ∷ []) ∷ [])

-- The clips of a track, added in order.
abbrev add_all : List (ℕ × Clip ℕ) → Track ℕ → Outcome (Track ℕ)
add_all [] t = done t
add_all ((at, c) ∷ clips) t = do t' ← add_clip 3 (pos at) c t; add_all clips t'

-- The samples of all buffers of a track with one channel, to the end of the pipe.
abbrev samples : Buffer ℕ → List ℕ
samples (some (c ∷ [])) = c
samples other = []

abbrev after_call : (Track ℕ → Outcome (List ℕ)) → Track ℕ × Given ℕ → Outcome (List ℕ)
after_call rest (t, given b) = do cs ← rest t; done (samples b ++ cs)
after_call rest (t, end_of_pipe) = done []

abbrev all_samples : ℕ → Track ℕ → Outcome (List ℕ)
all_samples zero t = blocked
all_samples (suc fuel) t = do r ← pump 0 9 t; after_call (all_samples fuel) r

abbrev played : ℕ → List (ℕ × Clip ℕ) → Outcome (List ℕ)
played bs clips = do t ← add_all clips (new_track "track" bs 1); all_samples 9 (start_pump t)

sequence :
    played 2 ((3, clip buffer_1 (pos 3) (pos 1)) ∷ (4, clip buffer_2 (pos 5) (pos 3)) ∷ [])
    ≡ done (0 ∷ 0 ∷ 0 ∷ 1 ∷ 2 ∷ 2 ∷ 2 ∷ 0 ∷ [])
unfolding add_clip clip_after clips_end node update insert_clip link_next link_prev align_with
    align_next align_behind add_with align_prev remove_next new_track start_pump pump buffer_at
    current_at fill round part starting_part going_part silent_round silence add64 sub64 wrap64 ◌+ℤ◌
    ◌-ℤ◌ clip append append_channels slice slice_channels slice_expr empty_buffer
sequence = refl

sequence_increased :
    played 3 ((3, clip buffer_1 (pos 3) (pos 1)) ∷ (4, clip buffer_2 (pos 5) (pos 3)) ∷ [])
    ≡ done (0 ∷ 0 ∷ 0 ∷ 1 ∷ 2 ∷ 2 ∷ 2 ∷ 0 ∷ 0 ∷ [])
unfolding add_clip clip_after clips_end node update insert_clip link_next link_prev align_with
    align_next align_behind add_with align_prev remove_next new_track start_pump pump buffer_at
    current_at fill round part starting_part going_part silent_round silence add64 sub64 wrap64 ◌+ℤ◌
    ◌-ℤ◌ clip append append_channels slice slice_channels slice_expr empty_buffer
sequence_increased = refl

sequence_shifted :
    played 2 ((2, clip buffer_1 (pos 3) (pos 1)) ∷ (3, clip buffer_2 (pos 5) (pos 3)) ∷ [])
    ≡ done (0 ∷ 0 ∷ 1 ∷ 2 ∷ 2 ∷ 2 ∷ [])
unfolding add_clip clip_after clips_end node update insert_clip link_next link_prev align_with
    align_next align_behind add_with align_prev remove_next new_track start_pump pump buffer_at
    current_at fill round part starting_part going_part silent_round silence add64 sub64 wrap64 ◌+ℤ◌
    ◌-ℤ◌ clip append append_channels slice slice_channels slice_expr empty_buffer
sequence_shifted = refl

sequence_interval :
    played 2 ((2, clip buffer_1 (pos 3) (pos 1)) ∷ (4, clip buffer_2 (pos 5) (pos 3)) ∷ [])
    ≡ done (0 ∷ 0 ∷ 1 ∷ 0 ∷ 2 ∷ 2 ∷ 2 ∷ 0 ∷ [])
unfolding add_clip clip_after clips_end node update insert_clip link_next link_prev align_with
    align_next align_behind add_with align_prev remove_next new_track start_pump pump buffer_at
    current_at fill round part starting_part going_part silent_round silence add64 sub64 wrap64 ◌+ℤ◌
    ◌-ℤ◌ clip append append_channels slice slice_channels slice_expr empty_buffer
sequence_interval = refl

overlap_previous :
    played 2 ((3, clip buffer_1 (pos 3) (pos 3)) ∷ (2, clip buffer_2 (pos 5) (pos 2)) ∷ [])
    ≡ done (0 ∷ 0 ∷ 2 ∷ 2 ∷ 1 ∷ 1 ∷ [])
unfolding add_clip clip_after clips_end node update insert_clip link_next link_prev align_with
    align_next align_behind add_with align_prev remove_next new_track start_pump pump buffer_at
    current_at fill round part starting_part going_part silent_round silence add64 sub64 wrap64 ◌+ℤ◌
    ◌-ℤ◌ clip append append_channels slice slice_channels slice_expr empty_buffer
overlap_previous = refl

overlap_next :
    played 2 ((2, clip buffer_1 (pos 3) (pos 3)) ∷ (4, clip buffer_2 (pos 5) (pos 2)) ∷ [])
    ≡ done (0 ∷ 0 ∷ 1 ∷ 1 ∷ 2 ∷ 2 ∷ [])
unfolding add_clip clip_after clips_end node update insert_clip link_next link_prev align_with
    align_next align_behind add_with align_prev remove_next new_track start_pump pump buffer_at
    current_at fill round part starting_part going_part silent_round silence add64 sub64 wrap64 ◌+ℤ◌
    ◌-ℤ◌ clip append append_channels slice slice_channels slice_expr empty_buffer
overlap_next = refl

overlap_middle :
    played 2 ((2, clip buffer_1 (pos 3) (pos 5)) ∷ (4, clip buffer_2 (pos 5) (pos 2)) ∷ [])
    ≡ done (0 ∷ 0 ∷ 1 ∷ 1 ∷ 2 ∷ 2 ∷ 1 ∷ 0 ∷ [])
unfolding add_clip clip_after clips_end node update insert_clip link_next link_prev align_with
    align_next align_behind add_with align_prev remove_next new_track start_pump pump buffer_at
    current_at fill round part starting_part going_part silent_round silence add64 sub64 wrap64 ◌+ℤ◌
    ◌-ℤ◌ clip append append_channels slice slice_channels slice_expr empty_buffer
overlap_middle = refl

overlap_two :
    played 2 (
      (2, clip buffer_1 (pos 3) (pos 2))
      ∷ (5, clip buffer_1 (pos 3) (pos 2))
      ∷ (4, clip buffer_2 (pos 5) (pos 2))
      ∷ [])
    ≡ done (0 ∷ 0 ∷ 1 ∷ 1 ∷ 2 ∷ 2 ∷ 1 ∷ 0 ∷ [])
unfolding add_clip clip_after clips_end node update insert_clip link_next link_prev align_with
    align_next align_behind add_with align_prev remove_next new_track start_pump pump buffer_at
    current_at fill round part starting_part going_part silent_round silence add64 sub64 wrap64 ◌+ℤ◌
    ◌-ℤ◌ clip append append_channels slice slice_channels slice_expr empty_buffer
overlap_two = refl

overlap_shifted :
    played 2 (
      (2, clip buffer_1 (pos 3) (pos 2))
      ∷ (5, clip buffer_1 (pos 5) (pos 2))
      ∷ (3, clip buffer_2 (pos 3) (pos 2))
      ∷ [])
    ≡ done (0 ∷ 0 ∷ 1 ∷ 2 ∷ 2 ∷ 1 ∷ 1 ∷ 0 ∷ [])
unfolding add_clip clip_after clips_end node update insert_clip link_next link_prev align_with
    align_next align_behind add_with align_prev remove_next new_track start_pump pump buffer_at
    current_at fill round part starting_part going_part silent_round silence add64 sub64 wrap64 ◌+ℤ◌
    ◌-ℤ◌ clip append append_channels slice slice_channels slice_expr empty_buffer
overlap_shifted = refl

overlap_single :
    played 2 ((2, clip buffer_1 (pos 3) (pos 2)) ∷ (2, clip buffer_2 (pos 3) (pos 5)) ∷ [])
    ≡ done (0 ∷ 0 ∷ 2 ∷ 2 ∷ 2 ∷ 2 ∷ 2 ∷ 0 ∷ [])
unfolding add_clip clip_after clips_end node update insert_clip link_next link_prev align_with
    align_next align_behind add_with align_prev remove_next new_track start_pump pump buffer_at
    current_at fill round part starting_part going_part silent_round silence add64 sub64 wrap64 ◌+ℤ◌
    ◌-ℤ◌ clip append append_channels slice slice_channels slice_expr empty_buffer
overlap_single = refl

overlap_completely :
    played 2 (
      (2, clip buffer_1 (pos 3) (pos 2))
      ∷ (5, clip buffer_1 (pos 5) (pos 2))
      ∷ (1, clip buffer_2 (pos 1) (pos 8))
      ∷ [])
    ≡ done (0 ∷ 2 ∷ 2 ∷ 2 ∷ 2 ∷ 2 ∷ 2 ∷ 2 ∷ 2 ∷ 0 ∷ [])
unfolding add_clip clip_after clips_end node update insert_clip link_next link_prev align_with
    align_next align_behind add_with align_prev remove_next new_track start_pump pump buffer_at
    current_at fill round part starting_part going_part silent_round silence add64 sub64 wrap64 ◌+ℤ◌
    ◌-ℤ◌ clip append append_channels slice slice_channels slice_expr empty_buffer
overlap_completely = refl

-- A clip that is shorter than the rest of its buffer: its sample comes twice.
short_clip : played 4 ((1, clip buffer_1 (pos 3) (pos 1)) ∷ []) ≡ done (0 ∷ 1 ∷ 1 ∷ 0 ∷ [])
unfolding add_clip clip_after clips_end node update insert_clip link_next link_prev align_with
    align_next align_behind add_with align_prev remove_next new_track start_pump pump buffer_at
    current_at fill round part starting_part going_part silent_round silence add64 sub64 wrap64 ◌+ℤ◌
    ◌-ℤ◌ clip append append_channels slice slice_channels slice_expr empty_buffer
short_clip = refl

abbrev ramp : Buffer ℕ
ramp = some ((0 ∷ 1 ∷ 2 ∷ 3 ∷ 4 ∷ 5 ∷ 6 ∷ 7 ∷ 8 ∷ 9 ∷ []) ∷ [])

-- A clip of the first five samples that is split at its second one: its rest plays the samples from
-- the seventh on.
split_clip :
    played 5 ((0, clip ramp (pos 0) (pos 5)) ∷ (1, clip buffer_1 (pos 0) (pos 1)) ∷ [])
    ≡ done (0 ∷ 1 ∷ 6 ∷ 7 ∷ 8 ∷ [])
unfolding add_clip clip_after clips_end node update insert_clip link_next link_prev align_with
    align_next align_behind add_with align_prev remove_next new_track start_pump pump buffer_at
    current_at fill round part starting_part going_part silent_round silence add64 sub64 wrap64 ◌+ℤ◌
    ◌-ℤ◌ clip append append_channels slice slice_channels slice_expr empty_buffer
split_clip = refl
