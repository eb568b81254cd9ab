-- ===== src/Track/Built.antt =====
-- track/track.go: a new track to which clips are added one after another.
use phono.Base.{
  ℕ, ◌+◌, ◌-◌, ◌^◌, ◌≤◌, ◌<◌, ◌≡◌, refl, map, All, List, [], ◌∷◌, ◌++◌, String, ltb, arith,
  Bool-cases, inl, inr, ltb→lt,
}
use phono.Base.Int.{pos}
use phono.Base.Outcome.{Outcome, done, ◌>>=◌}
use phono.Track.{Track, new_track, add_clip}
use phono.Track.Pieces.{Piece, clip_of, Apart, cut_behind}
use phono.Track.Timeline.{earlier, later, until, rests, added, end_of_all}
use phono.Track.Added.{rest_clip}
use phono.Track.Placing.{IsTrack}
use phono.Track.Adding.{add_clip_lem}

module _ {A : Type 0} where
  abbrev Ends : List (Piece A) → Type 0
  Ends es = All (λ f. f.at + f.len < 2 ^ 62) es

  Ends-append : (es fs : List (Piece A)) → Ends es → Ends fs → Ends (es ++ fs)
  Ends-append [] fs h g = g
  Ends-append (e ∷ es) fs h g = (h.0, Ends-append es fs h.1 g)

  Ends-until : (a : ℕ) (es : List (Piece A)) → Ends es → Ends (map (until a) es)
  Ends-until a [] h = tt
  Ends-until a (e ∷ es) h = (omega (arith, h.0), Ends-until a es h.1)

  Ends-earlier : (a : ℕ) (es : List (Piece A)) → Ends es → Ends (earlier a es) × Ends (later a es)
  Ends-earlier a [] h = (tt, tt)
  Ends-earlier a (e ∷ es) h =
      let (before, behind) = Ends-earlier a es h.1 in
      elim (Bool-cases (ltb e.at a)) [
        | inl here ↦ rw here ((h.0, before), behind)
        | inr free ↦ rw free (tt, h)
      ]

  Ends-cut_behind : (s : ℕ) (es : List (Piece A)) → Ends es → Ends (cut_behind s es)
  Ends-cut_behind s [] h = tt
  Ends-cut_behind s (e ∷ es) h = elim (Bool-cases (ltb e.at s)) [
    | inr free ↦ rw free h
    | inl over ↦ elim (Bool-cases (ltb (s - e.at) e.len)) [
      | inl longer ↦ rw (over, longer) (ground (arith, h.0), h.1)
      | inr covered ↦ rw (over, covered) (Ends-cut_behind s es h.1)
    ]
  ]

  Ends-rests :
      (e : Piece A) (es : List (Piece A)) → e.at + e.len < 2 ^ 62 → Ends es → Ends (rests e es)
  Ends-rests e [] small h = tt
  Ends-rests e (f ∷ fs) small h =
      let behind = Ends-rests e fs small h.1 in
      elim (Bool-cases (ltb (e.at + e.len) (f.at + f.len))) [
        | inl longer ↦
            let (is_clip, within) =
              rest_clip e f small h.0 (ltb→lt (e.at + e.len) (f.at + f.len) longer) in
            rw longer (omega (arith, within, h.0), behind)
        | inr covered ↦ rw covered behind
      ]

  Ends-added :
      (e : Piece A) (es : List (Piece A)) → e.at + e.len < 2 ^ 62 → Ends es → Ends (added e es)
  Ends-added e es small h =
      let (before, behind) = Ends-earlier e.at es h in
      Ends-append (map (until e.at) (earlier e.at es))
        (e ∷ (rests e (earlier e.at es) ++ cut_behind (e.at + e.len) (later e.at es)))
        (Ends-until e.at (earlier e.at es) before)
        (
          small,
          Ends-append (rests e (earlier e.at es)) (cut_behind (e.at + e.len) (later e.at es))
              (Ends-rests e (earlier e.at es) small before)
              (Ends-cut_behind (e.at + e.len) (later e.at es) behind),
        )

  end_of_all_lt : (lo : ℕ) (es : List (Piece A)) → lo < 2 ^ 62 → Ends es → end_of_all lo es < 2 ^ 62
  end_of_all_lt lo [] small h = small
  end_of_all_lt lo (e ∷ es) small h = end_of_all_lt (e.at + e.len) es h.0 h.1

  -- Clips that are added one after another, and the pieces that this makes.
  unfoldable pub add_clips : List (Piece A) → Track A → Outcome (Track A)
  add_clips [] t = done t
  add_clips (e ∷ new) t = do t' ← add_clip 2 (pos e.at) (clip_of e) t; add_clips new t'

  abbrev pub added_all : List (Piece A) → List (Piece A) → List (Piece A)
  added_all [] es = es
  added_all (e ∷ new) es = added_all new (added e es)

  add_clips_lem :
      (new : List (Piece A)) (t : Track A) (es : List (Piece A))
      → IsTrack t es
      → Apart 0 es
      → Ends es
      → All (λ e. (1 ≤ e.len) × (e.at + e.len < 2 ^ 62)) new
      → (t' : Track A) × (add_clips new t ≡ done t')
        × IsTrack t' (added_all new es)
        × Apart 0 (added_all new es)
  unfolding add_clips
  add_clips_lem [] t es is apart ends all = (t, refl, is, apart)
  add_clips_lem (e ∷ new) t es is apart ends all =
      let (t1, adds, is1, apart1) =
        add_clip_lem 0 e t es is apart all.0.0 all.0.1 (end_of_all_lt 0 es (omega arith) ends) in
      let (t2, more, is2, apart2) =
        add_clips_lem new t1 (added e es) is1 apart1 (Ends-added e es all.0.1 ends) all.1 in
      (t2, rw adds more, is2, apart2)

  -- Clips of at least one sample that end below 2^62, added to a new track in any order: every AddClip
  -- returns, with one call of itself at most, and the clips of the track are linked forwards and
  -- backwards, lie one behind the other, and are those that the description by pieces gives.
  pub add_clips-new_track :
      (uid : String) (bs num_channels : ℕ) (new : List (Piece A))
      → All (λ e. (1 ≤ e.len) × (e.at + e.len < 2 ^ 62)) new
      → (t : Track A) × (add_clips new (new_track uid bs num_channels) ≡ done t)
        × IsTrack t (added_all new [])
        × Apart 0 (added_all new [])
  unfolding new_track
  add_clips-new_track uid bs num_channels new all =
      add_clips_lem new (new_track uid bs num_channels) []
        (record {
          clips = [];
          linked = (refl, refl);
          distinct = tt;
          enough = omega arith;
          holds = tt;
        })
        tt tt all
