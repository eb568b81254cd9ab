-- ===== src/Track/Adding.antt =====
-- track/track.go: `AddClip`, with all that it does to the clips of a track.
use mathlib.Core.List.{append_assoc}
use mathlib.Core.Path.{subst}
use phono.Base.{
  ℕ, suc, ◌+◌, ◌-◌, ◌^◌, ◌≤◌, ◌<◌, ◌≡◌, refl, sym, ap, ap₂, ◌∙◌, All, List, [], ◌∷◌, ◌++◌, Option,
  none, some, length, length-append, get_elem?-append_right, ltb, ltb→lt, if◌then◌else◌, arith,
  Bool-cases, inl, inr,
}
use phono.Base.Int.{pos}
use phono.Base.Outcome.{done}
use phono.Buffer.{clip}
use phono.Track.{Node, Track, align_prev, with_clip, add_with, add_clip}
use phono.Track.Links.{Seg}
use phono.Track.Pieces.{Piece, clip_of, entry_of, Holds, Apart, cut_behind}
use phono.Track.Timeline.{
  earlier, later, until, rest, added, earlier-append, end_of_all, Apart-append, Apart-split,
  Apart-mono, end_of_all-append, cut_behind_free, earlier_later, earlier-none,
}
use phono.Track.Added.{
  Apart-earlier, added_free, added_over, added-Apart, rest_clip, last_before, All_until, All_snoc,
  earlier_end,
}
use phono.Track.Placing.{IsTrack, IsPlaced-IsTrack, place_lem}
use phono.Track.Cutting.{align_prev_over, ends_with, begins_with}
use phono.Track.Ending.{align_prev_free}

module _ {A : Type 0} where
  -- The first clip of a track that has pieces, and the end of the number of clips.
  first_lem :
      (t : Track A) (es : List (Piece A))
      → IsTrack t es
      → (p : Option ℕ) → t.first ≡ p
      → (fuel : ℕ) (e : Piece A)
      → add_clip (suc fuel) (pos e.at) (clip_of e) t
        ≡ add_with (add_clip fuel) (pos e.at) (clip_of e) p t
  unfolding add_clip
  first_lem t es is p first fuel e =
      ap (λ q. add_with (add_clip fuel) (pos e.at) (clip_of e) q t) first

  -- A clip that no earlier one overlaps, in a track that has clips.
  add_free :
      (fuel p : ℕ) (e : Piece A) (t : Track A) (es : List (Piece A))
      → t.first ≡ some p
      → IsTrack t es
      → Apart 0 es
      → e.at + e.len < 2 ^ 63
      → end_of_all 0 (earlier e.at es) ≤ e.at
      → (t' : Track A) × (add_clip (suc fuel) (pos e.at) (clip_of e) t ≡ done t')
        × IsTrack t' (earlier e.at es ++ e ∷ cut_behind (e.at + e.len) (later e.at es))
  unfolding add_with
  add_free fuel p e t es first is apart small free =
      let (t1, t2, inserted, aligned, pl) = place_lem e t es is small apart in
      let parts =
        Apart-split 0 (earlier e.at es) (later e.at es)
          (subst (Apart 0) (earlier_later e.at es).0 apart) in
      let a = pl.around in
      (
        t2,
        first_lem t es is (some p) first fuel e
            ∙ rw (inserted, aligned)
                (align_prev_free (add_clip fuel) e (length t.heap) t2 pl.cd pl.mid a.here a.prev
                  pl.held pl.before (earlier e.at es) a.front a.distinct_before pl.holds_before
                  parts.0 free (omega arith)),
        IsPlaced-IsTrack e (length t.heap) t2 (earlier e.at es)
            (cut_behind (e.at + e.len) (later e.at es)) pl,
      )

  -- A track without clips.
  add_first :
      (fuel : ℕ) (e : Piece A) (t : Track A) (es : List (Piece A))
      → t.first ≡ none
      → IsTrack t es
      → (t' : Track A) × (add_clip (suc fuel) (pos e.at) (clip_of e) t ≡ done t')
        × IsTrack t' (added e es)
  unfolding add_with
  add_first fuel e t es first is = go is.clips es is.linked is.holds
    where
      go :
          (ns : List ℕ) (es' : List (Piece A))
          → Seg t.heap none t.first ns t.last none
          → Holds t.heap ns es'
          → (t' : Track A) × (add_clip (suc fuel) (pos e.at) (clip_of e) t ≡ done t')
            × IsTrack t' (added e es')
      go [] [] s h =
          let nd : Node A = record { at = pos e.at; clip = clip_of e; next = none; prev = none } in
          let here = get_elem?-append_right t.heap (nd ∷ []) (length t.heap) 0 (omega arith) in
          (
            record (with_clip (pos e.at) (clip_of e) t) {
              first = some (length t.heap);
              last = some (length t.heap);
            },
            first_lem t es is none first fuel e,
            record {
              clips = length t.heap ∷ [];
              linked = (refl, nd, here, refl, (refl, refl));
              distinct = (refl, tt);
              enough = omega (arith, length-append t.heap (nd ∷ []));
              holds = (ap entry_of here, tt);
            },
          )
      go [] (f ∷ fs) s h = absurd h
      go (n ∷ ns) es' s h = let lost : none ≡ some n = sym first ∙ s.0 in cc

  -- The clip that goes on behind the new one, when an earlier one is split.
  add_rest :
      (fuel p : ℕ) (e f : Piece A) (t : Track A) (front ee : List (Piece A))
      → t.first ≡ some p
      → IsTrack t (front ++ e ∷ cut_behind (e.at + e.len) ee)
      → Apart 0 front
      → end_of_all 0 front ≤ e.at
      → All (λ g. g.at < e.at + e.len) front
      → 1 ≤ e.len
      → e.at + e.len < 2 ^ 62
      → f.at + f.len < 2 ^ 62
      → e.at + e.len < f.at + f.len
      → Apart (f.at + f.len) ee
      → (t' : Track A) × (add_clip
            (suc fuel)
            (pos (e.at + e.len))
            (clip f.buffer (pos (f.len + e.len)) (pos (f.at + f.len - (e.at + e.len))))
            t
          ≡ done t')
        × IsTrack t' (front ++ e ∷ (rest e f ∷ cut_behind (e.at + e.len) ee))
  add_rest fuel p e f t front ee first is apart free before long small small' longer behind =
      let s = e.at + e.len in
      let r = rest e f in
      let head = front ++ e ∷ [] in
      let (is_clip, within) = rest_clip e f small small' longer in
      let whole : cut_behind s ee ≡ ee = cut_behind_free s (f.at + f.len) ee behind (omega arith) in
      let whole' : cut_behind (s + r.len) ee ≡ ee =
        cut_behind_free (s + r.len) (f.at + f.len) ee behind within in
      let parts : front ++ e ∷ cut_behind s ee ≡ head ++ ee =
        ap (λ l. front ++ e ∷ l) whole ∙ sym (append_assoc front (e ∷ []) ee) in
      let behind' : Apart s ee = Apart-mono (f.at + f.len) s ee (omega arith) behind in
      let apart' : Apart 0 (head ++ ee) =
        Apart-append 0 head ee (Apart-append 0 front (e ∷ []) apart (free, omega arith, tt))
          (subst (λ k. Apart k ee) (sym (end_of_all-append 0 front e)) behind') in
      let none_before = earlier-none s ee behind' in
      let (is_head, is_ee) =
        earlier-append s head ee (All_snoc s front e before (omega arith)) none_before.0
          none_before.1 in
      let (t', adds, is') =
        add_free fuel p r t (head ++ ee) first (subst (IsTrack t) parts is) apart'
          (omega (arith, within))
          (omega (arith, ap (end_of_all 0) is_head, end_of_all-append 0 front e)) in
      (
        t',
        ap (λ c. add_clip (suc fuel) (pos s) c t) is_clip ∙ adds,
        subst (IsTrack t')
            (ap₂ (λ l m. l ++ r ∷ cut_behind (s + r.len) m) is_head is_ee
              ∙ ap (λ l. head ++ r ∷ l) (whole' ∙ sym whole)
              ∙ append_assoc front (e ∷ []) (r ∷ cut_behind s ee))
            is',
      )

  -- An earlier clip goes beyond the start of the new one.
  add_over :
      (fuel p : ℕ) (e : Piece A) (t : Track A) (es : List (Piece A))
      → t.first ≡ some p
      → IsTrack t es
      → Apart 0 es
      → 1 ≤ e.len
      → e.at + e.len < 2 ^ 62
      → end_of_all 0 es < 2 ^ 62
      → e.at < end_of_all 0 (earlier e.at es)
      → (t' : Track A) × (add_clip (suc (suc fuel)) (pos e.at) (clip_of e) t ≡ done t')
        × IsTrack t' (added e es)
  unfolding add_with
  add_over fuel p e t es first is apart long small bound over =
      let c = length t.heap in
      let s = e.at + e.len in
      let eb = earlier e.at es in
      let ee = later e.at es in
      let (t1, t2, inserted, aligned, pl) = place_lem e t es is (omega arith) apart in
      let parts = Apart-earlier e.at es apart in
      let l =
        ends_with t2.heap none t2.first pl.mid (some c) pl.before eb e.at pl.around.distinct_before
          pl.around.front pl.holds_before over in
      let ends : end_of_all 0 eb ≡ l.f.at + l.f.len =
        ap (end_of_all 0) l.parts ∙ end_of_all-append 0 l.fs l.f in
      let behind : Apart (l.f.at + l.f.len) ee = subst (λ k. Apart k ee) ends parts.1 in
      let before : l.f.at < e.at =
        last_before e.at l.fs l.f
          (subst (All (λ g. g.at < e.at)) l.parts (earlier_later e.at es).1) in
      let end : l.f.at + l.f.len < 2 ^ 62 = omega (arith, ends, earlier_end e.at es apart, bound) in
      let (t3, cuts, pl', first') =
        align_prev_over (add_clip (suc fuel)) e c t2 eb (cut_behind s ee) pl l before
          (omega (arith, ends)) (omega arith) in
      let starts : add_clip (suc (suc fuel)) (pos e.at) (clip_of e) t
          ≡ align_prev (add_clip (suc fuel)) c t2 =
        first_lem t es is (some p) first (suc fuel) e ∙ rw (inserted, aligned) refl in
      let front = l.fs ++ until e.at l.f ∷ [] in
      let is' : IsTrack t3 (front ++ e ∷ cut_behind s ee) =
        IsPlaced-IsTrack e c t3 front (cut_behind s ee) pl' in
      let ongoing =
        add_clip (suc fuel) (pos s)
          (clip l.f.buffer (pos (l.f.len + e.len)) (pos (l.f.at + l.f.len - s))) t3 in
      let is_added = added_over e es l.fs l.f apart l.parts before in
      elim (Bool-cases (ltb s (l.f.at + l.f.len))) [
        | inr covered ↦ (
          t3,
          starts ∙ cuts ∙ ap (λ b. if b then ongoing else done t3) covered,
          subst (IsTrack t3)
              (sym (
                is_added
                ∙ ap (λ b. front ++ e ∷ ((if b then rest e l.f ∷ [] else []) ++ cut_behind s ee))
                    covered))
              is',
        )
        | inl longer ↦
            let all : added e es ≡ front ++ e ∷ (rest e l.f ∷ cut_behind s ee) =
              is_added
              ∙ ap (λ b. front ++ e ∷ ((if b then rest e l.f ∷ [] else []) ++ cut_behind s ee))
                  longer in
            let apart' =
              Apart-split 0 front (e ∷ (rest e l.f ∷ cut_behind s ee))
                (subst (Apart 0) all (added-Apart e es apart small (omega (arith, ends)))) in
            let (p', is_p') =
              begins_with t2.heap none t2.first pl.mid (some c) l.x pl.before l.inside
                pl.around.front in
            let (t', added', is'') =
              add_rest fuel p' e l.f t3 front ee (first' ∙ is_p') is' apart'.0 apart'.1.0
                (All_until e.at s l.fs l.f (omega arith)
                  (subst (All (λ g. g.at < e.at)) l.parts (earlier_later e.at es).1))
                long small end (ltb→lt s (l.f.at + l.f.len) longer) behind in
            (
              t',
              starts ∙ cuts ∙ ap (λ b. if b then ongoing else done t3) longer ∙ added',
              subst (IsTrack t') (sym all) is'',
            )
      ]

  -- `AddClip` of a clip with at least one sample, to a track whose clips are linked forwards and
  -- backwards, lie one behind the other and end below 2^62, as the new clip does, returns, with one call
  -- of itself at most, a track that is linked like this and whose clips lie one behind the other. They
  -- are: the earlier clips, cut where the new one starts; the new clip; what the code lets go on of an
  -- earlier one that the new one splits; the later clips without those that the new one covers, the
  -- first of the others shortened to what the new one leaves of it.
  pub add_clip_lem :
      (fuel : ℕ) (e : Piece A) (t : Track A) (es : List (Piece A))
      → IsTrack t es
      → Apart 0 es
      → 1 ≤ e.len
      → e.at + e.len < 2 ^ 62
      → end_of_all 0 es < 2 ^ 62
      → (t' : Track A) × (add_clip (suc (suc fuel)) (pos e.at) (clip_of e) t ≡ done t')
        × IsTrack t' (added e es)
        × Apart 0 (added e es)
  add_clip_lem fuel e t es is apart long small bound =
      let (t', adds, is') = go t.first refl in
      (t', adds, is', added-Apart e es apart small (omega (arith, earlier_end e.at es apart)))
    where
      go :
          (p : Option ℕ)
          → t.first ≡ p
          → (t' : Track A) × (add_clip (suc (suc fuel)) (pos e.at) (clip_of e) t ≡ done t')
            × IsTrack t' (added e es)
      go none first = add_first (suc fuel) e t es first is
      go (some p) first = elim (Bool-cases (ltb e.at (end_of_all 0 (earlier e.at es)))) [
        | inl over ↦ add_over fuel p e t es first is apart long small bound (ground arith)
        | inr free ↦
            let (t', adds, is') =
              add_free (suc fuel) p e t es first is apart (omega arith) (ground arith) in
            (t', adds, subst (IsTrack t') (sym (added_free e es apart (ground arith))) is')
      ]
