-- ===== src/Mixer/Mix/Extending.antt =====
-- mixer/mixer.go: a new frame behind the last one.
use phono.Base.{
  ℕ, suc, ◌≤◌, ◌<◌, ◌≡◌, refl, sym, ap, ◌∙◌, List, [], ◌∷◌, ◌++◌, none, some, length, get_elem?,
  set, ltb, ◌==◌, if◌then◌else◌, arith, inl, inr, ◌⊎◌, length-append, length-set, Bool-cases,
  ltb→lt,
}
use phono.Buffer.{Buffer}
use phono.Mixer.Frames.{Frame, new_frame}
use phono.Mixer.Mix.Waiting.{Live, IsBelow, waiting-IsBelow}
use phono.Mixer.Mix.Chain.{get-set, get-append}
use phono.Mixer.Mix.Invariant.{AreFrames, AreSent, IsStalled}

module _ {A : Type 0} (live : Live) (longest : ℕ) (heap : List (Frame A)) (c : ℕ) (f : Frame A)
    (found : get_elem? heap c ≡ some f) (is_last : suc c ≡ length heap)
    (below : IsBelow (suc (length heap)) live) where
  abbrev pub linked : List (Frame A)
  linked = set heap c (record f { next = some (length heap) })

  abbrev pub extended : List (Frame A)
  extended = linked ++ new_frame (length live) ∷ []

  pub length-extended : length extended ≡ suc (length heap)
  length-extended =
      let size = length-set heap c (record f { next = some (length heap) }) in
      let longer = length-append linked (new_frame (length live) ∷ []) in omega arith

  -- A frame of before, with its new successor.
  record IsOlder (k : ℕ) (g : Frame A) : Type 0 where
    old : Frame A
    before : k < length heap
    was : get_elem? heap k ≡ some old
    same_buffers : g.buffers ≡ old.buffers
    same_expected : g.expected ≡ old.expected
    link : g.next ≡ (if k == c then some (length heap) else old.next)

  old_or_new :
      (k : ℕ) (g : Frame A)
      → get_elem? extended k ≡ some g
      → ((k ≡ length heap) × (g ≡ new_frame (length live))) ⊎ IsOlder k g
  old_or_new k g is =
      let size = length-set heap c (record f { next = some (length heap) }) in
      elim (get-append linked (new_frame (length live)) k g is) [
        | inl (same, new) ↦ inl (same ∙ size, new)
        | inr (before, old) ↦
            inr (elim (get-set heap c (record f { next = some (length heap) }) k g old) [
              | inl (same, is') ↦
                  let next : g.next ≡ some (length heap) = ap (λ (x : Frame A). x.next) is' in
                  record {
                    old = f;
                    before = omega arith;
                    was = ap (get_elem? heap) same ∙ found;
                    same_buffers = ap (λ (x : Frame A). x.buffers) is';
                    same_expected = ap (λ (x : Frame A). x.expected) is';
                    link = ground arith;
                  }
              | inr (differ, is') ↦ record {
                old = g;
                before = omega arith;
                was = is';
                same_buffers = refl;
                same_expected = refl;
                link = ground arith;
              }
            ])
      ]

  pub extended-AreFrames : AreFrames live longest heap → AreFrames live longest extended
  extended-AreFrames frames k g is =
      let all = waiting-IsBelow (length heap) live below in
      let size = length-extended in
      elim (old_or_new k g is) [
        | inl (same, new) ↦
            let next : g.next ≡ none = ap (λ (x : Frame A). x.next) new in
            let expected : g.expected ≡ length live = ap (λ (x : Frame A). x.expected) new in
            let buffers : length g.buffers ≡ 0 = ap (λ (x : Frame A). length x.buffers) new in
            record {
              next = ground arith;
              total = rw same (omega arith);
              enough = omega arith;
              fresh = λ le. expected;
            }
        | inr older ↦
            let frame = frames k older.old older.was in
            let next = frame.next in
            let link = older.link in
            let before = older.before in
            let buffers : length g.buffers ≡ length older.old.buffers =
              ap length older.same_buffers in
            let expected = older.same_expected in
            let total = frame.total in
            let enough = frame.enough in
            record {
              next = ground arith;
              total = omega arith;
              enough = omega arith;
              fresh = λ le. expected ∙ frame.fresh le;
            }
      ]

  pub extended-AreSent :
      (out : List (List (Buffer A)))
      → length out ≤ length heap
      → AreSent live heap out
      → AreSent live extended out
  extended-AreSent out le sent k g is lt = elim (old_or_new k g is) [
    | inl (same, new) ↦ absurd (omega arith)
    | inr older ↦
        let (there, none_left) = sent k older.old older.was lt in
        (there ∙ ap some (sym older.same_buffers), none_left)
  ]

  pub extended-IsStalled :
      (sent : ℕ)
      → 1 ≤ length live
      → IsStalled live (length heap) sent
      → IsStalled live (length extended) sent
  extended-IsStalled sent some_live stalled =
      let all = waiting-IsBelow (length heap) live below in
      let size = length-extended in
      (
        omega arith,
        λ less. elim (Bool-cases (ltb sent (length heap))) [
          | inl before ↦ stalled.1 (ltb→lt sent (length heap) before)
          | inr last ↦ let same : sent ≡ length heap = ground arith in rw same (omega arith)
        ],
      )
