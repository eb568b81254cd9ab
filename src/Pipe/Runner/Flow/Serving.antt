-- ===== src/Pipe/Runner/Flow/Serving.antt =====
-- pipe/runner.go: one more message for the plain loop.
use phono.Base.{
  ◌≤◌, suc, ◌+◌, ◌≡◌, refl, sym, ap, ap₂, ◌∙◌, List, [], ◌∷◌, ◌++◌, Option, none, some, append_nil,
  length, length-append, arith,
}
use phono.Pipe.Params.{World}
use phono.Pipe.Message.{Message}
use phono.Pipe.Runner.Flow.{Serve, after_serve, serve_all}

-- Nothing is left.
pub none_left {ℓ} :
    {A : Type ℓ} (all out rest : List A) → all ≡ out ++ rest → length rest ≤ 0 → out ≡ all
none_left all out [] e few = sym (e ∙ append_nil out)
none_left all out (x ∷ rest) e few = absurd (omega arith)

module _ {A C : Type 0} (serve : Serve A C) where
  -- All messages so far were served.
  abbrev pub Served : World C → List (Message A C) → World C → List (Message A C) → Type 0
  Served w0 msgs w out = (serve_all serve msgs w0 ≡ (w, out)) × (length out ≡ length msgs)

  serve_all_next :
      (msgs : List (Message A C)) (m : Message A C) (w0 : World C)
      → length (serve_all serve msgs w0).1 ≡ length msgs
      → serve_all serve (msgs ++ m ∷ []) w0 ≡ (
        (after_serve serve (λ w. (w, [])) (serve m (serve_all serve msgs w0).0)).0,
        (serve_all serve msgs w0).1
            ++ (after_serve serve (λ w. (w, [])) (serve m (serve_all serve msgs w0).0)).1,
      )
  unfolding serve_all
  serve_all_next [] m w0 same = refl
  serve_all_next (x ∷ msgs) m w0 same = go (serve x w0) same (λ w. serve_all_next msgs m w)
    where
      go :
          (p : World C × Option (Message A C))
          → length (after_serve serve (serve_all serve msgs) p).1 ≡ suc (length msgs)
          → ((w : World C)
              → length (serve_all serve msgs w).1 ≡ length msgs
              → serve_all serve (msgs ++ m ∷ []) w ≡ (
                (after_serve serve (λ w. (w, [])) (serve m (serve_all serve msgs w).0)).0,
                (serve_all serve msgs w).1
                    ++ (after_serve serve (λ w. (w, [])) (serve m (serve_all serve msgs w).0)).1,
              ))
          → after_serve serve (serve_all serve (msgs ++ m ∷ [])) p ≡ (
            (after_serve serve
                (λ w. (w, []))
                (serve m (after_serve serve (serve_all serve msgs) p).0)).0,
            (after_serve serve (serve_all serve msgs) p).1
                ++ (after_serve serve
                    (λ w. (w, []))
                    (serve m (after_serve serve (serve_all serve msgs) p).0)).1,
          )
      go (w, none) same next = absurd (omega arith)
      go (w, some y) same next =
          ap (λ (p : World C × List (Message A C)). (p.0, y ∷ p.1)) (next w (omega arith))

  pub Served-next :
      (msgs out : List (Message A C)) (m m' : Message A C) (w0 w w' : World C)
      → Served w0 msgs w out
      → serve m w ≡ (w', some m')
      → Served w0 (msgs ++ m ∷ []) w' (out ++ m' ∷ [])
  Served-next msgs out m m' w0 w w' (all, same) goes =
      let now : serve m (serve_all serve msgs w0).0 ≡ (w', some m') =
        ap (λ (p : World C × List (Message A C)). serve m p.0) all ∙ goes in
      (
        serve_all_next msgs m w0 (ap (λ (p : World C × List (Message A C)). length p.1) all ∙ same)
            ∙ ap₂
                (λ (p : World C × Option (Message A C)) l. (
                  (after_serve serve (λ w. (w, [])) p).0,
                  l ++ (after_serve serve (λ w. (w, [])) p).1,
                ))
                now (ap (λ p. p.1) all),
        length-append out (m' ∷ []) ∙ ap (λ n. n + 1) same ∙ sym (length-append msgs (m ∷ [])),
      )

  pub failed_next :
      (msgs out : List (Message A C)) (m : Message A C) (w0 w w' : World C)
      → Served w0 msgs w out
      → serve m w ≡ (w', none)
      → (serve_all serve (msgs ++ m ∷ []) w0).1 ≡ out
  failed_next msgs out m w0 w w' (all, same) fails =
      let now : serve m (serve_all serve msgs w0).0 ≡ (w', none) =
        ap (λ (p : World C × List (Message A C)). serve m p.0) all ∙ fails in
      ap (λ p. p.1)
        (serve_all_next msgs m w0
          (ap (λ (p : World C × List (Message A C)). length p.1) all ∙ same))
      ∙ ap₂ (λ (p : World C × Option (Message A C)) l. l ++ (after_serve serve (λ w. (w, [])) p).1)
          now (ap (λ p. p.1) all)
      ∙ append_nil out
