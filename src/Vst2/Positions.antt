-- ===== src/Vst2/Positions.antt =====
-- vst2/vst2.go: the position of the plugin in a stream of buffers.
use phono.Base.{ℕ, ◌+◌, ◌<◌, ◌^◌, ◌≡◌, refl, ap, ◌∙◌, List, [], ◌∷◌, arith}
use phono.Base.Int.{pos, add64, add64_pos}
use phono.Buffer.{Buffer, size}
use phono.Vst2.{Plugin, Processor, process}

module _ {G A Fl T : Type 0} (lib : Plugin G A Fl T) where
  -- Buffers that are processed one after another, and what comes out.
  unfoldable pub process_all :
      List (Buffer A) → Processor G Fl T → Processor G Fl T × List (Buffer A)
  process_all [] p = (p, [])
  process_all (b ∷ bs) p =
      let (p1, out) = process lib b p in let (p2, outs) = process_all bs p1 in (p2, out ∷ outs)

  -- What the plugin alone makes of the buffers.
  unfoldable pub plugin_all : List (Buffer A) → G → G × List (Buffer A)
  plugin_all [] g = (g, [])
  plugin_all (b ∷ bs) g =
      let (g1, out) = lib.process b g in let (g2, outs) = plugin_all bs g1 in (g2, out ∷ outs)

abbrev pub sizes : {A : Type 0} → List (Buffer A) → ℕ
sizes [] = 0
sizes (b ∷ bs) = size b + sizes bs

module _ {G A Fl T : Type 0} (lib : Plugin G A Fl T) where
  -- The buffers that come out of the processor are those of the plugin, and its position moves on by as
  -- many samples as they have, below the largest int64.
  pub process_all-sizes :
      (bs : List (Buffer A)) (p : Processor G Fl T) (start : ℕ)
      → p.current_position ≡ pos start
      → start + sizes (plugin_all lib bs p.plugin).1 < 2 ^ 63
      → ((process_all lib bs p).1 ≡ (plugin_all lib bs p.plugin).1)
        × ((process_all lib bs p).0.plugin ≡ (plugin_all lib bs p.plugin).0)
        × ((process_all lib bs p).0.current_position
            ≡ pos (start + sizes (plugin_all lib bs p.plugin).1))
  unfolding process_all plugin_all process
  process_all-sizes [] p start at small = (refl, refl, at ∙ ap pos (omega arith))
  process_all-sizes (b ∷ bs) p start at small =
      let p1 = (process lib b p).0 in
      let out = (lib.process b p.plugin).1 in
      let at1 : p1.current_position ≡ pos (start + size out) =
        ap (λ z. add64 z (pos (size out))) at ∙ add64_pos start (size out) (omega arith) in
      let (outs, state, position) = process_all-sizes bs p1 (start + size out) at1 (omega arith) in
      (ap (◌∷◌ out) outs, state, position ∙ ap pos (omega arith))
