-- ===== src/Mp3/Sinking.antt =====
-- mp3/sink.go: the sink that writes mp3 files. The file and the lame writer are other code's: what the
-- sink calls of them are the functions of a record. `binary.Write` of an int16 to a `bytes.Buffer`
-- appends two bytes and does not fail; a byte is a number below 256.
use phono.Base.{
  ℕ, ◌-◌, ◌/◌, ◌%◌, ◌^◌, Bool, false, List, [], ◌∷◌, ◌++◌, Option, none, some, String, ◌⊎◌, inl,
  inr, ltb, if◌then◌else◌,
}
use phono.Base.Int.{ℤ, pos, negsuc}
use phono.Base.Outcome.{Outcome, done, ◌>>=◌}
use phono.Buffer.{Buffer}
use phono.Pcm.{ints}
use phono.Asset.{SingleUseError, single_use}

-- The files and the writer; an error is a number.
pub record Lame (F W : Type 0) : Type 0 where
  pub create : String → F ⊎ ℕ
  pub new_writer : F → W
  pub set_bitrate : ℤ → W → W
  pub set_quality : ℤ → W → W
  pub set_num_channels : ℤ → W → W
  pub set_in_samplerate : ℤ → W → W
  pub set_mode_joint_stereo : W → W
  pub set_vbr_rh : W → W
  pub init_params : W → W
  pub write : W → List ℕ → W × Option ℕ
  pub close : W → W × Option ℕ
  pub close_file : F → F × Option ℕ

pub record Sink (F W : Type 0) : Type 0 where
  pub uid : String
  pub f : F
  pub wr : W
  pub once : Bool

-- The low 16 bits of an int, as an unsigned number, and `int16` of it.
unfoldable pub low16 : ℤ → ℕ
low16 (pos n) = n % 2 ^ 16
low16 (negsuc n) = 2 ^ 16 - 1 - n % 2 ^ 16

abbrev pub signed16 : ℕ → ℤ
signed16 n = if ltb n (2 ^ 15) then pos n else negsuc (2 ^ 16 - 1 - n)

unfoldable pub int16 : ℤ → ℤ
unfolding low16
int16 z = signed16 (low16 z)

-- `binary.Write(buf, binary.LittleEndian, v)`
unfoldable pub binary_write : List ℕ → ℤ → List ℕ
unfolding low16
binary_write buf v = buf ++ low16 v % 256 ∷ low16 v / 256 ∷ []

-- The loop of the function that `Sink` returns.
unfoldable pub write_all : List ℤ → List ℕ → List ℕ
unfolding int16 binary_write
write_all [] buf = buf
write_all (v ∷ vs) buf = write_all vs (binary_write buf (int16 v))

-- A nil slice has no elements.
abbrev pub elements : Option (List ℤ) → List ℤ
elements none = []
elements (some l) = l

module _ {F W : Type 0} (lame : Lame F W) where
  -- The calls of the encoder in `NewSink`.
  unfoldable pub configure : ℤ → ℤ → ℤ → ℤ → W → W
  configure sample_rate num_channels bit_rate quality w =
      let w1 = lame.set_bitrate bit_rate w in
      let w2 = lame.set_quality quality w1 in
      let w3 = lame.set_num_channels num_channels w2 in
      let w4 = lame.set_in_samplerate sample_rate w3 in
      lame.init_params (lame.set_vbr_rh (lame.set_mode_joint_stereo w4))

  -- `NewSink`, with the id that `NewUID` makes.
  unfoldable pub new_sink : String → String → ℤ → ℤ → ℤ → ℤ → Sink F W ⊎ ℕ
  unfolding configure
  new_sink uid path sample_rate num_channels bit_rate quality = elim (lame.create path) [
    | inr err ↦ inr err
    | inl f ↦ inl (record {
      uid = uid;
      f = f;
      wr = configure sample_rate num_channels bit_rate quality (lame.new_writer f);
      once = false;
    })
  ]

  -- `Reset`
  unfoldable pub reset_sink : Sink F W → Sink F W × Option SingleUseError
  reset_sink s = let (once, err) = single_use s.once in (record s { once = once }, err)

  -- `Flush`: the file stays open when the writer fails.
  unfoldable pub flush_sink : Sink F W → Sink F W × Option ℕ
  flush_sink s =
      let (w, err) = lame.close s.wr in
      elim err [
        | some n ↦ (record s { wr = w }, some n)
        | none ↦ (record s { wr = w; f = (lame.close_file s.f).0 }, (lame.close_file s.f).1)
      ]

  -- The function that `Sink` returns.
  unfoldable pub sink : {A : Type 0} → (A → ℤ) → Buffer A → Sink F W → Outcome (Sink F W × Option ℕ)
  unfolding write_all
  sink to_int b s = do
    numbers ← ints to_int b
    let (w, err) = lame.write s.wr (write_all (elements numbers) [])
    done (record s { wr = w }, err)
