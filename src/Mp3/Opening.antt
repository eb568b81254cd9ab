-- ===== src/Mp3/Opening.antt =====
-- mp3/pump.go: the pump of an mp3 file around its function: it is opened, asked for its format, and
-- closed. Files and decoders are other code's: functions that may return an error, which is a number.
use phono.Base.{ℕ, false, Option, none, some, String, ◌⊎◌, inl, inr}
use phono.Mp3.{Pump}

pub record Decoding (F D : Type 0) : Type 0 where
  pub open_file : String → F ⊎ ℕ
  pub new_decoder : F → D ⊎ ℕ
  pub close_decoder : D → D × Option ℕ
  pub decoder_rate : D → ℕ

-- The whole `Pump`: `core` has the fields that its function uses.
pub record FilePump (F D : Type 0) : Type 0 where
  pub uid : String
  pub f : F
  pub core : Pump D

module _ {F D : Type 0} (lib : Decoding F D) where
  -- `NewPump`, with the id that `NewUID` makes; the file stays open when it cannot be decoded.
  unfoldable pub new_pump : String → String → ℕ → FilePump F D ⊎ ℕ
  new_pump uid path buffer_size = elim (lib.open_file path) [
    | inr err ↦ inr err
    | inl f ↦ elim (lib.new_decoder f) [
      | inr err ↦ inr err
      | inl d ↦ inl (record {
        uid = uid;
        f = f;
        core = record { d = d; buffer_size = buffer_size; is_done = false };
      })
    ]
  ]

  -- `Flush`
  unfoldable pub flush_pump : FilePump F D → FilePump F D × Option ℕ
  flush_pump p =
      let (d, err) = lib.close_decoder p.core.d in
      (record p { core = record p.core { d = d } }, err)

  -- `SampleRate`, also of a pump that is nil.
  unfoldable pub sample_rate : Option (FilePump F D) → ℕ
  sample_rate none = 0
  sample_rate (some p) = lib.decoder_rate p.core.d

-- `NumChannels`
abbrev pub num_channels : {F D : Type 0} → FilePump F D → ℕ
num_channels p = 2
