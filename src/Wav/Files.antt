-- ===== src/Wav/Files.antt =====
-- wav/wav.go: the pump and the sink. Files, the decoder and the encoder are those of the libraries:
-- each is a state, with the functions of it that the source calls.
use phono.Base.{
  ℕ, zero, suc, ◌*◌, Bool, false, [], Option, none, some, String, ◌⊎◌, inl, inr, length, replicate,
  take, leb, if◌then◌else◌,
}
use phono.Base.Int.{ℤ, pos}
use phono.Base.Outcome.{Outcome, done, panic, ◌>>=◌}
use phono.Buffer.{Buffer}
use phono.Asset.{SingleUseError, single_use}
use phono.Wav.{
  Format, IntBuffer, AudioBuffer, int_buffer, Error, not_valid, source_not_defined, end_of_pipe,
  library_error, Result, value, failed, as_samples, as_buffer,
}

-- The opening of files, and the decoder.
pub record Decoding (F D : Type 0) : Type 0 where
  pub open_file : String → F ⊎ ℕ
  pub close : F → F × Option ℕ
  pub new_decoder : F → D
  pub is_valid_file : D → Bool
  pub format : D → Format
  pub sample_rate : D → ℕ
  pub bit_depth : D → ℕ
  pub audio_format : D → ℕ
  -- The numbers that were read, or an error, with the buffer that was filled.
  pub pcm_buffer : D → IntBuffer → D × (IntBuffer × (ℕ ⊎ ℕ))

-- `Pump`
pub record Pump (F D : Type 0) : Type 0 where
  pub uid : String
  pub buffer_size : ℕ
  pub wav_num_channels : ℕ
  pub wav_sample_rate : ℕ
  pub wav_bit_depth : ℕ
  pub wav_audio_format : ℕ
  pub wav_format : Format
  pub file : F
  pub decoder : Option D
  pub ib : IntBuffer
  pub once : Bool

module _ {F D : Type 0} (lib : Decoding F D) where
  -- The pump of a file that is valid.
  abbrev pub pump_of : String → F → ℕ → D → Pump F D
  pump_of uid file buffer_size d = record {
    uid = uid;
    buffer_size = buffer_size;
    wav_num_channels = (lib.format d).num_channels;
    wav_sample_rate = lib.sample_rate d;
    wav_bit_depth = lib.bit_depth d;
    wav_audio_format = lib.audio_format d;
    wav_format = lib.format d;
    file = file;
    decoder = some d;
    ib = record {
      format = some (lib.format d);
      numbers = replicate (buffer_size * (lib.format d).num_channels) (pos 0);
      source_bit_depth = lib.bit_depth d;
    };
    once = false;
  }

  -- `NewPump`, with the id that `NewUID` makes. What closing the file of an invalid wav does to it is
  -- not looked at.
  unfoldable pub new_pump : String → String → ℕ → Result (Pump F D)
  new_pump uid path buffer_size = elim (lib.open_file path) [
    | inr err ↦ failed (library_error err)
    | inl file ↦
        let d = lib.new_decoder file in
        if lib.is_valid_file d then value (pump_of uid file buffer_size d) else failed not_valid
  ]

  -- `Pump.Flush`
  unfoldable pub flush_pump : Pump F D → Pump F D × Option ℕ
  flush_pump p = (record p { file = (lib.close p.file).0 }, (lib.close p.file).1)

  -- `Pump.Reset`
  unfoldable pub reset_pump : Pump F D → Pump F D × Option SingleUseError
  reset_pump p = let (once, err) = single_use p.once in (record p { once = once }, err)

module _ {F D A : Type 0} (lib : Decoding F D) (of_int : ℤ → A) (zero_sample : A)
    (num_frames : AudioBuffer → ℕ) where
  -- What follows a `PCMBuffer` that returned n numbers: the numbers behind them are cut off.
  unfoldable pub after_pcm : ℕ → Pump F D → Outcome (Pump F D × Result (Buffer A))
  after_pcm zero p = done (p, failed end_of_pipe)
  after_pcm (suc n) p =
      if leb (suc n) (length p.ib.numbers)
      then (let ib = record p.ib { numbers = take (suc n) p.ib.numbers } in
          done
            (record p { ib = ib }, as_samples of_int zero_sample num_frames (some (int_buffer ib))))
      else panic

  -- The result of `PCMBuffer`.
  unfoldable pub on_pcm :
      Pump F D → D × (IntBuffer × (ℕ ⊎ ℕ)) → Outcome (Pump F D × Result (Buffer A))
  on_pcm p (d, (ib, inl n)) = after_pcm n (record p { decoder = some d; ib = ib })
  on_pcm p (d, (ib, inr err)) =
      done (record p { decoder = some d; ib = ib }, failed (library_error err))

  -- The function that `Pump` returns, given the decoder.
  unfoldable pub pump_with : Option D → Pump F D → Outcome (Pump F D × Result (Buffer A))
  pump_with none p = done (p, failed source_not_defined)
  pump_with (some d) p = on_pcm p (lib.pcm_buffer d p.ib)

  -- The function that `Pump` returns.
  unfoldable pub pump : Pump F D → Outcome (Pump F D × Result (Buffer A))
  unfolding pump_with
  pump p = pump_with p.decoder p

-- The creation of files, and the encoder.
pub record Encoding (F E : Type 0) : Type 0 where
  pub create : String → F ⊎ ℕ
  pub close : F → F × Option ℕ
  pub new_encoder : F → ℕ → ℕ → ℕ → ℕ → E
  pub write : E → IntBuffer → E × Option ℕ
  pub close_encoder : E → E × Option ℕ

-- `Sink`
pub record Sink (F E : Type 0) : Type 0 where
  pub uid : String
  pub wav_sample_rate : ℕ
  pub wav_num_channels : ℕ
  pub wav_bit_depth : ℕ
  pub wav_audio_format : ℕ
  pub file : F
  pub encoder : E
  pub ib : IntBuffer

abbrev pub error_of : Option ℕ → Option Error
error_of none = none
error_of (some n) = some (library_error n)

module _ {F E : Type 0} (lib : Encoding F E) where
  -- `NewSink`
  unfoldable pub new_sink : String → String → ℕ → ℕ → ℕ → ℕ → Result (Sink F E)
  new_sink uid path sample_rate num_channels bit_depth audio_format = elim (lib.create path) [
    | inr err ↦ failed (library_error err)
    | inl file ↦ value (record {
      uid = uid;
      wav_sample_rate = sample_rate;
      wav_num_channels = num_channels;
      wav_bit_depth = bit_depth;
      wav_audio_format = audio_format;
      file = file;
      encoder = lib.new_encoder file sample_rate bit_depth num_channels audio_format;
      ib = record {
        format = some (record { num_channels = num_channels; sample_rate = sample_rate });
        numbers = [];
        source_bit_depth = bit_depth;
      };
    })
  ]

  -- `Sink.Flush`: the file stays open when the encoder fails.
  unfoldable pub flush_sink : Sink F E → Sink F E × Option Error
  flush_sink s =
      let (e, err) = lib.close_encoder s.encoder in
      elim err [
        | some n ↦ (record s { encoder = e }, some (library_error n))
        | none ↦
            (record s { encoder = e; file = (lib.close s.file).0 }, error_of (lib.close s.file).1)
      ]

module _ {F E A : Type 0} (lib : Encoding F E) (to_int : A → ℤ) where
  -- What follows `AsBuffer`.
  unfoldable pub write_buffer :
      Sink F E → Option AudioBuffer × Option Error → Sink F E × Option Error
  write_buffer s (some (int_buffer ib), none) = (
    record s { ib = ib; encoder = (lib.write s.encoder ib).0 },
    error_of (lib.write s.encoder ib).1,
  )
  write_buffer s (other, none) = (s, none)
  write_buffer s (other, some err) = (s, some err)

  -- The function that `Sink` returns.
  unfoldable pub sink : Buffer A → Sink F E → Outcome (Sink F E × Option Error)
  sink b s = do r ← as_buffer to_int b (some (int_buffer s.ib)); done (write_buffer s r)
