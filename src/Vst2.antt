-- ===== src/Vst2.antt =====
-- vst2/vst2.go: the processor that is a plugin. The plugin is other code's: a state, and functions on
-- it, which also calls the callback with itself. Floating point numbers and their operations are
-- parameters, and so is the time signature.
pub mod Positions
use phono.Base.{ℕ, List, [], ◌∷◌, Option, none, some, String}
use phono.Base.Int.{ℤ, pos, add64}
use phono.Buffer.{Buffer, size}

-- The codes that the callback tells apart.
pub data Opcode : Type 0 where
  idle get_current_process_level get_sample_rate get_block_size get_time other_code : Opcode

-- Floating point: `(60.0 / tempo) * rate`, `position/samples + 1.0`, and `Floor(ppq / notes)`.
pub record Floats (Fl N : Type 0) : Type 0 where
  pub samples_per_beat : Fl → ℤ → Fl
  pub ppq_position : ℤ → Fl → Fl
  pub bar_position : Fl → N → Fl

-- A time signature of type T, whose notes per bar are of type N.
pub record Processor (G Fl T : Type 0) : Type 0 where
  pub uid : String
  pub plugin : G
  pub buffer_size : ℤ
  pub num_channels : ℤ
  pub sample_rate : ℤ
  pub tempo : Fl
  pub time_signature : T
  pub current_position : ℤ

-- The plugin; its callback is known by the processor that it closes over.
pub record Plugin (G A Fl T : Type 0) : Type 0 where
  pub set_callback : G → G
  pub set_buffer_size : ℤ → G → G
  pub set_sample_rate : ℤ → G → G
  pub set_speaker_arrangement : ℤ → G → G
  pub resume : G → G
  pub suspend : G → G
  pub process : Buffer A → G → G × Buffer A
  pub dispatch_edit_idle : G → G
  pub set_time_info : ℤ → ℤ → Fl → T → ℤ → Fl → Fl → G → G × ℤ

-- `NewProcessor`, with the id that `NewUID` makes; the tempo and the time signature are zero values.
unfoldable pub new_processor :
    {G Fl T : Type 0} → Fl → T → String → G → ℤ → ℤ → ℤ → Processor G Fl T
new_processor zero_tempo zero_signature uid plugin buffer_size sample_rate num_channels = record {
  uid = uid;
  plugin = plugin;
  buffer_size = buffer_size;
  num_channels = num_channels;
  sample_rate = sample_rate;
  tempo = zero_tempo;
  time_signature = zero_signature;
  current_position = pos 0;
}

module _ {G A Fl T : Type 0} (lib : Plugin G A Fl T) where
  -- `Process`, before it returns its function.
  unfoldable pub start_process : Processor G Fl T → Processor G Fl T
  start_process p =
      let g1 = lib.set_callback p.plugin in
      let g2 = lib.set_buffer_size p.buffer_size g1 in
      let g3 = lib.set_sample_rate p.sample_rate g2 in
      let g4 = lib.set_speaker_arrangement p.num_channels g3 in record p { plugin = lib.resume g4 }

  -- The function that `Process` returns; it never fails.
  unfoldable pub process : Buffer A → Processor G Fl T → Processor G Fl T × Buffer A
  process b p =
      let (g, b') = lib.process b p.plugin in
      let position = add64 p.current_position (pos (size b')) in
      (record p { plugin = g; current_position = position }, b')

  -- `Flush`
  unfoldable pub flush : Processor G Fl T → Processor G Fl T
  flush p = record p { plugin = lib.suspend p.plugin }

  module _ {N : Type 0} (floats : Floats Fl N) (notes_per_bar : T → N) where
    -- The function that `callback` returns, with the reading of the clock.
    unfoldable pub callback : ℤ → Opcode → Processor G Fl T → Processor G Fl T × ℤ
    callback now Opcode.idle p = (record p { plugin = lib.dispatch_edit_idle p.plugin }, pos 0)
    callback now get_current_process_level p = (p, pos 0)
    callback now get_sample_rate p = (p, p.sample_rate)
    callback now get_block_size p = (p, p.buffer_size)
    callback now get_time p =
        let beat = floats.samples_per_beat p.tempo p.sample_rate in
        let ppq = floats.ppq_position p.current_position beat in
        let bar = floats.bar_position ppq (notes_per_bar p.time_signature) in
        let (g, result) =
          lib.set_time_info p.sample_rate p.current_position p.tempo p.time_signature now ppq bar
            p.plugin in
        (record p { plugin = g }, result)
    callback now other_code p = (p, pos 0)
