-- ===== src/Tests.antt =====
-- The theorems at concrete inputs, and runs of the model on the inputs of the repository's tests.
mod BufferTests
mod PcmTests
mod ParamsTests
mod LoopTests
mod RunnerTests
mod LineTests
mod ComponentTests
mod Mp3Tests
mod MixerTests
mod MixTests
mod WavTests
mod TrackTests
mod LinkTests
mod PlayTests
mod StartTests
mod DeviceTests
