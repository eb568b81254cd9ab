-- ===== src/Lib.antt =====
-- phono, a framework for audio processing: a verification of its core.
--
-- A pipe moves buffers of samples from a pump through processors to sinks. Its goroutine `loop`
-- owns a state (ready, running, pausing, paused) and answers the methods Run, Pause, Resume, Close
-- and Push; the components report to it when they want a message and when they fail or finish.
-- Parameters are mutators of components that travel with the messages.
--
-- Files:
--   Base, Base/*          shared: lists and tests over the native numbers, 64-bit integers with their
--                         wrap-around (Int), Go's maps (Dict), returning, panicking and blocking (Outcome)
--   Buffer, Buffer/*      phono.go: Buffer and Clip with Append, Slice, Clip, EmptyBuffer
--   Pcm, Pcm/*            phono.go: Ints and ReadInts
--   Pipe/Params           pipe/pipe.go: params with add, applyTo, merge, detach; phono.go: ReceivedBy
--   Pipe/Message          pipe/pipe.go: message, newMessage
--   Pipe/Machine          pipe/state.go: states, events, targets and the callers' error channels
--   Pipe/Transition       pipe/state.go: transition of the four states
--   Pipe/Loop, Pipe/Loop/* pipe/state.go: idle, active and loop, one round of a select as `step`
--   Pipe/Meter            pipe/runner.go: meter; phono.go: DurationOf
--   Pipe/Runner, Pipe/Runner/* pipe/runner.go: hooks, and the goroutines of the pump, process and sink
--                         runners; Lifecycle is about their hooks, Counting about meters, Flow and
--                         Flow/* about the messages, Flow/Line about those of a line of runners
--   Pipe/Broadcast, Pipe/Broadcast/* pipe/pipe.go: the message for one sink and its confirmation, and
--                         the goroutine of broadcastToSinks (Sending to Delivered)
--   Pipe/MergeErrors, Pipe/MergeErrors/* pipe/pipe.go: mergeErrors with its goroutines
--   Pipe/Building, Pipe/Building/* pipe/pipe.go: New with its options (Options), start (Wiring);
--                         pipe/runner.go: newPumpRunner, newProcessRunner, newSinkRunner
--   Asset, Asset/*        phono.go: SingleUse; asset/asset.go
--   Mock, Mock/*          mock/mock.go
--   Metric, Metric/*      metric/metric.go
--   Mixer, Mixer/Mixing   mixer/mixer.go: sum, the mix of one frame
--   Mixer/Frames          mixer/mixer.go: frame, send, resetExpectations
--   Mixer/Mix, Mixer/Mix/* mixer/mixer.go: the goroutine mix, and what it sends
--   Mixer/Methods, Mixer/Mixed mixer/mixer.go: the methods, and what the pump of a mixer returns
--   Wav, Wav/*            wav/wav.go: AsSamples, AsBuffer, the pump and the sink, over records of the
--                         functions of the decoder, the encoder and the files
--   Vst2, Vst2/*          vst2/vst2.go: the processor, over the functions of a plugin
--   Portaudio, Portaudio/* portaudio/portaudio.go: the sink, over the functions of the device's library
--   Mp3, Mp3/*            mp3/pump.go: the pump, over a decoder that is a parameter; mp3/sink.go:
--                         the sink (Sinking, Words), over the functions of the lame writer
--   Track, Track/*        track/track.go: the list of clips with AddClip, which Links to Built are
--                         about, where Timeline describes it by the pieces of a track; Pumping is
--                         the pump, which Playing, Starting and Waiting are about
--   Tests/*               runs on concrete inputs, and the theorems applied to them
--
-- Samples are of any type, so no property of floating point is used: the conversions of one sample
-- between float64 and int are parameters of Ints and ReadInts, and the arithmetic on samples is one
-- of the mixer. Lengths of slices are numbers; `int` and `int64` values that come from outside wrap
-- around at 64 bits. A slice expression is modelled for slices without spare capacity. A panic ends
-- a computation, and what it leaves half written is not looked at.
--
-- The loop of a pipe is a machine: what its `select` receives is an input, any sequence of inputs
-- is allowed, and an input that the current select does not offer stays where it is. A mutator is
-- a function on the state of all components, and is taken to return. An error channel handed to a
-- caller has capacity 1, and nothing is assumed of when its owner receives from it. When a run is
-- cancelled, what the components' error channel still delivers until they close it is part of the
-- input; that they do close it is not shown. In the pausing state the input says which sinks ever
-- confirm the message: the wait for the others blocks the loop for ever, as in the code, and the
-- results on whole runs ask for the confirmation of every sink. An event that is behind `Close`
-- in the buffer of the events channel is never received; its error channel is kept apart. Two
-- loops of the model have a bound: the inner loop of ReadInts, whose fuel is the length of the
-- data, since every round moves the index by at least one channel; and the loop of the mp3 pump,
-- whose fuel is one more than the numbers that a buffer takes, since every round appends one or
-- returns.
--
-- A runner is a machine of the same kind: its phase is the select or the channel at which it waits.
-- What it sends is kept in the order of sending. The readings of the clock come with the message,
-- and `DurationOf` is a parameter, which a definition over the arithmetic of float64 fits.
--
-- The frames of a mixer are in a store, and a pointer to one is its number. Its goroutine is a
-- function on the messages it receives, whatever their order; the two loops that follow the pointers
-- have as fuel one more than the number of frames, and a chain of pointers never comes back to a frame,
-- so that it is enough. A mixer's properties are about inputs that are registered before the run, and
-- about inputs that end in the order of their lengths; the code does not keep its promise for others,
-- and one of the results says so of inputs that end in another order.
--
-- The clips of a track are in a store too. The loops of clipAfter and alignNextClip have as fuel one
-- more than the size of the store, which is enough for a list in it. AddClip has fuel for its calls of
-- itself, and two is enough. The loop of bufferAt has its fuel from outside: it does not end for every
-- track, as one result says, and two rounds are enough for a buffer inside a clip or one in which a
-- clip starts that goes on.
--
-- The goroutines of the broadcast and of the merge of errors are machines too; an event that cannot
-- happen in a state leaves it as it is, so that every list of events is a run. A number in the state
-- says how many errors were received from the merged channel, whose buffer holds the others.
--
-- Not modelled: the output of the log, the example programs, and a running pipe as one system: the
-- machines of its goroutines are put together only by the messages that they send each other
-- (Flow/Line, Flow/Complete).
pub mod Base
pub mod Buffer
pub mod Pcm
pub mod Pipe
pub mod Portaudio
pub mod Vst2
pub mod Asset
pub mod Mock
pub mod Metric
pub mod Mp3
pub mod Mixer
pub mod Wav
pub mod Track
mod Tests
