-- ===== src/Mixer/Mixed.antt =====
-- mixer/mixer.go: what the pump of a mixer returns after its goroutine has seen all messages.
use phono.Base.{
  ℕ, ◌≤◌, ◌<◌, ◌≡◌, ap, ◌∙◌, List, [], none, some, String, length, get_elem?, get_elem?-ge,
}
use phono.Base.Outcome.{done}
use phono.Buffer.{Buffer}
use phono.Mixer.Mix.{InMessage, Mixer, stopped, mix_all}
use phono.Mixer.Mix.Runs.{IsFair, count_all, column}
use phono.Mixer.Mix.Columns.{add_live, ready_mixer, mix_all-columns}
use phono.Mixer.Methods.{end_of_pipe, give, receive, pump_buffer}

module _ {A : Type 0} (add div : A → A → A) (increment : A → A) (nought : A) where
  pump_buffer-some :
      (k : ℕ) (m : Mixer A) (buffers : List (Buffer A))
      → get_elem? m.out k ≡ some buffers
      → pump_buffer add div increment nought k m
        ≡ give add div increment nought m.num_channels m.buffer_size buffers
  unfolding pump_buffer
  pump_buffer-some k m buffers h =
      ap (receive add div increment nought m.num_channels m.buffer_size m.phase) h

  pump_buffer-none :
      (k : ℕ) (m : Mixer A)
      → get_elem? m.out k ≡ none
      → m.phase ≡ stopped
      → pump_buffer add div increment nought k m ≡ done end_of_pipe
  unfolding pump_buffer
  pump_buffer-none k m h stops =
      ap (receive add div increment nought m.num_channels m.buffer_size m.phase) h
      ∙ ap (λ phase. receive add div increment nought m.num_channels m.buffer_size phase none) stops

  -- A new mixer with at least one input, whose inputs are all registered before it starts, that is not
  -- cancelled, and whose inputs end in the order of their lengths: when all of them have ended, the
  -- function of its pump returns, call by call, the mixes of the first, the second and the further
  -- buffers of all inputs, as long as an input has one, and then the end of the pipe at every call.
  pub pump_buffer-mix_all :
      (uid : String) (buffer_size num_channels : ℕ) (ids : List String)
      (messages : List (InMessage A))
      → 1 ≤ length ids
      → IsFair (add_live ids []) 0 messages
      → length (count_all (add_live ids []) messages) ≡ 0
      → (m : Mixer A) × (n : ℕ) × (mix_all messages (ready_mixer uid buffer_size num_channels ids)
          ≡ done m)
        × ((k : ℕ)
            → k < n
            → pump_buffer add div increment nought k m
              ≡ give add div increment nought num_channels buffer_size
                  (column k (add_live ids []) messages))
        × ((k : ℕ)
            → n ≤ k
            → (column k (add_live ids []) messages ≡ [])
              × (pump_buffer add div increment nought k m ≡ done end_of_pipe))
  pump_buffer-mix_all uid buffer_size num_channels ids messages some_input fair all_ended =
      let (m, e, mixed) =
        mix_all-columns uid buffer_size num_channels ids messages some_input fair in
      (
        m,
        length m.out,
        e,
        λ k lt.
            let at = column k (add_live ids []) messages in
            pump_buffer-some k m at (mixed.columns k lt)
            ∙ ap (λ n. give add div increment nought n m.buffer_size at) mixed.format.0
            ∙ ap (λ n. give add div increment nought num_channels n at) mixed.format.1,
        λ k far. (
          mixed.end all_ended k far,
          pump_buffer-none k m (get_elem?-ge m.out k far) (mixed.returned all_ended),
        ),
      )
