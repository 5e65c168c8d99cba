-- ===== src/Ioctl/Registers.antt =====
-- lwis_ioctl.c: register accesses that a client asks for and waits for.
use google_lwis.Prelude.{
  ℕ, ◌+◌, ◌*◌, ◌/◌, ◌%◌, ◌^◌, Bool, true, false, not, ◌&&◌, Option, none, some, List, [], ◌∷◌, neg,
  nonzero, ltb, ◌==◌, if◌then◌else◌, length, take,
}
use google_lwis.Kernel.{Kernel, World, kmalloc, enomem, efault, einval}
use google_lwis.Io.{
  IoEntry, read, read_batch, write, write_batch, modify, poll, read_assert, unrecognized, Bus,
}
use google_lwis.Io.Access.{barrier}
use google_lwis.Io.Poll.{lwis_entry_read_assert, lwis_entry_poll}

-- The result of one entry: the error or 0, what is written to the user, and the world.
abbrev pub Answer : Type 0 → Type 0
Answer Hw = ℕ × Option IoEntry × World Hw

module _ (k : Kernel) {Hw : Type 0} (bus : Bus Hw) where
  abbrev access : World Hw → IoEntry → ℕ × IoEntry × World Hw
  access w e =
      let (ret, e', hw') = bus.register_io w.hw e bus.native_value_bitwidth in
      (ret, e', record w { hw = hw' })

  -- Reading, and copying to the user, which `copied` says succeeds.
  abbrev read_out : Bool → World Hw → IoEntry → Answer Hw
  read_out copied w e =
      let (ret, e', w') = access w e in
      if nonzero ret
      then (ret, none, w')
      else if copied
      then (0, some e', w')
      else (neg efault, none, w')

  abbrev in_buffer : World Hw → (World Hw → Answer Hw) → Answer Hw
  in_buffer w act = let (done, w1) = kmalloc k w in if done then act w1 else (neg enomem, none, w1)

  unfoldable pub register_read : Bool → World Hw → IoEntry → Answer Hw
  register_read copied w (read r) = read_out copied w (read r)
  register_read copied w (read_batch b) =
      in_buffer w (λ w1. read_out copied w1 (read_batch (record b { buf = [] })))
  register_read copied w e = (neg einval, none, w)

  abbrev no_answer : World Hw → IoEntry → Answer Hw
  no_answer w e = let (ret, e', w') = access w e in (ret, none, w')

  -- The bytes of a batch write are those of the user, where copying them succeeds.
  unfoldable pub register_write : Bool → World Hw → IoEntry → Answer Hw
  register_write copied w (write r) = no_answer w (write r)
  register_write copied w (write_batch b) =
      in_buffer w (λ w1. if copied then no_answer w1 (write_batch b) else (neg efault, none, w1))
  register_write copied w e = (neg einval, none, w)

  unfoldable pub register_modify : World Hw → IoEntry → Answer Hw
  register_modify w e = no_answer w e

  unfoldable pub synchronous_entry : Bool → World Hw → IoEntry → Answer Hw
  unfolding register_read register_write register_modify
  synchronous_entry copied w (modify m) = register_modify w (modify m)
  synchronous_entry copied w (read r) = register_read copied w (read r)
  synchronous_entry copied w (read_batch b) = register_read copied w (read_batch b)
  synchronous_entry copied w (write r) = register_write copied w (write r)
  synchronous_entry copied w (write_batch b) = register_write copied w (write_batch b)
  synchronous_entry copied w (poll a) =
      let (ret, w') = lwis_entry_poll k bus w a false in (ret, none, w')
  synchronous_entry copied w (read_assert a) =
      let (ret, w') = lwis_entry_read_assert bus w a in (ret, none, w')
  synchronous_entry copied w (unrecognized t) = (neg einval, none, w)

  -- The loop from entry number i on, with the answers in their order. It ends at the first error.
  unfoldable pub synchronous_from :
      (ℕ → Bool) → ℕ → World Hw → List IoEntry → ℕ × List (Option IoEntry) × World Hw
  unfolding synchronous_entry
  synchronous_from copies i w [] = (0, [], w)
  synchronous_from copies i w (e ∷ es) =
      let (ret, answer, w1) = synchronous_entry (copies i) w e in
      let rest = synchronous_from copies (i + 1) w1 es in
      if nonzero ret then (ret, answer ∷ [], w1) else (rest.0, answer ∷ rest.1, rest.2)

  unfoldable pub synchronous_process_io_entries :
      (ℕ → Bool) → World Hw → List IoEntry → ℕ × List (Option IoEntry) × World Hw
  unfolding synchronous_from
  synchronous_process_io_entries copies w es =
      let begun = record w { hw = barrier bus.register_io_barrier false true w.hw } in
      let (ret, answers, w1) = synchronous_from copies 0 begun es in
      (ret, answers, record w1 { hw = barrier bus.register_io_barrier true false w1.hw })

-- sizeof(struct lwis_io_entry)
abbrev pub sizeof_io_entry : ℕ
sizeof_io_entry = 48

-- The number of whole entries in the buffer, whose size is a uint32_t.
abbrev pub buffer_entries : ℕ → ℕ
buffer_entries num_io_entries = sizeof_io_entry * num_io_entries % 2 ^ 32 / sizeof_io_entry

module _ (k : Kernel) {Hw : Type 0} (bus : Bus Hw) where
  -- On a device that has register_io, which others refuse with -EINVAL. `none`: the loop has gone past
  -- the end of the buffer.
  unfoldable pub copy_io_entries : Bool → Bool → World Hw → ℕ × World Hw
  copy_io_entries header_copied entries_copied w =
      let (done, w1) = kmalloc k w in
      if not header_copied
      then (neg efault, w)
      else if not done
      then (neg enomem, w1)
      else if not entries_copied
      then (neg efault, w1)
      else (0, w1)

  unfoldable pub ioctl_reg_io :
      Bool
      → Bool
      → (ℕ → Bool)
      → World Hw
      → List IoEntry
      → Option (ℕ × List (Option IoEntry) × World Hw)
  unfolding copy_io_entries synchronous_process_io_entries
  ioctl_reg_io header_copied entries_copied copies w es =
      let (ret, w1) = copy_io_entries header_copied entries_copied w in
      let held = take (buffer_entries (length es)) es in
      let done = synchronous_process_io_entries k bus copies w1 held in
      if nonzero ret
      then some (ret, [], w1)
      else if done.0 == 0 && ltb (length held) (length es)
      then none
      else some done
