-- ===== src/Io/Access.antt =====
-- lwis_util.c: single register accesses, with the barrier around them.
use google_lwis.Prelude.{ℕ, Bool, true, false, Option, none, some, neg, nonzero}
use google_lwis.Kernel.{einval, enodev}
use google_lwis.Io.{read, write, RegisterIo, RegisterIoBarrier, Vops, read_value}

module _ {Hw : Type 0} where
  -- The call of `register_io_barrier`, where the device has one.
  abbrev pub barrier : Option (RegisterIoBarrier Hw) → Bool → Bool → Hw → Hw
  barrier none rb wb hw = hw
  barrier (some f) rb wb hw = f hw rb wb

  write_with : Option (RegisterIo Hw) → Vops Hw → Hw → ℕ → ℕ → ℕ → ℕ → ℕ × Hw
  write_with none v hw bid offset value size = (neg einval, hw)
  write_with (some register_io) v hw bid offset value size =
      let entry = write (record { bid = bid; offset = offset; val = value }) in
      let (ret, _, hw') = register_io (barrier v.register_io_barrier false true hw) entry size in
      (ret, hw')

  -- The device is NULL at `none`.
  unfoldable pub lwis_device_single_register_write : Option (Vops Hw) → Hw → ℕ → ℕ → ℕ → ℕ → ℕ × Hw
  unfolding write_with
  lwis_device_single_register_write none hw bid offset value size = (neg enodev, hw)
  lwis_device_single_register_write (some v) hw bid offset value size =
      write_with v.register_io v hw bid offset value size

  -- `*value` is set where the result has `some`.
  read_with : Option (RegisterIo Hw) → Vops Hw → Hw → ℕ → ℕ → ℕ → ℕ × Option ℕ × Hw
  read_with none v hw bid offset size = (neg einval, none, hw)
  read_with (some register_io) v hw bid offset size =
      let entry = read (record { bid = bid; offset = offset; val = 0 }) in
      let (ret, entry', hw') = register_io hw entry size in
      (
        ret,
        elim (nonzero ret) [ true ↦ none | false ↦ some (read_value entry') ],
        barrier v.register_io_barrier true false hw',
      )

  unfoldable pub lwis_device_single_register_read :
      Option (Vops Hw) → Hw → ℕ → ℕ → ℕ → ℕ × Option ℕ × Hw
  unfolding read_with
  lwis_device_single_register_read none hw bid offset size = (neg enodev, none, hw)
  lwis_device_single_register_read (some v) hw bid offset size =
      read_with v.register_io v hw bid offset size
