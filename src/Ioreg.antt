-- ===== src/Ioreg.antt =====
-- lwis_ioreg.c: memory mapped registers in blocks, and the access of lwis_device_ioreg.c.
pub mod Words
pub mod Blocks
pub mod Bounds
use google_lwis.Prelude.{
  ℕ, ◌+◌, ◌-◌, ◌*◌, ◌/◌, ◌%◌, ◌^◌, Bool, true, false, not, ◌&&◌, ◌||◌, Option, none, some, List, [],
  ◌∷◌, neg, nonzero, add64, ltb, ◌==◌, if◌then◌else◌, bit_and, bit_or, get_elem?, sext32,
}
use google_lwis.Kernel.{einval, efault, enosys}
use google_lwis.Io.{
  Rw, RwBatch, IoEntry, Modify, read, read_batch, write, write_batch, modify, poll, read_assert,
  unrecognized, Bus,
}
use google_lwis.Io.Scratch.{modified}
use google_lwis.Ioreg.Words.{Mmio, width_of, read_words, write_words}

-- `struct lwis_ioreg`: the size is an `int`, and a base of 0 is NULL.
pub record Block : Type 0 where
  pub start : ℕ
  pub size : ℕ
  pub base : ℕ
  pub name : List ℕ

-- `struct lwis_ioreg_device`: its blocks, and the widths of the base device.
pub record IoregDevice : Type 0 where
  pub block : List Block
  pub native_addr_bitwidth : ℕ
  pub native_value_bitwidth : ℕ

-- ERR_PTR(-EINVAL) is `none`. The index is an `int`.
unfoldable pub get_block_by_idx : IoregDevice → ℕ → Option Block
get_block_by_idx d index =
    if not (ltb index (2 ^ 31)) then none else (elim (get_elem? d.block index) [
      | none ↦ none
      | some b ↦ (if b.base == 0 then none else some b)
    ])

-- An alignment of 0 is not modelled: the code divides by it.
unfoldable pub validate_offset : Block → ℕ → ℕ → ℕ → ℕ
validate_offset b offset size_in_bytes alignment =
    if nonzero (offset % alignment)
    then neg efault
    else if ltb (2 ^ 64 - 1 - size_in_bytes) offset
        || ltb (sext32 b.size) (add64 offset size_in_bytes)
    then neg efault
    else 0

abbrev pub validate_access_size : ℕ → ℕ → ℕ
validate_access_size access_size native_value_bitwidth =
    if access_size == native_value_bitwidth
    then 0
    else if not (access_size == 8 || access_size == 16 || access_size == 32 || access_size == 64)
    then neg einval
    else if ltb native_value_bitwidth access_size
    then neg enosys
    else 0

-- `internal_offset` of an access that is narrower than the registers.
abbrev pub aligned_down : ℕ → ℕ → ℕ
aligned_down offset native_value_bitwidth =
    bit_and offset (2 ^ 64 - 1 - (native_value_bitwidth / 8 - 1))

abbrev pub internal_offset : IoregDevice → ℕ → ℕ → ℕ
internal_offset d offset access_size =
    if access_size == d.native_value_bitwidth
    then offset
    else aligned_down offset d.native_value_bitwidth

-- `value_mask` at its place: `(1 << access_size) - 1` is an `int`, so 1 << 32 is undefined; it is a
-- parameter.
abbrev pub value_mask : ℕ → ℕ → ℕ → ℕ
value_mask one_shl_32 access_size shift =
    let one = if ltb access_size 32 then 2 ^ access_size else one_shl_32 in
    sext32 ((one + 2 ^ 32 - 1) % 2 ^ 32) * 2 ^ shift % 2 ^ 64

-- The part of the value that a narrower read returns.
abbrev pub narrowed : ℕ → ℕ → ℕ → ℕ → ℕ
narrowed value shift access_size native_value_bitwidth =
    if access_size == native_value_bitwidth
    then value
    else if ltb access_size 64
    then value / 2 ^ shift % 2 ^ access_size
    else value / 2 ^ shift

module _ {Hw : Type 0} (io : Mmio Hw) where
  -- The native accesses at an offset from a base. `*value` is set where the result has `some`.
  unfoldable pub ioreg_read_internal : Hw → ℕ → ℕ → ℕ → ℕ × Option ℕ × Hw
  ioreg_read_internal hw base offset value_bits = elim (width_of value_bits) [
    | none ↦ (neg einval, none, hw)
    | some bytes ↦ let (value, hw') = io.load hw (add64 base offset) bytes in (0, some value, hw')
  ]

  unfoldable pub ioreg_write_internal : Hw → ℕ → ℕ → ℕ → ℕ → ℕ × Hw
  ioreg_write_internal hw base offset value_bits value = elim (width_of value_bits) [
    | none ↦ (neg einval, hw)
    | some bytes ↦ (0, io.store hw (add64 base offset) bytes (value % 2 ^ (8 * bytes)))
  ]

  -- The widths are powers of two, so `size_in_bytes & (value_bits / 8) - 1` is the remainder; with
  -- any other width the code returns -EINVAL either way.
  unfoldable pub ioreg_read_batch_internal : Hw → ℕ → ℕ → ℕ → ℕ → ℕ × List ℕ × Hw
  ioreg_read_batch_internal hw base offset value_bits size_in_bytes = elim (width_of value_bits) [
    | none ↦ (neg einval, [], hw)
    | some bytes ↦
        (let (buf, hw') = read_words io hw (size_in_bytes / bytes) (add64 base offset) bytes in
          if nonzero (size_in_bytes % bytes) then (neg einval, [], hw) else (0, buf, hw'))
  ]

  unfoldable pub ioreg_write_batch_internal : Hw → ℕ → ℕ → ℕ → ℕ → List ℕ → ℕ × Hw
  ioreg_write_batch_internal hw base offset value_bits size_in_bytes buf =
      elim (width_of value_bits) [
        | none ↦ (neg einval, hw)
        | some bytes ↦
            (if nonzero (size_in_bytes % bytes)
              then (neg einval, hw)
              else (0, write_words io hw (size_in_bytes / bytes) (add64 base offset) bytes buf))
      ]

  unfoldable pub lwis_ioreg_read : Hw → IoregDevice → ℕ → ℕ → ℕ → ℕ × Option ℕ × Hw
  unfolding ioreg_read_internal
  lwis_ioreg_read hw d index offset access_size =
      let native = d.native_value_bitwidth in
      let inner = internal_offset d offset access_size in
      let size_ret = validate_access_size access_size native in
      elim (get_block_by_idx d index) [
        | none ↦ (neg einval, none, hw)
        | some b ↦
            (let ret = validate_offset b inner (access_size / 8) (d.native_addr_bitwidth / 8) in
              let (code, value, hw') = ioreg_read_internal hw b.base inner native in
              if nonzero size_ret
              then (size_ret, none, hw)
              else if nonzero ret
              then (ret, none, hw)
              else (
                code,
                elim value [
                  | none ↦ none
                  | some v ↦ some (narrowed v (8 * (offset - inner)) access_size native)
                ],
                hw',
              ))
      ]

  -- What a write stores: a narrower value is put in its place in what was read, which is 0 here where
  -- the code has not set it.
  abbrev pub merged : Option ℕ → ℕ → ℕ → ℕ → ℕ
  merged read_value value shift access_size =
      let mask = value_mask io.one_shl_32 access_size shift in
      let old : ℕ = elim read_value [ none ↦ 0 | some v ↦ v ] in
      bit_or (bit_and (value * 2 ^ shift % 2 ^ 64) mask) (bit_and old (2 ^ 64 - 1 - mask))

  -- A narrower write reads before the offset is validated.
  unfoldable pub lwis_ioreg_write : Hw → IoregDevice → ℕ → ℕ → ℕ → ℕ → ℕ × Hw
  unfolding ioreg_read_internal ioreg_write_internal
  lwis_ioreg_write hw d index offset value access_size =
      let native = d.native_value_bitwidth in
      let inner = internal_offset d offset access_size in
      let size_ret = validate_access_size access_size native in
      elim (get_block_by_idx d index) [
        | none ↦ (neg einval, hw)
        | some b ↦
            (let (_, old, hw_read) = ioreg_read_internal hw b.base inner native in
              let whole = access_size == native in
              let hw1 = if whole then hw else hw_read in
              let value' =
                if whole then value else merged old value (8 * (offset - inner)) access_size in
              let ret = validate_offset b inner (access_size / 8) (d.native_addr_bitwidth / 8) in
              let (code, hw2) = ioreg_write_internal hw1 b.base inner native value' in
              if nonzero size_ret
              then (size_ret, hw)
              else if nonzero ret
              then (ret, hw1)
              else (code, hw2))
      ]

  unfoldable pub read_range : Hw → IoregDevice → RwBatch → ℕ × List ℕ × Hw
  unfolding ioreg_read_batch_internal
  read_range hw d r = elim (get_block_by_idx d r.bid) [
    | none ↦ (neg einval, [], hw)
    | some b ↦
        (let ret = validate_offset b r.offset r.size_in_bytes (d.native_addr_bitwidth / 8) in
          if nonzero ret
          then (ret, [], hw)
          else ioreg_read_batch_internal hw b.base r.offset d.native_value_bitwidth r.size_in_bytes)
  ]

  unfoldable pub write_range : Hw → IoregDevice → RwBatch → ℕ × Hw
  unfolding ioreg_write_batch_internal
  write_range hw d r = elim (get_block_by_idx d r.bid) [
    | none ↦ (neg einval, hw)
    | some b ↦
        (let ret = validate_offset b r.offset r.size_in_bytes (d.native_addr_bitwidth / 8) in
          if nonzero ret
          then (ret, hw)
          else ioreg_write_batch_internal hw b.base r.offset d.native_value_bitwidth r.size_in_bytes
              r.buf)
  ]

  unfoldable pub modify_single : Hw → IoregDevice → Modify → ℕ → ℕ × Hw
  unfolding lwis_ioreg_read lwis_ioreg_write
  modify_single hw d m access_size =
      let (ret, value, hw') = lwis_ioreg_read hw d m.bid m.offset access_size in
      elim value [
        | none ↦ (ret, hw')
        | some reg ↦
            lwis_ioreg_write hw' d m.bid m.offset (modified reg m.val_mask m.val) access_size
      ]

  unfoldable pub lwis_ioreg_io_entry_rw : Hw → IoregDevice → IoEntry → ℕ → ℕ × IoEntry × Hw
  unfolding lwis_ioreg_read lwis_ioreg_write read_range write_range modify_single
  lwis_ioreg_io_entry_rw hw d (read r) size =
      let (ret, value, hw') = lwis_ioreg_read hw d r.bid r.offset size in
      (ret, elim value [ none ↦ read r | some v ↦ read (record r { val = v }) ], hw')
  lwis_ioreg_io_entry_rw hw d (read_batch b) size =
      let (ret, bytes, hw') = read_range hw d b in (ret, read_batch (record b { buf = bytes }), hw')
  lwis_ioreg_io_entry_rw hw d (write r) size =
      let (ret, hw') = lwis_ioreg_write hw d r.bid r.offset r.val size in (ret, write r, hw')
  lwis_ioreg_io_entry_rw hw d (write_batch b) size =
      let (ret, hw') = write_range hw d b in (ret, write_batch b, hw')
  lwis_ioreg_io_entry_rw hw d (modify m) size =
      let (ret, hw') = modify_single hw d m size in (ret, modify m, hw')
  lwis_ioreg_io_entry_rw hw d (poll a) size = (neg einval, poll a, hw)
  lwis_ioreg_io_entry_rw hw d (read_assert a) size = (neg einval, read_assert a, hw)
  lwis_ioreg_io_entry_rw hw d (unrecognized t) size = (neg einval, unrecognized t, hw)

  abbrev pub lwis_ioreg_set_io_barrier : Hw → Bool → Bool → Hw
  lwis_ioreg_set_io_barrier hw use_read_barrier use_write_barrier =
      let hw1 = if use_read_barrier then io.dma_rmb hw else hw in
      if use_write_barrier then io.dma_wmb hw1 else hw1

  -- A device of memory mapped registers as its clients use it (`ioreg_vops`).
  abbrev pub ioreg_bus : IoregDevice → Bus Hw
  ioreg_bus d = record {
    register_io = λ hw e size. lwis_ioreg_io_entry_rw hw d e size;
    register_io_barrier = some lwis_ioreg_set_io_barrier;
    native_value_bitwidth = d.native_value_bitwidth;
  }
