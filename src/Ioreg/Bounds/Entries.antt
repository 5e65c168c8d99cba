-- ===== src/Ioreg/Bounds/Entries.antt =====
-- lwis_ioreg_io_entry_rw: the addresses that it accesses, and the bytes that a batch read stores.
use google_lwis.Prelude.{
  ℕ, ◌+◌, ◌/◌, ◌^◌, ◌≤◌, ◌<◌, ◌≡◌, inl, inr, false, Option, some, List, arith, nonzero, if-cases,
  All, add64, Option-cases, length, subst, sym, ==_refl,
}
use google_lwis.Io.{
  RwBatch, Modify, IoEntry, read, read_batch, write, write_batch, modify, poll, read_assert,
  unrecognized, IsBus,
}
use google_lwis.Io.Scratch.{modified}
use google_lwis.Ioreg.Words.{Mmio, width_of, length-read_words}
use google_lwis.Ioreg.{
  Block, IoregDevice, get_block_by_idx, validate_offset, ioreg_read_batch_internal, lwis_ioreg_read,
  lwis_ioreg_write, read_range, write_range, modify_single, lwis_ioreg_io_entry_rw, ioreg_bus,
}
use google_lwis.Ioreg.Bounds.{
  Access, logged, IsMapped, IsSized, IsNative, offset_fits, whole_words, read_internal-IsMapped,
  write_internal-IsMapped, read_batch-IsMapped, write_batch-IsMapped,
}

module _ {Hw : Type 0} (io : Mmio Hw) (d : IoregDevice) (sized : IsSized d) where
  -- The test of the offset, for a block of the device.
  tested :
      (index : ℕ) (b : Block) (offset size : ℕ)
      → get_block_by_idx d index ≡ some b
      → size < 2 ^ 64
      → nonzero (validate_offset b offset size (d.native_addr_bitwidth / 8)) ≡ false
      → offset + size ≤ b.size
  tested index b offset size here small passed =
      offset_fits b offset size (d.native_addr_bitwidth / 8) ((sized.1 index b here).0) small
        (ground arith)

  read-IsMapped :
      (h : Hw × List Access) (index offset : ℕ)
      → All (IsMapped d) h.1
      → All (IsMapped d) (lwis_ioreg_read (logged io) h d index offset d.native_value_bitwidth).2.1
  unfolding lwis_ioreg_read
  read-IsMapped h index offset before =
      let native = d.native_value_bitwidth in
      elim (Option-cases (get_block_by_idx d index)) [
        | inl missing ↦ rw (lwis_ioreg_read, missing) before
        | inr (b, here) ↦
            rw (lwis_ioreg_read, here, ==_refl native)
              (if-cases (λ (r : ℕ × Option ℕ × (Hw × List Access)). All (IsMapped d) r.2.1)
                (nonzero (validate_offset b offset (native / 8) (d.native_addr_bitwidth / 8)))
                (λ _. before)
                (λ passed.
                  read_internal-IsMapped io d index b here (sized.1 index b here).0
                    (sized.1 index b here).1 h before offset native
                    (tested index b offset (native / 8) here (omega (arith, sized.0)) passed)))
      ]

  write-IsMapped :
      (h : Hw × List Access) (index offset value : ℕ)
      → All (IsMapped d) h.1
      → All
          (IsMapped d)
          (lwis_ioreg_write (logged io) h d index offset value d.native_value_bitwidth).1.1
  unfolding lwis_ioreg_write
  write-IsMapped h index offset value before =
      let native = d.native_value_bitwidth in
      elim (Option-cases (get_block_by_idx d index)) [
        | inl missing ↦ rw (lwis_ioreg_write, missing) before
        | inr (b, here) ↦
            rw (lwis_ioreg_write, here, ==_refl native)
              (if-cases (λ (r : ℕ × (Hw × List Access)). All (IsMapped d) r.1.1)
                (nonzero (validate_offset b offset (native / 8) (d.native_addr_bitwidth / 8)))
                (λ _. before)
                (λ passed.
                  write_internal-IsMapped io d index b here (sized.1 index b here).0
                    (sized.1 index b here).1 h before offset native value
                    (tested index b offset (native / 8) here (omega (arith, sized.0)) passed)))
      ]

  read_range-IsMapped :
      (h : Hw × List Access) (r : RwBatch)
      → r.size_in_bytes < 2 ^ 64
      → All (IsMapped d) h.1
      → All (IsMapped d) (read_range (logged io) h d r).2.1
  unfolding read_range
  read_range-IsMapped h r small before = elim (Option-cases (get_block_by_idx d r.bid)) [
    | inl missing ↦ rw (read_range, missing) before
    | inr (b, here) ↦
        rw (read_range, here)
          (if-cases (λ (x : ℕ × List ℕ × (Hw × List Access)). All (IsMapped d) x.2.1)
            (nonzero (validate_offset b r.offset r.size_in_bytes (d.native_addr_bitwidth / 8)))
            (λ _. before)
            (λ passed.
              read_batch-IsMapped io d r.bid b here (sized.1 r.bid b here).0
                (sized.1 r.bid b here).1 h before r.offset d.native_value_bitwidth r.size_in_bytes
                (tested r.bid b r.offset r.size_in_bytes here small passed)))
  ]

  write_range-IsMapped :
      (h : Hw × List Access) (r : RwBatch)
      → r.size_in_bytes < 2 ^ 64
      → All (IsMapped d) h.1
      → All (IsMapped d) (write_range (logged io) h d r).1.1
  unfolding write_range
  write_range-IsMapped h r small before = elim (Option-cases (get_block_by_idx d r.bid)) [
    | inl missing ↦ rw (write_range, missing) before
    | inr (b, here) ↦
        rw (write_range, here)
          (if-cases (λ (x : ℕ × (Hw × List Access)). All (IsMapped d) x.1.1)
            (nonzero (validate_offset b r.offset r.size_in_bytes (d.native_addr_bitwidth / 8)))
            (λ _. before)
            (λ passed.
              write_batch-IsMapped io d r.bid b here (sized.1 r.bid b here).0
                (sized.1 r.bid b here).1 h before r.offset d.native_value_bitwidth r.size_in_bytes
                r.buf (tested r.bid b r.offset r.size_in_bytes here small passed)))
  ]

  modify-IsMapped :
      (h : Hw × List Access) (m : Modify)
      → All (IsMapped d) h.1
      → All (IsMapped d) (modify_single (logged io) h d m d.native_value_bitwidth).1.1
  unfolding modify_single
  modify-IsMapped h m before =
      let native = d.native_value_bitwidth in
      let (_, value, h') = lwis_ioreg_read (logged io) h d m.bid m.offset native in
      let mid = read-IsMapped h m.bid m.offset before in
      elim (Option-cases value) [
        | inl failed ↦ rw (modify_single, failed) mid
        | inr (reg, got) ↦
            rw (modify_single, got)
              (write-IsMapped h' m.bid m.offset (modified reg m.val_mask m.val) mid)
      ]

  -- On a device whose widths are `unsigned int`s, and whose blocks have at most 2 ^ 31 - 1 bytes and
  -- end before 2 ^ 64, lwis_ioreg_io_entry_rw makes no access outside the mapped blocks of the
  -- device, for an entry of any type, if single accesses are as wide as the registers and the size of
  -- a batch is a `size_t`. The accesses are those that accessors with a log have written down.
  pub io_entry_rw-IsMapped :
      (h : Hw × List Access) (e : IoEntry) (size : ℕ)
      → IsNative d e size
      → All (IsMapped d) h.1
      → All (IsMapped d) (lwis_ioreg_io_entry_rw (logged io) h d e size).2.1
  unfolding lwis_ioreg_io_entry_rw
  io_entry_rw-IsMapped h (read r) size native before =
      subst (λ n. All (IsMapped d) (lwis_ioreg_read (logged io) h d r.bid r.offset n).2.1)
        (sym native) (read-IsMapped h r.bid r.offset before)
  io_entry_rw-IsMapped h (read_batch b) size small before = read_range-IsMapped h b small before
  io_entry_rw-IsMapped h (write r) size native before =
      subst (λ n. All (IsMapped d) (lwis_ioreg_write (logged io) h d r.bid r.offset r.val n).1.1)
        (sym native) (write-IsMapped h r.bid r.offset r.val before)
  io_entry_rw-IsMapped h (write_batch b) size small before = write_range-IsMapped h b small before
  io_entry_rw-IsMapped h (modify m) size native before =
      subst (λ n. All (IsMapped d) (modify_single (logged io) h d m n).1.1) (sym native)
        (modify-IsMapped h m before)
  io_entry_rw-IsMapped h (poll a) size native before = before
  io_entry_rw-IsMapped h (read_assert a) size native before = before
  io_entry_rw-IsMapped h (unrecognized t) size native before = before

module _ {Hw : Type 0} (io : Mmio Hw) (d : IoregDevice) where
  length-read_batch :
      (hw : Hw) (base offset bits size : ℕ)
      → length (ioreg_read_batch_internal io hw base offset bits size).1 ≤ size
  unfolding ioreg_read_batch_internal
  length-read_batch hw base offset bits size = elim (Option-cases (width_of bits)) [
    | inl none_such ↦ rw (ioreg_read_batch_internal, none_such) (omega arith)
    | inr (bytes, known) ↦ ground (
      arith,
      length-read_words io hw (size / bytes) (add64 base offset) bytes,
      whole_words bits size bytes known,
    )
  ]

  length-read_range : (hw : Hw) (r : RwBatch) → length (read_range io hw d r).1 ≤ r.size_in_bytes
  unfolding read_range
  length-read_range hw r = elim (Option-cases (get_block_by_idx d r.bid)) [
    | inl missing ↦ rw (read_range, missing) (omega arith)
    | inr (b, here) ↦
        ground (arith, length-read_batch hw b.base r.offset d.native_value_bitwidth r.size_in_bytes)
  ]

  -- A device of memory mapped registers stores no more bytes of a batch read than were asked for.
  pub ioreg_bus-IsBus : IsBus (ioreg_bus io d)
  unfolding lwis_ioreg_io_entry_rw
  ioreg_bus-IsBus = record { read_within = λ hw rb size. length-read_range hw rb }
