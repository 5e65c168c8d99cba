-- ===== src/Ioreg/Bounds.antt =====
-- The accesses that the internal functions of lwis_ioreg.c make.
pub mod Entries
use google_lwis.Prelude.{
  ℕ, zero, suc, ◌+◌, ◌-◌, ◌*◌, ◌/◌, ◌%◌, ◌^◌, ◌≤◌, ◌<◌, ◌≡◌, ◌≢◌, refl, ◌⊎◌, inl, inr, Bool, true,
  false, Option, none, some, List, [], ◌∷◌, ◌++◌, arith, nonzero, neg, ◌==◌, if◌then◌else◌,
  if-cases, All, All-append, add64, sext32, get_elem?, Option-cases, Bool-cases, drop, take, length,
  subst, sym, ==_refl,
}
use google_lwis.Kernel.{einval}
use google_lwis.Io.{
  Rw, RwBatch, Modify, IoEntry, read, read_batch, write, write_batch, modify, poll, read_assert,
  unrecognized, IsBus,
}
use google_lwis.Io.Scratch.{modified}
use google_lwis.Ioreg.Words.{
  Mmio, width_of, read_words, write_words, little_endian, from_little_endian, length-read_words,
}
use google_lwis.Ioreg.{
  Block, IoregDevice, get_block_by_idx, validate_offset, ioreg_read_internal, ioreg_write_internal,
  ioreg_read_batch_internal, ioreg_write_batch_internal, lwis_ioreg_read, lwis_ioreg_write,
  read_range, write_range, modify_single, lwis_ioreg_io_entry_rw, ioreg_bus,
}

-- An access: the address and the number of bytes.
abbrev pub Access : Type 0
Access = ℕ × ℕ

-- The same accessors, which keep a list of the accesses that were made.
abbrev pub logged : {Hw : Type 0} → Mmio Hw → Mmio (Hw × List Access)
logged io = record {
  load = λ h addr bytes. let (v, hw) = io.load h.0 addr bytes in (v, (hw, (addr, bytes) ∷ h.1));
  store = λ h addr bytes v. (io.store h.0 addr bytes v, (addr, bytes) ∷ h.1);
  dma_rmb = λ h. (io.dma_rmb h.0, h.1);
  dma_wmb = λ h. (io.dma_wmb h.0, h.1);
  one_shl_32 = io.one_shl_32;
}

-- An access that lies within a block.
abbrev pub IsInside : Block → Access → Type 0
IsInside b a = (b.base ≤ a.0) × (a.0 + a.1 ≤ b.base + b.size)

-- An access that lies within a block that the device has mapped.
abbrev pub IsMapped : IoregDevice → Access → Type 0
IsMapped d a = (index : ℕ) × (b : Block) × (get_block_by_idx d index ≡ some b) × IsInside b a

-- The widths are `unsigned int`s, and blocks have a size of at most 2 ^ 31 - 1, as an `int`, and end
-- before 2 ^ 64.
abbrev pub IsSized : IoregDevice → Type 0
IsSized d =
    (d.native_value_bitwidth < 2 ^ 32)
    × ((index : ℕ) (b : Block)
        → get_block_by_idx d index ≡ some b
        → (b.size < 2 ^ 31) × (b.base + b.size < 2 ^ 64))

-- Single accesses are as wide as the registers, and the size of a batch is a `size_t`.
abbrev pub IsNative : IoregDevice → IoEntry → ℕ → Type 0
IsNative d (read r) size = size ≡ d.native_value_bitwidth
IsNative d (write r) size = size ≡ d.native_value_bitwidth
IsNative d (modify m) size = size ≡ d.native_value_bitwidth
IsNative d (read_batch b) size = b.size_in_bytes < 2 ^ 64
IsNative d (write_batch b) size = b.size_in_bytes < 2 ^ 64
IsNative d e size = Unit

width_of-bytes : (bits bytes : ℕ) → width_of bits ≡ some bytes → (bits / 8 ≡ bytes) × (0 < bytes)
unfolding width_of
width_of-bytes bits bytes e = ground arith

widths :
    (bits bytes : ℕ)
    → width_of bits ≡ some bytes
    → (bytes ≡ 1) ⊎ (bytes ≡ 2) ⊎ (bytes ≡ 4) ⊎ (bytes ≡ 8)
unfolding width_of
widths bits bytes known = ground arith

pub whole_words : (bits size bytes : ℕ) → width_of bits ≡ some bytes → size / bytes * bytes ≤ size
whole_words bits size bytes known = elim (widths bits bytes known) [
  | inl e ↦ subst (λ n. size / n * n ≤ size) (sym e) (omega arith)
  | inr (inl e) ↦ subst (λ n. size / n * n ≤ size) (sym e) (omega arith)
  | inr (inr (inl e)) ↦ subst (λ n. size / n * n ≤ size) (sym e) (omega arith)
  | inr (inr (inr e)) ↦ subst (λ n. size / n * n ≤ size) (sym e) (omega arith)
]

-- An offset that passes the test.
pub offset_fits :
    (b : Block) (offset size alignment : ℕ)
    → b.size < 2 ^ 31
    → size < 2 ^ 64
    → validate_offset b offset size alignment ≡ 0
    → offset + size ≤ b.size
unfolding validate_offset
offset_fits b offset size alignment small size_small ok = ground arith

module _ {Hw : Type 0} (io : Mmio Hw) (d : IoregDevice) where
  -- The words of a batch lie one after the other.
  read_words-IsMapped :
      (h : Hw × List Access) (n addr bytes index : ℕ) (b : Block)
      → get_block_by_idx d index ≡ some b
      → b.base ≤ addr
      → addr + n * bytes ≤ b.base + b.size
      → All (IsMapped d) h.1
      → All (IsMapped d) (read_words (logged io) h n addr bytes).1.1
  unfolding read_words
  read_words-IsMapped h zero addr bytes index b here low high before = before
  read_words-IsMapped h (suc n) addr bytes index b here low high before =
      read_words-IsMapped (((logged io).load h addr bytes).1) n (addr + bytes) bytes index b here
        (omega arith) (omega arith) ((index, b, here, (omega arith, omega arith)), before)

  write_words-IsMapped :
      (h : Hw × List Access) (n addr bytes index : ℕ) (buf : List ℕ) (b : Block)
      → get_block_by_idx d index ≡ some b
      → b.base ≤ addr
      → addr + n * bytes ≤ b.base + b.size
      → All (IsMapped d) h.1
      → All (IsMapped d) (write_words (logged io) h n addr bytes buf).1
  unfolding write_words
  write_words-IsMapped h zero addr bytes index buf b here low high before = before
  write_words-IsMapped h (suc n) addr bytes index buf b here low high before =
      write_words-IsMapped ((logged io).store h addr bytes (from_little_endian (take bytes buf))) n
        (addr + bytes) bytes index (drop bytes buf) b here (omega arith) (omega arith)
        ((index, b, here, (omega arith, omega arith)), before)

  module _ (index : ℕ) (b : Block) (here : get_block_by_idx d index ≡ some b)
      (small : b.size < 2 ^ 31) (low : b.base + b.size < 2 ^ 64) (h : Hw × List Access)
      (before : All (IsMapped d) h.1) (offset bits : ℕ) where
    -- The first address of an access that fits, and an access of one word there.
    at_offset : (size : ℕ) → offset + size ≤ b.size → add64 b.base offset ≡ b.base + offset
    at_offset size fits = omega arith

    one_word : (bytes : ℕ) → offset + bytes ≤ b.size → IsMapped d (add64 b.base offset, bytes)
    one_word bytes fits =
        (index, b, here, (omega (arith, at_offset bytes fits), omega (arith, at_offset bytes fits)))

    pub read_internal-IsMapped :
        offset + bits / 8 ≤ b.size
        → All (IsMapped d) (ioreg_read_internal (logged io) h b.base offset bits).2.1
    unfolding ioreg_read_internal
    read_internal-IsMapped fits = elim (Option-cases (width_of bits)) [
      | inl none_such ↦ rw (ioreg_read_internal, none_such) before
      | inr (bytes, known) ↦
          rw (ioreg_read_internal, known)
            (one_word bytes (omega (arith, width_of-bytes bits bytes known)), before)
    ]

    pub write_internal-IsMapped :
        (value : ℕ)
        → offset + bits / 8 ≤ b.size
        → All (IsMapped d) (ioreg_write_internal (logged io) h b.base offset bits value).1.1
    unfolding ioreg_write_internal
    write_internal-IsMapped value fits = elim (Option-cases (width_of bits)) [
      | inl none_such ↦ rw (ioreg_write_internal, none_such) before
      | inr (bytes, known) ↦
          rw (ioreg_write_internal, known)
            (one_word bytes (omega (arith, width_of-bytes bits bytes known)), before)
    ]

    -- The words that a batch has are not more than its bytes.
    words_fit :
        (size bytes : ℕ)
        → width_of bits ≡ some bytes
        → offset + size ≤ b.size
        → (b.base ≤ add64 b.base offset)
          × (add64 b.base offset + size / bytes * bytes ≤ b.base + b.size)
    words_fit size bytes known fits =
        let start = at_offset size fits in
        let whole = whole_words bits size bytes known in
        (omega (arith, start), omega (arith, start, whole))

    pub read_batch-IsMapped :
        (size : ℕ)
        → offset + size ≤ b.size
        → All (IsMapped d) (ioreg_read_batch_internal (logged io) h b.base offset bits size).2.1
    unfolding ioreg_read_batch_internal
    read_batch-IsMapped size fits = elim (Option-cases (width_of bits)) [
      | inl none_such ↦ rw (ioreg_read_batch_internal, none_such) before
      | inr (bytes, known) ↦
          let inside = words_fit size bytes known fits in
          rw (ioreg_read_batch_internal, known)
            (if-cases (λ (r : ℕ × List ℕ × (Hw × List Access)). All (IsMapped d) r.2.1)
              (nonzero (size % bytes)) (λ _. before)
              (λ _.
                read_words-IsMapped h (size / bytes) (add64 b.base offset) bytes index b here
                  inside.0 inside.1 before))
    ]

    pub write_batch-IsMapped :
        (size : ℕ) (buf : List ℕ)
        → offset + size ≤ b.size
        → All
            (IsMapped d)
            (ioreg_write_batch_internal (logged io) h b.base offset bits size buf).1.1
    unfolding ioreg_write_batch_internal
    write_batch-IsMapped size buf fits = elim (Option-cases (width_of bits)) [
      | inl none_such ↦ rw (ioreg_write_batch_internal, none_such) before
      | inr (bytes, known) ↦
          let inside = words_fit size bytes known fits in
          rw (ioreg_write_batch_internal, known)
            (if-cases (λ (r : ℕ × (Hw × List Access)). All (IsMapped d) r.1.1)
              (nonzero (size % bytes)) (λ _. before)
              (λ _.
                write_words-IsMapped h (size / bytes) (add64 b.base offset) bytes index buf b here
                  inside.0 inside.1 before))
    ]
