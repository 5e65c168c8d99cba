-- ===== src/Io/Scratch/Bounds.antt =====
-- lwis_top_register_io: when its accesses stay within the scratch memory, and what they store.
use google_lwis.Prelude.{
  ℕ, ◌+◌, ◌^◌, ◌%◌, ◌<◌, ◌≤◌, ◌≡◌, refl, ◌↔◌, true, false, arith, add64, length, length-set, get_or,
}
use google_lwis.Io.{
  RwBatch, IoEntry, read, read_batch, write, write_batch, modify, poll, read_assert, unrecognized,
  IsBus,
}
use google_lwis.Io.Scratch.{Scratch, scratch_memory_size, lwis_top_register_io, modified, top_bus}
use google_lwis.Io.Scratch.Copy.{
  length-copy_out, length-copy_in, mem-copy_out, strayed-copy_out, strayed-copy_in,
  strayed-copy_out_past, strayed-copy_in_past,
}

-- An offset and a size whose sum fits 64 bits; single accesses have no size.
abbrev pub NoWrap : IoEntry → Type 0
NoWrap (read_batch b) = b.offset + b.size_in_bytes < 2 ^ 64
NoWrap (write_batch b) = b.offset + b.size_in_bytes < 2 ^ 64
NoWrap e = Unit {0}

-- An access to the 16 bytes of the top device keeps their number and reads and writes no other
-- byte, whatever its type and offset, if the offset and size of a batch do not wrap when they are
-- added.
pub register_io-strayed :
    (s : Scratch) (e : IoEntry) (size : ℕ)
    → NoWrap e
    → length s.mem ≡ scratch_memory_size
    → let s' = (lwis_top_register_io s e size).2 in
      (s'.strayed ≡ s.strayed) × (length s'.mem ≡ scratch_memory_size)
unfolding lwis_top_register_io
register_io-strayed s (read r) size fits full = ground arith
register_io-strayed s (read_batch b) size fits full = ground (
  arith,
  strayed-copy_out b.size_in_bytes 0 b.offset s,
  mem-copy_out b.size_in_bytes 0 b.offset s,
)
register_io-strayed s (write r) size fits full =
    ground (arith, length-set s.mem r.offset (r.val % 2 ^ 8))
register_io-strayed s (write_batch b) size fits full = ground (
  arith,
  strayed-copy_in b.size_in_bytes 0 b.offset b.buf s,
  length-copy_in b.size_in_bytes 0 b.offset b.buf s,
)
register_io-strayed s (modify m) size fits full =
    let reg = modified (get_or s.mem m.offset 0) m.val_mask m.val in
    ground (arith, length-set s.mem m.offset (reg % 2 ^ 8))
register_io-strayed s (poll a) size fits full = (refl, full)
register_io-strayed s (read_assert a) size fits full = (refl, full)
register_io-strayed s (unrecognized t) size fits full = (refl, full)

-- The bounds test adds the offset and the size as 64-bit words. A batch read of at least one byte
-- leaves the array of 16 bytes exactly if the sum wraps around 2 ^ 64 to at most 16.
pub read_batch_strays_iff :
    (s : Scratch) (b : RwBatch) (size : ℕ)
    → s.strayed ≡ false
    → b.offset < 2 ^ 64
    → 0 < b.size_in_bytes
    → b.size_in_bytes < 2 ^ 64
    → ((lwis_top_register_io s (read_batch b) size).2.strayed ≡ true) ↔ (
        (2 ^ 64 ≤ b.offset + b.size_in_bytes)
        × (add64 b.offset b.size_in_bytes ≤ scratch_memory_size))
unfolding lwis_top_register_io
read_batch_strays_iff s b size clean ho hn hs = ground (
  arith,
  strayed-copy_out b.size_in_bytes 0 b.offset s,
  strayed-copy_out_past b.size_in_bytes 0 b.offset s,
)

-- A batch write of at least one byte leaves the array of 16 bytes exactly if the 64-bit sum of its
-- offset and size wraps around 2 ^ 64 to at most 16.
pub write_batch_strays_iff :
    (s : Scratch) (b : RwBatch) (size : ℕ)
    → s.strayed ≡ false
    → b.offset < 2 ^ 64
    → 0 < b.size_in_bytes
    → b.size_in_bytes < 2 ^ 64
    → ((lwis_top_register_io s (write_batch b) size).2.strayed ≡ true) ↔ (
        (2 ^ 64 ≤ b.offset + b.size_in_bytes)
        × (add64 b.offset b.size_in_bytes ≤ scratch_memory_size))
unfolding lwis_top_register_io
write_batch_strays_iff s b size clean ho hn hs = ground (
  arith,
  strayed-copy_in b.size_in_bytes 0 b.offset b.buf s,
  strayed-copy_in_past b.size_in_bytes 0 b.offset b.buf s,
)

-- The top device keeps the promise of a bus.
pub top_bus-IsBus : (bitwidth : ℕ) → IsBus (top_bus bitwidth)
unfolding lwis_top_register_io
top_bus-IsBus bitwidth = record {
  read_within = λ hw rb size. ground (arith, length-copy_out rb.size_in_bytes 0 rb.offset hw);
}
