-- ===== src/Io/Scratch.antt =====
-- lwis_device_top.c, lwis_top_register_io: the top device's registers are an array of 16 bytes
-- (SCRATCH_MEMORY_SIZE of lwis_device_top.h).
pub mod Bounds
pub mod Copy
use google_lwis.Prelude.{
  ℕ, zero, suc, ◌+◌, ◌-◌, ◌^◌, ◌%◌, Bool, ◌||◌, none, List, [], ◌∷◌, neg, add64, bit_and, bit_or,
  ltb, leb, if◌then◌else◌, get_or, set,
}
use google_lwis.Kernel.{einval}
use google_lwis.Io.{
  Rw, RwBatch, Modify, IoEntry, read, read_batch, write, write_batch, modify, poll, read_assert,
  unrecognized, Bus,
}

abbrev pub scratch_memory_size : ℕ
scratch_memory_size = 16

-- `strayed` records whether an access has gone outside the array, which C leaves undefined; such a
-- read is given 0, and such a write is dropped.
pub record Scratch : Type 0 where
  pub mem : List ℕ
  pub strayed : Bool

pub touch : Scratch → ℕ → Scratch
touch s index = record s { strayed = s.strayed || leb scratch_memory_size index }

-- `scratch_mem[index]`, and `scratch_mem[index] = val` into a `uint8_t`.
abbrev peek : Scratch → ℕ → ℕ × Scratch
peek s index = (get_or s.mem index 0, touch s index)

pub poke : Scratch → ℕ → ℕ → Scratch
unfolding touch
poke s index val = record (touch s index) { mem = set s.mem index (val % 2 ^ 8) }

-- The two loops of the batch accesses, from `i` on with `n` rounds left.
pub copy_out : ℕ → ℕ → ℕ → Scratch → List ℕ × Scratch
unfolding touch
copy_out zero i offset s = ([], s)
copy_out (suc n) i offset s =
    let (byte, s1) = peek s (add64 offset i) in
    let (bytes, s2) = copy_out n (i + 1) offset s1 in (byte ∷ bytes, s2)

pub copy_in : ℕ → ℕ → ℕ → List ℕ → Scratch → Scratch
unfolding poke
copy_in zero i offset buf s = s
copy_in (suc n) i offset buf s =
    copy_in n (i + 1) offset buf (poke s (add64 offset i) (get_or buf i 0))

read_single : Scratch → Rw → ℕ × IoEntry × Scratch
unfolding touch
read_single s r =
    if leb scratch_memory_size r.offset
    then (neg einval, read r, s)
    else let (val, s1) = peek s r.offset in (0, read (record r { val = val }), s1)

read_range : Scratch → RwBatch → ℕ × IoEntry × Scratch
unfolding copy_out
read_range s b =
    if ltb scratch_memory_size (add64 b.offset b.size_in_bytes)
    then (neg einval, read_batch (record b { buf = [] }), s)
    else let (bytes, s1) = copy_out b.size_in_bytes 0 b.offset s in
      (0, read_batch (record b { buf = bytes }), s1)

write_single : Scratch → Rw → ℕ × IoEntry × Scratch
unfolding poke
write_single s r =
    if leb scratch_memory_size r.offset
    then (neg einval, write r, s)
    else (0, write r, poke s r.offset r.val)

write_range : Scratch → RwBatch → ℕ × IoEntry × Scratch
unfolding copy_in
write_range s b =
    if ltb scratch_memory_size (add64 b.offset b.size_in_bytes)
    then (neg einval, write_batch b, s)
    else (0, write_batch b, copy_in b.size_in_bytes 0 b.offset b.buf s)

-- `reg & ~mask | mask & val` on 64 bits.
abbrev pub modified : ℕ → ℕ → ℕ → ℕ
modified reg mask val = bit_or (bit_and reg (2 ^ 64 - 1 - mask)) (bit_and mask val)

modify_single : Scratch → Modify → ℕ × IoEntry × Scratch
unfolding poke
modify_single s m =
    if leb scratch_memory_size m.offset
    then (neg einval, modify m, s)
    else let (reg, s1) = peek s m.offset in
      (0, modify m, poke s1 m.offset (modified reg m.val_mask m.val))

pub lwis_top_register_io : Scratch → IoEntry → ℕ → ℕ × IoEntry × Scratch
unfolding read_single read_range write_single write_range modify_single
lwis_top_register_io s (read r) size = read_single s r
lwis_top_register_io s (read_batch b) size = read_range s b
lwis_top_register_io s (write r) size = write_single s r
lwis_top_register_io s (write_batch b) size = write_range s b
lwis_top_register_io s (modify m) size = modify_single s m
lwis_top_register_io s (poll a) size = (neg einval, poll a, s)
lwis_top_register_io s (read_assert a) size = (neg einval, read_assert a, s)
lwis_top_register_io s (unrecognized t) size = (neg einval, unrecognized t, s)

-- The top device has no barrier (`top_vops`).
abbrev pub top_bus : ℕ → Bus Scratch
top_bus bitwidth = record {
  register_io = lwis_top_register_io;
  register_io_barrier = none;
  native_value_bitwidth = bitwidth;
}
