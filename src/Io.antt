-- ===== src/Io.antt =====
-- lwis_commands.h: the I/O entries; lwis_device.h: the register operations of a device.
pub mod Access
pub mod Poll
pub mod Scratch
use google_lwis.Prelude.{ℕ, ◌/◌, ◌≤◌, Bool, Option, some, List, [], length}

-- `struct lwis_io_entry_rw`, also used for the value that a read returns.
pub record Rw : Type 0 where
  pub bid : ℕ
  pub offset : ℕ
  pub val : ℕ

-- `struct lwis_io_entry_rw_batch`. For a read, `buf` holds the bytes stored so far.
pub record RwBatch : Type 0 where
  pub bid : ℕ
  pub offset : ℕ
  pub size_in_bytes : ℕ
  pub buf : List ℕ

pub record Modify : Type 0 where
  pub bid : ℕ
  pub offset : ℕ
  pub val : ℕ
  pub val_mask : ℕ

pub record ReadAssert : Type 0 where
  pub bid : ℕ
  pub offset : ℕ
  pub val : ℕ
  pub mask : ℕ
  pub timeout_ms : ℕ

-- `struct lwis_io_entry`: the tag and its member of the union. `unrecognized` is any other tag.
pub data IoEntry : Type 0 where
  read : Rw → IoEntry
  read_batch : RwBatch → IoEntry
  write : Rw → IoEntry
  write_batch : RwBatch → IoEntry
  modify : Modify → IoEntry
  poll : ReadAssert → IoEntry
  read_assert : ReadAssert → IoEntry
  unrecognized : ℕ → IoEntry

-- `entry->rw.val` of a read, and `entry->rw_batch.buf` of a batch read, after the access.
abbrev pub read_value : IoEntry → ℕ
read_value (read r) = r.val
read_value e = 0

abbrev pub read_bytes : IoEntry → List ℕ
read_bytes (read_batch b) = b.buf
read_bytes e = []

-- `vops.register_io`: the returned code, the entry with what was read, and the registers.
abbrev pub RegisterIo : Type 0 → Type 0
RegisterIo Hw = Hw → IoEntry → ℕ → ℕ × IoEntry × Hw

-- `vops.register_io_barrier`, called with `use_read_barrier` and `use_write_barrier`.
abbrev pub RegisterIoBarrier : Type 0 → Type 0
RegisterIoBarrier Hw = Hw → Bool → Bool → Hw

-- The two register operations of `struct lwis_device_subclass_operations`; `none` is NULL.
pub record Vops (Hw : Type 0) : Type 0 where
  pub register_io : Option (RegisterIo Hw)
  pub register_io_barrier : Option (RegisterIoBarrier Hw)

-- A device that has `register_io`: what the transactions and the periodic I/O use.
pub record Bus (Hw : Type 0) : Type 0 where
  pub register_io : RegisterIo Hw
  pub register_io_barrier : Option (RegisterIoBarrier Hw)
  pub native_value_bitwidth : ℕ

abbrev pub vops : {Hw : Type 0} → Bus Hw → Vops Hw
vops b = record { register_io = some b.register_io; register_io_barrier = b.register_io_barrier }

abbrev pub reg_value_bytewidth : {Hw : Type 0} → Bus Hw → ℕ
reg_value_bytewidth b = b.native_value_bitwidth / 8

-- What a device promises to its callers: a batch read stores no more bytes than were asked for.
pub record IsBus {Hw : Type 0} (b : Bus Hw) : Type 0 where
  pub read_within :
      (hw : Hw) (rb : RwBatch) (size : ℕ)
      → length (read_bytes (b.register_io hw (read_batch rb) size).1) ≤ rb.size_in_bytes
