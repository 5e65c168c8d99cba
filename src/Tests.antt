-- ===== src/Tests.antt =====
-- Small concrete inputs, and the theorems applied to them.
pub mod Io
pub mod Events
pub mod Transactions
pub mod Emit
pub mod I2c
pub mod Control
pub mod Ioreg
pub mod Interrupts
pub mod Periodic
pub mod Supply
pub mod Power
pub mod Buffers
pub mod Slc
pub mod Inbox
use google_lwis.Prelude.{ℕ, ◌+◌, Bool, true, false, none, some, List, [], ◌∷◌, neg, neg64}
use google_lwis.Kernel.{Kernel, World}
use google_lwis.Io.{
  Rw, RwBatch, ReadAssert, IoEntry, read, read_batch, write, poll, Bus, Vops, vops,
}
use google_lwis.Io.Scratch.{Scratch, top_bus}

-- Every allocation succeeds, and time passes only while sleeping.
abbrev pub kernel : Kernel
kernel = record { alloc = λ n. true; clock = λ n. 5000000 }

abbrev pub memory : List ℕ
memory = 0 ∷ 0 ∷ 7 ∷ 0 ∷ 0 ∷ 0 ∷ 0 ∷ 0 ∷ 0 ∷ 0 ∷ 0 ∷ 0 ∷ 0 ∷ 0 ∷ 0 ∷ 255 ∷ []

abbrev pub scratch : Scratch
scratch = record { mem = memory; strayed = false }

abbrev pub bus : Bus Scratch
bus = top_bus 8

abbrev pub ops : Vops Scratch
ops = vops bus

abbrev pub world : World Scratch
world = record { hw = scratch; calls = 0; slept = 0 }

-- The register at 2 holds 7; nothing writes 8 to it.
abbrev pub seven : ReadAssert
seven = record { bid = 0; offset = 2; val = 7; mask = 255; timeout_ms = 3 }

abbrev pub eight : ReadAssert
eight = record { bid = 0; offset = 2; val = 8; mask = 255; timeout_ms = 3 }

abbrev pub first_four : RwBatch
first_four = record { bid = 0; offset = 0; size_in_bytes = 4; buf = [] }

-- The sum of offset and size is 2 ^ 64 + 4.
abbrev pub around : RwBatch
around = record { bid = 0; offset = neg64 4; size_in_bytes = 8; buf = [] }

-- More than the memory of any machine.
abbrev pub huge : RwBatch
huge = record { bid = 0; offset = 0; size_in_bytes = neg64 24; buf = [] }

abbrev pub write_nine : IoEntry
write_nine = write (record { bid = 0; offset = 3; val = 9 })

abbrev pub write_outside : IoEntry
write_outside = write (record { bid = 0; offset = 16; val = 9 })

abbrev pub read_two : IoEntry
read_two = read (record { bid = 0; offset = 2; val = 0 })

-- A register that counts how often it was read.
abbrev pub counted_read : ℕ → IoEntry → ℕ × IoEntry × ℕ
counted_read hw (read r) = (0, read (record r { val = hw }), hw + 1)
counted_read hw e = (0, e, hw)

abbrev pub counting : Bus ℕ
counting = record {
  register_io = λ hw e size. counted_read hw e;
  register_io_barrier = none;
  native_value_bitwidth = 8;
}
