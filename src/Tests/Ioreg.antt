-- ===== src/Tests/Ioreg.antt =====
-- A block of 16 bytes with 32-bit registers.
use google_lwis.Prelude.{ℕ, zero, suc, ◌+◌, ◌^◌, ◌<◌, ◌≡◌, refl, some, [], ◌∷◌, arith, All}
use google_lwis.Io.{IoEntry, modify}
use google_lwis.Ioreg.Words.{Mmio}
use google_lwis.Ioreg.{Block, IoregDevice, get_block_by_idx, lwis_ioreg_io_entry_rw}
use google_lwis.Ioreg.Bounds.{logged, IsMapped, IsSized}
use google_lwis.Ioreg.Bounds.Entries.{io_entry_rw-IsMapped}

-- One register, wherever it is accessed.
abbrev one_register : Mmio ℕ
one_register = record {
  load = λ hw addr bytes. (hw, hw);
  store = λ hw addr bytes v. v;
  dma_rmb = λ hw. hw;
  dma_wmb = λ hw. hw;
  one_shl_32 = 0;
}

abbrev block : Block
block = record { start = 4096; size = 16; base = 65536; name = [] }

abbrev registers : IoregDevice
registers = record { block = block ∷ []; native_addr_bitwidth = 32; native_value_bitwidth = 32 }

sized : IsSized registers
unfolding get_block_by_idx
sized = (omega arith, in_block)
  where
    in_block :
        (index : ℕ) (b : Block)
        → get_block_by_idx registers index ≡ some b
        → (b.size < 2 ^ 31) × (b.base + b.size < 2 ^ 64)
    in_block zero b e = ground arith
    in_block (suc index) b e = ground arith

abbrev last_register : IoEntry
last_register = modify (record { bid = 0; offset = 12; val = 5; val_mask = 255 })

io_entry_rw-IsMapped_example :
    All
      (IsMapped registers)
      (lwis_ioreg_io_entry_rw (logged one_register) (7, []) registers last_register 32).2.1
io_entry_rw-IsMapped_example =
    io_entry_rw-IsMapped one_register registers sized (7, []) last_register 32 refl tt
