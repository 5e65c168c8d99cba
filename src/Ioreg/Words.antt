-- ===== src/Ioreg/Words.antt =====
-- lwis_ioreg.c: the loops over the words of a batch, and the accessors that they use.
use google_lwis.Prelude.{
  ℕ, zero, suc, ◌+◌, ◌*◌, ◌/◌, ◌%◌, ◌≡◌, refl, Option, none, some, List, [], ◌∷◌, ◌++◌, ◌==◌,
  if◌then◌else◌, take, drop, length, length-append, arith,
}

-- What is not in the repository: readb_relaxed to readq_relaxed and writeb_relaxed to writeq_relaxed
-- at an address with a number of bytes, the two barriers, and the value that the compiler gives to
-- `1 << 32` on `int`s.
pub record Mmio (Hw : Type 0) : Type 0 where
  pub load : Hw → ℕ → ℕ → ℕ × Hw
  pub store : Hw → ℕ → ℕ → ℕ → Hw
  pub dma_rmb : Hw → Hw
  pub dma_wmb : Hw → Hw
  pub one_shl_32 : ℕ

-- `switch (value_bits)`: the bytes of an accessor.
unfoldable pub width_of : ℕ → Option ℕ
width_of value_bits =
    if value_bits == 8
    then some 1
    else if value_bits == 16
    then some 2
    else if value_bits == 32
    then some 4
    else if value_bits == 64
    then some 8
    else none

-- The bytes of a number in memory, the lowest first, and back.
unfoldable pub little_endian : ℕ → ℕ → List ℕ
little_endian zero v = []
little_endian (suc n) v = v % 256 ∷ little_endian n (v / 256)

unfoldable pub from_little_endian : List ℕ → ℕ
from_little_endian [] = 0
from_little_endian (b ∷ bs) = b + 256 * from_little_endian bs

module _ {Hw : Type 0} (io : Mmio Hw) where
  -- The words from an address on, and the number of words that are left.
  unfoldable pub read_words : Hw → ℕ → ℕ → ℕ → List ℕ × Hw
  unfolding little_endian
  read_words hw zero addr bytes = ([], hw)
  read_words hw (suc n) addr bytes =
      let (value, hw1) = io.load hw addr bytes in
      let (rest, hw2) = read_words hw1 n (addr + bytes) bytes in
      (little_endian bytes value ++ rest, hw2)

  unfoldable pub write_words : Hw → ℕ → ℕ → ℕ → List ℕ → Hw
  unfolding from_little_endian
  write_words hw zero addr bytes buf = hw
  write_words hw (suc n) addr bytes buf =
      write_words (io.store hw addr bytes (from_little_endian (take bytes buf))) n (addr + bytes)
        bytes (drop bytes buf)

  length-little_endian : (n v : ℕ) → length (little_endian n v) ≡ n
  unfolding little_endian
  length-little_endian zero v = refl
  length-little_endian (suc n) v = omega (arith, length-little_endian n (v / 256))

  pub length-read_words :
      (hw : Hw) (n addr bytes : ℕ) → length (read_words hw n addr bytes).0 ≡ n * bytes
  unfolding read_words
  length-read_words hw zero addr bytes = omega arith
  length-read_words hw (suc n) addr bytes =
      let (value, hw1) = io.load hw addr bytes in
      ground (
        arith,
        length-append (little_endian bytes value) (read_words hw1 n (addr + bytes) bytes).0,
        length-little_endian bytes value,
        length-read_words hw1 n (addr + bytes) bytes,
      )
