-- ===== src/I2c/Bytes.antt =====
-- lwis_i2c.c, value_to_buf and buf_to_value: numbers as bytes, the highest first.
pub mod Laws
use google_lwis.Prelude.{
  ℕ, ◌+◌, ◌-◌, ◌*◌, ◌/◌, ◌%◌, ◌^◌, List, [], ◌==◌, bit_or, if◌then◌else◌, set, get_or, sext32,
}

-- A byte array is written in place; any size but 1, 2 and 4 leaves it as it is.
unfoldable pub value_to_buf : ℕ → List ℕ → ℕ → List ℕ
value_to_buf value buf size =
    if size == 1
    then set buf 0 (value % 2 ^ 8)
    else if size == 2
    then set (set buf 0 (value / 2 ^ 8 % 2 ^ 8)) 1 (value % 2 ^ 8)
    else if size == 4
    then set
        (set (set (set buf 0 (value / 2 ^ 24 % 2 ^ 8)) 1 (value / 2 ^ 16 % 2 ^ 8)) 2
          (value / 2 ^ 8 % 2 ^ 8))
        3 (value % 2 ^ 8)
    else buf

-- The bytes are promoted to `int`, shifted and joined, and the `int` is converted to a `uint64_t`:
-- with four bytes its sign is extended. The bytes have no bits in common once they are shifted, so
-- joining them by `|` is adding them.
unfoldable pub buf_to_value : List ℕ → ℕ → ℕ
buf_to_value buf size =
    let b = λ (i : ℕ). get_or buf i 0 in
    if size == 1
    then b 0
    else if size == 2
    then b 0 * 2 ^ 8 + b 1
    else if size == 4
    then sext32 (b 0 * 2 ^ 24 + b 1 * 2 ^ 16 + b 2 * 2 ^ 8 + b 3)
    else 0
