-- ===== src/I2c.antt =====
-- lwis_i2c.c: registers on an I2C bus, and the access of lwis_device_i2c.c.
pub mod Bytes
pub mod RoundTrip
use google_lwis.Prelude.{
  ℕ, ◌+◌, ◌-◌, ◌/◌, ◌%◌, ◌^◌, Bool, true, false, not, ◌&&◌, Option, none, some, List, [], ◌∷◌, ◌++◌,
  neg, nonzero, leb, ◌==◌, if◌then◌else◌, bit_and, bit_or, take, drop,
}
use google_lwis.Kernel.{Kernel, World, kmalloc, einval, enodev, enomem, eagain}
use google_lwis.Io.{
  IoEntry, Rw, RwBatch, Modify, read, read_batch, write, write_batch, modify, poll, read_assert,
  unrecognized, Bus,
}
use google_lwis.Io.Scratch.{modified}
use google_lwis.I2c.Bytes.{value_to_buf, buf_to_value}

-- `struct i2c_msg`. `len` is a `__u16`. What the buffer of a read holds before is not looked at.
pub record Msg : Type 0 where
  pub addr : ℕ
  pub is_read : Bool
  pub len : ℕ
  pub buf : List ℕ

-- What is not in the repository: `i2c_transfer`, which returns the number of messages or an error,
-- and the buffers afterwards; `in_interrupt`; and the bytes found in memory that `kmalloc` gives out,
-- from the number of the call and the size.
pub record Adapter (Hw : Type 0) : Type 0 where
  pub i2c_transfer : Hw → List Msg → ℕ × List (List ℕ) × Hw
  pub in_interrupt : Hw → Bool
  pub fresh : ℕ → ℕ → List ℕ

-- `struct lwis_i2c_device`: the address of its client, which is NULL at `none`.
pub record I2cDevice : Type 0 where
  pub client : Option ℕ
  pub native_addr_bitwidth : ℕ
  pub native_value_bitwidth : ℕ

abbrev pub check_bitwidth : ℕ → ℕ → ℕ → Bool
check_bitwidth bitwidth min max = leb min bitwidth && leb bitwidth max && bitwidth % 8 == 0

-- MIN_OFFSET_BITS to MAX_OFFSET_BITS, and MIN_DATA_BITS to MAX_DATA_BITS.
abbrev pub offset_bits_ok : ℕ → Bool
offset_bits_ok bits = check_bitwidth bits 8 16

abbrev pub value_bits_ok : ℕ → Bool
value_bits_ok bits = check_bitwidth bits 8 32

abbrev pub message : ℕ → Bool → List ℕ → ℕ → Msg
message addr is_read buf size = record {
  addr = addr;
  is_read = is_read;
  len = size % 2 ^ 16;
  buf = buf;
}

-- The second of the buffers.
abbrev pub second : List (List ℕ) → List ℕ
second [] = []
second (a ∷ []) = []
second (a ∷ b ∷ bs) = b

-- The two parts of one buffer are written one after the other.
unfoldable pub write_parts : List ℕ → ℕ → ℕ → ℕ → ℕ → List ℕ
write_parts buf offset offset_bytes value value_bytes =
    let buf' = value_to_buf offset buf offset_bytes in
    take offset_bytes buf' ++ value_to_buf value (drop offset_bytes buf') value_bytes

module _ (k : Kernel) {Hw : Type 0} (a : Adapter Hw) where
  -- `i2c_transfer`, whose result is 0 where all messages were sent.
  abbrev pub transfer : World Hw → List Msg → ℕ → ℕ × List (List ℕ) × World Hw
  transfer w msgs num_msg =
      let (ret, bufs, hw') = a.i2c_transfer w.hw msgs in
      ((if ret == num_msg then 0 else ret), bufs, record w { hw = hw' })

  -- The message of the offset, in `wbuf`, and that of the value.
  unfoldable pub perform_read_transfer : World Hw → ℕ → List ℕ → ℕ → ℕ → ℕ → ℕ × List ℕ × World Hw
  perform_read_transfer w addr wbuf offset offset_bytes value_bytes =
      let (ret, bufs, w') =
        transfer w
          (message addr false (value_to_buf offset wbuf offset_bytes) offset_bytes
            ∷ message addr true [] value_bytes
            ∷ [])
          2 in
      (ret, second bufs, w')

  unfoldable pub perform_write_transfer : World Hw → ℕ → List ℕ → ℕ → ℕ → ℕ → ℕ → ℕ × World Hw
  unfolding write_parts
  perform_write_transfer w addr buf offset offset_bytes value_bytes value =
      let (ret, _, w') =
        transfer w
          (message addr false (write_parts buf offset offset_bytes value value_bytes)
              (offset_bytes + value_bytes)
            ∷ [])
          1 in
      (ret, w')

  unfoldable pub perform_write_batch_transfer :
      World Hw → ℕ → List ℕ → ℕ → ℕ → ℕ → List ℕ → ℕ × World Hw
  perform_write_batch_transfer w addr buf offset offset_bytes value_bytes value_buf =
      let buf' =
        take offset_bytes (value_to_buf offset buf offset_bytes) ++ take value_bytes value_buf in
      let (ret, _, w') = transfer w (message addr false buf' (offset_bytes + value_bytes) ∷ []) 1 in
      (ret, w')

  -- `*value` is set where the result has `some`.
  unfoldable pub i2c_read : World Hw → I2cDevice → ℕ → ℕ × Option ℕ × World Hw
  unfolding perform_read_transfer
  i2c_read w d offset =
      let offset_bytes = d.native_addr_bitwidth / 8 in
      let value_bytes = d.native_value_bitwidth / 8 in
      let (wbuf_done, w1) = kmalloc k w in
      let (rbuf_done, w2) = kmalloc k w1 in
      elim d.client [
        | none ↦ (neg enodev, none, w)
        | some addr ↦
            (let (ret, rbuf, w3) =
                perform_read_transfer w2 addr (a.fresh w.calls offset_bytes) offset offset_bytes
                  value_bytes in
              if not (offset_bits_ok d.native_addr_bitwidth)
              then (neg einval, none, w)
              else if not (value_bits_ok d.native_value_bitwidth)
              then (neg einval, none, w)
              else if not wbuf_done
              then (neg enomem, none, w1)
              else if not rbuf_done
              then (neg enomem, none, w2)
              else (ret, (if nonzero ret then none else some (buf_to_value rbuf value_bytes)), w3))
      ]

  unfoldable pub i2c_write : World Hw → I2cDevice → ℕ → ℕ → ℕ × World Hw
  unfolding perform_write_transfer
  i2c_write w d offset value =
      let offset_bytes = d.native_addr_bitwidth / 8 in
      let value_bytes = d.native_value_bitwidth / 8 in
      let (done, w1) = kmalloc k w in
      elim d.client [
        | none ↦ (neg enodev, w)
        | some addr ↦
            (if not (offset_bits_ok d.native_addr_bitwidth)
              then (neg einval, w)
              else if not (value_bits_ok d.native_value_bitwidth)
              then (neg einval, w)
              else if not done
              then (neg enomem, w1)
              else perform_write_transfer w1 addr (a.fresh w.calls (offset_bytes + value_bytes))
                  offset offset_bytes value_bytes value)
      ]

  -- The bytes read are those that the transfer left in the caller's buffer. The size is passed on as
  -- an `int`.
  unfoldable pub i2c_read_batch : World Hw → I2cDevice → ℕ → ℕ → ℕ × List ℕ × World Hw
  unfolding perform_read_transfer
  i2c_read_batch w d start_offset size =
      let offset_bytes = d.native_addr_bitwidth / 8 in
      let (done, w1) = kmalloc k w in
      elim d.client [
        | none ↦ (neg enodev, [], w)
        | some addr ↦
            (if not (offset_bits_ok d.native_addr_bitwidth)
              then (neg einval, [], w)
              else if not done
              then (neg enomem, [], w1)
              else perform_read_transfer w1 addr (a.fresh w.calls offset_bytes) start_offset
                  offset_bytes (size % 2 ^ 32))
      ]

  -- A size that is negative as an `int` is not modelled: the code would copy that many bytes.
  unfoldable pub i2c_write_batch : World Hw → I2cDevice → ℕ → List ℕ → ℕ → ℕ × World Hw
  unfolding perform_write_batch_transfer
  i2c_write_batch w d start_offset write_buf size =
      let offset_bytes = d.native_addr_bitwidth / 8 in
      let (done, w1) = kmalloc k w in
      elim d.client [
        | none ↦ (neg enodev, w)
        | some addr ↦
            (if not (offset_bits_ok d.native_addr_bitwidth)
              then (neg einval, w)
              else if not done
              then (neg enomem, w1)
              else perform_write_batch_transfer w1 addr
                  (a.fresh w.calls ((offset_bytes + size) % 2 ^ 32)) start_offset offset_bytes
                  (size % 2 ^ 32) write_buf)
      ]

  i2c_modify : World Hw → I2cDevice → Modify → ℕ × World Hw
  unfolding i2c_read i2c_write
  i2c_modify w d m =
      let (ret, value, w1) = i2c_read w d m.offset in
      elim value [
        | none ↦ (ret, w1)
        | some reg ↦ i2c_write w1 d m.offset (modified reg m.val_mask m.val)
      ]

  unfoldable pub lwis_i2c_io_entry_rw : World Hw → I2cDevice → IoEntry → ℕ × IoEntry × World Hw
  unfolding i2c_read i2c_write i2c_read_batch i2c_write_batch i2c_modify
  lwis_i2c_io_entry_rw w d (read r) =
      let (ret, value, w') = i2c_read w d r.offset in
      (ret, elim value [ none ↦ read r | some v ↦ read (record r { val = v }) ], w')
  lwis_i2c_io_entry_rw w d (write r) =
      let (ret, w') = i2c_write w d r.offset r.val in (ret, write r, w')
  lwis_i2c_io_entry_rw w d (modify m) = let (ret, w') = i2c_modify w d m in (ret, modify m, w')
  lwis_i2c_io_entry_rw w d (read_batch b) =
      let (ret, bytes, w') = i2c_read_batch w d b.offset b.size_in_bytes in
      (ret, read_batch (record b { buf = bytes }), w')
  lwis_i2c_io_entry_rw w d (write_batch b) =
      let (ret, w') = i2c_write_batch w d b.offset b.buf b.size_in_bytes in (ret, write_batch b, w')
  lwis_i2c_io_entry_rw w d (poll p) = (neg einval, poll p, w)
  lwis_i2c_io_entry_rw w d (read_assert p) = (neg einval, read_assert p, w)
  lwis_i2c_io_entry_rw w d (unrecognized t) = (neg einval, unrecognized t, w)

  unfoldable pub lwis_i2c_register_io : World Hw → I2cDevice → IoEntry → ℕ × IoEntry × World Hw
  unfolding lwis_i2c_io_entry_rw
  lwis_i2c_register_io w d e =
      if a.in_interrupt w.hw then (neg eagain, e, w) else lwis_i2c_io_entry_rw w d e

  -- An I2C device as the transactions use it, without a barrier (`i2c_vops`).
  abbrev pub i2c_bus : I2cDevice → Bus (World Hw)
  i2c_bus d = record {
    register_io = λ w e access_size. lwis_i2c_register_io w d e;
    register_io_barrier = none;
    native_value_bitwidth = d.native_value_bitwidth;
  }
