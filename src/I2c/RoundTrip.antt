-- ===== src/I2c/RoundTrip.antt =====
-- i2c_write followed by i2c_read, on a chip that keeps registers.
use google_lwis.Prelude.{
  ℕ, ◌+◌, ◌*◌, ◌/◌, ◌^◌, ◌<◌, ◌≡◌, ◌≢◌, refl, ◌⊎◌, inl, inr, true, false, some, List, [], ◌∷◌, ◌++◌,
  arith, ap, sym, ◌∙◌, subst, length, drop, ◌==◌, if◌then◌else◌, if-cases, ==_iff,
}
use google_lwis.Kernel.{Kernel, World}
use google_lwis.I2c.{
  Adapter, I2cDevice, message, second, offset_bits_ok, value_bits_ok, write_parts, i2c_read,
  i2c_write,
}
use google_lwis.I2c.Bytes.{value_to_buf, buf_to_value}
use google_lwis.I2c.Bytes.Laws.{
  IsWidth, big_endian, length-big_endian, length-value_to_buf, take-value_to_buf, value_to_buf-eq,
  length-drop_self, returned, buf_to_value-big_endian, big_endian-inj_one, big_endian-inj_two,
}

-- A chip with n-byte offsets and m-byte values at an address, whose registers `file` gives: a write
-- of an offset and a value sets that register and no other one, and after the write of an offset a
-- read gives its register. Messages that succeed are counted.
pub record IsRegisters {Hw : Type 0} (a : Adapter Hw) (addr n m : ℕ) (file : Hw → List ℕ → List ℕ)
    : Type 0 where
  pub sent :
      (hw : Hw) (o v : List ℕ)
      → length o ≡ n
      → length v ≡ m
      → (a.i2c_transfer hw (message addr false (o ++ v) (n + m) ∷ [])).0 ≡ 1
  pub same :
      (hw : Hw) (o v : List ℕ)
      → length o ≡ n
      → length v ≡ m
      → file (a.i2c_transfer hw (message addr false (o ++ v) (n + m) ∷ [])).2 o ≡ v
  pub other :
      (hw : Hw) (o v o' : List ℕ)
      → length o ≡ n
      → length v ≡ m
      → length o' ≡ n
      → o' ≢ o
      → file (a.i2c_transfer hw (message addr false (o ++ v) (n + m) ∷ [])).2 o' ≡ file hw o'
  pub received :
      (hw : Hw) (o : List ℕ)
      → length o ≡ n
      → (a.i2c_transfer hw (message addr false o n ∷ message addr true [] m ∷ [])).0 ≡ 2
  pub value :
      (hw : Hw) (o : List ℕ)
      → length o ≡ n
      → second (a.i2c_transfer hw (message addr false o n ∷ message addr true [] m ∷ [])).1
        ≡ file hw o

-- The offsets of one and of two bytes.
abbrev pub IsOffsetWidth : ℕ → Type 0
IsOffsetWidth n = (n ≡ 1) ⊎ (n ≡ 2)

-- The driver's record of such a chip.
abbrev pub chip : ℕ → ℕ → ℕ → I2cDevice
chip addr n m = record {
  client = some addr;
  native_addr_bitwidth = 8 * n;
  native_value_bitwidth = 8 * m;
}

bytes_of : (n : ℕ) → 8 * n / 8 ≡ n
bytes_of n = omega arith

offset_ok : (n : ℕ) → IsOffsetWidth n → offset_bits_ok (8 * n) ≡ true
offset_ok n width = ground arith

value_ok : (m : ℕ) → IsWidth m → value_bits_ok (8 * m) ≡ true
value_ok m width = ground arith

wide : (n : ℕ) → IsOffsetWidth n → IsWidth n
wide n (inl e) = inl e
wide n (inr e) = inr (inl e)

big_endian-inj :
    (n v w : ℕ)
    → IsOffsetWidth n
    → v < 2 ^ (8 * n)
    → w < 2 ^ (8 * n)
    → big_endian n v ≡ big_endian n w
    → v ≡ w
big_endian-inj n v w (inl e) =
    subst (λ n. v < 2 ^ (8 * n) → w < 2 ^ (8 * n) → big_endian n v ≡ big_endian n w → v ≡ w) (sym e)
      (big_endian-inj_one v w)
big_endian-inj n v w (inr e) =
    subst (λ n. v < 2 ^ (8 * n) → w < 2 ^ (8 * n) → big_endian n v ≡ big_endian n w → v ≡ w) (sym e)
      (big_endian-inj_two v w)

-- The two parts of a buffer of the right size are the bytes of the offset and those of the value.
write_parts-big_endian :
    (buf : List ℕ) (offset n value m : ℕ)
    → IsWidth n
    → IsWidth m
    → length buf ≡ n + m
    → write_parts buf offset n value m ≡ big_endian n offset ++ big_endian m value
unfolding write_parts
write_parts-big_endian buf offset n value m offset_width value_width size =
    let size' = length-value_to_buf offset buf n ∙ size in
    cc (
      take-value_to_buf offset buf n offset_width (omega (arith, size)),
      value_to_buf-eq value (drop n (value_to_buf offset buf n)) m value_width
          (length-drop_self n m (value_to_buf offset buf n) size'),
    )

module _ (k : Kernel) {Hw : Type 0} (a : Adapter Hw) (addr n m : ℕ) (file : Hw → List ℕ → List ℕ)
    (regs : IsRegisters a addr n m file) (offset_width : IsOffsetWidth n) (value_width : IsWidth m)
    (granted : (call : ℕ) → k.alloc call ≡ true)
    (sized : (call size : ℕ) → length (a.fresh call size) ≡ size) where
  -- A read gives the number whose bytes the register holds.
  read_file :
      (w : World Hw) (offset : ℕ)
      → ((i2c_read k a w (chip addr n m) offset).0 ≡ 0)
        × ((i2c_read k a w (chip addr n m) offset).1
            ≡ some (buf_to_value (file w.hw (big_endian n offset)) m))
  unfolding i2c_read
  read_file w offset =
      rw
        (
          bytes_of n,
          bytes_of m,
          offset_ok n offset_width,
          value_ok m value_width,
          granted w.calls,
          granted (w.calls + 1),
          value_to_buf-eq offset (a.fresh w.calls n) n (wide n offset_width) (sized w.calls n),
          regs.received w.hw (big_endian n offset) (length-big_endian n offset),
          regs.value w.hw (big_endian n offset) (length-big_endian n offset),
        )
        (refl, refl)

  write_sent :
      (w : World Hw) (offset value : ℕ) → (i2c_write k a w (chip addr n m) offset value).0 ≡ 0
  unfolding i2c_write
  write_sent w offset value =
      rw
        (
          bytes_of n,
          bytes_of m,
          offset_ok n offset_width,
          value_ok m value_width,
          granted w.calls,
          write_parts-big_endian (a.fresh w.calls (n + m)) offset n value m (wide n offset_width)
              value_width (sized w.calls (n + m)),
          regs.sent w.hw (big_endian n offset) (big_endian m value) (length-big_endian n offset)
              (length-big_endian m value),
        )
        refl

  write_hw :
      (w : World Hw) (offset value : ℕ)
      → (i2c_write k a w (chip addr n m) offset value).1.hw
        ≡ (a.i2c_transfer w.hw
            (message addr false (big_endian n offset ++ big_endian m value) (n + m) ∷ [])).2
  unfolding i2c_write
  write_hw w offset value =
      rw
        (
          bytes_of n,
          bytes_of m,
          offset_ok n offset_width,
          value_ok m value_width,
          granted w.calls,
          write_parts-big_endian (a.fresh w.calls (n + m)) offset n value m (wide n offset_width)
              value_width (sized w.calls (n + m)),
        )
        refl

  -- Where the allocations succeed, and on a chip that keeps registers, with offsets of one or two
  -- bytes and values of one, two or four bytes: i2c_write of a value that fits them returns 0, and
  -- i2c_read of any offset returns 0 and gives, at the offset written, that value (a four-byte value
  -- with its sign extended to 64 bits), and at every other offset what it gave before the write.
  pub i2c_read-i2c_write :
      (w : World Hw) (offset value offset' : ℕ)
      → offset < 2 ^ (8 * n)
      → offset' < 2 ^ (8 * n)
      → value < 2 ^ (8 * m)
      → let (ret, w') = i2c_write k a w (chip addr n m) offset value in
        (ret ≡ 0)
        × ((i2c_read k a w' (chip addr n m) offset').0 ≡ 0)
        × ((i2c_read k a w' (chip addr n m) offset').1 ≡ (
            if offset' == offset
            then some (returned m value)
            else (i2c_read k a w (chip addr n m) offset').1))
  i2c_read-i2c_write w offset value offset' offset_fits offset'_fits value_fits =
      let w' = (i2c_write k a w (chip addr n m) offset value).1 in
      let after = read_file w' offset' in
      let before = read_file w offset' in
      let o = big_endian n offset in
      let v = big_endian m value in
      let hw_after = write_hw w offset value in
      (
        write_sent w offset value,
        after.0,
        if-cases (λ r. (i2c_read k a w' (chip addr n m) offset').1 ≡ r) (offset' == offset)
            (λ same.
              after.1
              ∙ ap some (
                  ap (λ hw. buf_to_value (file hw (big_endian n offset')) m) hw_after
                  ∙ ap (λ l. buf_to_value l m)
                      (ap
                          (λ x.
                            file (a.i2c_transfer w.hw (message addr false (o ++ v) (n + m) ∷ [])).2
                              (big_endian n x))
                          ((==_iff offset' offset).0 same)
                        ∙ regs.same w.hw o v (length-big_endian n offset)
                            (length-big_endian m value))
                  ∙ buf_to_value-big_endian m value value_width value_fits))
            (λ differs.
              after.1
              ∙ ap some (
                  ap (λ hw. buf_to_value (file hw (big_endian n offset')) m) hw_after
                  ∙ ap (λ l. buf_to_value l m)
                      (regs.other w.hw o v (big_endian n offset') (length-big_endian n offset)
                        (length-big_endian m value) (length-big_endian n offset')
                        (λ e.
                          let same =
                            big_endian-inj n offset' offset offset_width offset'_fits offset_fits
                              e in
                          ground arith)))
              ∙ sym before.1),
      )
