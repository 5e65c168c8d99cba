-- ===== src/Tests/I2c.antt =====
-- A chip with one-byte offsets and four-byte values, and its registers through the I2C functions.
use google_lwis.Prelude.{
  ℕ, zero, suc, ◌+◌, ◌-◌, ◌^◌, ◌≡◌, ◌≢◌, refl, inl, inr, arith, ap, List, [], ◌∷◌, ◌++◌, length,
  if-cases, ==_iff, ◌==◌, if◌then◌else◌, some, false, ==_refl,
}
use google_lwis.Kernel.{World}
use google_lwis.I2c.{Adapter, Msg, i2c_read, i2c_write}
use google_lwis.I2c.Bytes.{value_to_buf, buf_to_value}
use google_lwis.I2c.Bytes.Laws.{buf_to_value-value_to_buf, returned}
use google_lwis.I2c.RoundTrip.{IsRegisters, chip, i2c_read-i2c_write}
use google_lwis.Tests.{kernel}

abbrev Registers : Type 0
Registers = ℕ → List ℕ

abbrev register_of : Registers → List ℕ → List ℕ
register_of hw [] = []
register_of hw (o ∷ rest) = hw o

abbrev stored : Registers → List ℕ → Registers
stored hw [] = hw
stored hw (o ∷ v) = λ x. if x == o then v else hw x

abbrev chip_transfer : Registers → List Msg → ℕ × List (List ℕ) × Registers
chip_transfer hw [] = (0, [], hw)
chip_transfer hw (m ∷ []) = (1, m.buf ∷ [], stored hw m.buf)
chip_transfer hw (m ∷ r ∷ rest) = (2, m.buf ∷ register_of hw m.buf ∷ [], hw)

abbrev zeros : ℕ → List ℕ
zeros zero = []
zeros (suc n) = 0 ∷ zeros n

abbrev adapter : Adapter Registers
adapter = record {
  i2c_transfer = chip_transfer;
  in_interrupt = λ hw. false;
  fresh = λ call size. zeros size;
}

length-zeros : (n : ℕ) → length (zeros n) ≡ n
length-zeros zero = refl
length-zeros (suc n) = ap suc (length-zeros n)

stored_self :
    (hw : Registers) (o v : List ℕ) → length o ≡ 1 → register_of (stored hw (o ++ v)) o ≡ v
stored_self hw [] v h = absurd (omega arith)
stored_self hw (x ∷ []) v h = rw (==_refl x) refl
stored_self hw (x ∷ y ∷ o) v h = absurd (omega arith)

stored_other :
    (hw : Registers) (o v o' : List ℕ)
    → length o ≡ 1
    → length o' ≡ 1
    → o' ≢ o
    → register_of (stored hw (o ++ v)) o' ≡ register_of hw o'
stored_other hw [] v o' h h' differs = absurd (omega arith)
stored_other hw (x ∷ y ∷ o) v o' h h' differs = absurd (omega arith)
stored_other hw (x ∷ []) v [] h h' differs = absurd (omega arith)
stored_other hw (x ∷ []) v (y ∷ z ∷ o') h h' differs = absurd (omega arith)
stored_other hw (x ∷ []) v (y ∷ []) h h' differs =
    if-cases (λ r. r ≡ hw y) (y == x) (λ e. absurd (differs (ap (λ z. z ∷ []) ((==_iff y x).0 e))))
      (λ e. refl)

registers : IsRegisters adapter 16 1 4 register_of
registers = record {
  sent = λ hw o v ho hv. refl;
  same = λ hw o v ho hv. stored_self hw o v ho;
  other = λ hw o v o' ho hv ho' differs. stored_other hw o v o' ho ho' differs;
  received = λ hw o ho. refl;
  value = λ hw o ho. refl;
}

abbrev blank : World Registers
blank = record { hw = λ o. zeros 4; calls = 0; slept = 0 }

buf_to_value-value_to_buf_example :
    buf_to_value (value_to_buf (2 ^ 31) (zeros 4) 4) 4 ≡ 2 ^ 31 + (2 ^ 64 - 2 ^ 32)
buf_to_value-value_to_buf_example =
    buf_to_value-value_to_buf (2 ^ 31) 4 (zeros 4) (inr (inr refl)) refl (omega arith)

i2c_read-i2c_write_example :
    let (ret, w') = i2c_write kernel adapter blank (chip 16 1 4) 5 (2 ^ 31 + 7) in
    (ret ≡ 0)
    × ((i2c_read kernel adapter w' (chip 16 1 4) 5).0 ≡ 0)
    × ((i2c_read kernel adapter w' (chip 16 1 4) 5).1 ≡ (
        if 5 == 5
        then some (returned 4 (2 ^ 31 + 7))
        else (i2c_read kernel adapter blank (chip 16 1 4) 5).1))
i2c_read-i2c_write_example =
    i2c_read-i2c_write kernel adapter 16 1 4 register_of registers (inl refl) (inr (inr refl))
      (λ call. refl) (λ call size. length-zeros size) blank 5 (2 ^ 31 + 7) 5 (omega arith)
      (omega arith) (omega arith)
