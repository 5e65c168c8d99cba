-- ===== src/I2c/Bytes/Laws.antt =====
-- value_to_buf and buf_to_value against big-endian bytes.
use google_lwis.Prelude.{
  ℕ, zero, suc, ◌+◌, ◌*◌, ◌/◌, ◌%◌, ◌^◌, ◌≤◌, ◌<◌, ◌≡◌, ◌⊎◌, refl, inl, inr, List, [], ◌∷◌, ◌++◌,
  arith, ap, ◌∙◌, ◌==◌, if◌then◌else◌, ◌&&◌, leb, ◌-◌, length, length-append, length-set, take,
  drop, set, sext32, subst, sym,
}
use google_lwis.I2c.Bytes.{value_to_buf, buf_to_value}

-- The widths that the two functions know.
abbrev pub IsWidth : ℕ → Type 0
IsWidth n = (n ≡ 1) ⊎ (n ≡ 2) ⊎ (n ≡ 4)

-- The last n bytes of a number, the highest first.
pub big_endian : ℕ → ℕ → List ℕ
big_endian zero v = []
big_endian (suc n) v = big_endian n (v / 256) ++ v % 256 ∷ []

pub length-big_endian : (n v : ℕ) → length (big_endian n v) ≡ n
unfolding big_endian
length-big_endian zero v = refl
length-big_endian (suc n) v =
    omega (arith, length-snoc (big_endian n (v / 256)), length-big_endian n (v / 256))
  where
    length-snoc : (xs : List ℕ) → length (xs ++ v % 256 ∷ []) ≡ length xs + 1
    length-snoc xs = omega (arith, length-append xs (v % 256 ∷ []))

pub length-value_to_buf :
    (v : ℕ) (buf : List ℕ) (n : ℕ) → length (value_to_buf v buf n) ≡ length buf
unfolding value_to_buf
length-value_to_buf v buf n =
    let b3 = set buf 0 (v / 2 ^ 24 % 2 ^ 8) in
    let b2 = set b3 1 (v / 2 ^ 16 % 2 ^ 8) in
    let b1 = set b2 2 (v / 2 ^ 8 % 2 ^ 8) in
    ground (
      arith,
      length-set buf 0 (v % 2 ^ 8),
      length-set buf 0 (v / 2 ^ 8 % 2 ^ 8),
      length-set (set buf 0 (v / 2 ^ 8 % 2 ^ 8)) 1 (v % 2 ^ 8),
      length-set buf 0 (v / 2 ^ 24 % 2 ^ 8),
      length-set b3 1 (v / 2 ^ 16 % 2 ^ 8),
      length-set b2 2 (v / 2 ^ 8 % 2 ^ 8),
      length-set b1 3 (v % 2 ^ 8),
    )

one_byte : (v : ℕ) (buf : List ℕ) → 1 ≤ length buf → take 1 (value_to_buf v buf 1) ≡ big_endian 1 v
unfolding value_to_buf big_endian
one_byte v [] h = absurd (omega arith)
one_byte v (a ∷ buf) h = refl

two_bytes : (v : ℕ) (buf : List ℕ) → 2 ≤ length buf → take 2 (value_to_buf v buf 2) ≡ big_endian 2 v
unfolding value_to_buf big_endian
two_bytes v [] h = absurd (omega arith)
two_bytes v (a ∷ []) h = absurd (omega arith)
two_bytes v (a ∷ b ∷ buf) h = refl

four_bytes :
    (v : ℕ) (buf : List ℕ) → 4 ≤ length buf → take 4 (value_to_buf v buf 4) ≡ big_endian 4 v
unfolding value_to_buf big_endian
four_bytes v [] h = absurd (omega arith)
four_bytes v (a ∷ []) h = absurd (omega arith)
four_bytes v (a ∷ b ∷ []) h = absurd (omega arith)
four_bytes v (a ∷ b ∷ c ∷ []) h = absurd (omega arith)
four_bytes v (a ∷ b ∷ c ∷ d ∷ buf) h =
    let e3 : v / 2 ^ 24 % 2 ^ 8 ≡ v / 256 / 256 / 256 % 256 = omega arith in
    let e2 : v / 2 ^ 16 % 2 ^ 8 ≡ v / 256 / 256 % 256 = omega arith in cc (e3, e2)

-- The bytes written are the big-endian ones, whatever the buffer held.
pub take-value_to_buf :
    (v : ℕ) (buf : List ℕ) (n : ℕ)
    → IsWidth n
    → n ≤ length buf
    → take n (value_to_buf v buf n) ≡ big_endian n v
take-value_to_buf v buf n (inl e) h =
    subst (λ n. take n (value_to_buf v buf n) ≡ big_endian n v) (sym e)
      (one_byte v buf (omega arith))
take-value_to_buf v buf n (inr (inl e)) h =
    subst (λ n. take n (value_to_buf v buf n) ≡ big_endian n v) (sym e)
      (two_bytes v buf (omega arith))
take-value_to_buf v buf n (inr (inr e)) h =
    subst (λ n. take n (value_to_buf v buf n) ≡ big_endian n v) (sym e)
      (four_bytes v buf (omega arith))

take-all : (n : ℕ) (xs : List ℕ) → length xs ≡ n → take n xs ≡ xs
take-all zero [] h = refl
take-all zero (x ∷ xs) h = absurd (omega arith)
take-all (suc n) [] h = absurd (omega arith)
take-all (suc n) (x ∷ xs) h = ap (λ l. x ∷ l) (take-all n xs (omega arith))

pub length-drop_self : (n m : ℕ) (xs : List ℕ) → length xs ≡ n + m → length (drop n xs) ≡ m
length-drop_self zero m xs h = omega arith
length-drop_self (suc n) m [] h = absurd (omega arith)
length-drop_self (suc n) m (x ∷ xs) h = length-drop_self n m xs (omega arith)

-- A buffer of the right size holds just those bytes.
pub value_to_buf-eq :
    (v : ℕ) (buf : List ℕ) (n : ℕ)
    → IsWidth n
    → length buf ≡ n
    → value_to_buf v buf n ≡ big_endian n v
value_to_buf-eq v buf n width size =
    sym (take-all n (value_to_buf v buf n) (omega (arith, length-value_to_buf v buf n, size)))
    ∙ take-value_to_buf v buf n width (omega arith)

-- The number that n bytes give: a four-byte number comes back with its sign extended to 64 bits.
abbrev pub returned : ℕ → ℕ → ℕ
returned n v = if n == 4 then sext32 v else v

abbrev Returns : ℕ → ℕ → Type 0
Returns v n = v < 2 ^ (8 * n) → buf_to_value (big_endian n v) n ≡ returned n v

from_one : (v : ℕ) → Returns v 1
unfolding buf_to_value big_endian
from_one v h = omega arith

from_two : (v : ℕ) → Returns v 2
unfolding buf_to_value big_endian
from_two v h = omega arith

from_four : (v : ℕ) → Returns v 4
unfolding buf_to_value big_endian
from_four v h =
    ap sext32
      {x = v / 256 / 256 / 256 % 256 * 2 ^ 24
        + v / 256 / 256 % 256 * 2 ^ 16
        + v / 256 % 256 * 2 ^ 8
        + v % 256}
      {y = v} (omega arith)

pub buf_to_value-big_endian :
    (n v : ℕ) → IsWidth n → v < 2 ^ (8 * n) → buf_to_value (big_endian n v) n ≡ returned n v
buf_to_value-big_endian n v (inl e) = subst (Returns v) (sym e) (from_one v)
buf_to_value-big_endian n v (inr (inl e)) = subst (Returns v) (sym e) (from_two v)
buf_to_value-big_endian n v (inr (inr e)) = subst (Returns v) (sym e) (from_four v)

-- Reading back the bytes of a number that fits them gives the number, except that a four-byte number
-- from 2 ^ 31 on comes back with its sign extended to 64 bits.
pub buf_to_value-value_to_buf :
    (v n : ℕ) (buf : List ℕ)
    → IsWidth n
    → length buf ≡ n
    → v < 2 ^ (8 * n)
    → buf_to_value (value_to_buf v buf n) n
      ≡ (if n == 4 && leb (2 ^ 31) v then v + (2 ^ 64 - 2 ^ 32) else v)
buf_to_value-value_to_buf v n buf width size fits =
    ap (λ l. buf_to_value l n) (value_to_buf-eq v buf n width size)
    ∙ buf_to_value-big_endian n v width fits
    ∙ ground arith

pub big_endian-inj_one : (v w : ℕ) → v < 2 ^ 8 → w < 2 ^ 8 → big_endian 1 v ≡ big_endian 1 w → v ≡ w
unfolding big_endian
big_endian-inj_one v w hv hw e = ground arith

pub big_endian-inj_two :
    (v w : ℕ) → v < 2 ^ 16 → w < 2 ^ 16 → big_endian 2 v ≡ big_endian 2 w → v ≡ w
unfolding big_endian
big_endian-inj_two v w hv hw e = ground arith
