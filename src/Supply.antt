-- ===== src/Supply.antt =====
-- The tables of clocks, voltage regulators, GPIO pins and PHYs of a device.
pub mod Clock
pub mod Regulator
pub mod Gpio
pub mod Phy
pub mod Pinctrl
use google_lwis.Prelude.{
  ℕ, zero, suc, Bool, true, false, ◌&&◌, Option, none, some, List, [], ◌∷◌, ◌==◌,
}

-- Names, and `!strcmp`.
abbrev pub Name : Type 0
Name = List ℕ

abbrev pub same_name : Name → Name → Bool
same_name [] [] = true
same_name [] (y ∷ ys) = false
same_name (x ∷ xs) [] = false
same_name (x ∷ xs) (y ∷ ys) = x == y && same_name xs ys

-- The answer to a request for a handle: the handle, which is not NULL, or an error.
pub data Got : Type 0 where
  handle : ℕ → Got
  refused : ℕ → Got

abbrev pub repeat : {A : Type 0} → ℕ → A → List A
repeat zero a = []
repeat (suc n) a = a ∷ repeat n a
