-- ===== src/Tests/Supply.antt =====
-- A list of two regulators, one of which is in use.
use google_lwis.Prelude.{ℕ, refl, some, [], ◌∷◌, arith}
use google_lwis.Supply.{Name, handle}
use google_lwis.Supply.Regulator.{Regulator, no_regulator, RegulatorApi, lwis_regulator_get}
use google_lwis.Supply.Regulator.Unique.{IsUnique, regulator_get-IsUnique}

-- Every handle is 7.
abbrev counter : RegulatorApi ℕ
counter = record {
  devm_regulator_get = λ hw name. (handle 7, hw);
  devm_regulator_put = λ hw reg. hw;
  regulator_set_voltage = λ hw reg voltage. (0, hw);
  regulator_enable = λ hw reg. (0, hw);
  regulator_disable = λ hw reg. (0, hw);
}

abbrev core_supply : Name
core_supply = 99 ∷ 111 ∷ []

abbrev io_supply : Name
io_supply = 105 ∷ 111 ∷ []

abbrev used : Regulator
used = record { reg = 5; name = some core_supply; voltage = 1800000 }

unique : IsUnique (used ∷ no_regulator ∷ [])
unique = record {
  tidy = (λ e. absurd (omega (arith, e)), (λ e. refl, tt));
  once = λ q. ground arith;
}

regulator_get-IsUnique_example :
    IsUnique ((lwis_regulator_get counter 0 (used ∷ no_regulator ∷ []) io_supply 1200000).1)
regulator_get-IsUnique_example =
    regulator_get-IsUnique counter 0 (used ∷ no_regulator ∷ []) io_supply 1200000
      (λ hw hw' name reg e. ground arith) unique
