-- ===== src/Supply/Regulator.antt =====
-- lwis_regulator.c: the voltage regulators of a device.
pub mod Unique
use google_lwis.Prelude.{
  ℕ, ◌+◌, ◌^◌, Bool, true, false, not, ◌&&◌, ◌||◌, Option, none, some, List, [], ◌∷◌, neg, nonzero,
  leb, ltb, ◌==◌, if◌then◌else◌, get_elem?, set,
}
use google_lwis.Kernel.{Kernel, World, kmalloc, einval, enoent, enomem}
use google_lwis.Supply.{Name, same_name, Got, handle, refused, repeat}

-- `struct lwis_regulator`: a handle of 0 is NULL, and so is a name of `none`.
pub record Regulator : Type 0 where
  pub reg : ℕ
  pub name : Option Name
  pub voltage : ℕ

abbrev pub no_regulator : Regulator
no_regulator = record { reg = 0; name = none; voltage = 0 }

-- The functions of the kernel for regulators: each returns 0 or an error.
pub record RegulatorApi (Hw : Type 0) : Type 0 where
  pub devm_regulator_get : Hw → Name → Got × Hw
  pub devm_regulator_put : Hw → ℕ → Hw
  pub regulator_set_voltage : Hw → ℕ → ℕ → ℕ × Hw
  pub regulator_enable : Hw → ℕ → ℕ × Hw
  pub regulator_disable : Hw → ℕ → ℕ × Hw

-- The search through all slots, from an index on, with the empty slot found last.
pub data Search : Type 0 where
  already : ℕ → Search
  ended : Option ℕ → Search

abbrev pub has_name : Regulator → Name → Bool
has_name r name = elim r.name [ none ↦ false | some n ↦ same_name n name ]

unfoldable pub search : List Regulator → Name → ℕ → Option ℕ → Search
search [] name i index = ended index
search (r ∷ rs) name i index =
    if r.reg == 0
    then search rs name (i + 1) (some i)
    else if has_name r name
    then already i
    else search rs name (i + 1) index

-- Looking an entry up by its name compares the names of all slots before it: `none` is the use of a
-- NULL name, and an index past the list is that of no entry.
unfoldable pub index_by_name : List Regulator → Name → ℕ → Option ℕ
index_by_name [] name i = some i
index_by_name (r ∷ rs) name i = elim r.name [
  | none ↦ none
  | some n ↦ (if same_name n name then some i else index_by_name rs name (i + 1))
]

module _ (k : Kernel) {Hw : Type 0} where
  -- The number is an `int`, and may be 0. The error, or 0 and the list.
  unfoldable pub lwis_regulator_list_alloc : World Hw → ℕ → ℕ × List Regulator × World Hw
  lwis_regulator_list_alloc w num_regs =
      let (list_done, w1) = kmalloc k w in
      let (reg_done, w2) = kmalloc k w1 in
      if leb (2 ^ 31) num_regs
      then (neg einval, [], w)
      else if not list_done
      then (neg enomem, [], w1)
      else if not reg_done
      then (neg enomem, [], w2)
      else (0, repeat num_regs no_regulator, w2)

module _ {Hw : Type 0} (api : RegulatorApi Hw) where
  -- The result is the index or an error.
  unfoldable pub lwis_regulator_get : Hw → List Regulator → Name → ℕ → ℕ × List Regulator × Hw
  unfolding search
  lwis_regulator_get hw list name voltage = elim (search list name 0 none) [
    | already i ↦ (i, list, hw)
    | ended none ↦ (neg enomem, list, hw)
    | ended (some i) ↦
        (let (got, hw') = api.devm_regulator_get hw name in
          elim got [
            | refused err ↦ (err, list, hw')
            | handle reg ↦
                (i, set list i (record { reg = reg; name = some name; voltage = voltage }), hw')
          ])
  ]

  unfoldable pub lwis_regulator_put_by_idx : Hw → List Regulator → ℕ → ℕ × List Regulator × Hw
  lwis_regulator_put_by_idx hw list index = elim (get_elem? list index) [
    | none ↦ (neg einval, list, hw)
    | some r ↦
        (if r.reg == 0
          then (neg einval, list, hw)
          else (0, set list index no_regulator, api.devm_regulator_put hw r.reg))
  ]

  unfoldable pub lwis_regulator_put_by_name :
      Hw → List Regulator → Name → Option (ℕ × List Regulator × Hw)
  unfolding lwis_regulator_put_by_idx index_by_name
  lwis_regulator_put_by_name hw list name = elim (index_by_name list name 0) [
    | none ↦ none
    | some index ↦ some (lwis_regulator_put_by_idx hw list index)
  ]

  -- An entry of the list; its voltage is an `int`.
  unfoldable pub enable : Hw → Regulator → ℕ × Hw
  enable hw r =
      let (ret, hw1) = api.regulator_set_voltage hw r.reg r.voltage in
      if r.voltage == 0 || leb (2 ^ 31) r.voltage
      then api.regulator_enable hw r.reg
      else if nonzero ret
      then (ret, hw1)
      else api.regulator_enable hw1 r.reg

  -- The index is not tested: `none` is an access outside the list.
  unfoldable pub lwis_regulator_enable_by_idx : Hw → List Regulator → ℕ → Option (ℕ × Hw)
  unfolding enable
  lwis_regulator_enable_by_idx hw list index = elim (get_elem? list index) [
    | none ↦ none
    | some r ↦ some (enable hw r)
  ]

  unfoldable pub lwis_regulator_enable_by_name : Hw → List Regulator → Name → Option (ℕ × Hw)
  unfolding enable index_by_name
  lwis_regulator_enable_by_name hw list name = elim (index_by_name list name 0) [
    | none ↦ none
    | some index ↦ (elim (get_elem? list index) [
      | none ↦ some (neg enoent, hw)
      | some r ↦ some (enable hw r)
    ])
  ]

  -- The loops end at the first error.
  unfoldable pub lwis_regulator_enable_all : Hw → List Regulator → ℕ × Hw
  unfolding enable
  lwis_regulator_enable_all hw [] = (0, hw)
  lwis_regulator_enable_all hw (r ∷ rs) =
      let (ret, hw1) = enable hw r in
      let rest = lwis_regulator_enable_all hw1 rs in if nonzero ret then (ret, hw1) else rest

  unfoldable pub lwis_regulator_disable_by_idx : Hw → List Regulator → ℕ → Option (ℕ × Hw)
  lwis_regulator_disable_by_idx hw list index = elim (get_elem? list index) [
    | none ↦ none
    | some r ↦ some (api.regulator_disable hw r.reg)
  ]

  unfoldable pub lwis_regulator_disable_by_name : Hw → List Regulator → Name → Option (ℕ × Hw)
  unfolding index_by_name
  lwis_regulator_disable_by_name hw list name = elim (index_by_name list name 0) [
    | none ↦ none
    | some index ↦ (elim (get_elem? list index) [
      | none ↦ some (neg enoent, hw)
      | some r ↦ some (api.regulator_disable hw r.reg)
    ])
  ]

  unfoldable pub lwis_regulator_disable_all : Hw → List Regulator → ℕ × Hw
  lwis_regulator_disable_all hw [] = (0, hw)
  lwis_regulator_disable_all hw (r ∷ rs) =
      let (ret, hw1) = api.regulator_disable hw r.reg in
      let rest = lwis_regulator_disable_all hw1 rs in if nonzero ret then (ret, hw1) else rest
