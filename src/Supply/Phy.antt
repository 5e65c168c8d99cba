-- ===== src/Supply/Phy.antt =====
-- lwis_phy.c: the PHYs of a device.
use google_lwis.Prelude.{
  ℕ, ◌+◌, ◌^◌, Bool, false, not, ◌||◌, Option, none, some, List, [], ◌∷◌, neg, nonzero, leb, ◌==◌,
  if◌then◌else◌, get_elem?, set, length,
}
use google_lwis.Kernel.{Kernel, World, kmalloc, einval, enoent, enomem}
use google_lwis.Supply.{Name, same_name, Got, handle, refused, repeat}

-- `struct lwis_phy`: a handle of 0 is NULL, and so is a name of `none`.
pub record Phy : Type 0 where
  pub phy : ℕ
  pub name : Option Name

abbrev pub no_phy : Phy
no_phy = record { phy = 0; name = none }

-- The functions of the kernel for PHYs: each returns 0 or an error.
pub record PhyApi (Hw : Type 0) : Type 0 where
  pub devm_phy_get : Hw → Name → Got × Hw
  pub devm_phy_put : Hw → ℕ → Hw
  pub phy_power_on : Hw → ℕ → ℕ × Hw
  pub phy_power_off : Hw → ℕ → ℕ × Hw

-- The search through all slots, from an index on, with the empty slot found last.
pub data Search : Type 0 where
  already : ℕ → Search
  ended : Option ℕ → Search

abbrev pub has_name : Option Name → Name → Bool
has_name none name = false
has_name (some n) name = same_name n name

unfoldable pub search : List Phy → Name → ℕ → Option ℕ → Search
search [] name i index = ended index
search (p ∷ ps) name i index =
    if p.phy == 0
    then search ps name (i + 1) (some i)
    else if has_name p.name name
    then already i
    else search ps name (i + 1) index

-- `none` is the use of a NULL name, and an index past the list is that of no entry.
unfoldable pub index_by_name : List Phy → Name → ℕ → Option ℕ
index_by_name [] name i = some i
index_by_name (p ∷ ps) name i = elim p.name [
  | none ↦ none
  | some n ↦ (if same_name n name then some i else index_by_name ps name (i + 1))
]

module _ (k : Kernel) {Hw : Type 0} where
  -- The number is an `int`. The error, or 0 and the list.
  unfoldable pub lwis_phy_list_alloc : World Hw → ℕ → ℕ × List Phy × World Hw
  lwis_phy_list_alloc w count =
      let (list_done, w1) = kmalloc k w in
      let (phy_done, w2) = kmalloc k w1 in
      if count == 0 || leb (2 ^ 31) count
      then (neg einval, [], w)
      else if not list_done
      then (neg enomem, [], w1)
      else if not phy_done
      then (neg enomem, [], w2)
      else (0, repeat count no_phy, w2)

module _ {Hw : Type 0} (api : PhyApi Hw) where
  -- The result is the index or an error.
  unfoldable pub lwis_phy_get : Hw → List Phy → Name → ℕ × List Phy × Hw
  unfolding search
  lwis_phy_get hw list name = elim (search list name 0 none) [
    | already i ↦ (i, list, hw)
    | ended none ↦ (neg enomem, list, hw)
    | ended (some i) ↦
        (let (got, hw') = api.devm_phy_get hw name in
          elim got [
            | refused err ↦ (err, list, hw')
            | handle phy ↦ (i, set list i (record { phy = phy; name = some name }), hw')
          ])
  ]

  unfoldable pub lwis_phy_put_by_idx : Hw → List Phy → ℕ → ℕ × List Phy × Hw
  lwis_phy_put_by_idx hw list index = elim (get_elem? list index) [
    | none ↦ (neg einval, list, hw)
    | some p ↦
        (if p.phy == 0
          then (neg einval, list, hw)
          else (0, set list index no_phy, api.devm_phy_put hw p.phy))
  ]

  unfoldable pub lwis_phy_put_by_name : Hw → List Phy → Name → Option (ℕ × List Phy × Hw)
  unfolding lwis_phy_put_by_idx index_by_name
  lwis_phy_put_by_name hw list name = elim (index_by_name list name 0) [
    | none ↦ none
    | some index ↦ some (lwis_phy_put_by_idx hw list index)
  ]

  unfoldable pub lwis_phy_set_power_by_idx : Hw → List Phy → ℕ → Bool → ℕ × Hw
  lwis_phy_set_power_by_idx hw list index power_on = elim (get_elem? list index) [
    | none ↦ (neg einval, hw)
    | some p ↦ (if power_on then api.phy_power_on hw p.phy else api.phy_power_off hw p.phy)
  ]

  unfoldable pub lwis_phy_set_power_by_name : Hw → List Phy → Name → Bool → Option (ℕ × Hw)
  unfolding lwis_phy_set_power_by_idx index_by_name
  lwis_phy_set_power_by_name hw list name power_on = elim (index_by_name list name 0) [
    | none ↦ none
    | some index ↦
        (if leb (length list) index
          then some (neg enoent, hw)
          else some (lwis_phy_set_power_by_idx hw list index power_on))
  ]

  -- The loop, from an index on, with the PHYs that are left. It ends at the first error.
  unfoldable pub set_power_from : Hw → List Phy → Bool → ℕ → List Phy → ℕ × Hw
  unfolding lwis_phy_set_power_by_idx
  set_power_from hw list power_on i [] = (0, hw)
  set_power_from hw list power_on i (p ∷ rest) =
      let (ret, hw1) = lwis_phy_set_power_by_idx hw list i power_on in
      let after = set_power_from hw1 list power_on (i + 1) rest in
      if nonzero ret then (ret, hw1) else after

  abbrev pub lwis_phy_set_power_all : Hw → List Phy → Bool → ℕ × Hw
  lwis_phy_set_power_all hw list power_on = set_power_from hw list power_on 0 list
