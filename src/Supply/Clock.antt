-- ===== src/Supply/Clock.antt =====
-- lwis_clock.c: the clocks of a device.
use google_lwis.Prelude.{
  ℕ, ◌+◌, ◌^◌, Bool, false, not, ◌||◌, Option, none, some, List, [], ◌∷◌, neg, nonzero, leb, ◌==◌,
  if◌then◌else◌, get_elem?, set, length,
}
use google_lwis.Kernel.{Kernel, World, kmalloc, einval, enoent, enomem}
use google_lwis.Supply.{Name, same_name, Got, handle, refused, repeat}

-- `struct lwis_clock`: a handle of 0 is NULL, and so is a name of `none`.
pub record Clock : Type 0 where
  pub clk : ℕ
  pub name : Option Name
  pub rate : ℕ

abbrev pub no_clock : Clock
no_clock = record { clk = 0; name = none; rate = 0 }

-- The functions of the kernel for clocks: each returns 0 or an error.
pub record ClockApi (Hw : Type 0) : Type 0 where
  pub devm_clk_get : Hw → Name → Got × Hw
  pub devm_clk_put : Hw → ℕ → Hw
  pub clk_prepare_enable : Hw → ℕ → ℕ × Hw
  pub clk_set_rate : Hw → ℕ → ℕ → ℕ × Hw
  pub clk_disable_unprepare : Hw → ℕ → Hw

-- The search for an empty slot, from an index on: the index of a clock that has the name, or an empty
-- slot. A clock in use has a name.
pub data Search : Type 0 where
  already : ℕ → Search
  slot : ℕ → Search
  full : Search

abbrev pub has_name : Clock → Name → Bool
has_name c name = elim c.name [ none ↦ false | some n ↦ same_name n name ]

unfoldable pub search : List Clock → Name → ℕ → Search
search [] name i = full
search (c ∷ cs) name i =
    if c.clk == 0 then slot i else if has_name c name then already i else search cs name (i + 1)

-- Looking an entry up by its name compares the names of all slots before it: `none` is the use of a
-- NULL name, and an index past the list is that of no entry.
unfoldable pub index_by_name : List Clock → Name → ℕ → Option ℕ
index_by_name [] name i = some i
index_by_name (c ∷ cs) name i = elim c.name [
  | none ↦ none
  | some n ↦ (if same_name n name then some i else index_by_name cs name (i + 1))
]

module _ (k : Kernel) {Hw : Type 0} where
  -- The number is an `int`. The error, or 0 and the list.
  unfoldable pub lwis_clock_list_alloc : World Hw → ℕ → ℕ × List Clock × World Hw
  lwis_clock_list_alloc w num_clks =
      let (list_done, w1) = kmalloc k w in
      let (clk_done, w2) = kmalloc k w1 in
      if num_clks == 0 || leb (2 ^ 31) num_clks
      then (neg einval, [], w)
      else if not list_done
      then (neg enomem, [], w1)
      else if not clk_done
      then (neg enomem, [], w2)
      else (0, repeat num_clks no_clock, w2)

module _ {Hw : Type 0} (api : ClockApi Hw) where
  -- The result is the index or an error.
  unfoldable pub lwis_clock_get : Hw → List Clock → Name → ℕ → ℕ × List Clock × Hw
  unfolding search
  lwis_clock_get hw list name rate = elim (search list name 0) [
    | already i ↦ (i, list, hw)
    | full ↦ (neg enomem, list, hw)
    | slot i ↦
        (let (got, hw') = api.devm_clk_get hw name in
          elim got [
            | refused err ↦ (err, list, hw')
            | handle clk ↦
                (i, set list i (record { clk = clk; name = some name; rate = rate }), hw')
          ])
  ]

  -- The slot is emptied. The kernel's handles are neither errors nor NULL once they are stored.
  unfoldable pub lwis_clock_put_by_idx : Hw → List Clock → ℕ → ℕ × List Clock × Hw
  lwis_clock_put_by_idx hw list index = elim (get_elem? list index) [
    | none ↦ (neg einval, list, hw)
    | some c ↦
        (if c.clk == 0
          then (neg einval, list, hw)
          else (0, set list index no_clock, api.devm_clk_put hw c.clk))
  ]

  unfoldable pub lwis_clock_put_by_name : Hw → List Clock → Name → Option (ℕ × List Clock × Hw)
  unfolding lwis_clock_put_by_idx index_by_name
  lwis_clock_put_by_name hw list name = elim (index_by_name list name 0) [
    | none ↦ none
    | some index ↦ some (lwis_clock_put_by_idx hw list index)
  ]

  unfoldable pub lwis_clock_enable_by_idx : Hw → List Clock → ℕ → ℕ × Hw
  lwis_clock_enable_by_idx hw list index = elim (get_elem? list index) [
    | none ↦ (neg einval, hw)
    | some c ↦
        (let (ret, hw1) = api.clk_prepare_enable hw c.clk in
          if nonzero ret
          then (ret, hw1)
          else if c.rate == 0
          then (0, hw1)
          else api.clk_set_rate hw1 c.clk c.rate)
  ]

  unfoldable pub lwis_clock_enable_by_name : Hw → List Clock → Name → Option (ℕ × Hw)
  unfolding lwis_clock_enable_by_idx index_by_name
  lwis_clock_enable_by_name hw list name = elim (index_by_name list name 0) [
    | none ↦ none
    | some index ↦
        (if leb (length list) index
          then some (neg enoent, hw)
          else some (lwis_clock_enable_by_idx hw list index))
  ]

  -- The loop, from an index on, with the number of clocks that are left. It ends at the first error.
  unfoldable pub enable_from : Hw → List Clock → ℕ → List Clock → ℕ × Hw
  unfolding lwis_clock_enable_by_idx
  enable_from hw list i [] = (0, hw)
  enable_from hw list i (c ∷ rest) =
      let (ret, hw1) = lwis_clock_enable_by_idx hw list i in
      let after = enable_from hw1 list (i + 1) rest in if nonzero ret then (ret, hw1) else after

  abbrev pub lwis_clock_enable_all : Hw → List Clock → ℕ × Hw
  lwis_clock_enable_all hw list = enable_from hw list 0 list

  unfoldable pub lwis_clock_disable_by_idx : Hw → List Clock → ℕ → Hw
  lwis_clock_disable_by_idx hw list index = elim (get_elem? list index) [
    | none ↦ hw
    | some c ↦ api.clk_disable_unprepare hw c.clk
  ]

  unfoldable pub lwis_clock_disable_by_name : Hw → List Clock → Name → Option Hw
  unfolding lwis_clock_disable_by_idx index_by_name
  lwis_clock_disable_by_name hw list name = elim (index_by_name list name 0) [
    | none ↦ none
    | some index ↦ some (lwis_clock_disable_by_idx hw list index)
  ]

  unfoldable pub lwis_clock_disable_all : Hw → List Clock → Hw
  lwis_clock_disable_all hw [] = hw
  lwis_clock_disable_all hw (c ∷ cs) =
      lwis_clock_disable_all (api.clk_disable_unprepare hw c.clk) cs
