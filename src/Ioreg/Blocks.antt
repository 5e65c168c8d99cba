-- ===== src/Ioreg/Blocks.antt =====
-- lwis_ioreg.c: the list of register blocks, and mapping them.
use google_lwis.Prelude.{
  ℕ, ◌+◌, ◌^◌, ◌%◌, Bool, true, false, not, ◌&&◌, ◌||◌, Option, none, some, List, [], ◌∷◌, neg, leb,
  ◌==◌, if◌then◌else◌, get_elem?, set, length,
}
use google_lwis.Kernel.{Kernel, World, kmalloc, einval, enoent, enomem}
use google_lwis.Ioreg.{Block, IoregDevice}

-- What is not in the repository: the resource of an index, as its start and size, the address that
-- a start and a size are mapped to, 0 if they cannot be, taking a mapping down, and what
-- uninitialised memory holds.
pub record Platform (Hw : Type 0) : Type 0 where
  pub platform_get_resource : ℕ → Option (ℕ × ℕ)
  pub devm_ioremap : Hw → ℕ → ℕ → ℕ × Hw
  pub devm_iounmap : Hw → ℕ → Hw
  pub garbage : ℕ → List Block

abbrev pub same_name : List ℕ → List ℕ → Bool
same_name [] [] = true
same_name [] (y ∷ ys) = false
same_name (x ∷ xs) [] = false
same_name (x ∷ xs) (y ∷ ys) = x == y && same_name xs ys

-- The loop, from an index on; -ENOENT is `none`.
abbrev pub find_from : List Block → List ℕ → ℕ → Option ℕ
find_from [] name i = none
find_from (b ∷ bs) name i = if same_name b.name name then some i else find_from bs name (i + 1)

abbrev pub find_block_idx_by_name : List Block → List ℕ → Option ℕ
find_block_idx_by_name blocks name = find_from blocks name 0

module _ (k : Kernel) {Hw : Type 0} (p : Platform Hw) where
  -- The number of blocks is an `int`.
  unfoldable pub lwis_ioreg_list_alloc : World Hw → IoregDevice → ℕ → ℕ × IoregDevice × World Hw
  lwis_ioreg_list_alloc w d num_blocks =
      let (done, w1) = kmalloc k w in
      if num_blocks == 0 || leb (2 ^ 31) num_blocks
      then (neg einval, d, w)
      else if not done
      then (neg enomem, record d { block = [] }, w1)
      else (0, record d { block = p.garbage num_blocks }, w1)

  abbrev pub lwis_ioreg_list_free : IoregDevice → IoregDevice
  lwis_ioreg_list_free d = record d { block = [] }

  unfoldable pub lwis_ioreg_get : World Hw → IoregDevice → ℕ → List ℕ → ℕ × IoregDevice × World Hw
  lwis_ioreg_get w d index name =
      if leb (2 ^ 31) index || leb (length d.block) index
      then (neg einval, d, w)
      else (elim (p.platform_get_resource index) [
        | none ↦ (neg einval, d, w)
        | some (start, size) ↦
            let (base, hw) = p.devm_ioremap w.hw start size in
            let b : Block = record {
              start = start;
              size = size % 2 ^ 32;
              base = base;
              name = name;
            } in
            (
              (if base == 0 then neg einval else 0),
              record d { block = set d.block index b },
              record w { hw = hw },
            )
      ])

  -- The block keeps its base.
  unmap : World Hw → Option Block → ℕ × World Hw
  unmap w none = (neg einval, w)
  unmap w (some b) =
      if b.base == 0 then (neg einval, w) else (0, record w { hw = p.devm_iounmap w.hw b.base })

  unfoldable pub lwis_ioreg_put_by_idx : World Hw → IoregDevice → ℕ → ℕ × World Hw
  unfolding unmap
  lwis_ioreg_put_by_idx w d index =
      if leb (2 ^ 31) index then (neg einval, w) else unmap w (get_elem? d.block index)

  unfoldable pub lwis_ioreg_put_by_name : World Hw → IoregDevice → List ℕ → ℕ × World Hw
  unfolding unmap
  lwis_ioreg_put_by_name w d name = elim (find_block_idx_by_name d.block name) [
    | none ↦ (neg enoent, w)
    | some index ↦ unmap w (get_elem? d.block index)
  ]
