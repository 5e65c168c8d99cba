-- ===== src/Slc/Ascending.antt =====
-- The sizes of the partitions of the system level cache stay sorted.
use google_lwis.Prelude.{
  ℕ, zero, suc, ◌+◌, ◌-◌, ◌≤◌, ◌<◌, ◌≡◌, refl, sym, ap, subst, not, Option, none, some, List, [],
  ◌∷◌, arith, ltb, ◌==◌, if◌then◌else◌, get_elem?, set, All, All-map, Option-cases, if-cases, inl,
  inr,
}
use google_lwis.Supply.{Got, handle, refused}
use google_lwis.Slc.{
  SlcPartition, SlcDevice, SlcTree, PtApi, is_free, is_negative, find_partition, read_sizes_kb,
  new_partitions, registered, with_sizes, disable_with, max_num_pt, close_partitions,
  take_partition, alloc_at, alloc_found, alloc_with, free_at, free_file, lwis_slc_enable,
  lwis_slc_disable, lwis_slc_buffer_alloc, lwis_slc_buffer_free, pt_ptid_invalid,
}

abbrev pub Sorted : List ℕ → Type 0
Sorted [] = Unit {0}
Sorted (x ∷ xs) = All (λ y. x ≤ y) xs × Sorted xs

abbrev pub sizes_of : List SlcPartition → List ℕ
sizes_of [] = []
sizes_of (p ∷ ps) = p.size_kb ∷ sizes_of ps

-- No partition is smaller than one before it.
abbrev pub IsAscending : SlcDevice → Type 0
IsAscending d = Sorted (sizes_of d.pt)

pub data SlcUse : Type 0 where
  enabling : SlcTree → SlcUse
  disabling : SlcUse
  request : ℕ → SlcUse
  return : ℕ → SlcUse

-- The sizes read from an index on are sorted, and not below the one before.
read_sizes_kb-Sorted :
    (pt_size : ℕ → ℕ) (i n : ℕ) (sizes : List ℕ)
    → read_sizes_kb pt_size i n ≡ some sizes
    → Sorted sizes × (0 < i → All (λ x. pt_size (i - 1) ≤ x) sizes)
unfolding read_sizes_kb
read_sizes_kb-Sorted pt_size i zero [] e = (tt, λ h. tt)
read_sizes_kb-Sorted pt_size i zero (x ∷ xs) e = absurd (cc)
read_sizes_kb-Sorted pt_size i (suc n) sizes e =
    elim (Option-cases (read_sizes_kb pt_size (i + 1) n)) [
      | inl bad ↦ absurd (ground arith)
      | inr (rest, good) ↦
          (let eq : pt_size i ∷ rest ≡ sizes = ground arith in
            let step : 0 < i → pt_size (i - 1) ≤ pt_size i = λ h. ground arith in
            let later = read_sizes_kb-Sorted pt_size (i + 1) n rest good in
            let above : All (λ x. pt_size i ≤ x) rest =
              All-map (λ x h. subst (λ k. pt_size k ≤ x) (omega arith) h) rest
                (later.1 (omega arith)) in
            subst (λ l. Sorted l × (0 < i → All (λ x. pt_size (i - 1) ≤ x) l)) eq
              (
                (above, later.0),
                (λ h. (step h, All-map (λ x k. omega (arith, step h, k)) rest above)),
              ))
    ]

sizes_of-new : (h i : ℕ) (sizes : List ℕ) → sizes_of (new_partitions h i sizes) ≡ sizes
unfolding new_partitions
sizes_of-new h i [] = refl
sizes_of-new h i (x ∷ xs) = ap (λ l. x ∷ l) (sizes_of-new h (i + 1) xs)

sizes_of-set :
    (ps : List SlcPartition) (i : ℕ) (p q : SlcPartition)
    → get_elem? ps i ≡ some p
    → q.size_kb ≡ p.size_kb
    → sizes_of (set ps i q) ≡ sizes_of ps
sizes_of-set [] i p q e h = refl
sizes_of-set (x ∷ ps) zero p q e h = ground arith
sizes_of-set (x ∷ ps) (suc i) p q e h = ap (λ l. x.size_kb ∷ l) (sizes_of-set ps i p q e h)

module _ {Hw : Type 0} (api : PtApi Hw) where
  close_partitions-sizes :
      (hw : Hw) (h : ℕ) (ps : List SlcPartition)
      → sizes_of (close_partitions api hw h ps).0 ≡ sizes_of ps
  unfolding close_partitions
  close_partitions-sizes hw h [] = refl
  close_partitions-sizes hw h (p ∷ ps) = ground (
    arith,
    close_partitions-sizes (if is_free p then hw else api.pt_client_disable hw h p.id) h ps,
  )

  take-sizes :
      (hw : Hw) (d : SlcDevice) (h i : ℕ) (p : SlcPartition)
      → get_elem? d.pt i ≡ some p
      → sizes_of (take_partition api hw d h i p).3.pt ≡ sizes_of d.pt
  unfolding take_partition
  take-sizes hw d h i p there =
      let (partition_id, hw1) = api.pt_client_enable hw h p.id in
      let fd = (api.anon_inode_getfd hw1 i).0 in
      let P = λ (x : ℕ × ℕ × ℕ × SlcDevice × Hw). sizes_of x.3.pt ≡ sizes_of d.pt in
      if-cases P (partition_id == pt_ptid_invalid) (λ e. refl)
        (λ e. if-cases P (is_negative fd) (λ e. refl) (λ e. sizes_of-set d.pt i p _ there refl))

  at-sizes :
      (hw : Hw) (d : SlcDevice) (h i : ℕ) (o : Option SlcPartition)
      → get_elem? d.pt i ≡ o
      → sizes_of (alloc_at api hw d h i o).3.pt ≡ sizes_of d.pt
  unfolding alloc_at
  at-sizes hw d h i none there = refl
  at-sizes hw d h i (some p) there = take-sizes hw d h i p there

  found-sizes :
      (hw : Hw) (d : SlcDevice) (h : ℕ) (o : Option ℕ)
      → sizes_of (alloc_found api hw d h o).3.pt ≡ sizes_of d.pt
  unfolding alloc_found
  found-sizes hw d h none = refl
  found-sizes hw d h (some i) = at-sizes hw d h i (get_elem? d.pt i) refl

  with-sizes :
      (hw : Hw) (d : SlcDevice) (size : ℕ) (o : Option ℕ)
      → sizes_of (alloc_with api hw d size o).3.pt ≡ sizes_of d.pt
  unfolding alloc_with
  with-sizes hw d size none = refl
  with-sizes hw d size (some h) = found-sizes hw d h (find_partition d.pt size 0)

  freed-sizes :
      (hw : Hw) (d : SlcDevice) (fd i : ℕ) (o : Option SlcPartition)
      → get_elem? d.pt i ≡ o
      → sizes_of (free_at api hw d fd i o).1.pt ≡ sizes_of d.pt
  unfolding free_at
  freed-sizes hw d fd i none there = refl
  freed-sizes hw d fd i (some p) there =
      let P = λ (x : ℕ × SlcDevice × Hw). sizes_of x.1.pt ≡ sizes_of d.pt in
      if-cases P (not (p.fd == fd)) (λ e. refl)
        (λ e. if-cases P (is_free p) (λ e. refl) (λ e. sizes_of-set d.pt i p _ there refl))

  file-sizes :
      (hw : Hw) (d : SlcDevice) (fd : ℕ) (o : Option ℕ)
      → sizes_of (free_file api hw d fd o).1.pt ≡ sizes_of d.pt
  unfolding free_file
  file-sizes hw d fd none = refl
  file-sizes hw d fd (some i) = freed-sizes hw d fd i (get_elem? d.pt i) refl

  enabled-IsAscending :
      (hw : Hw) (tree : SlcTree) (d : SlcDevice)
      → IsAscending d
      → IsAscending (lwis_slc_enable api hw tree d).1
  unfolding lwis_slc_enable
  enabled-IsAscending hw tree d before =
      let n = (if is_negative tree.num_pt_id then 0 else tree.num_pt_id) in
      let P = λ (x : ℕ × SlcDevice × Hw). IsAscending x.1 in
      if-cases P (not (tree.num_pt_id == tree.num_pt_size)) (λ e. before)
        (λ e.
          if-cases P (ltb max_num_pt n) (λ e. before)
            (λ e. by_sizes (read_sizes_kb tree.pt_size 0 n) refl))
    where
      by_answer :
          (sizes : List ℕ) (got : Got × Hw)
          → Sorted sizes
          → IsAscending (registered api d sizes got).1
      by_answer sizes (refused err, hw1) sorted = before
      by_answer sizes (handle h, hw1) sorted = subst Sorted (sym (sizes_of-new h 0 sizes)) sorted

      by_sizes :
          (o : Option (List ℕ))
          → read_sizes_kb tree.pt_size 0 (if is_negative tree.num_pt_id then 0 else tree.num_pt_id)
            ≡ o
          → IsAscending (with_sizes api hw d o).1
      by_sizes none e = before
      by_sizes (some sizes) e =
          by_answer sizes (api.pt_client_register hw)
            (read_sizes_kb-Sorted tree.pt_size 0 _ sizes e).0

  disabled-sizes :
      (hw : Hw) (d : SlcDevice) (o : Option ℕ)
      → sizes_of (disable_with api hw d o).1.pt ≡ sizes_of d.pt
  unfolding disable_with
  disabled-sizes hw d none = refl
  disabled-sizes hw d (some h) = close_partitions-sizes hw h d.pt

  -- What is done to the device from its probing on, whatever each call returns.
  unfoldable pub run_uses : Hw → SlcDevice → List SlcUse → SlcDevice × Hw
  run_uses hw d [] = (d, hw)
  run_uses hw d (enabling tree ∷ us) =
      let result = lwis_slc_enable api hw tree d in run_uses result.2 result.1 us
  run_uses hw d (disabling ∷ us) =
      let result = lwis_slc_disable api hw d in run_uses result.2 result.1 us
  run_uses hw d (request size ∷ us) =
      let result = lwis_slc_buffer_alloc api hw d size in run_uses result.4 result.3 us
  run_uses hw d (return fd ∷ us) =
      let result = lwis_slc_buffer_free api hw d fd in run_uses result.2 result.1 us

  pub run_uses-IsAscending :
      (hw : Hw) (d : SlcDevice) (us : List SlcUse)
      → IsAscending d
      → IsAscending (run_uses hw d us).0
  unfolding run_uses lwis_slc_buffer_alloc lwis_slc_buffer_free lwis_slc_disable
  run_uses-IsAscending hw d [] h = h
  run_uses-IsAscending hw d (enabling tree ∷ us) h =
      let result = lwis_slc_enable api hw tree d in
      run_uses-IsAscending result.2 result.1 us (enabled-IsAscending hw tree d h)
  run_uses-IsAscending hw d (disabling ∷ us) h =
      let result = lwis_slc_disable api hw d in
      run_uses-IsAscending result.2 result.1 us
        (subst Sorted (sym (disabled-sizes hw d d.partition_handle)) h)
  run_uses-IsAscending hw d (request size ∷ us) h =
      let result = lwis_slc_buffer_alloc api hw d size in
      run_uses-IsAscending result.4 result.3 us
        (subst Sorted (sym (with-sizes hw d size d.partition_handle)) h)
  run_uses-IsAscending hw d (return fd ∷ us) h =
      let result = lwis_slc_buffer_free api hw d fd in
      run_uses-IsAscending result.2 result.1 us
        (subst Sorted (sym (file-sizes hw d fd (api.fget hw fd))) h)
