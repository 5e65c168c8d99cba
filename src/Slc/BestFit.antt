-- ===== src/Slc/BestFit.antt =====
-- Which partition of the system level cache a request is given.
use google_lwis.Prelude.{
  ℕ, suc, ◌+◌, ◌≤◌, ◌≡◌, refl, subst, true, ◌&&◌, Option, none, some, List, [], ◌∷◌, arith, leb,
  ◌==◌, get_elem?, set, All, Bool-cases, if-cases, inl, inr,
}
use google_lwis.Slc.{
  SlcPartition, SlcDevice, PtApi, is_free, is_negative, size_to_kb, find_partition, take_partition,
  probed, alloc_at, alloc_found, alloc_with, lwis_slc_buffer_alloc, pt_ptid_invalid,
}
use google_lwis.Slc.Ascending.{
  Sorted, sizes_of, IsAscending, SlcUse, run_uses, run_uses-IsAscending,
}

-- What the search finds is free and large enough, and not larger than another such partition.
abbrev Fits : SlcPartition → ℕ → Type 0
Fits p size = (is_free p ≡ true) × (size_to_kb size ≤ p.size_kb)

abbrev pub IsBest : SlcPartition → ℕ → List SlcPartition → Type 0
IsBest p size ps = All (λ q. Fits q size → p.size_kb ≤ q.size_kb) ps

IsBest-of_sorted :
    (p : SlcPartition) (size : ℕ) (ps : List SlcPartition)
    → All (λ y. p.size_kb ≤ y) (sizes_of ps)
    → IsBest p size ps
IsBest-of_sorted p size [] h = tt
IsBest-of_sorted p size (q ∷ ps) h = (λ fits. h.0, IsBest-of_sorted p size ps h.1)

find_partition-IsBest :
    (ps : List SlcPartition) (size i j : ℕ)
    → Sorted (sizes_of ps)
    → find_partition ps size i ≡ some j
    → (n : ℕ) × (p : SlcPartition) × (j ≡ i + n)
      × (get_elem? ps n ≡ some p)
      × Fits p size
      × IsBest p size ps
unfolding find_partition
find_partition-IsBest [] size i j sorted e = absurd (cc)
find_partition-IsBest (p ∷ ps) size i j sorted e =
    elim (Bool-cases (is_free p && leb (size_to_kb size) p.size_kb)) [
      | inl hit ↦ (
        0,
        p,
        ground arith,
        refl,
        (ground arith, ground arith),
        ((λ fits. omega arith), IsBest-of_sorted p size ps sorted.0),
      )
      | inr miss ↦
          (let (n, found, place, there, fits, best) =
              find_partition-IsBest ps size (i + 1) j sorted.1 (ground arith) in
            (
              suc n,
              found,
              omega arith,
              there,
              fits,
              ((λ f. absurd (ground (arith, f.0, f.1))), best),
            ))
    ]

module _ {Hw : Type 0} (api : PtApi Hw) where
  -- A request got a free partition that is large enough, no larger than another such partition, and
  -- its entry is the only one changed.
  abbrev pub Taken : SlcDevice → ℕ → ℕ × ℕ × ℕ × SlcDevice × Hw → Type 0
  Taken d size result =
      (i : ℕ) × (p : SlcPartition) × (get_elem? d.pt i ≡ some p)
      × (is_free p ≡ true)
      × (size_to_kb size ≤ p.size_kb)
      × IsBest p size d.pt
      × (result.3.pt ≡ set d.pt i (record p { fd = result.1; partition_id = result.2 }))

  take-Taken :
      (hw : Hw) (d : SlcDevice) (h i size : ℕ) (p : SlcPartition)
      → get_elem? d.pt i ≡ some p
      → is_free p ≡ true
      → size_to_kb size ≤ p.size_kb
      → IsBest p size d.pt
      → (take_partition api hw d h i p).0 ≡ 0
      → Taken d size (take_partition api hw d h i p)
  unfolding take_partition
  take-Taken hw d h i size p there free large best =
      let (partition_id, hw1) = api.pt_client_enable hw h p.id in
      let fd = (api.anon_inode_getfd hw1 i).0 in
      let P = λ (x : ℕ × ℕ × ℕ × SlcDevice × Hw). (x.0 ≡ 0 → Taken d size x) in
      if-cases P (partition_id == pt_ptid_invalid) (λ e z. absurd (omega (arith, z)))
        (λ e.
          if-cases P (is_negative fd) (λ n z. absurd (ground arith))
            (λ n z. (i, p, there, free, large, best, refl)))

  found-Taken :
      (hw : Hw) (d : SlcDevice) (h size : ℕ) (o : Option ℕ)
      → IsAscending d
      → find_partition d.pt size 0 ≡ o
      → (alloc_found api hw d h o).0 ≡ 0
      → Taken d size (alloc_found api hw d h o)
  unfolding alloc_found alloc_at
  found-Taken hw d h size none sorted e z = absurd (omega (arith, z))
  found-Taken hw d h size (some i) sorted e z =
      let (n, p, place, there, fits, best) = find_partition-IsBest d.pt size 0 i sorted e in
      let at_i : get_elem? d.pt i ≡ some p =
        subst (λ k. get_elem? d.pt k ≡ some p) (omega arith) there in
      rw at_i (
        take-Taken hw d h i size p at_i fits.0 fits.1 best
          (subst (λ o. (alloc_at api hw d h i o).0 ≡ 0) at_i z))

  with-Taken :
      (hw : Hw) (d : SlcDevice) (size : ℕ) (o : Option ℕ)
      → IsAscending d
      → (alloc_with api hw d size o).0 ≡ 0
      → Taken d size (alloc_with api hw d size o)
  unfolding alloc_with
  with-Taken hw d size none sorted z = absurd (omega (arith, z))
  with-Taken hw d size (some h) sorted z =
      found-Taken hw d h size (find_partition d.pt size 0) sorted refl z

  -- After any calls of lwis_slc_enable, lwis_slc_disable, lwis_slc_buffer_alloc and
  -- lwis_slc_buffer_free on a device that was just probed, whatever they returned, a request that
  -- returns 0 has taken a free partition whose kilobytes are at least those of the request, rounded
  -- down, and are the fewest of all such partitions; it stores the file and the id that it returns
  -- in that partition, and changes no other.
  pub slc_request-Taken :
      (hw : Hw) (us : List SlcUse) (size : ℕ)
      → (lwis_slc_buffer_alloc api
          (run_uses api hw probed us).1
          (run_uses api hw probed us).0
          size).0
        ≡ 0
      → Taken (run_uses api hw probed us).0 size (
          lwis_slc_buffer_alloc api
            (run_uses api hw probed us).1
            (run_uses api hw probed us).0
            size)
  unfolding lwis_slc_buffer_alloc
  slc_request-Taken hw us size =
      with-Taken (run_uses api hw probed us).1 (run_uses api hw probed us).0 size
        (run_uses api hw probed us).0.partition_handle (run_uses-IsAscending api hw probed us tt)
