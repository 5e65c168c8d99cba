-- ===== src/Slc.antt =====
-- lwis_device_slc.c: partitions of the system level cache, given out as buffers.
pub mod Ascending
pub mod BestFit
use google_lwis.Prelude.{
  ℕ, zero, suc, ◌+◌, ◌-◌, ◌/◌, ◌^◌, Bool, true, false, not, ◌&&◌, ◌||◌, Option, none, some, List,
  [], ◌∷◌, neg, nonzero, ltb, leb, ◌==◌, if◌then◌else◌, get_elem?, set, length,
}
use google_lwis.Kernel.{einval, enodev, ebadf, eproto}
use google_lwis.Supply.{Got, handle, refused}

abbrev pub max_num_pt : ℕ
max_num_pt = 16

-- PT_PTID_INVALID, and a closed file: -1.
abbrev pub pt_ptid_invalid : ℕ
pt_ptid_invalid = neg 1

-- `struct slc_partition`
pub record SlcPartition : Type 0 where
  pub id : ℕ
  pub size_kb : ℕ
  pub fd : ℕ
  pub partition_id : ℕ
  pub partition_handle : ℕ

-- `struct lwis_slc_device`: the first num_pt partitions, which are none where num_pt is negative. A
-- NULL handle is `none`.
pub record SlcDevice : Type 0 where
  pub pt : List SlcPartition
  pub partition_handle : Option ℕ

-- The device after kzalloc in lwis_slc_device_probe.
abbrev pub probed : SlcDevice
probed = record { pt = []; partition_handle = none }

-- The functions of the kernel. A file is that of a partition, by its index: that the number of a file
-- still names one of the device's partitions is assumed here, and not tested by the code.
pub record PtApi (Hw : Type 0) : Type 0 where
  pub pt_client_register : Hw → Got × Hw
  pub pt_client_unregister : Hw → ℕ → Hw
  pub pt_client_enable : Hw → ℕ → ℕ → ℕ × Hw
  pub pt_client_disable : Hw → ℕ → ℕ → Hw
  pub anon_inode_getfd : Hw → ℕ → ℕ × Hw
  pub fget : Hw → ℕ → Option ℕ

-- The two counts that the device tree gives are `int`, and the sizes are 32 bits wide.
pub record SlcTree : Type 0 where
  pub num_pt_id : ℕ
  pub num_pt_size : ℕ
  pub pt_size : ℕ → ℕ

-- A negative `int`.
abbrev pub is_negative : ℕ → Bool
is_negative n = leb (2 ^ 31) n

-- Reading n sizes from index i on, each not below the one before: `none` is a size that is.
unfoldable pub read_sizes_kb : (ℕ → ℕ) → ℕ → ℕ → Option (List ℕ)
read_sizes_kb pt_size i zero = some []
read_sizes_kb pt_size i (suc n) =
    let rest = read_sizes_kb pt_size (i + 1) n in
    if ltb 0 i && ltb (pt_size i) (pt_size (i - 1))
    then none
    else elim rest [ none ↦ none | some sizes ↦ some (pt_size i ∷ sizes) ]

-- The partitions with the sizes, numbered from i on.
unfoldable pub new_partitions : ℕ → ℕ → List ℕ → List SlcPartition
new_partitions partition_handle i [] = []
new_partitions partition_handle i (size ∷ sizes) =
    record {
      id = i;
      size_kb = size;
      fd = neg 1;
      partition_id = pt_ptid_invalid;
      partition_handle = partition_handle;
    }
    ∷ new_partitions partition_handle (i + 1) sizes

abbrev pub is_free : SlcPartition → Bool
is_free p = p.partition_id == pt_ptid_invalid

-- `SIZE_TO_KB`
abbrev pub size_to_kb : ℕ → ℕ
size_to_kb x = x / 1024

-- The index of the first free partition that is large enough, from an index on.
unfoldable pub find_partition : List SlcPartition → ℕ → ℕ → Option ℕ
find_partition [] size i = none
find_partition (p ∷ ps) size i =
    if is_free p && leb (size_to_kb size) p.size_kb then some i else find_partition ps size (i + 1)

module _ {Hw : Type 0} (api : PtApi Hw) where
  unfoldable pub registered : SlcDevice → List ℕ → Got × Hw → ℕ × SlcDevice × Hw
  unfolding new_partitions
  registered d sizes (refused err, hw1) = (err, record d { partition_handle = none }, hw1)
  registered d sizes (handle h, hw1) =
      (0, record { pt = new_partitions h 0 sizes; partition_handle = some h }, hw1)

  unfoldable pub with_sizes : Hw → SlcDevice → Option (List ℕ) → ℕ × SlcDevice × Hw
  unfolding registered
  with_sizes hw d none = (neg einval, d, hw)
  with_sizes hw d (some sizes) = registered d sizes (api.pt_client_register hw)

  unfoldable pub lwis_slc_enable : Hw → SlcTree → SlcDevice → ℕ × SlcDevice × Hw
  unfolding read_sizes_kb with_sizes
  lwis_slc_enable hw tree d =
      let n = if is_negative tree.num_pt_id then 0 else tree.num_pt_id in
      if not (tree.num_pt_id == tree.num_pt_size)
      then (neg einval, d, hw)
      else if ltb max_num_pt n
      then (neg einval, d, hw)
      else with_sizes hw d (read_sizes_kb tree.pt_size 0 n)

  -- The partitions in use are disabled.
  unfoldable pub close_partitions : Hw → ℕ → List SlcPartition → List SlcPartition × Hw
  close_partitions hw h [] = ([], hw)
  close_partitions hw h (p ∷ ps) =
      let hw1 = (if is_free p then hw else api.pt_client_disable hw h p.id) in
      let p1 = (if is_free p then p else record p { partition_id = pt_ptid_invalid; fd = neg 1 }) in
      let (ps', hw2) = close_partitions hw1 h ps in (p1 ∷ ps', hw2)

  -- The handle stays in the device.
  unfoldable pub disable_with : Hw → SlcDevice → Option ℕ → ℕ × SlcDevice × Hw
  unfolding close_partitions
  disable_with hw d none = (neg enodev, d, hw)
  disable_with hw d (some h) =
      let (pt, hw1) = close_partitions hw h d.pt in
      (0, record d { pt = pt }, api.pt_client_unregister hw1 h)

  unfoldable pub lwis_slc_disable : Hw → SlcDevice → ℕ × SlcDevice × Hw
  unfolding disable_with
  lwis_slc_disable hw d = disable_with hw d d.partition_handle

  -- The partition at an index is enabled and gets a file. The result is the error, or 0, with the
  -- number of the file and the partition's id.
  unfoldable pub take_partition : Hw → SlcDevice → ℕ → ℕ → SlcPartition → ℕ × ℕ × ℕ × SlcDevice × Hw
  take_partition hw d h i p =
      let (partition_id, hw1) = api.pt_client_enable hw h p.id in
      let (fd, hw2) = api.anon_inode_getfd hw1 i in
      let taken = record p { fd = fd; partition_id = partition_id } in
      if partition_id == pt_ptid_invalid
      then (neg eproto, 0, 0, d, hw1)
      else if is_negative fd
      then (fd, 0, 0, d, hw2)
      else (0, fd, partition_id, record d { pt = set d.pt i taken }, hw2)

  unfoldable pub alloc_at :
      Hw → SlcDevice → ℕ → ℕ → Option SlcPartition → ℕ × ℕ × ℕ × SlcDevice × Hw
  unfolding take_partition
  alloc_at hw d h i none = (neg einval, 0, 0, d, hw)
  alloc_at hw d h i (some p) = take_partition hw d h i p

  unfoldable pub alloc_found : Hw → SlcDevice → ℕ → Option ℕ → ℕ × ℕ × ℕ × SlcDevice × Hw
  unfolding alloc_at
  alloc_found hw d h none = (neg einval, 0, 0, d, hw)
  alloc_found hw d h (some i) = alloc_at hw d h i (get_elem? d.pt i)

  unfoldable pub alloc_with : Hw → SlcDevice → ℕ → Option ℕ → ℕ × ℕ × ℕ × SlcDevice × Hw
  unfolding find_partition alloc_found
  alloc_with hw d size none = (neg enodev, 0, 0, d, hw)
  alloc_with hw d size (some h) = alloc_found hw d h (find_partition d.pt size 0)

  -- With a device and a request that are not NULL: `size` is that of the request.
  unfoldable pub lwis_slc_buffer_alloc : Hw → SlcDevice → ℕ → ℕ × ℕ × ℕ × SlcDevice × Hw
  unfolding alloc_with
  lwis_slc_buffer_alloc hw d size = alloc_with hw d size d.partition_handle

  unfoldable pub free_partition : Hw → SlcDevice → ℕ → ℕ → SlcPartition → ℕ × SlcDevice × Hw
  free_partition hw d fd i p =
      if not (p.fd == fd) then (neg einval, d, hw) else if is_free p then (0, d, hw) else (
        0,
        record d { pt = set d.pt i (record p { partition_id = pt_ptid_invalid; fd = neg 1 }) },
        api.pt_client_disable hw p.partition_handle p.id,
      )

  unfoldable pub free_at : Hw → SlcDevice → ℕ → ℕ → Option SlcPartition → ℕ × SlcDevice × Hw
  unfolding free_partition
  free_at hw d fd i none = (neg ebadf, d, hw)
  free_at hw d fd i (some p) = free_partition hw d fd i p

  unfoldable pub free_file : Hw → SlcDevice → ℕ → Option ℕ → ℕ × SlcDevice × Hw
  unfolding free_at
  free_file hw d fd none = (neg ebadf, d, hw)
  free_file hw d fd (some i) = free_at hw d fd i (get_elem? d.pt i)

  unfoldable pub lwis_slc_buffer_free : Hw → SlcDevice → ℕ → ℕ × SlcDevice × Hw
  unfolding free_file
  lwis_slc_buffer_free hw d fd = free_file hw d fd (api.fget hw fd)
