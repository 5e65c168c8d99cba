-- ===== src/Buffer/Alloc.antt =====
-- lwis_buffer.c: allocating and freeing buffers.
use google_lwis.Prelude.{
  ℕ, ◌*◌, ◌/◌, Bool, Option, none, some, List, [], ◌∷◌, neg, nonzero, ◌==◌, if◌then◌else◌, test_bit,
  add64,
}
use google_lwis.Kernel.{einval, enomem}
use google_lwis.Supply.{Got, handle, refused}
use google_lwis.Event.States.Table.{find}
use google_lwis.Slc.{
  SlcDevice, PtApi, lwis_slc_buffer_alloc, lwis_slc_buffer_free, is_negative, pt_ptid_invalid,
}
use google_lwis.Buffer.{AllocatedBuffer, ClientBuffers, DmaApi}

-- LWIS_DMA_SYSTEM_CACHE_RESERVATION is bit 3 of the flags.
abbrev pub reserves_cache : ℕ → Bool
reserves_cache flags = test_bit flags 3

-- `PAGE_ALIGN` of a size_t, with pages of 4096 bytes.
abbrev pub page_align : ℕ → ℕ
page_align size = add64 size 4095 / 4096 * 4096

-- `struct lwis_alloc_buffer_info`
pub record AllocInfo : Type 0 where
  pub size : ℕ
  pub flags : ℕ
  pub dma_fd : ℕ
  pub partition_id : ℕ

abbrev pub fd_key : AllocatedBuffer → ℕ
fd_key b = b.fd

abbrev pub lwis_client_allocated_buffer_find : ClientBuffers → ℕ → Option AllocatedBuffer
lwis_client_allocated_buffer_find c fd = find fd_key c.allocated_buffers fd

-- `hash_del` of the buffer that is found under a number.
unfoldable pub del_allocated : List AllocatedBuffer → ℕ → List AllocatedBuffer
del_allocated [] fd = []
del_allocated (b ∷ bs) fd = if b.fd == fd then bs else b ∷ del_allocated bs fd

-- The client's buffers, the partitions of its device where that is a system level cache, and the
-- hardware.
pub record Buffers (Hw : Type 0) : Type 0 where
  pub client : ClientBuffers
  pub is_slc : Bool
  pub slc : SlcDevice
  pub hw : Hw

module _ {Hw : Type 0} where
  abbrev add_allocated : AllocInfo → Option ℕ → Buffers Hw → Buffers Hw
  add_allocated info dma_buf s =
      let b : AllocatedBuffer = record { fd = info.dma_fd; size = info.size; dma_buf = dma_buf } in
      record s { client = record s.client { allocated_buffers = b ∷ s.client.allocated_buffers } }

module _ {Hw : Type 0} (pt : PtApi Hw) (api : DmaApi Hw) where
  unfoldable pub alloc_slc :
      AllocInfo → Buffers Hw → ℕ × ℕ × ℕ × SlcDevice × Hw → ℕ × AllocInfo × Buffers Hw
  alloc_slc info s (ret, fd, partition_id, slc', hw') =
      let s' = record s { slc = slc'; hw = hw' } in
      let info' = record info { dma_fd = fd; partition_id = partition_id } in
      if nonzero ret then (ret, info, s') else (0, info', add_allocated info' none s')

  -- The reference that get_dma_buf takes is the kernel's; the file has the one of the allocation.
  unfoldable pub alloc_dma : AllocInfo → Buffers Hw → Got × Hw → ℕ × AllocInfo × Buffers Hw
  alloc_dma info s (refused err, hw') = (neg enomem, info, record s { hw = hw' })
  alloc_dma info s (handle dma_buf, hw') =
      let (fd, hw1) = api.dma_buf_fd hw' dma_buf in
      let info' = record info { dma_fd = fd; partition_id = pt_ptid_invalid } in
      if is_negative fd
      then (fd, record info { dma_fd = fd }, record s { hw = api.dma_buf_put hw1 dma_buf })
      else (
        0,
        info',
        add_allocated info' (some dma_buf) (record s { hw = api.get_dma_buf hw1 dma_buf }),
      )

  unfoldable pub lwis_buffer_alloc : AllocInfo → Buffers Hw → ℕ × AllocInfo × Buffers Hw
  unfolding alloc_slc alloc_dma
  lwis_buffer_alloc info s =
      let aligned = record info { size = page_align info.size } in
      if reserves_cache info.flags
      then (if s.is_slc
          then alloc_slc info s (lwis_slc_buffer_alloc pt s.hw s.slc info.size)
          else (neg einval, info, s))
      else alloc_dma aligned s (api.lwis_platform_dma_buffer_alloc s.hw aligned.size info.flags)

  unfoldable pub free_handle : AllocatedBuffer → Option ℕ → Buffers Hw → ℕ × Buffers Hw
  free_handle b none s =
      let (ret, slc', hw') = lwis_slc_buffer_free pt s.hw s.slc b.fd in
      if s.is_slc then (0, record s { slc = slc'; hw = hw' }) else (neg einval, s)
  free_handle b (some dma_buf) s = (0, record s { hw = api.dma_buf_put s.hw dma_buf })

  -- A buffer of the client's table.
  unfoldable pub lwis_buffer_free : AllocatedBuffer → Buffers Hw → ℕ × Buffers Hw
  unfolding free_handle del_allocated
  lwis_buffer_free b s =
      let (ret, s') = free_handle b b.dma_buf s in
      let deleted = record s' {
        client = record s'.client {
          allocated_buffers = del_allocated s'.client.allocated_buffers b.fd;
        };
      } in
      if nonzero ret then (ret, s) else (0, deleted)

  unfoldable pub clear_allocated : List AllocatedBuffer → Buffers Hw → Buffers Hw
  unfolding lwis_buffer_free
  clear_allocated [] s = s
  clear_allocated (b ∷ bs) s =
      let deleted = record s {
        client = record s.client {
          allocated_buffers = del_allocated s.client.allocated_buffers b.fd;
        };
      } in
      clear_allocated bs (if s.is_slc then deleted else (lwis_buffer_free b s).1)

  -- The partitions of a cache device stay with their open files.
  abbrev pub lwis_client_allocated_buffers_clear : Buffers Hw → Buffers Hw
  lwis_client_allocated_buffers_clear s = clear_allocated s.client.allocated_buffers s
