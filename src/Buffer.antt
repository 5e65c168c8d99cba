-- ===== src/Buffer.antt =====
-- lwis_buffer.c: the buffers that a client has allocated, and those of others that it has enrolled.
pub mod Enroll
pub mod Alloc
pub mod Tables
pub mod Balance
use google_lwis.Prelude.{
  ℕ, ◌+◌, ◌-◌, ◌*◌, ◌/◌, ◌%◌, ◌^◌, Bool, true, false, not, ◌&&◌, ◌||◌, Option, none, some, List, [],
  ◌∷◌, ◌++◌, neg, nonzero, ltb, leb, ◌==◌, if◌then◌else◌,
}
use google_lwis.Kernel.{Kernel, World, kmalloc, einval, enomem}
use google_lwis.Supply.{Got, handle, refused}
use google_lwis.Event.States.Table.{find, modify}
use google_lwis.Slc.{
  SlcDevice, PtApi, lwis_slc_buffer_alloc, lwis_slc_buffer_free, is_negative, pt_ptid_invalid,
}

-- `enum dma_data_direction`
pub data DmaDirection : Type 0 where
  dma_bidirectional dma_to_device dma_from_device dma_none : DmaDirection

-- `struct lwis_buffer_info`
pub record BufferInfo : Type 0 where
  pub fd : ℕ
  pub dma_read : Bool
  pub dma_write : Bool
  pub dma_vaddr : ℕ

-- `struct lwis_enrolled_buffer`: the handles that the kernel has given.
pub record EnrolledBuffer : Type 0 where
  pub info : BufferInfo
  pub dma_direction : DmaDirection
  pub dma_buf : ℕ
  pub dma_buf_attachment : ℕ
  pub sg_table : ℕ

-- `struct lwis_allocated_buffer`: `dma_buf` is NULL at `none`.
pub record AllocatedBuffer : Type 0 where
  pub fd : ℕ
  pub size : ℕ
  pub dma_buf : Option ℕ

-- `struct lwis_buffer_enrollment_list`
pub record EnrollmentList : Type 0 where
  pub vaddr : ℕ
  pub list : List EnrolledBuffer

-- `struct lwis_client`: its two hash tables, newest entry first.
pub record ClientBuffers : Type 0 where
  pub allocated_buffers : List AllocatedBuffer
  pub enrolled_buffers : List EnrollmentList

-- The functions of the kernel and of the platform for buffers that devices share.
pub record DmaApi (Hw : Type 0) : Type 0 where
  pub dma_buf_get : Hw → ℕ → Got × Hw
  pub dma_buf_put : Hw → ℕ → Hw
  pub get_dma_buf : Hw → ℕ → Hw
  pub dma_buf_fd : Hw → ℕ → ℕ × Hw
  pub dma_buf_attach : Hw → ℕ → Got × Hw
  pub dma_buf_detach : Hw → ℕ → ℕ → Hw
  pub dma_buf_map_attachment : Hw → ℕ → DmaDirection → Got × Hw
  pub dma_buf_unmap_attachment : Hw → ℕ → ℕ → DmaDirection → Hw
  pub sg_dma_address : Hw → ℕ → ℕ
  pub lwis_platform_dma_buffer_alloc : Hw → ℕ → ℕ → Got × Hw
  pub lwis_platform_dma_buffer_unmap : Hw → ℕ → ℕ → Hw
