-- ===== src/Ioctl/Buffers.antt =====
-- lwis_ioctl.c: the requests about buffers.
pub mod Session
use google_lwis.Prelude.{
  ℕ, Bool, true, false, not, Option, none, some, List, neg, nonzero, if◌then◌else◌,
}
use google_lwis.Kernel.{Kernel, World, kmalloc, enomem, efault, enoent}
use google_lwis.Slc.{PtApi}
use google_lwis.Buffer.{
  BufferInfo, EnrolledBuffer, EnrollmentList, AllocatedBuffer, ClientBuffers, DmaApi,
}
use google_lwis.Buffer.Enroll.{find_buffer, enrolled_at, lwis_buffer_enroll, lwis_buffer_disenroll}
use google_lwis.Buffer.Alloc.{
  AllocInfo, Buffers, lwis_client_allocated_buffer_find, lwis_buffer_alloc, lwis_buffer_free,
}

module _ {Hw : Type 0} (api : DmaApi Hw) where
  -- The buffer that is found, if there is one.
  unfoldable pub disenroll_found :
      World Hw → List EnrollmentList → Option EnrolledBuffer → ℕ × List EnrollmentList × World Hw
  disenroll_found w lists none = (neg enoent, lists, w)
  disenroll_found w lists (some b) =
      let (lists', hw') = lwis_buffer_disenroll api w.hw lists b in
      (0, lists', record w { hw = hw' })

  unfoldable pub ioctl_buffer_disenroll :
      Bool → World Hw → List EnrollmentList → ℕ → ℕ → ℕ × List EnrollmentList × World Hw
  unfolding find_buffer disenroll_found
  ioctl_buffer_disenroll copied w lists fd vaddr =
      if copied
      then disenroll_found w lists (find_buffer (enrolled_at lists vaddr) fd vaddr)
      else (neg efault, lists, w)

  module _ (k : Kernel) where
    -- Behind a call of lwis_buffer_enroll: a buffer that was enrolled is disenrolled again where its
    -- address cannot be returned. The buffer is the one under its number and address.
    unfoldable pub return_enrolled :
        Bool → ℕ → ℕ × ℕ × List EnrollmentList × World Hw → ℕ × ℕ × List EnrollmentList × World Hw
    unfolding find_buffer disenroll_found
    return_enrolled returned fd (ret, vaddr, lists, w) =
        let (found, lists', w') =
          disenroll_found w lists (find_buffer (enrolled_at lists vaddr) fd vaddr) in
        if nonzero ret
        then (ret, vaddr, lists, w)
        else if returned
        then (0, vaddr, lists, w)
        else (neg efault, vaddr, lists', w')

    unfoldable pub ioctl_buffer_enroll :
        Bool
        → Bool
        → World Hw
        → List EnrollmentList
        → BufferInfo
        → ℕ × ℕ × List EnrollmentList × World Hw
    unfolding return_enrolled
    ioctl_buffer_enroll copied returned w lists info =
        let (done, w1) = kmalloc k w in
        if not done
        then (neg enomem, 0, lists, w1)
        else if not copied
        then (neg efault, 0, lists, w1)
        else return_enrolled returned info.fd (lwis_buffer_enroll api k lists info w1)

module _ {Hw : Type 0} (pt : PtApi Hw) (api : DmaApi Hw) where
  unfoldable pub free_found : Option AllocatedBuffer → Buffers Hw → ℕ × Buffers Hw
  free_found none s = (neg enoent, s)
  free_found (some b) s = lwis_buffer_free pt api b s

  unfoldable pub ioctl_buffer_free : Bool → Buffers Hw → ℕ → ℕ × Buffers Hw
  unfolding free_found
  ioctl_buffer_free copied s fd =
      if copied
      then free_found (lwis_client_allocated_buffer_find s.client fd) s
      else (neg efault, s)

  unfoldable pub return_allocated : Bool → ℕ × AllocInfo × Buffers Hw → ℕ × AllocInfo × Buffers Hw
  unfolding free_found
  return_allocated returned (ret, info, s) =
      let (freed, s') = free_found (lwis_client_allocated_buffer_find s.client info.dma_fd) s in
      if nonzero ret
      then (ret, info, s)
      else if returned
      then (0, info, s)
      else (neg efault, info, s')

  -- `allocated` says whether kmalloc of the buffer's entry succeeds.
  unfoldable pub ioctl_buffer_alloc :
      Bool → Bool → Bool → AllocInfo → Buffers Hw → ℕ × AllocInfo × Buffers Hw
  unfolding return_allocated
  ioctl_buffer_alloc allocated copied returned info s =
      if not allocated
      then (neg enomem, info, s)
      else if not copied
      then (neg efault, info, s)
      else return_allocated returned (lwis_buffer_alloc pt api info s)
