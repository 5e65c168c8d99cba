-- ===== src/Ioctl/Buffers/Session.antt =====
-- All requests of a client about buffers of others, and its closing.
use google_lwis.Prelude.{
  ℕ, ◌≡◌, refl, Bool, true, false, not, Option, none, some, List, [], ◌∷◌, arith, nonzero, if-cases,
  Bool-cases, inl, inr, ◌==◌,
}
use google_lwis.Kernel.{Kernel, World, kmalloc}
use google_lwis.Event.States.Table.{find}
use google_lwis.Buffer.{BufferInfo, EnrolledBuffer, EnrollmentList, AllocatedBuffer, DmaApi}
use google_lwis.Buffer.Enroll.{
  vaddr_key, find_buffer, enrolled_at, lwis_buffer_enroll, lwis_client_enrolled_buffers_clear,
}
use google_lwis.Buffer.Balance.{IsCounting, IsBalanced, enroll_lem, disenroll_lem, clear_lem}
use google_lwis.Ioctl.Buffers.{
  disenroll_found, ioctl_buffer_disenroll, return_enrolled, ioctl_buffer_enroll,
}

-- A request: whether its copies succeed, and what it brings in.
pub data Call : Type 0 where
  enroll : Bool → Bool → BufferInfo → Call
  disenroll : Bool → ℕ → ℕ → Call

located :
    (ls : List EnrollmentList) (fd vaddr : ℕ) (b : EnrolledBuffer)
    → find_buffer (enrolled_at ls vaddr) fd vaddr ≡ some b
    → (l : EnrollmentList) × (find vaddr_key ls vaddr ≡ some l)
      × (find_buffer l.list fd vaddr ≡ some b)
unfolding find find_buffer
located [] fd vaddr b e = absurd (cc)
located (x ∷ ls) fd vaddr b e = elim (Bool-cases (x.vaddr == vaddr)) [
  | inl hit ↦ (x, ground arith, ground arith)
  | inr miss ↦
      (let (l, at_vaddr, there) = located ls fd vaddr b (ground arith) in (l, ground arith, there))
]

module _ (k : Kernel) {Hw : Type 0} (api : DmaApi Hw) where
  pub run_calls : World Hw → List EnrollmentList → List Call → List EnrollmentList × World Hw
  run_calls w lists [] = (lists, w)
  run_calls w lists (enroll copied returned info ∷ calls) =
      let result = ioctl_buffer_enroll api k copied returned w lists info in
      run_calls result.3 result.2 calls
  run_calls w lists (disenroll copied fd vaddr ∷ calls) =
      let result = ioctl_buffer_disenroll api copied w lists fd vaddr in
      run_calls result.2 result.1 calls

  module _ (held : Hw → ℕ) (t : IsCounting api held) (base : ℕ) where
    abbrev Balanced : List EnrollmentList → Hw → Type 0
    Balanced = IsBalanced api held t base

    found_lem :
        (w : World Hw) (ls : List EnrollmentList) (fd vaddr : ℕ) (o : Option EnrolledBuffer)
        → find_buffer (enrolled_at ls vaddr) fd vaddr ≡ o
        → Balanced ls w.hw
        → Balanced (disenroll_found api w ls o).1 (disenroll_found api w ls o).2.hw
    unfolding disenroll_found
    found_lem w ls fd vaddr none e h = h
    found_lem w ls fd vaddr (some b) e h =
        let (l, at_vaddr, there) = located ls fd vaddr b e in
        disenroll_lem api held t base fd vaddr w.hw ls l b at_vaddr there h

    disenroll_call :
        (copied : Bool) (w : World Hw) (ls : List EnrollmentList) (fd vaddr : ℕ)
        → Balanced ls w.hw
        → Balanced
            (ioctl_buffer_disenroll api copied w ls fd vaddr).1
            (ioctl_buffer_disenroll api copied w ls fd vaddr).2.hw
    unfolding ioctl_buffer_disenroll
    disenroll_call true w ls fd vaddr h =
        found_lem w ls fd vaddr (find_buffer (enrolled_at ls vaddr) fd vaddr) refl h
    disenroll_call false w ls fd vaddr h = h

    abbrev Left : ℕ × ℕ × List EnrollmentList × World Hw → Type 0
    Left result = Balanced result.2 result.3.hw

    returned_lem :
        (returned : Bool) (fd : ℕ) (result : ℕ × ℕ × List EnrollmentList × World Hw)
        → Left result
        → Left (return_enrolled api k returned fd result)
    unfolding return_enrolled
    returned_lem returned fd (ret, vaddr, ls, w) h =
        if-cases Left (nonzero ret) (λ e. h)
          (λ e.
            if-cases Left returned (λ e. h)
              (λ e. found_lem w ls fd vaddr (find_buffer (enrolled_at ls vaddr) fd vaddr) refl h))

    enroll_call :
        (copied returned : Bool) (w : World Hw) (ls : List EnrollmentList) (info : BufferInfo)
        → Balanced ls w.hw
        → Left (ioctl_buffer_enroll api k copied returned w ls info)
    unfolding ioctl_buffer_enroll
    enroll_call copied returned w ls info h =
        let w1 : World Hw = (kmalloc k w).1 in
        if-cases Left (not (kmalloc k w).0) (λ e. h)
          (λ e.
            if-cases Left (not copied) (λ e. h)
              (λ e.
                returned_lem returned info.fd (lwis_buffer_enroll api k ls info w1)
                  (enroll_lem api held t k ls info base w1 h)))

    run_calls_lem :
        (w : World Hw) (ls : List EnrollmentList) (calls : List Call)
        → Balanced ls w.hw
        → Balanced (run_calls w ls calls).0 (run_calls w ls calls).1.hw
    unfolding run_calls
    run_calls_lem w ls [] h = h
    run_calls_lem w ls (enroll copied returned info ∷ calls) h =
        let result = ioctl_buffer_enroll api k copied returned w ls info in
        run_calls_lem result.3 result.2 calls (enroll_call copied returned w ls info h)
    run_calls_lem w ls (disenroll copied fd vaddr ∷ calls) h =
        let result = ioctl_buffer_disenroll api copied w ls fd vaddr in
        run_calls_lem result.2 result.1 calls (disenroll_call copied w ls fd vaddr h)

  -- A client without enrolled buffers enrolls and disenrolls buffers by any requests, whichever
  -- allocations, calls of the kernel and copies fail, and is then closed. Assumed is that the kernel
  -- counts the references, attachments and mappings that it has given out, and that only asking for
  -- them and giving them back changes the count. Then no buffer is enrolled at the end, and the count
  -- is what it was at the start.
  pub session-released :
      (held : Hw → ℕ) (w : World Hw) (allocated : List AllocatedBuffer) (calls : List Call)
      → IsCounting api held
      → ((lwis_client_enrolled_buffers_clear api (run_calls w [] calls).1.hw (record {
        allocated_buffers = allocated;
        enrolled_buffers = (run_calls w [] calls).0;
      })).0.enrolled_buffers
          ≡ [])
        × (held
              (lwis_client_enrolled_buffers_clear api (run_calls w [] calls).1.hw (record {
                allocated_buffers = allocated;
                enrolled_buffers = (run_calls w [] calls).0;
              })).1
            ≡ held w.hw)
  session-released held w allocated calls t =
      clear_lem api held t (held w.hw) (run_calls w [] calls).1.hw
        (record { allocated_buffers = allocated; enrolled_buffers = (run_calls w [] calls).0 })
        (run_calls_lem held t (held w.hw) w [] calls (omega arith, tt))
