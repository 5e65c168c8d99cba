-- ===== src/Buffer/Balance.antt =====
-- What enrolled buffers hold of the kernel: a reference, an attachment and a mapping each.
use google_lwis.Prelude.{
  ℕ, ◌+◌, ◌-◌, ◌*◌, ◌≡◌, refl, subst, sym, true, Option, none, some, List, [], ◌∷◌, ◌++◌, arith,
  length, if-cases,
}
use google_lwis.Kernel.{Kernel, World}
use google_lwis.Supply.{Got, handle, refused}
use google_lwis.Event.States.Table.{find}
use google_lwis.Buffer.{
  DmaDirection, BufferInfo, EnrolledBuffer, EnrollmentList, ClientBuffers, DmaApi,
}
use google_lwis.Buffer.Enroll.{
  vaddr_key, is_bad_address, find_buffer, undo_enroll, list_or_create, enroll_new, enroll_listed,
  enroll_mapped, enroll_attached, enroll_got, lwis_buffer_enroll, release_buffer,
  lwis_buffer_disenroll, clear_list, clear_lists, lwis_client_enrolled_buffers_clear,
}
use google_lwis.Buffer.Tables.{
  count, IsFilled, filled_of_cons, add_tail_lem, fresh, at_fresh, modify_fresh, find_buffer_same,
  del_enrolled_lem, lists_left-nil,
}

abbrev pub taken : Got → ℕ
taken (handle h) = 1
taken (refused err) = 0

-- `held` counts the references, attachments and mappings that the kernel has given out: a request
-- that succeeds is one more, giving one back is one less, and unmapping for a device changes none.
pub record IsCounting {Hw : Type 0} (api : DmaApi Hw) (held : Hw → ℕ) : Type 0 where
  pub got :
      (hw : Hw) (fd : ℕ)
      → held (api.dma_buf_get hw fd).1 ≡ held hw + taken (api.dma_buf_get hw fd).0
  pub attached :
      (hw : Hw) (b : ℕ)
      → held (api.dma_buf_attach hw b).1 ≡ held hw + taken (api.dma_buf_attach hw b).0
  pub mapped :
      (hw : Hw) (a : ℕ) (d : DmaDirection)
      → held (api.dma_buf_map_attachment hw a d).1
        ≡ (held hw + taken (api.dma_buf_map_attachment hw a d).0)
  pub put : (hw : Hw) (b : ℕ) → held (api.dma_buf_put hw b) ≡ held hw - 1
  pub detached : (hw : Hw) (b a : ℕ) → held (api.dma_buf_detach hw b a) ≡ held hw - 1
  pub unmapped :
      (hw : Hw) (a sg : ℕ) (d : DmaDirection)
      → held (api.dma_buf_unmap_attachment hw a sg d) ≡ held hw - 1
  pub device_unmapped :
      (hw : Hw) (a v : ℕ) → held (api.lwis_platform_dma_buffer_unmap hw a v) ≡ held hw

module _ {Hw : Type 0} (api : DmaApi Hw) (held : Hw → ℕ) (t : IsCounting api held) where
  release_buffer_lem : (hw : Hw) (b : EnrolledBuffer) → held (release_buffer api hw b) ≡ held hw - 3
  unfolding release_buffer
  release_buffer_lem hw b =
      let hw1 = api.lwis_platform_dma_buffer_unmap hw b.dma_buf_attachment b.info.dma_vaddr in
      let hw2 = api.dma_buf_unmap_attachment hw1 b.dma_buf_attachment b.sg_table b.dma_direction in
      omega (
        arith,
        t.device_unmapped hw b.dma_buf_attachment b.info.dma_vaddr,
        t.unmapped hw1 b.dma_buf_attachment b.sg_table b.dma_direction,
        t.detached hw2 b.dma_buf b.dma_buf_attachment,
        t.put (api.dma_buf_detach hw2 b.dma_buf b.dma_buf_attachment) b.dma_buf,
      )

  undo_enroll_lem :
      (w : World Hw) (b : EnrolledBuffer) → held (undo_enroll api w b).hw ≡ held w.hw - 3
  unfolding undo_enroll
  undo_enroll_lem w b =
      let hw1 = api.dma_buf_unmap_attachment w.hw b.dma_buf_attachment b.sg_table b.dma_direction in
      omega (
        arith,
        t.unmapped w.hw b.dma_buf_attachment b.sg_table b.dma_direction,
        t.detached hw1 b.dma_buf b.dma_buf_attachment,
        t.put (api.dma_buf_detach hw1 b.dma_buf b.dma_buf_attachment) b.dma_buf,
      )

  clear_list_lem :
      (hw : Hw) (bs : List EnrolledBuffer) → held (clear_list api hw bs) ≡ held hw - 3 * length bs
  unfolding clear_list
  clear_list_lem hw [] = omega arith
  clear_list_lem hw (b ∷ bs) =
      omega (arith, clear_list_lem (release_buffer api hw b) bs, release_buffer_lem hw b)

  clear_lists_lem :
      (hw : Hw) (ls : List EnrollmentList) → held (clear_lists api hw ls) ≡ held hw - 3 * count ls
  unfolding clear_lists
  clear_lists_lem hw [] = omega arith
  clear_lists_lem hw (l ∷ ls) =
      omega (arith, clear_lists_lem (clear_list api hw l.list) ls, clear_list_lem hw l.list)

  -- `base` and three for each enrolled buffer are held.
  abbrev pub IsBalanced : ℕ → List EnrollmentList → Hw → Type 0
  IsBalanced base ls hw = (held hw ≡ base + 3 * count ls) × IsFilled ls

  module _ (k : Kernel) (ls : List EnrollmentList) (info : BufferInfo) (base : ℕ) where
    abbrev pub Kept : ℕ × ℕ × List EnrollmentList × World Hw → Type 0
    Kept result = IsBalanced base result.2 result.3.hw

    new_lem :
        (w : World Hw) (b : EnrolledBuffer) (l : EnrollmentList) (old : Option EnrolledBuffer)
        → find vaddr_key ls b.info.dma_vaddr ≡ some l
        → IsFilled ls
        → held w.hw ≡ base + 3 * count ls + 3
        → Kept (enroll_new api k ls info b ls w old)
    unfolding enroll_new
    new_lem w b l (some old) found h total = (omega (arith, undo_enroll_lem w b, total), h)
    new_lem w b l none found h total =
        let added = add_tail_lem ls b.info.dma_vaddr l b found h in
        (omega (arith, added.0, total), added.1)

    fresh_new :
        (w : World Hw) (b : EnrolledBuffer)
        → IsFilled ls
        → held w.hw ≡ base + 3 * count ls + 3
        → Kept (enroll_new api k ls info b (fresh b.info.dma_vaddr ∷ ls) w none)
    unfolding enroll_new
    fresh_new w b h total =
        rw (modify_fresh b.info.dma_vaddr ls (λ l. record l { list = l.list ++ b ∷ [] }))
          (omega (arith, total), (filled_of_cons b [], h))

    fresh_lem :
        (w : World Hw) (b : EnrolledBuffer)
        → IsFilled ls
        → held w.hw ≡ base + 3 * count ls + 3
        → Kept (enroll_listed api k ls info b (true, fresh b.info.dma_vaddr ∷ ls, w))
    unfolding enroll_listed find_buffer
    fresh_lem w b h total =
        subst
          (λ l. Kept (
            enroll_new api k ls info b (fresh b.info.dma_vaddr ∷ ls) w
              (find_buffer l b.info.fd b.info.dma_vaddr)))
          (sym (at_fresh b.info.dma_vaddr ls)) (fresh_new w b h total)

    listed_lem :
        (w : World Hw) (b : EnrolledBuffer) (o : Option EnrollmentList)
        → find vaddr_key ls b.info.dma_vaddr ≡ o
        → IsFilled ls
        → held w.hw ≡ base + 3 * count ls + 3
        → Kept (enroll_listed api k ls info b (list_or_create k w ls b.info.dma_vaddr o))
    unfolding enroll_listed list_or_create
    listed_lem w b (some l) found h total = new_lem w b l _ found h total
    listed_lem w b none absent h total =
        if-cases (λ x. Kept (enroll_listed api k ls info b x)) (k.alloc w.calls)
          (λ e. fresh_lem (record w { calls = w.calls + 1 }) b h total)
          (λ e. (omega (arith, undo_enroll_lem (record w { calls = w.calls + 1 }) b, total), h))

    mapped_lem :
        (w : World Hw) (dma_buf att : ℕ) (got : Got × Hw)
        → IsFilled ls
        → held got.1 ≡ base + 3 * count ls + 2 + taken got.0
        → Kept (enroll_mapped api k ls info w dma_buf att got)
    unfolding enroll_mapped
    mapped_lem w dma_buf att (refused err, hw') h total = (
      omega (
        arith,
        t.detached hw' dma_buf att,
        t.put (api.dma_buf_detach hw' dma_buf att) dma_buf,
        total,
      ),
      h,
    )
    mapped_lem w dma_buf att (handle sg, hw') h total =
        if-cases Kept (is_bad_address (api.sg_dma_address hw' sg))
          (λ e. (omega (arith, undo_enroll_lem (record w { hw = hw' }) _, total), h))
          (λ e. listed_lem (record w { hw = hw' }) _ _ refl h (omega (arith, total)))

    attached_lem :
        (w : World Hw) (dma_buf : ℕ) (got : Got × Hw)
        → IsFilled ls
        → held got.1 ≡ base + 3 * count ls + 1 + taken got.0
        → Kept (enroll_attached api k ls info w dma_buf got)
    unfolding enroll_attached
    attached_lem w dma_buf (refused err, hw') h total = (omega (arith, t.put hw' dma_buf, total), h)
    attached_lem w dma_buf (handle att, hw') h total =
        mapped_lem w dma_buf att _ h (omega (arith, t.mapped hw' att _, total))

    got_lem :
        (w : World Hw) (got : Got × Hw)
        → IsFilled ls
        → held got.1 ≡ base + 3 * count ls + taken got.0
        → Kept (enroll_got api k ls info w got)
    unfolding enroll_got
    got_lem w (refused err, hw') h total = (omega (arith, total), h)
    got_lem w (handle dma_buf, hw') h total =
        attached_lem w dma_buf _ h (omega (arith, t.attached hw' dma_buf, total))

    pub enroll_lem :
        (w : World Hw) → IsBalanced base ls w.hw → Kept (lwis_buffer_enroll api k ls info w)
    unfolding lwis_buffer_enroll
    enroll_lem w h = got_lem w _ h.1 (omega (arith, t.got w.hw info.fd, h.0))

  -- A buffer that was found in the table.
  pub disenroll_lem :
      (base fd vaddr : ℕ) (hw : Hw) (ls : List EnrollmentList) (l : EnrollmentList)
      (b : EnrolledBuffer)
      → find vaddr_key ls vaddr ≡ some l
      → find_buffer l.list fd vaddr ≡ some b
      → IsBalanced base ls hw
      → IsBalanced base (lwis_buffer_disenroll api hw ls b).0 (lwis_buffer_disenroll api hw ls b).1
  unfolding lwis_buffer_disenroll
  disenroll_lem base fd vaddr hw ls l b at_vaddr there h =
      let same = find_buffer_same l.list fd vaddr b there in
      let less = del_enrolled_lem ls fd vaddr l b at_vaddr there h.1 in
      rw (same.0, same.1) (omega (arith, less.0, release_buffer_lem hw b, h.0), less.1)

  -- Closing a client: all is given back.
  pub clear_lem :
      (base : ℕ) (hw : Hw) (c : ClientBuffers)
      → IsBalanced base c.enrolled_buffers hw
      → ((lwis_client_enrolled_buffers_clear api hw c).0.enrolled_buffers ≡ [])
        × (held (lwis_client_enrolled_buffers_clear api hw c).1 ≡ base)
  unfolding lwis_client_enrolled_buffers_clear
  clear_lem base hw c h = (
    lists_left-nil c.enrolled_buffers h.1,
    omega (arith, clear_lists_lem hw c.enrolled_buffers, h.0),
  )
