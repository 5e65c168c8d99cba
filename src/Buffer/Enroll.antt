-- ===== src/Buffer/Enroll.antt =====
-- lwis_buffer.c: enrolling and disenrolling buffers.
use google_lwis.Prelude.{
  ℕ, ◌-◌, ◌^◌, Bool, true, false, ◌&&◌, ◌||◌, Option, none, some, List, [], ◌∷◌, ◌++◌, neg, leb,
  ◌==◌, if◌then◌else◌,
}
use google_lwis.Kernel.{Kernel, World, kmalloc, einval}
use google_lwis.Supply.{Got, handle, refused}
use google_lwis.Event.States.Table.{find, modify}
use google_lwis.Buffer.{
  DmaDirection, dma_bidirectional, dma_to_device, dma_from_device, dma_none, BufferInfo,
  EnrolledBuffer, EnrollmentList, ClientBuffers, DmaApi,
}

abbrev pub vaddr_key : EnrollmentList → ℕ
vaddr_key l = l.vaddr

-- `IS_ERR_OR_NULL` of an address.
abbrev pub is_bad_address : ℕ → Bool
is_bad_address vaddr = vaddr == 0 || leb (2 ^ 64 - 4095) vaddr

abbrev pub direction_of : BufferInfo → DmaDirection
direction_of info =
    if info.dma_read && info.dma_write
    then dma_bidirectional
    else if info.dma_read
    then dma_to_device
    else if info.dma_write
    then dma_from_device
    else dma_none

abbrev pub is_buffer : ℕ → ℕ → EnrolledBuffer → Bool
is_buffer fd vaddr b = b.info.fd == fd && b.info.dma_vaddr == vaddr

unfoldable pub find_buffer : List EnrolledBuffer → ℕ → ℕ → Option EnrolledBuffer
find_buffer [] fd vaddr = none
find_buffer (b ∷ bs) fd vaddr = if is_buffer fd vaddr b then some b else find_buffer bs fd vaddr

unfoldable pub lwis_client_enrolled_buffer_find : ClientBuffers → ℕ → ℕ → Option EnrolledBuffer
unfolding find_buffer
lwis_client_enrolled_buffer_find c fd vaddr = elim (find vaddr_key c.enrolled_buffers vaddr) [
  | none ↦ none
  | some l ↦ find_buffer l.list fd vaddr
]

module _ (k : Kernel) {Hw : Type 0} where
  unfoldable pub list_or_create :
      World Hw
      → List EnrollmentList
      → ℕ
      → Option EnrollmentList
      → Bool × List EnrollmentList × World Hw
  list_or_create w lists vaddr (some l) = (true, lists, w)
  list_or_create w lists vaddr none =
      let (done, w1) = kmalloc k w in
      if done then (true, record { vaddr = vaddr; list = [] } ∷ lists, w1) else (false, lists, w1)

  unfoldable pub enrollment_list_find_or_create :
      World Hw → List EnrollmentList → ℕ → Bool × List EnrollmentList × World Hw
  unfolding list_or_create
  enrollment_list_find_or_create w lists vaddr =
      list_or_create w lists vaddr (find vaddr_key lists vaddr)

-- The buffers enrolled at an address.
abbrev pub enrolled_at : List EnrollmentList → ℕ → List EnrolledBuffer
enrolled_at lists vaddr = elim (find vaddr_key lists vaddr) [ none ↦ [] | some l ↦ l.list ]

-- `list_add_tail`, to the list of an address.
abbrev pub add_tail : List EnrollmentList → ℕ → EnrolledBuffer → List EnrollmentList
add_tail lists vaddr b = modify vaddr_key lists vaddr (λ l. record l { list = l.list ++ b ∷ [] })

-- `list_del` of a buffer, which is the one with its number and address in the list of its address;
-- a list that becomes empty is removed.
unfoldable pub del_buffer : List EnrolledBuffer → ℕ → ℕ → List EnrolledBuffer
del_buffer [] fd vaddr = []
del_buffer (b ∷ bs) fd vaddr = if is_buffer fd vaddr b then bs else b ∷ del_buffer bs fd vaddr

abbrev pub keep_list :
    EnrollmentList → List EnrolledBuffer → List EnrollmentList → List EnrollmentList
keep_list l [] ls = ls
keep_list l (b ∷ bs) ls = record l { list = b ∷ bs } ∷ ls

unfoldable pub del_enrolled : List EnrollmentList → ℕ → ℕ → List EnrollmentList
unfolding del_buffer
del_enrolled [] fd vaddr = []
del_enrolled (l ∷ ls) fd vaddr =
    if l.vaddr == vaddr
    then keep_list l (del_buffer l.list fd vaddr) ls
    else l ∷ del_enrolled ls fd vaddr

-- A list goes with its last buffer, so a list that has none stays.
unfoldable pub lists_left : List EnrollmentList → List EnrollmentList
lists_left [] = []
lists_left (l ∷ ls) = elim l.list [ [] ↦ l ∷ lists_left ls | b ∷ bs ↦ lists_left ls ]

module _ {Hw : Type 0} (api : DmaApi Hw) where
  abbrev on_hw : World Hw → Hw → World Hw
  on_hw w hw' = record w { hw = hw' }

  -- Under the label `err`.
  unfoldable pub undo_enroll : World Hw → EnrolledBuffer → World Hw
  undo_enroll w b =
      let hw1 = api.dma_buf_unmap_attachment w.hw b.dma_buf_attachment b.sg_table b.dma_direction in
      on_hw w (api.dma_buf_put (api.dma_buf_detach hw1 b.dma_buf b.dma_buf_attachment) b.dma_buf)

  -- Each function continues with the answer to the request before it. The result is 0 or an error,
  -- the table, and the address that the buffer is given.
  module _ (k : Kernel) (lists : List EnrollmentList) (info : BufferInfo) where
    abbrev pub Enrolled : Type 0
    Enrolled = ℕ × ℕ × List EnrollmentList × World Hw

    -- Whether the buffer is enrolled already is looked up in the list of its address.
    unfoldable pub enroll_new :
        EnrolledBuffer → List EnrollmentList → World Hw → Option EnrolledBuffer → Enrolled
    unfolding undo_enroll
    enroll_new b lists' w (some old) = (neg einval, b.info.dma_vaddr, lists', undo_enroll w b)
    enroll_new b lists' w none = (0, b.info.dma_vaddr, add_tail lists' b.info.dma_vaddr b, w)

    unfoldable pub enroll_listed : EnrolledBuffer → Bool × List EnrollmentList × World Hw → Enrolled
    unfolding find_buffer enroll_new
    enroll_listed b (false, lists', w) = (neg einval, b.info.dma_vaddr, lists', undo_enroll w b)
    enroll_listed b (true, lists', w) =
        enroll_new b lists' w
          (find_buffer (enrolled_at lists' b.info.dma_vaddr) b.info.fd b.info.dma_vaddr)

    unfoldable pub enroll_mapped : World Hw → ℕ → ℕ → Got × Hw → Enrolled
    unfolding enroll_listed enrollment_list_find_or_create
    enroll_mapped w dma_buf att (refused err, hw') = (
      err,
      info.dma_vaddr,
      lists,
      on_hw w (api.dma_buf_put (api.dma_buf_detach hw' dma_buf att) dma_buf),
    )
    enroll_mapped w dma_buf att (handle sg, hw') =
        let vaddr = api.sg_dma_address hw' sg in
        let b : EnrolledBuffer = record {
          info = record info { dma_vaddr = vaddr };
          dma_direction = direction_of info;
          dma_buf = dma_buf;
          dma_buf_attachment = att;
          sg_table = sg;
        } in
        let w' = on_hw w hw' in
        if is_bad_address vaddr
        then (neg einval, vaddr, lists, undo_enroll w' b)
        else enroll_listed b (enrollment_list_find_or_create k w' lists vaddr)

    unfoldable pub enroll_attached : World Hw → ℕ → Got × Hw → Enrolled
    unfolding enroll_mapped
    enroll_attached w dma_buf (refused err, hw') =
        (err, info.dma_vaddr, lists, on_hw w (api.dma_buf_put hw' dma_buf))
    enroll_attached w dma_buf (handle att, hw') =
        enroll_mapped w dma_buf att (api.dma_buf_map_attachment hw' att (direction_of info))

    unfoldable pub enroll_got : World Hw → Got × Hw → Enrolled
    unfolding enroll_attached
    enroll_got w (refused err, hw') = (err, info.dma_vaddr, lists, on_hw w hw')
    enroll_got w (handle dma_buf, hw') = enroll_attached w dma_buf (api.dma_buf_attach hw' dma_buf)

    unfoldable pub lwis_buffer_enroll : World Hw → Enrolled
    unfolding enroll_got
    lwis_buffer_enroll w = enroll_got w (api.dma_buf_get w.hw info.fd)

  -- What is given back to the kernel for a buffer.
  unfoldable pub release_buffer : Hw → EnrolledBuffer → Hw
  release_buffer hw b =
      let hw1 = api.lwis_platform_dma_buffer_unmap hw b.dma_buf_attachment b.info.dma_vaddr in
      let hw2 = api.dma_buf_unmap_attachment hw1 b.dma_buf_attachment b.sg_table b.dma_direction in
      api.dma_buf_put (api.dma_buf_detach hw2 b.dma_buf b.dma_buf_attachment) b.dma_buf

  unfoldable pub lwis_buffer_disenroll :
      Hw → List EnrollmentList → EnrolledBuffer → List EnrollmentList × Hw
  unfolding del_enrolled release_buffer
  lwis_buffer_disenroll hw lists b =
      (del_enrolled lists b.info.fd b.info.dma_vaddr, release_buffer hw b)

  -- The loops over all buffers: each is released, and its list with the last of it.
  unfoldable pub clear_list : Hw → List EnrolledBuffer → Hw
  unfolding release_buffer
  clear_list hw [] = hw
  clear_list hw (b ∷ bs) = clear_list (release_buffer hw b) bs

  unfoldable pub clear_lists : Hw → List EnrollmentList → Hw
  unfolding clear_list
  clear_lists hw [] = hw
  clear_lists hw (l ∷ ls) = clear_lists (clear_list hw l.list) ls

  unfoldable pub lwis_client_enrolled_buffers_clear : Hw → ClientBuffers → ClientBuffers × Hw
  unfolding clear_lists lists_left
  lwis_client_enrolled_buffers_clear hw c = (
    record c { enrolled_buffers = lists_left c.enrolled_buffers },
    clear_lists hw c.enrolled_buffers,
  )
