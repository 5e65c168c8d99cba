-- ===== src/Buffer/Tables.antt =====
-- The table of enrolled buffers: how many it holds, and that it has no list without buffers.
use google_lwis.Prelude.{
  ℕ, ◌+◌, ◌≡◌, ◌≢◌, refl, subst, sym, some, List, [], ◌∷◌, ◌++◌, arith, length, length-append,
  ==_refl, All, Bool-cases, inl, inr, ◌==◌,
}
use google_lwis.Event.States.Table.{find, modify}
use google_lwis.Buffer.{EnrolledBuffer, EnrollmentList}
use google_lwis.Buffer.Enroll.{
  vaddr_key, find_buffer, enrolled_at, add_tail, del_buffer, keep_list, del_enrolled, lists_left,
}

abbrev pub count : List EnrollmentList → ℕ
count [] = 0
count (l ∷ ls) = length l.list + count ls

-- No list is without buffers.
abbrev pub IsFilled : List EnrollmentList → Type 0
IsFilled ls = All (λ l. l.list ≢ []) ls

pub filled_of_cons : (b : EnrolledBuffer) (bs : List EnrolledBuffer) → b ∷ bs ≢ []
filled_of_cons b bs e = cc

pub append_cons-ne-nil : (bs : List EnrolledBuffer) (b : EnrolledBuffer) → bs ++ b ∷ [] ≢ []
append_cons-ne-nil [] b e = cc
append_cons-ne-nil (x ∷ bs) b e = cc

pub add_tail_lem :
    (ls : List EnrollmentList) (vaddr : ℕ) (l : EnrollmentList) (b : EnrolledBuffer)
    → find vaddr_key ls vaddr ≡ some l
    → IsFilled ls
    → (count (add_tail ls vaddr b) ≡ count ls + 1) × IsFilled (add_tail ls vaddr b)
unfolding find modify
add_tail_lem [] vaddr l b e h = cc
add_tail_lem (x ∷ ls) vaddr l b e h = elim (Bool-cases (x.vaddr == vaddr)) [
  | inl hit ↦
      rw hit (omega (arith, length-append x.list (b ∷ [])), (append_cons-ne-nil x.list b, h.1))
  | inr miss ↦
      (let rest = add_tail_lem ls vaddr l b (ground arith) h.1 in
        rw miss (omega (arith, rest.0), (h.0, rest.1)))
]

abbrev pub fresh : ℕ → EnrollmentList
fresh vaddr = record { vaddr = vaddr; list = [] }

pub at_fresh : (vaddr : ℕ) (ls : List EnrollmentList) → enrolled_at (fresh vaddr ∷ ls) vaddr ≡ []
unfolding find
at_fresh vaddr ls = ground arith

pub modify_fresh :
    (vaddr : ℕ) (ls : List EnrollmentList) (f : EnrollmentList → EnrollmentList)
    → modify vaddr_key (fresh vaddr ∷ ls) vaddr f ≡ (f (fresh vaddr) ∷ ls)
unfolding modify
modify_fresh vaddr ls f = rw (==_refl vaddr)

pub del_buffer_lem :
    (bs : List EnrolledBuffer) (fd vaddr : ℕ) (b : EnrolledBuffer)
    → find_buffer bs fd vaddr ≡ some b
    → length (del_buffer bs fd vaddr) + 1 ≡ length bs
unfolding find_buffer del_buffer
del_buffer_lem [] fd vaddr b e = cc
del_buffer_lem (x ∷ bs) fd vaddr b e = ground (arith, del_buffer_lem bs fd vaddr b)

pub find_buffer_same :
    (bs : List EnrolledBuffer) (fd vaddr : ℕ) (b : EnrolledBuffer)
    → find_buffer bs fd vaddr ≡ some b
    → (b.info.fd ≡ fd) × (b.info.dma_vaddr ≡ vaddr)
unfolding find_buffer
find_buffer_same [] fd vaddr b e = cc
find_buffer_same (x ∷ bs) fd vaddr b e = ground (arith, find_buffer_same bs fd vaddr b)

pub keep_list_lem :
    (l : EnrollmentList) (bs : List EnrolledBuffer) (ls : List EnrollmentList)
    → IsFilled ls
    → (count (keep_list l bs ls) ≡ length bs + count ls) × IsFilled (keep_list l bs ls)
keep_list_lem l [] ls h = (omega arith, h)
keep_list_lem l (b ∷ bs) ls h = (refl, (filled_of_cons b bs, h))

pub del_enrolled_lem :
    (ls : List EnrollmentList) (fd vaddr : ℕ) (l : EnrollmentList) (b : EnrolledBuffer)
    → find vaddr_key ls vaddr ≡ some l
    → find_buffer l.list fd vaddr ≡ some b
    → IsFilled ls
    → (count (del_enrolled ls fd vaddr) + 1 ≡ count ls) × IsFilled (del_enrolled ls fd vaddr)
unfolding find del_enrolled
del_enrolled_lem [] fd vaddr l b e f h = cc
del_enrolled_lem (x ∷ ls) fd vaddr l b e f h = elim (Bool-cases (x.vaddr == vaddr)) [
  | inl hit ↦
      (let same : x ≡ l = ground arith in
        let there : find_buffer x.list fd vaddr ≡ some b =
          subst (λ (y : EnrollmentList). find_buffer y.list fd vaddr ≡ some b) (sym same) f in
        let kept = keep_list_lem x (del_buffer x.list fd vaddr) ls h.1 in
        rw hit (omega (arith, kept.0, del_buffer_lem x.list fd vaddr b there), kept.1))
  | inr miss ↦
      (let rest = del_enrolled_lem ls fd vaddr l b (ground arith) f h.1 in
        rw miss (omega (arith, rest.0), (h.0, rest.1)))
]

pub lists_left-nil : (ls : List EnrollmentList) → IsFilled ls → lists_left ls ≡ []
unfolding lists_left
lists_left-nil [] h = refl
lists_left-nil (l ∷ ls) h = by_list l.list refl (lists_left-nil ls h.1)
  where
    by_list :
        (bs : List EnrolledBuffer) → l.list ≡ bs → lists_left ls ≡ [] → lists_left (l ∷ ls) ≡ []
    by_list [] e rest = absurd (h.0 e)
    by_list (b ∷ bs) e rest = rw (e, lists_left) rest
