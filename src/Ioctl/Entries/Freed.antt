-- ===== src/Ioctl/Entries/Freed.antt =====
-- The buffers that are freed when copying entries fails.
use google_lwis.Prelude.{
  ◌≤◌, ◌-◌, zero, ℕ, suc, ◌+◌, ◌≡◌, ◌≢◌, ◌⊎◌, inl, inr, refl, sym, ap, ◌∙◌, subst, Bool, true,
  false, not, Option, none, some, List, [], ◌∷◌, arith, neg, nonzero, if◌then◌else◌, All, if-cases,
}
use google_lwis.Kernel.{Kernel, World, kmalloc, enomem, efault}
use google_lwis.Ioctl.Entries.{
  Pointer, user, kernel, UserEntry, Loaded, bufs_of_first, error_free_buf, load, after_load,
  construct_transaction, prepare_io_entry, free_transaction,
}

abbrev is_kernel : Pointer → Bool
is_kernel (user a) = false
is_kernel (kernel n) = true

-- The buffers of the kernel that entries hold.
abbrev pub kernel_bufs : List UserEntry → List Pointer
kernel_bufs [] = []
kernel_bufs (e ∷ es) = if is_kernel e.buf then e.buf ∷ kernel_bufs es else kernel_bufs es

-- The buffers that were allocated by n calls of the kernel from a number on.
abbrev pub allocated : Kernel → ℕ → ℕ → List Pointer
allocated k call zero = []
allocated k call (suc n) =
    if k.alloc call then kernel call ∷ allocated k (call + 1) n else allocated k (call + 1) n

-- Entries as the user gives them.
abbrev pub AreUsers : List UserEntry → Type 0
AreUsers es = All (λ e. is_kernel e.buf ≡ false) es

kernel_bufs-users : (es : List UserEntry) → AreUsers es → kernel_bufs es ≡ []
kernel_bufs-users [] h = refl
kernel_bufs-users (e ∷ es) h = ground (arith, h.0, kernel_bufs-users es h.1)

-- Either no buffer was allocated from entry i on, or the last is that of entry i + n, and the batch
-- writes up to there hold all that were.
Freeable : {Hw : Type 0} → ℕ → Option ℕ → Loaded Hw → Type 0
Freeable i last l =
    ((l.last_buf_alloc_idx ≡ last) × (kernel_bufs l.entries ≡ []))
    ⊎ ((n : ℕ) × (l.last_buf_alloc_idx ≡ some (i + n))
        × (bufs_of_first (suc n) l.entries ≡ kernel_bufs l.entries))

module _ {Hw : Type 0} (i : ℕ) (last : Option ℕ) where
  unchanged :
      (es : List UserEntry) (ret : ℕ) (w : World Hw)
      → AreUsers es
      → Freeable i last (record { ret = ret; entries = es; last_buf_alloc_idx = last; world = w })
  unfolding Freeable
  unchanged es ret w h = inl (refl, kernel_bufs-users es h)

module _ {Hw : Type 0} (i : ℕ) (last : Option ℕ) (e : UserEntry) (l : Loaded Hw) where
  plain_step :
      e.is_write_batch ≡ false
      → is_kernel e.buf ≡ false
      → Freeable (i + 1) last l
      → Freeable i last (record l { entries = e ∷ l.entries })
  unfolding Freeable bufs_of_first
  plain_step plain mine (inl (same, empty)) = inl (same, ground arith)
  plain_step plain mine (inr (n, at_n, all)) = inr (suc n, ground arith, ground arith)

  batch_step :
      e.is_write_batch ≡ true
      → is_kernel e.buf ≡ true
      → Freeable (i + 1) (some i) l
      → Freeable i last (record l { entries = e ∷ l.entries })
  unfolding Freeable bufs_of_first
  batch_step batch mine (inl (same, empty)) = inr (0, ground arith, ground arith)
  batch_step batch mine (inr (n, at_n, all)) = inr (suc n, ground arith, ground arith)

module _ (k : Kernel) {Hw : Type 0} (copies : ℕ → Bool) where
  load-Freeable :
      (w : World Hw) (i : ℕ) (es : List UserEntry) (last : Option ℕ)
      → AreUsers es
      → Freeable i last (load k copies w i es last)
  unfolding load
  load-Freeable w i [] last h = unchanged i last [] 0 w tt
  load-Freeable w i (e ∷ es) last h =
      let P = Freeable {Hw = Hw} i last in
      let w1 = (kmalloc k w).1 in
      let copied = record e { buf = kernel w.calls } in
      if-cases P (not e.is_write_batch)
        (λ plain.
          plain_step i last e (load k copies w (i + 1) es last) (ground arith) h.0
            (load-Freeable w (i + 1) es last h.1))
        (λ batch.
          if-cases P (not (kmalloc k w).0) (λ f. unchanged i last (e ∷ es) (neg enomem) w1 h)
            (λ done.
              if-cases P (not (copies i))
                (λ f.
                  batch_step i last copied
                    (record {
                      ret = neg efault;
                      entries = es;
                      last_buf_alloc_idx = some i;
                      world = w1;
                    })
                    (ground arith) refl (unchanged (i + 1) (some i) es (neg efault) w1 h.1))
                (λ f.
                  batch_step i last copied (load k copies w1 (i + 1) es (some i)) (ground arith)
                    refl (load-Freeable w1 (i + 1) es (some i) h.1))))

  -- What is freed on an error, after `last_buf_alloc_idx` started at -1.
  freed_lem :
      (l : Loaded Hw)
      → Freeable 0 none l
      → error_free_buf l.last_buf_alloc_idx l.entries ≡ kernel_bufs l.entries
  unfolding Freeable error_free_buf bufs_of_first
  freed_lem l (inl (same, empty)) = ground arith
  freed_lem l (inr (n, at_n, all)) =
      subst (λ o. error_free_buf o l.entries ≡ kernel_bufs l.entries)
        (sym (at_n ∙ ap some (omega arith))) all

  -- Entries that were loaded hold buffers of the kernel in the batch writes, and nowhere else.
  load-free :
      (w : World Hw) (i : ℕ) (es : List UserEntry) (last : Option ℕ)
      → AreUsers es
      → (load k copies w i es last).ret ≡ 0
      → free_transaction (load k copies w i es last).entries
        ≡ (kernel_bufs (load k copies w i es last).entries)
  unfolding load free_transaction
  load-free w i [] last h = λ z. refl
  load-free w i (e ∷ es) last h =
      let P = λ (l : Loaded Hw). (l.ret ≡ 0 → free_transaction l.entries ≡ kernel_bufs l.entries) in
      let w1 = (kmalloc k w).1 in
      if-cases P (not e.is_write_batch)
        (λ plain z. ground (arith, h.0, load-free w (i + 1) es last h.1 z))
        (λ batch.
          if-cases P (not (kmalloc k w).0) (λ f z. absurd (omega (arith, z)))
            (λ done.
              if-cases P (not (copies i)) (λ f z. absurd (omega (arith, z)))
                (λ f z. ground (arith, load-free w1 (i + 1) es (some i) h.1 z))))

  -- The calls of the loop, and that what they allocate is in the entries.
  load-allocated :
      (w : World Hw) (i : ℕ) (es : List UserEntry) (last : Option ℕ)
      → AreUsers es
      → let l = load k copies w i es last in
        (n : ℕ) × (l.world.calls ≡ w.calls + n) × (kernel_bufs l.entries ≡ allocated k w.calls n)
  unfolding load
  load-allocated w i [] last h = (0, omega arith, refl)
  load-allocated w i (e ∷ es) last h =
      let P = λ (l : Loaded Hw).
        ((n : ℕ) × (l.world.calls ≡ w.calls + n)
          × (kernel_bufs l.entries ≡ allocated k w.calls n)) in
      let w1 = (kmalloc k w).1 in
      let users : kernel_bufs es ≡ [] = kernel_bufs-users es h.1 in
      if-cases P (not e.is_write_batch)
        (λ plain.
          let (n, calls, same) = load-allocated w (i + 1) es last h.1 in
          (n, calls, ground (arith, h.0, same)))
        (λ batch.
          if-cases P (not (kmalloc k w).0) (λ f. (1, omega arith, ground (arith, h.0, users)))
            (λ done.
              if-cases P (not (copies i)) (λ f. (1, omega arith, ground (arith, users)))
                (λ f.
                  let (n, calls, same) = load-allocated w1 (i + 1) es (some i) h.1 in
                  (suc n, omega (arith, calls), ground (arith, same)))))

  -- What is freed, against the buffers that were allocated after the transaction and its array of
  -- entries, which are the first two calls of the kernel from number `start` on.
  abbrev pub buffers_since : ℕ → World Hw → List Pointer
  buffers_since start w = allocated k (start + 2) (w.calls - (start + 2))

  abbrev pub IsClean : ℕ → ℕ × List UserEntry × List Pointer × World Hw → Type 0
  IsClean start result =
      (result.0 ≢ 0 → result.2 ≡ buffers_since start result.3)
      × (result.0 ≡ 0
          → (result.2 ≡ []) × (free_transaction result.1 ≡ buffers_since start result.3))

  none_since : (start : ℕ) (w : World Hw) → w.calls ≤ start + 2 → buffers_since start w ≡ []
  none_since start w h =
      let none_called : w.calls - (start + 2) ≡ 0 = omega (arith, h) in
      ap (allocated k (start + 2)) none_called

  after_load-IsClean :
      (w : World Hw) (es : List UserEntry) (start : ℕ)
      → w.calls ≡ start + 2
      → AreUsers es
      → IsClean start (after_load k copies (load k copies w 0 es none))
  unfolding after_load
  after_load-IsClean w es start begun h =
      let l = load k copies w 0 es none in
      let freed = freed_lem l (load-Freeable w 0 es none h) in
      let (n, calls, same) = load-allocated w 0 es none h in
      let number : n ≡ l.world.calls - (start + 2) = omega (arith, begun, calls) in
      let mine : kernel_bufs l.entries ≡ buffers_since start l.world =
        same ∙ ap (λ c. allocated k c n) begun ∙ ap (allocated k (start + 2)) number in
      (
        (λ z.
            if-cases (λ fs. fs ≡ buffers_since start l.world) (nonzero l.ret) (λ e. freed ∙ mine)
              (λ e. absurd (ground arith))),
        (λ z. (ground (arith, z), load-free w 0 es none h z ∙ mine)),
      )

  -- Provided that the entries of the user hold no buffers of the kernel, construct_transaction frees
  -- on an error exactly the buffers that the kernel has allocated since the transaction and the array
  -- of its entries, each once and in order; when it succeeds it frees none of them, and
  -- free_transaction would free exactly those.
  pub construct-IsClean :
      (info_copied entries_copied : Bool) (w : World Hw) (es : List UserEntry)
      → AreUsers es
      → IsClean w.calls (construct_transaction k copies info_copied entries_copied w es)
  unfolding construct_transaction free_transaction
  construct-IsClean info_copied entries_copied w es h =
      let (transaction_done, w1) = kmalloc k w in
      let (entries_done, w2) = kmalloc k w1 in
      let early : buffers_since w.calls w1 ≡ [] = none_since w.calls w1 (omega arith) in
      let late : buffers_since w.calls w2 ≡ [] = none_since w.calls w2 (omega arith) in
      if-cases (IsClean w.calls) (not transaction_done)
        (λ e. ((λ n. sym early), (λ z. (refl, sym early))))
        (λ e.
          if-cases (IsClean w.calls) (not info_copied)
            (λ e. ((λ n. sym early), (λ z. (refl, sym early))))
            (λ e.
              if-cases (IsClean w.calls) (not entries_done)
                (λ e. ((λ n. sym late), (λ z. (refl, sym late))))
                (λ e.
                  if-cases (IsClean w.calls) (not entries_copied)
                    (λ e. ((λ n. sym late), (λ z. (refl, sym late))))
                    (λ e. after_load-IsClean w2 es w.calls (omega arith) h))))

  -- Where the first entry is a batch write and its buffer cannot be allocated, prepare_io_entry frees
  -- one pointer, and it is the address that the user has put into that entry.
  pub prepare_io_entry-frees_user :
      (w : World Hw) (e : UserEntry) (es : List UserEntry) (address : ℕ)
      → e.is_write_batch ≡ true
      → e.buf ≡ user address
      → k.alloc w.calls ≡ true
      → k.alloc (w.calls + 1) ≡ false
      → ((prepare_io_entry k copies true w (e ∷ es)).0 ≡ neg enomem)
        × ((prepare_io_entry k copies true w (e ∷ es)).2 ≡ user address ∷ [])
  unfolding prepare_io_entry after_load load error_free_buf bufs_of_first
  prepare_io_entry-frees_user w e es address batch mine first second = (ground arith, ground arith)
