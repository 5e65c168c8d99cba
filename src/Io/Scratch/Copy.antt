-- ===== src/Io/Scratch/Copy.antt =====
-- What the two copy loops of the scratch memory do.
use google_lwis.Prelude.{
  ℕ, zero, suc, ◌+◌, ◌^◌, ◌%◌, ◌<◌, ◌≤◌, ◌≡◌, refl, ap, ◌∙◌, true, List, arith, add64, length,
  length-set, get_or,
}
use google_lwis.Io.Scratch.{Scratch, scratch_memory_size, touch, poke, copy_out, copy_in}

pub length-copy_out : (n i offset : ℕ) (s : Scratch) → length (copy_out n i offset s).0 ≡ n
unfolding copy_out
length-copy_out zero i offset s = refl
length-copy_out (suc n) i offset s =
    ap suc (length-copy_out n (i + 1) offset (touch s (add64 offset i)))

pub length-copy_in :
    (n i offset : ℕ) (buf : List ℕ) (s : Scratch)
    → length (copy_in n i offset buf s).mem ≡ length s.mem
unfolding copy_in
length-copy_in zero i offset buf s = refl
length-copy_in (suc n) i offset buf s =
    length-copy_in n (i + 1) offset buf (poke s (add64 offset i) (get_or buf i 0))
    ∙ length-set s.mem (add64 offset i) (get_or buf i 0 % 2 ^ 8)

-- Reading leaves the bytes alone.
pub mem-copy_out : (n i offset : ℕ) (s : Scratch) → (copy_out n i offset s).1.mem ≡ s.mem
unfolding copy_out
mem-copy_out zero i offset s = refl
mem-copy_out (suc n) i offset s = mem-copy_out n (i + 1) offset (touch s (add64 offset i))

-- A range within the array is never left.
pub strayed-copy_out :
    (n i offset : ℕ) (s : Scratch)
    → offset + i + n ≤ scratch_memory_size
    → (copy_out n i offset s).1.strayed ≡ s.strayed
unfolding copy_out touch
strayed-copy_out zero i offset s h = refl
strayed-copy_out (suc n) i offset s h =
    ground (arith, strayed-copy_out n (i + 1) offset (touch s (add64 offset i)))

pub strayed-copy_in :
    (n i offset : ℕ) (buf : List ℕ) (s : Scratch)
    → offset + i + n ≤ scratch_memory_size
    → (copy_in n i offset buf s).strayed ≡ s.strayed
unfolding copy_in poke
strayed-copy_in zero i offset buf s h = refl
strayed-copy_in (suc n) i offset buf s h =
    ground (arith, strayed-copy_in n (i + 1) offset buf (poke s (add64 offset i) (get_or buf i 0)))

-- Once outside, always outside.
pub strayed-copy_out_stays :
    (n i offset : ℕ) (s : Scratch) → s.strayed ≡ true → (copy_out n i offset s).1.strayed ≡ true
unfolding copy_out touch
strayed-copy_out_stays zero i offset s h = h
strayed-copy_out_stays (suc n) i offset s h =
    strayed-copy_out_stays n (i + 1) offset (touch s (add64 offset i)) (ground arith)

pub strayed-copy_in_stays :
    (n i offset : ℕ) (buf : List ℕ) (s : Scratch)
    → s.strayed ≡ true
    → (copy_in n i offset buf s).strayed ≡ true
unfolding copy_in poke
strayed-copy_in_stays zero i offset buf s h = h
strayed-copy_in_stays (suc n) i offset buf s h =
    strayed-copy_in_stays n (i + 1) offset buf (poke s (add64 offset i) (get_or buf i 0))
      (ground arith)

-- A range that passes the end leaves the array.
pub strayed-copy_out_past :
    (n i offset : ℕ) (s : Scratch)
    → 0 < n
    → offset + i < 2 ^ 64
    → scratch_memory_size < offset + i + n
    → (copy_out n i offset s).1.strayed ≡ true
unfolding copy_out touch
strayed-copy_out_past zero i offset s some_left small past = elim some_left [ ]
strayed-copy_out_past (suc n) i offset s some_left small past = ground (
  arith,
  strayed-copy_out_stays n (i + 1) offset (touch s (add64 offset i)),
  strayed-copy_out_past n (i + 1) offset (touch s (add64 offset i)),
)

pub strayed-copy_in_past :
    (n i offset : ℕ) (buf : List ℕ) (s : Scratch)
    → 0 < n
    → offset + i < 2 ^ 64
    → scratch_memory_size < offset + i + n
    → (copy_in n i offset buf s).strayed ≡ true
unfolding copy_in poke
strayed-copy_in_past zero i offset buf s some_left small past = elim some_left [ ]
strayed-copy_in_past (suc n) i offset buf s some_left small past = ground (
  arith,
  strayed-copy_in_stays n (i + 1) offset buf (poke s (add64 offset i) (get_or buf i 0)),
  strayed-copy_in_past n (i + 1) offset buf (poke s (add64 offset i) (get_or buf i 0)),
)
