-- ===== src/Ioctl/Entries.antt =====
-- lwis_ioctl.c: copying the I/O entries of a transaction or of a periodic I/O from the user. The
-- values to write in batches are copied into buffers of the kernel.
pub mod Freed
use google_lwis.Prelude.{
  ℕ, zero, suc, ◌+◌, Bool, true, false, not, Option, none, some, List, [], ◌∷◌, neg, nonzero,
  if◌then◌else◌,
}
use google_lwis.Kernel.{Kernel, World, kmalloc, enomem, efault}

-- `rw_batch.buf`: an address of the user, or a buffer of the kernel by the call that allocated it.
pub data Pointer : Type 0 where
  user : ℕ → Pointer
  kernel : ℕ → Pointer

-- `struct lwis_io_entry`: whether its type is LWIS_IO_ENTRY_WRITE_BATCH, and its buffer.
pub record UserEntry : Type 0 where
  pub is_write_batch : Bool
  pub buf : Pointer

-- The entries, with the error or 0, and `last_buf_alloc_idx`, where none is -1.
pub record Loaded (Hw : Type 0) : Type 0 where
  pub ret : ℕ
  pub entries : List UserEntry
  pub last_buf_alloc_idx : Option ℕ
  pub world : World Hw

-- The buffers of the batch writes among the first n entries.
unfoldable pub bufs_of_first : ℕ → List UserEntry → List Pointer
bufs_of_first zero es = []
bufs_of_first (suc n) [] = []
bufs_of_first (suc n) (e ∷ es) =
    let rest = bufs_of_first n es in if e.is_write_batch then e.buf ∷ rest else rest

-- What the loop under `error_free_buf` frees.
unfoldable pub error_free_buf : Option ℕ → List UserEntry → List Pointer
unfolding bufs_of_first
error_free_buf none es = []
error_free_buf (some last) es = bufs_of_first (suc last) es

module _ (k : Kernel) {Hw : Type 0} (copies : ℕ → Bool) where
  -- The loop from entry number i on. `copies i` says whether copying for that entry succeeds.
  unfoldable pub load : World Hw → ℕ → List UserEntry → Option ℕ → Loaded Hw
  load w i [] last = record { ret = 0; entries = []; last_buf_alloc_idx = last; world = w }
  load w i (e ∷ es) last =
      let (done, w1) = kmalloc k w in
      let copied = record e { buf = kernel w.calls } in
      let plain = load w (i + 1) es last in
      let later = load w1 (i + 1) es (some i) in
      if not e.is_write_batch
      then record plain { entries = e ∷ plain.entries }
      else if not done
      then record { ret = neg enomem; entries = e ∷ es; last_buf_alloc_idx = last; world = w1 }
      else if not (copies i)
      then record {
        ret = neg efault;
        entries = copied ∷ es;
        last_buf_alloc_idx = some i;
        world = w1;
      }
      else record later { entries = copied ∷ later.entries }

  -- What the loop leaves: the error, the entries, and the buffers that are freed on an error.
  unfoldable pub after_load : Loaded Hw → ℕ × List UserEntry × List Pointer × World Hw
  unfolding error_free_buf
  after_load l = (
    l.ret,
    l.entries,
    (if nonzero l.ret then error_free_buf l.last_buf_alloc_idx l.entries else []),
    l.world,
  )

  -- The two flags say whether copying the information and the entries succeeds; the entries are those
  -- of the user. Freeing the entries themselves and the transaction is left out.
  unfoldable pub construct_transaction :
      Bool → Bool → World Hw → List UserEntry → ℕ × List UserEntry × List Pointer × World Hw
  unfolding load after_load
  construct_transaction info_copied entries_copied w es =
      let (transaction_done, w1) = kmalloc k w in
      let (entries_done, w2) = kmalloc k w1 in
      if not transaction_done
      then (neg enomem, [], [], w1)
      else if not info_copied
      then (neg efault, [], [], w1)
      else if not entries_done
      then (neg enomem, [], [], w2)
      else if not entries_copied
      then (neg efault, [], [], w2)
      else after_load (load w2 0 es none)

  -- Here `last_buf_alloc_idx` starts at 0.
  unfoldable pub prepare_io_entry :
      Bool → World Hw → List UserEntry → ℕ × List UserEntry × List Pointer × World Hw
  unfolding load after_load
  prepare_io_entry entries_copied w es =
      let (entries_done, w1) = kmalloc k w in
      if not entries_done
      then (neg enomem, [], [], w1)
      else if not entries_copied
      then (neg efault, [], [], w1)
      else after_load (load w1 0 es (some 0))

  unfoldable pub prepare_periodic_io :
      Bool → Bool → World Hw → List UserEntry → ℕ × List UserEntry × List Pointer × World Hw
  unfolding prepare_io_entry
  prepare_periodic_io info_copied entries_copied w es =
      let (periodic_io_done, w1) = kmalloc k w in
      if not periodic_io_done
      then (neg enomem, [], [], w1)
      else if not info_copied
      then (neg efault, [], [], w1)
      else prepare_io_entry entries_copied w1 es

-- What is freed with a transaction that was not submitted.
unfoldable pub free_transaction : List UserEntry → List Pointer
free_transaction [] = []
free_transaction (e ∷ es) =
    if e.is_write_batch then e.buf ∷ free_transaction es else free_transaction es
