-- ===== src/Transaction/Response/Fits.antt =====
-- process_transaction against the size that prepare_response_locked allocates: the bytes that
-- results take.
use google_lwis.Prelude.{
  ℕ, zero, suc, ◌+◌, ◌*◌, ◌%◌, ◌/◌, ◌^◌, ◌<◌, ◌≤◌, ◌≡◌, refl, Bool, some, List, [], ◌∷◌, ◌++◌,
  arith, add64, length, ap,
}
use google_lwis.Kernel.{Kernel, World}
use google_lwis.Io.{
  IoEntry, read, read_batch, write, write_batch, modify, poll, read_assert, unrecognized, Bus,
  IsBus, reg_value_bytewidth, read_value, RwBatch,
}
use google_lwis.Event.{IoResult, ResponseHeader, sizeof_io_result, sizeof_response_header}
use google_lwis.Transaction.{Transaction, TransactionInfo}
use google_lwis.Transaction.Process.{
  value_bytes, Done, Progress, process_entry, process_entries, initial_progress, run_entries,
}
use google_lwis.Transaction.Response.{
  read_sizes, new_response, response_size, prepare_response_locked,
}

-- The bytes of the results in the buffer: each header, and the values stored behind it.
abbrev pub extent : List IoResult → ℕ
extent [] = 0
extent (r ∷ rs) = sizeof_io_result + length r.values + extent rs

-- The bytes that the results are given room for.
abbrev pub space : List IoResult → ℕ
space [] = 0
space (r ∷ rs) = sizeof_io_result + r.num_value_bytes + space rs

-- What the reads of a list of entries need, with no wrap-around.
abbrev pub entry_space : ℕ → IoEntry → ℕ
entry_space width (read r) = sizeof_io_result + width
entry_space width (read_batch b) = sizeof_io_result + b.size_in_bytes
entry_space width e = 0

abbrev pub reads_space : ℕ → List IoEntry → ℕ
reads_space width [] = 0
reads_space width (e ∷ es) = entry_space width e + reads_space width es

pub length-value_bytes : (n val : ℕ) → length (value_bytes n val) ≡ n
unfolding value_bytes
length-value_bytes zero val = refl
length-value_bytes (suc n) val = ap suc (length-value_bytes n (val / 256))

extent-append : (xs ys : List IoResult) → extent (xs ++ ys) ≡ extent xs + extent ys
extent-append [] ys = omega arith
extent-append (x ∷ xs) ys = omega (arith, extent-append xs ys)

space-append : (xs ys : List IoResult) → space (xs ++ ys) ≡ space xs + space ys
space-append [] ys = omega arith
space-append (x ∷ xs) ys = omega (arith, space-append xs ys)

-- The prepared size is what the reads need, as a 64-bit word.
read_sizes-space :
    (width : ℕ) (es : List IoEntry) (size count : ℕ)
    → let (size', count') = read_sizes width es size count in
      (count' * sizeof_io_result + size') % 2 ^ 64
      ≡ (count * sizeof_io_result + size + reads_space width es) % 2 ^ 64
unfolding read_sizes
read_sizes-space width [] size count = omega arith
read_sizes-space width (read r ∷ es) size count =
    omega (arith, read_sizes-space width es (add64 size width) (count + 1))
read_sizes-space width (read_batch b ∷ es) size count =
    omega (arith, read_sizes-space width es (add64 size b.size_in_bytes) (count + 1))
read_sizes-space width (e ∷ es) size count = omega (arith, read_sizes-space width es size count)

new_response-space :
    (id width : ℕ) (es : List IoEntry)
    → (new_response id width es).results_size_bytes ≡ reads_space width es % 2 ^ 64
unfolding new_response
new_response-space id width es = omega (arith, read_sizes-space width es 0 0)

response_size-space :
    (width : ℕ) (es : List IoEntry)
    → sizeof_response_header + reads_space width es < 2 ^ 64
    → response_size width es ≡ sizeof_response_header + reads_space width es
unfolding response_size
response_size-space width es small = omega (arith, read_sizes-space width es 0 0)

module _ (k : Kernel) {Hw : Type 0} (bus : Bus Hw) (law : IsBus bus) where
  abbrev width : ℕ
  width = reg_value_bytewidth bus

  -- What one entry writes is within its room, and its room is what was counted for it.
  entry-space :
      (w : World Hw) (in_irq : Bool) (e : IoEntry)
      → let d = process_entry k bus w in_irq e in
        (extent d.written ≤ space d.written) × (space d.written ≡ entry_space width e)
  unfolding process_entry
  entry-space w in_irq (read r) =
      let (_, e', _) = bus.register_io w.hw (read r) bus.native_value_bitwidth in
      ground (arith, length-value_bytes width (read_value e'))
  entry-space w in_irq (read_batch b) =
      ground (arith, law.read_within w.hw (record b { buf = [] }) bus.native_value_bitwidth)
  entry-space w in_irq (write r) = omega arith
  entry-space w in_irq (write_batch b) = omega arith
  entry-space w in_irq (modify m) = omega arith
  entry-space w in_irq (poll a) = omega arith
  entry-space w in_irq (read_assert a) = omega arith
  entry-space w in_irq (unrecognized t) = omega arith

  abbrev after_entry : ℕ → Progress Hw → Done Hw → Progress Hw
  after_entry i p d = record {
    ret = d.ret;
    error_code = p.error_code;
    completion_index = i;
    results = p.results ++ d.written;
    world = d.world;
  }

  entries-space :
      (in_irq : Bool) (i : ℕ) (es : List IoEntry) (p : Progress Hw)
      → extent p.results ≤ space p.results
      → let p' = process_entries k bus in_irq i es p in
        (extent p'.results ≤ space p'.results)
        × (space p'.results ≤ space p.results + reads_space width es)
        × (p'.error_code ≡ 0 → space p'.results ≡ space p.results + reads_space width es)
  unfolding process_entries
  entries-space in_irq i [] p h = (h, omega arith, λ _. omega arith)
  entries-space in_irq i (e ∷ es) p h =
      let d = process_entry k bus p.world in_irq e in
      ground (
        arith,
        entry-space p.world in_irq e,
        extent-append p.results d.written,
        space-append p.results d.written,
        entries-space in_irq (i + 1) es (after_entry i p d),
      )

  -- A response that prepare_response_locked allocates for a transaction has room for what it is used
  -- for, on a device whose batch reads store no more bytes than asked for, and provided that the
  -- header and what its reads need are less than 2 ^ 64 bytes: the header, and for each result its
  -- header and the bytes that were asked for, are no more than the allocated size, and exactly that
  -- size, which is also the size of the event, if no entry fails; and what the results store is no
  -- more than what was asked for.
  pub run_entries-extent-le :
      (w0 w : World Hw) (counter : ℕ) (info : TransactionInfo) (t : Transaction) (size : ℕ)
      (in_irq : Bool)
      → t.info.io_entries ≡ info.io_entries
      → (prepare_response_locked k w0 counter width info).2 ≡ some (t.resp, size)
      → sizeof_response_header + reads_space width info.io_entries < 2 ^ 64
      → let p = run_entries k bus w t in_irq in
        (extent p.results ≤ space p.results)
        × (sizeof_response_header + space p.results ≤ size)
        × (p.error_code ≡ 0
            → (sizeof_response_header + space p.results ≡ size)
              × (add64 sizeof_response_header t.resp.results_size_bytes ≡ size))
  unfolding run_entries prepare_response_locked
  run_entries-extent-le w0 w counter info t size in_irq entries prepared small =
      let resp : (new_response counter width info.io_entries).results_size_bytes
          ≡ t.resp.results_size_bytes =
        ground arith in
      let sized : response_size width info.io_entries ≡ size = ground arith in
      let room = response_size-space width info.io_entries small in
      let fields = new_response-space counter width info.io_entries in
      let needed : reads_space width t.info.io_entries ≡ reads_space width info.io_entries =
        ap (reads_space width) entries in
      let run =
        entries-space in_irq 0 t.info.io_entries (initial_progress k bus w t) (omega arith) in
      (
        run.0,
        omega (arith, run.1, needed, room, sized),
        λ z. (
          omega (arith, run.2 z, needed, room, sized),
          omega (arith, resp, fields, room, sized, small),
        ),
      )

  -- Results are only added.
  extent-grows :
      (in_irq : Bool) (i : ℕ) (es : List IoEntry) (p : Progress Hw)
      → extent p.results ≤ extent (process_entries k bus in_irq i es p).results
  unfolding process_entries
  extent-grows in_irq i [] p = omega arith
  extent-grows in_irq i (e ∷ es) p =
      let d = process_entry k bus p.world in_irq e in
      ground (
        arith,
        extent-append p.results d.written,
        extent-grows in_irq (i + 1) es (after_entry i p d),
      )

  read_batch_header :
      (w : World Hw) (in_irq : Bool) (b : RwBatch)
      → sizeof_io_result ≤ extent (process_entry k bus w in_irq (read_batch b)).written
  unfolding process_entry
  read_batch_header w in_irq b = omega arith

  -- A batch read writes its header before it reads.
  first_extent :
      (in_irq : Bool) (i : ℕ) (b : RwBatch) (es : List IoEntry) (p : Progress Hw)
      → extent p.results + sizeof_io_result
        ≤ extent (process_entries k bus in_irq i (read_batch b ∷ es) p).results
  unfolding process_entries
  first_extent in_irq i b es p =
      let d = process_entry k bus p.world in_irq (read_batch b) in
      ground (
        arith,
        read_batch_header p.world in_irq b,
        extent-append p.results d.written,
        extent-grows in_irq (i + 1) es (after_entry i p d),
      )

  -- Where the first entry of a transaction is a batch read, and the size that its reads need wraps
  -- around 2 ^ 64 to fewer bytes than the header of one result has, the results take more bytes
  -- than the prepared response was given for them.
  pub run_entries_overruns :
      (w : World Hw) (t : Transaction) (b : RwBatch) (es : List IoEntry) (id : ℕ) (in_irq : Bool)
      → t.info.io_entries ≡ read_batch b ∷ es
      → t.resp ≡ new_response id width t.info.io_entries
      → reads_space width t.info.io_entries % 2 ^ 64 < sizeof_io_result
      → t.resp.results_size_bytes < extent (run_entries k bus w t in_irq).results
  unfolding run_entries
  run_entries_overruns w t b es id in_irq starts prepared wraps =
      let p = initial_progress k bus w t in
      ground (
        arith,
        first_extent in_irq 0 b es p,
        new_response-space id width t.info.io_entries,
        ap (λ (r : ResponseHeader). r.results_size_bytes) prepared,
      )
