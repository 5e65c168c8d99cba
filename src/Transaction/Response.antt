-- ===== src/Transaction/Response.antt =====
-- lwis_transaction.c, prepare_response_locked: the size of the response buffer.
pub mod Fits
use google_lwis.Prelude.{
  ℕ, ◌+◌, ◌*◌, Bool, Option, none, some, List, [], ◌∷◌, neg, add64, ◌%◌, ◌^◌, if◌then◌else◌,
}
use google_lwis.Kernel.{Kernel, World, kmalloc, enomem}
use google_lwis.Io.{IoEntry, read, read_batch}
use google_lwis.Event.{ResponseHeader, sizeof_io_result, sizeof_response_header}
use google_lwis.Transaction.{TransactionInfo}

-- The loop over the entries: `read_buf_size`, a `size_t`, and `read_entries`.
unfoldable pub read_sizes : ℕ → List IoEntry → ℕ → ℕ → ℕ × ℕ
read_sizes width [] read_buf_size read_entries = (read_buf_size, read_entries)
read_sizes width (read r ∷ es) read_buf_size read_entries =
    read_sizes width es (add64 read_buf_size width) (read_entries + 1)
read_sizes width (read_batch b ∷ es) read_buf_size read_entries =
    read_sizes width es (add64 read_buf_size b.size_in_bytes) (read_entries + 1)
read_sizes width (e ∷ es) read_buf_size read_entries =
    read_sizes width es read_buf_size read_entries

-- The header that is stored in a new response.
unfoldable pub new_response : ℕ → ℕ → List IoEntry → ResponseHeader
unfolding read_sizes
new_response id width entries =
    let (read_buf_size, read_entries) = read_sizes width entries 0 0 in
    record {
      id = id;
      error_code = 0;
      completion_index = 0;
      num_entries = read_entries;
      results_size_bytes = (read_entries * sizeof_io_result + read_buf_size) % 2 ^ 64;
    }

-- `resp_size`, the size that is given to kmalloc, a `size_t`.
unfoldable pub response_size : ℕ → List IoEntry → ℕ
unfolding read_sizes
response_size width entries =
    let (read_buf_size, read_entries) = read_sizes width entries 0 0 in
    (sizeof_response_header + read_entries * sizeof_io_result + read_buf_size) % 2 ^ 64

-- The second argument is `client->transaction_counter`. A response is its header and the size of the
-- buffer that starts with it.
module _ (k : Kernel) {Hw : Type 0} where
  unfoldable pub prepare_response_locked :
      World Hw
      → ℕ
      → ℕ
      → TransactionInfo
      → ℕ × TransactionInfo × Option (ResponseHeader × ℕ) × World Hw
  unfolding new_response response_size
  prepare_response_locked w counter width info =
      let info' = record info { id = counter } in
      let (done, w') = kmalloc k w in
      if done
      then (
        0,
        info',
        some (new_response counter width info.io_entries, response_size width info.io_entries),
        w',
      )
      else (neg enomem, info', none, w')
