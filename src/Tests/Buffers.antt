-- ===== src/Tests/Buffers.antt =====
-- A client that enrolls buffers, on hardware that counts what is held, and entries with buffers.
use google_lwis.Prelude.{ℕ, ◌+◌, ◌-◌, ◌≡◌, refl, true, false, not, List, [], ◌∷◌, ◌==◌, neg}
use google_lwis.Kernel.{Kernel, World, enomem}
use google_lwis.Supply.{handle}
use google_lwis.Buffer.{BufferInfo, DmaApi}
use google_lwis.Buffer.Enroll.{lwis_client_enrolled_buffers_clear}
use google_lwis.Buffer.Balance.{IsCounting}
use google_lwis.Ioctl.Buffers.Session.{Call, enroll, disenroll, run_calls, session-released}
use google_lwis.Ioctl.Entries.{UserEntry, user, construct_transaction, prepare_io_entry}
use google_lwis.Ioctl.Entries.Freed.{IsClean, construct-IsClean, prepare_io_entry-frees_user}

-- Call number 4 fails.
abbrev kernel : Kernel
kernel = record { alloc = λ n. not (n == 4); clock = λ n. n }

-- The number of references, attachments and mappings.
abbrev sharing : DmaApi ℕ
sharing = record {
  dma_buf_get = λ hw fd. (handle fd, hw + 1);
  dma_buf_put = λ hw b. hw - 1;
  get_dma_buf = λ hw b. hw + 1;
  dma_buf_fd = λ hw b. (9, hw);
  dma_buf_attach = λ hw b. (handle 2, hw + 1);
  dma_buf_detach = λ hw b a. hw - 1;
  dma_buf_map_attachment = λ hw a d. (handle 3, hw + 1);
  dma_buf_unmap_attachment = λ hw a sg d. hw - 1;
  sg_dma_address = λ hw sg. 4096;
  lwis_platform_dma_buffer_alloc = λ hw size flags. (handle 8, hw);
  lwis_platform_dma_buffer_unmap = λ hw a v. hw;
}

counting : IsCounting sharing (λ n. n)
counting = record {
  got = λ hw fd. refl;
  attached = λ hw b. refl;
  mapped = λ hw a d. refl;
  put = λ hw b. refl;
  detached = λ hw b a. refl;
  unmapped = λ hw a sg d. refl;
  device_unmapped = λ hw a v. refl;
}

abbrev info : BufferInfo
info = record { fd = 6; dma_read = true; dma_write = false; dma_vaddr = 0 }

abbrev other : BufferInfo
other = record { fd = 7; dma_read = true; dma_write = true; dma_vaddr = 0 }

abbrev start : World ℕ
start = record { hw = 11; calls = 0; slept = 0 }

-- The allocation of the second buffer's entry fails, the third call enrolls it, and its address cannot
-- be returned in the fourth.
abbrev calls : List Call
calls =
    enroll true true info
    ∷ enroll true true other
    ∷ enroll true true other
    ∷ disenroll true 6 4096
    ∷ enroll true false info
    ∷ []

session-released_example :
    ((lwis_client_enrolled_buffers_clear sharing
        (run_calls kernel sharing start [] calls).1.hw
        (record {
          allocated_buffers = [];
          enrolled_buffers = (run_calls kernel sharing start [] calls).0;
        })).0.enrolled_buffers
      ≡ [])
    × ((lwis_client_enrolled_buffers_clear sharing
          (run_calls kernel sharing start [] calls).1.hw
          (record {
            allocated_buffers = [];
            enrolled_buffers = (run_calls kernel sharing start [] calls).0;
          })).1
        ≡ 11)
session-released_example = session-released kernel sharing (λ n. n) start [] calls counting

-- Two batch writes, the second of which cannot be given a buffer.
abbrev entries : List UserEntry
entries =
    record { is_write_batch = true; buf = user 640 }
    ∷ record { is_write_batch = false; buf = user 0 }
    ∷ record { is_write_batch = true; buf = user 704 }
    ∷ []

abbrev third : World ℕ
third = record { hw = 0; calls = 1; slept = 0 }

construct-IsClean_example :
    IsClean kernel (λ i. true) 1 (construct_transaction kernel (λ i. true) true true third entries)
construct-IsClean_example =
    construct-IsClean kernel (λ i. true) true true third entries (refl, (refl, (refl, tt)))

abbrev fourth : World ℕ
fourth = record { hw = 0; calls = 3; slept = 0 }

prepare_io_entry-frees_user_example :
    ((prepare_io_entry kernel (λ i. true) true fourth entries).0 ≡ neg enomem)
    × ((prepare_io_entry kernel (λ i. true) true fourth entries).2 ≡ user 640 ∷ [])
prepare_io_entry-frees_user_example =
    prepare_io_entry-frees_user kernel (λ i. true) fourth
      (record { is_write_batch = true; buf = user 640 })
      (record { is_write_batch = false; buf = user 0 }
        ∷ record { is_write_batch = true; buf = user 704 }
        ∷ [])
      640 refl refl refl refl
