-- ===== src/Tests/Io.antt =====
-- The register accesses of the top device, and polling one of its registers.
use google_lwis.Prelude.{◌+◌, ◌^◌, ◌≤◌, ◌≡◌, refl, ◌↔◌, true, false, arith, add64, length}
use google_lwis.Io.{read_batch, write_batch}
use google_lwis.Io.Scratch.{lwis_top_register_io, scratch_memory_size}
use google_lwis.Io.Scratch.Bounds.{
  register_io-strayed, read_batch_strays_iff, write_batch_strays_iff,
}
use google_lwis.Io.Poll.{lwis_entry_poll}
use google_lwis.Io.Poll.Laws.{Outcome, lwis_entry_poll-Outcome}
use google_lwis.Tests.{kernel, scratch, bus, world, eight, first_four, around}

register_io-strayed_example :
    let s' = (lwis_top_register_io scratch (read_batch first_four) 8).2 in
    (s'.strayed ≡ false) × (length s'.mem ≡ scratch_memory_size)
register_io-strayed_example =
    register_io-strayed scratch (read_batch first_four) 8 (omega arith) refl

read_batch_strays_iff_example :
    ((lwis_top_register_io scratch (read_batch around) 8).2.strayed ≡ true) ↔ (
      (2 ^ 64 ≤ around.offset + around.size_in_bytes)
      × (add64 around.offset around.size_in_bytes ≤ scratch_memory_size))
read_batch_strays_iff_example =
    read_batch_strays_iff scratch around 8 refl (omega arith) (omega arith) (omega arith)

write_batch_strays_iff_example :
    ((lwis_top_register_io scratch (write_batch around) 8).2.strayed ≡ true) ↔ (
      (2 ^ 64 ≤ around.offset + around.size_in_bytes)
      × (add64 around.offset around.size_in_bytes ≤ scratch_memory_size))
write_batch_strays_iff_example =
    write_batch_strays_iff scratch around 8 refl (omega arith) (omega arith) (omega arith)

lwis_entry_poll-Outcome_example :
    Outcome kernel bus eight 5 3 (lwis_entry_poll kernel bus world eight false)
lwis_entry_poll-Outcome_example =
    lwis_entry_poll-Outcome kernel bus world eight false (λ m n h. omega arith) (λ n. omega arith)
