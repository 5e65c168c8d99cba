-- ===== src/Tests/Slc.antt =====
-- A cache with partitions of 512, 1024 and 1536 kilobytes.
use google_lwis.Prelude.{ℕ, ◌+◌, ◌*◌, ◌≡◌, refl, some, List, [], ◌∷◌}
use google_lwis.Supply.{handle}
use google_lwis.Slc.{
  PtApi, SlcTree, probed, lwis_slc_enable, lwis_slc_buffer_alloc, lwis_slc_buffer_free,
}
use google_lwis.Slc.Ascending.{SlcUse, enabling, request, return, run_uses}
use google_lwis.Slc.BestFit.{Taken, slc_request-Taken}

-- The hardware is the number of the next file.
abbrev cache : PtApi ℕ
cache = record {
  pt_client_register = λ hw. (handle 1, hw);
  pt_client_unregister = λ hw h. hw;
  pt_client_enable = λ hw h i. (i + 1, hw);
  pt_client_disable = λ hw h i. hw;
  anon_inode_getfd = λ hw i. (hw, hw + 1);
  fget = λ hw fd. some 1;
}

abbrev tree : SlcTree
tree = record { num_pt_id = 3; num_pt_size = 3; pt_size = λ i. 512 * (i + 1) }

-- A megabyte is taken and given back.
abbrev uses : List SlcUse
uses = enabling tree ∷ request 1048576 ∷ return 20 ∷ []

takes :
    (lwis_slc_buffer_alloc cache
      (run_uses cache 20 probed uses).1
      (run_uses cache 20 probed uses).0
      1048000).0
    ≡ 0
unfolding lwis_slc_buffer_alloc run_uses lwis_slc_buffer_free lwis_slc_enable
takes = refl

slc_request-Taken_example : Taken cache (run_uses cache 20 probed uses).0 1048000 (
    lwis_slc_buffer_alloc cache
      (run_uses cache 20 probed uses).1
      (run_uses cache 20 probed uses).0
      1048000)
slc_request-Taken_example = slc_request-Taken cache 20 uses 1048000 takes
