-- ===== src/Nid/Tests.antt =====
-- Runs of the operations on a small device.
use hoit_f2fs.Base.{ℕ, ◌≡◌, ◌≢◌, true, false, none, some, [], ◌∷◌, ◌==◌, if◌then◌else◌, refl, arith}
use hoit_f2fs.Base.Arrays.{count}
use hoit_f2fs.Nid.{free_nid, prealloc_nid, FreeNids, allocated, add_free_nid, hand_out, alloc_nid}
use hoit_f2fs.Nid.Consistent.{IsConsistent}
use hoit_f2fs.Nid.Steps.{adding}
use hoit_f2fs.Nid.HandOut.{HandsOut, alloc_nid_succeeds}
use hoit_f2fs.Nid.Once.{start, more, alloc_nid_once}

-- The numbers 5 and 6 are free, 7 is preallocated.
abbrev some_free : FreeNids
some_free = record {
  root = λ n.
      if n == 5
      then some free_nid
      else if n == 6
      then some free_nid
      else if n == 7
      then some prealloc_nid
      else none;
  free_list = 5 ∷ 6 ∷ [];
  cnt_free = 2;
  cnt_prealloc = 1;
  available_nids = 4;
  nat_block_bitmap = λ n. true;
  free_nid_bitmap = λ b n. false;
  free_nid_count = λ b. 0;
}

some_free-IsConsistent : IsConsistent 10 some_free
unfolding count
some_free-IsConsistent = record {
  listed = λ n. ground arith;
  counted_free = refl;
  counted_prealloc = refl;
  in_range = λ n le. ground arith;
  zero_unused = refl;
}

hands_out_five : (alloc_nid 455 false some_free).0 ≡ allocated 5
unfolding alloc_nid hand_out
hands_out_five = refl

alloc_nid_once_example :
    (alloc_nid 455 false (add_free_nid 455 8 false true none (alloc_nid 455 false some_free).1).1).0
    ≢ allocated 5
alloc_nid_once_example =
    alloc_nid_once 455 10 5 false false some_free
      (add_free_nid 455 8 false true none (alloc_nid 455 false some_free).1).1
      some_free-IsConsistent hands_out_five
      (more none (alloc_nid 455 false some_free).1
        (add_free_nid 455 8 false true none (alloc_nid 455 false some_free).1).1
        (add_free_nid 455 8 false true none (alloc_nid 455 false some_free).1).1 (λ e. ground arith)
        (adding 8 false true none (alloc_nid 455 false some_free).1 (omega arith))
        (start (add_free_nid 455 8 false true none (alloc_nid 455 false some_free).1).1))

alloc_nid_succeeds_example :
    (nid : ℕ) × ((alloc_nid 455 false some_free).0 ≡ allocated nid)
    × HandsOut nid some_free (alloc_nid 455 false some_free).1
alloc_nid_succeeds_example =
    alloc_nid_succeeds 455 10 some_free some_free-IsConsistent (omega arith) (omega arith)
