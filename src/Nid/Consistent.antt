-- ===== src/Nid/Consistent.antt =====
-- The tree, the list and the two counts agree, and the operations keep this.
use hoit_f2fs.Base.{ℕ, ◌<◌, ◌≤◌, ◌≡◌, Bool, none, some, if◌then◌else◌, arith, inl, inr, Bool-cases}
use hoit_f2fs.Base.Arrays.{count, count-update}
use hoit_f2fs.Base.Lists.{length}
use hoit_f2fs.Nid.{
  free_nid, prealloc_nid, FreeNids, present, is_free, is_prealloc, insert_free_nid, take_out,
  move_free_nid, update_free_nid_bitmap,
}
use hoit_f2fs.Nid.Lists.{
  occurrences, occurrences-append, occurrences-list_del, length-list_del, length-append_one,
}

-- The numbers lie below `max_nid`, and 0 is none of them.
pub record IsConsistent (max_nid : ℕ) (s : FreeNids) : Type 0 where
  pub listed : (n : ℕ) → occurrences n s.free_list ≡ (if is_free (s.root n) then 1 else 0)
  pub counted_free : s.cnt_free ≡ length s.free_list
  pub counted_prealloc : s.cnt_prealloc ≡ count is_prealloc s.root max_nid
  pub in_range : (n : ℕ) → max_nid ≤ n → s.root n ≡ none
  pub zero_unused : s.root 0 ≡ none

-- The tree, the list and the counts of two states are the same.
pub record SameNids (s t : FreeNids) : Type 0 where
  pub same_root : t.root ≡ s.root
  pub same_list : t.free_list ≡ s.free_list
  pub same_free : t.cnt_free ≡ s.cnt_free
  pub same_prealloc : t.cnt_prealloc ≡ s.cnt_prealloc

module _ (max_nid nid : ℕ) (s : FreeNids) (c : IsConsistent max_nid s) where
  pub insert_free_nid-IsConsistent :
      0 < nid → nid < max_nid → IsConsistent max_nid (insert_free_nid nid s)
  unfolding insert_free_nid
  insert_free_nid-IsConsistent pos less = elim (Bool-cases (present (s.root nid))) [
    | inl there ↦ rw there c
    | inr new ↦ rw new (record {
      listed = λ n. ground (arith, occurrences-append n nid s.free_list, c.listed n);
      counted_free = ground (arith, length-append_one nid s.free_list, c.counted_free);
      counted_prealloc = ground (
        arith,
        count-update is_prealloc s.root nid (some free_nid) max_nid less,
        c.counted_prealloc,
      );
      in_range = λ n le. ground (arith, c.in_range n le);
      zero_unused = ground (arith, c.zero_unused);
    })
  ]

  module _ (less : nid < max_nid) where
    pub take_out_free-IsConsistent :
        s.root nid ≡ some free_nid → IsConsistent max_nid (take_out nid free_nid s)
    unfolding take_out
    take_out_free-IsConsistent free = record {
      listed =
          λ n. ground (arith, occurrences-list_del n nid s.free_list, c.listed n, c.listed nid);
      counted_free = ground (arith, length-list_del nid s.free_list, c.counted_free, c.listed nid);
      counted_prealloc =
          ground (arith, count-update is_prealloc s.root nid none max_nid less, c.counted_prealloc);
      in_range = λ n le. ground (arith, c.in_range n le);
      zero_unused = ground (arith, c.zero_unused);
    }

    pub take_out_prealloc-IsConsistent :
        s.root nid ≡ some prealloc_nid → IsConsistent max_nid (take_out nid prealloc_nid s)
    unfolding take_out
    take_out_prealloc-IsConsistent held = record {
      listed = λ n. ground (arith, c.listed n);
      counted_free = c.counted_free;
      counted_prealloc =
          ground (arith, count-update is_prealloc s.root nid none max_nid less, c.counted_prealloc);
      in_range = λ n le. ground (arith, c.in_range n le);
      zero_unused = ground (arith, c.zero_unused);
    }

    pub move_prealloc-IsConsistent :
        s.root nid ≡ some free_nid → IsConsistent max_nid (move_free_nid nid prealloc_nid s)
    unfolding move_free_nid
    move_prealloc-IsConsistent free = record {
      listed =
          λ n. ground (arith, occurrences-list_del n nid s.free_list, c.listed n, c.listed nid);
      counted_free = ground (arith, length-list_del nid s.free_list, c.counted_free, c.listed nid);
      counted_prealloc = ground (
        arith,
        count-update is_prealloc s.root nid (some prealloc_nid) max_nid less,
        c.counted_prealloc,
      );
      in_range = λ n le. ground (arith, c.in_range n le);
      zero_unused = ground (arith, c.zero_unused);
    }

    pub move_free-IsConsistent :
        s.root nid ≡ some prealloc_nid → IsConsistent max_nid (move_free_nid nid free_nid s)
    unfolding move_free_nid
    move_free-IsConsistent held = record {
      listed = λ n. ground (arith, occurrences-append n nid s.free_list, c.listed n);
      counted_free = ground (arith, length-append_one nid s.free_list, c.counted_free);
      counted_prealloc = ground (
        arith,
        count-update is_prealloc s.root nid (some free_nid) max_nid less,
        c.counted_prealloc,
      );
      in_range = λ n le. ground (arith, c.in_range n le);
      zero_unused = ground (arith, c.zero_unused);
    }

-- The bitmaps and `available_nids` do not matter to this.
pub update_free_nid_bitmap-SameNids :
    (per_block nid : ℕ) (set build : Bool) (s : FreeNids)
    → SameNids s (update_free_nid_bitmap per_block nid set build s)
unfolding update_free_nid_bitmap
update_free_nid_bitmap-SameNids per_block nid set build s = record {
  same_root = ground arith;
  same_list = ground arith;
  same_free = ground arith;
  same_prealloc = ground arith;
}

pub SameNids-IsConsistent :
    (max_nid : ℕ) (s t : FreeNids) → SameNids s t → IsConsistent max_nid s → IsConsistent max_nid t
SameNids-IsConsistent max_nid s t e c = record {
  listed = rw e.same_list (rw e.same_root c.listed);
  counted_free = rw e.same_list (rw e.same_free c.counted_free);
  counted_prealloc = rw e.same_prealloc (rw e.same_root c.counted_prealloc);
  in_range = rw e.same_root c.in_range;
  zero_unused = rw e.same_root c.zero_unused;
}
