-- ===== src/Ino/Orphans.antt =====
-- The number of orphans is bounded: a place is reserved before an orphan is added.
use hoit_f2fs.Base.{ℕ, ◌+◌, ◌≡◌, ◌≤◌, ◌<◌, true, false, List, [], ◌∷◌, arith}
use hoit_f2fs.Base.Lists.{length, length-append}
use hoit_f2fs.Ino.{
  orphan_ino, InoEntry, InodeManagement, find_ino, found, drop_ino, with_entry, add_ino_entry,
  remove_ino_entry, release_ino_entry, acquire_orphan_inode, release_orphan_inode,
}

-- The orphans have their places among those reserved, and these are at most `max_orphans`.
pub record IsReserved (max_orphans : ℕ) (im : InodeManagement) : Type 0 where
  pub reserved : length im.ino_list ≤ im.ino_num
  pub bounded : im.ino_num ≤ max_orphans

-- The operations on the orphans. A caller adds an orphan, or gives a place back, only where it has
-- reserved a place that is not taken.
pub data OrphanStep (max_orphans : ℕ) : InodeManagement → InodeManagement → Type 0 where
  acquiring :
      (im : InodeManagement) → OrphanStep max_orphans im (acquire_orphan_inode max_orphans im).1
  giving_back :
      (im : InodeManagement)
      → length im.ino_list < im.ino_num
      → OrphanStep max_orphans im (release_orphan_inode im)
  adding :
      (ino : ℕ) (im : InodeManagement)
      → length im.ino_list < im.ino_num
      → OrphanStep max_orphans im (add_ino_entry ino 0 orphan_ino im)
  removing : (ino : ℕ) (im : InodeManagement) → OrphanStep max_orphans im (remove_ino_entry ino im)
  releasing : (im : InodeManagement) → OrphanStep max_orphans im (release_ino_entry im)

length-drop_ino :
    (ino : ℕ) (es : List InoEntry)
    → found (find_ino ino es) ≡ true
    → length (drop_ino ino es) + 1 ≡ length es
length-drop_ino ino [] h = ground arith
length-drop_ino ino (e ∷ es) h = ground (arith, length-drop_ino ino es)

length-with_entry : (ino : ℕ) (es : List InoEntry) → length (with_entry ino es) ≤ length es + 1
length-with_entry ino es =
    ground (arith, length-append es (record { ino = ino; dirty_device = λ i. false } ∷ []))

-- Each operation on the orphans, with its conditions, keeps the orphans in the places reserved, and
-- these within the bound.
pub OrphanStep-IsReserved :
    (max_orphans : ℕ) (im im' : InodeManagement)
    → OrphanStep max_orphans im im'
    → IsReserved max_orphans im
    → IsReserved max_orphans im'
unfolding acquire_orphan_inode add_ino_entry remove_ino_entry release_ino_entry release_orphan_inode
OrphanStep-IsReserved m im _ (acquiring _) r = record {
  reserved = ground (arith, r.reserved);
  bounded = ground (arith, r.bounded);
}
OrphanStep-IsReserved m im _ (giving_back _ room) r = record {
  reserved = ground (arith, room);
  bounded = ground (arith, r.bounded, room);
}
OrphanStep-IsReserved m im _ (adding ino _ room) r = record {
  reserved = ground (arith, length-with_entry ino im.ino_list);
  bounded = ground (arith, r.bounded);
}
OrphanStep-IsReserved m im _ (removing ino _) r = record {
  reserved = ground (arith, r.reserved, length-drop_ino ino im.ino_list);
  bounded = ground (arith, r.bounded);
}
OrphanStep-IsReserved m im _ (releasing _) r = record {
  reserved = omega arith;
  bounded = omega (arith, r.bounded);
}
