-- ===== src/Ino.antt =====
-- The lists of inode numbers of checkpoint.c: the orphans, and the inodes with data to flush. The
-- tree `ino_root` holds the entries of the list under their numbers, so that a lookup in it is a
-- search of the list.
pub mod Orphans
pub mod Sets
mod Tests
use hoit_f2fs.Base.{
  ℕ, ◌+◌, ◌-◌, ◌^◌, ◌<◌, Bool, true, false, not, ◌&&◌, Option, none, some, List, [], ◌∷◌, ◌++◌, leb,
  ◌==◌, if◌then◌else◌,
}
use hoit_f2fs.Base.Arrays.{Array, update}
use hoit_f2fs.Base.Lists.{length}

pub data InoType : Type 0 where
  orphan_ino append_ino update_ino trans_dir_ino flush_ino : InoType

pub record InoEntry : Type 0 where
  pub ino : ℕ
  pub dirty_device : Array Bool

-- `struct inode_management`.
pub record InodeManagement : Type 0 where
  pub ino_list : List InoEntry
  pub ino_num : ℕ

-- `radix_tree_lookup`.
abbrev pub find_ino : ℕ → List InoEntry → Option InoEntry
find_ino ino [] = none
find_ino ino (e ∷ es) = let rest = find_ino ino es in if ino == e.ino then some e else rest

abbrev pub found : Option InoEntry → Bool
found none = false
found (some e) = true

-- `list_del` and `radix_tree_delete`.
abbrev pub drop_ino : ℕ → List InoEntry → List InoEntry
drop_ino ino [] = []
drop_ino ino (e ∷ es) = let rest = drop_ino ino es in if ino == e.ino then es else e ∷ rest

-- `f2fs_set_bit` on the entry of the number.
abbrev pub mark_device : ℕ → ℕ → List InoEntry → List InoEntry
mark_device ino devidx [] = []
mark_device ino devidx (e ∷ es) =
    let rest = mark_device ino devidx es in
    if ino == e.ino
    then (record e { dirty_device = update e.dirty_device devidx true }) ∷ es
    else e ∷ rest

-- The list with an entry for the number.
abbrev pub with_entry : ℕ → List InoEntry → List InoEntry
with_entry ino es =
    if found (find_ino ino es)
    then es
    else es ++ record { ino = ino; dirty_device = λ i. false } ∷ []

abbrev pub is_orphan : InoType → Bool
is_orphan orphan_ino = true
is_orphan append_ino = false
is_orphan update_ino = false
is_orphan trans_dir_ino = false
is_orphan flush_ino = false

abbrev pub is_flush : InoType → Bool
is_flush orphan_ino = false
is_flush append_ino = false
is_flush update_ino = false
is_flush trans_dir_ino = false
is_flush flush_ino = true

-- `__add_ino_entry`.
pub add_ino_entry : ℕ → ℕ → InoType → InodeManagement → InodeManagement
add_ino_entry ino devidx ty im =
    let there = found (find_ino ino im.ino_list) in
    let es = with_entry ino im.ino_list in
    record {
      ino_list = if is_flush ty then mark_device ino devidx es else es;
      ino_num = if there then im.ino_num else if is_orphan ty then im.ino_num else im.ino_num + 1;
    }

-- `__remove_ino_entry`.
pub remove_ino_entry : ℕ → InodeManagement → InodeManagement
remove_ino_entry ino im =
    if found (find_ino ino im.ino_list)
    then record { ino_list = drop_ino ino im.ino_list; ino_num = im.ino_num - 1 }
    else im

pub exist_written_data : ℕ → InodeManagement → Bool
exist_written_data ino im = found (find_ino ino im.ino_list)

-- `f2fs_release_ino_entry` for one type.
pub release_ino_entry : InodeManagement → InodeManagement
release_ino_entry im = record { ino_list = []; ino_num = im.ino_num - length im.ino_list }

abbrev pub dirty_on : ℕ → Option InoEntry → Bool
dirty_on devidx none = false
dirty_on devidx (some e) = e.dirty_device devidx

pub is_dirty_device : ℕ → ℕ → InodeManagement → Bool
is_dirty_device ino devidx im = dirty_on devidx (find_ino ino im.ino_list)

-- `false` is -ENOSPC.
pub acquire_orphan_inode : ℕ → InodeManagement → Bool × InodeManagement
acquire_orphan_inode max_orphans im =
    if leb max_orphans im.ino_num
    then (false, im)
    else (true, record im { ino_num = im.ino_num + 1 })

-- At 0, behind the `f2fs_bug_on` that goes on, the number wraps in 64 bits.
pub release_orphan_inode : InodeManagement → InodeManagement
release_orphan_inode im = record im {
  ino_num = if im.ino_num == 0 then 2 ^ 64 - 1 else im.ino_num - 1;
}
