-- ===== src/Dir/Dentry.antt =====
-- The dentries of a block: `f2fs_update_dentry`, `f2fs_find_target_dentry`, and the bits that
-- `f2fs_delete_entry` clears. A name begins at its slot and goes on in the slots behind it.
pub mod Bits
pub mod Walk
pub mod Found
mod Tests
use hoit_f2fs.Base.{
  ℕ, ◌<◌, ◌≤◌, zero, suc, ◌+◌, ◌-◌, ◌*◌, ◌/◌, ◌%◌, Bool, true, false, not, ◌&&◌, ◌||◌, Option, none,
  some, List, [], ◌∷◌, ltb, ◌==◌, if◌then◌else◌,
}
use hoit_f2fs.Base.Arrays.{Array, update}
use hoit_f2fs.Base.Lists.{length, get_or}

-- `struct f2fs_dir_entry`.
pub record DirEntry : Type 0 where
  pub hash_code : ℕ
  pub ino : ℕ
  pub name_len : ℕ
  pub file_type : ℕ

-- `struct f2fs_dentry_ptr`, with the bytes of all slots in `filename`.
pub record DentryPtr : Type 0 where
  pub max : ℕ
  pub bitmap : Array Bool
  pub dentry : Array DirEntry
  pub filename : Array ℕ

-- `memcpy` of a name to a place.
abbrev pub put_name : Array ℕ → ℕ → List ℕ → Array ℕ
put_name mem p name q =
    if ltb q p then mem q else if ltb q (p + length name) then get_or name (q - p) 0 else mem q

-- The loop over the slots of the name; the length is reset in all but the first.
pub mark_slots : ℕ → ℕ → ℕ → DentryPtr → DentryPtr
mark_slots bit_pos zero i d = d
mark_slots bit_pos (suc left) i d =
    let at = bit_pos + i in
    let e = d.dentry at in
    mark_slots bit_pos left (i + 1) (record d {
      bitmap = update d.bitmap at true;
      dentry = if i == 0 then d.dentry else update d.dentry at (record e { name_len = 0 });
    })

-- The loop of `f2fs_delete_entry` over the slots.
pub clear_slots : ℕ → ℕ → ℕ → Array Bool → Array Bool
clear_slots bit_pos zero i bitmap = bitmap
clear_slots bit_pos (suc left) i bitmap =
    clear_slots bit_pos left (i + 1) (update bitmap (bit_pos + i) false)

-- The bytes of a name.
pub read_name : Array ℕ → ℕ → ℕ → List ℕ
read_name mem p zero = []
read_name mem p (suc len) = mem p ∷ read_name mem (p + 1) len

-- What a search returns: the slot of the dentry, if any, and the longest run of free slots.
pub record Target : Type 0 where
  pub de : Option ℕ
  pub max_slots : ℕ

abbrev pub longer : ℕ → ℕ → ℕ
longer max_len max_slots = if ltb max_slots max_len then max_len else max_slots

-- F2FS_SLOT_LEN and GET_DENTRY_SLOTS of the kernel's f2fs_fs.h: the bytes of a slot, and the slots
-- that a name of some length takes, which are enough for it.
pub record DentrySlots : Type 0 where
  pub slot_len : ℕ
  pub dentry_slots : ℕ → ℕ
  pub slots_pos : (len : ℕ) → 0 < len → 0 < dentry_slots len
  pub slots_hold : (len : ℕ) → len ≤ dentry_slots len * slot_len

module _ (sl : DentrySlots) where
  open sl use {slot_len, dentry_slots}

  -- `file_type` is what `set_de_type` makes of the mode.
  pub update_dentry : ℕ → ℕ → DentryPtr → List ℕ → ℕ → ℕ → DentryPtr
  update_dentry ino file_type d name name_hash bit_pos =
      let e : DirEntry = record {
        hash_code = name_hash;
        ino = ino;
        name_len = length name;
        file_type = file_type;
      } in
      mark_slots bit_pos (dentry_slots (length name)) 0 (record d {
        dentry = update d.dentry bit_pos e;
        filename = put_name d.filename (bit_pos * slot_len) name;
      })

  -- Up to the search for a bit that is left. `d` are the dentries of the block, or the inline ones,
  -- of which `f2fs_delete_inline_entry` (inline.c) clears the same bits.
  pub delete_entry : DentryPtr → ℕ → DentryPtr
  delete_entry d bit_pos =
      let e = d.dentry bit_pos in
      record d { bitmap = clear_slots bit_pos (dentry_slots e.name_len) 0 d.bitmap }

  module _ (matches : List ℕ → Bool) (namehash : ℕ) where
    pub is_target : DentryPtr → ℕ → Bool
    is_target d bit_pos =
        let e = d.dentry bit_pos in
        e.hash_code == namehash && matches (read_name d.filename (bit_pos * slot_len) e.name_len)

    -- The loop of `f2fs_find_target_dentry`, in so many rounds; `none` where it would still go on.
    -- `matches` is `fscrypt_match_name` for the name that is looked up.
    pub find_from : DentryPtr → ℕ → ℕ → ℕ → ℕ → Option Target
    find_from d zero bit_pos max_len max_slots = none
    find_from d (suc rounds) bit_pos max_len max_slots =
        let e = d.dentry bit_pos in
        let free = find_from d rounds (bit_pos + 1) (max_len + 1) max_slots in
        let garbage = find_from d rounds (bit_pos + 1) max_len max_slots in
        let next =
          find_from d rounds (bit_pos + dentry_slots e.name_len) 0 (longer max_len max_slots) in
        if not (ltb bit_pos d.max)
        then some (record { de = none; max_slots = longer max_len max_slots })
        else if not (d.bitmap bit_pos)
        then free
        else if e.name_len == 0
        then garbage
        else if is_target d bit_pos
        then some (record { de = some bit_pos; max_slots = longer max_len max_slots })
        else next

    -- Each round goes on by a slot at least, so the rounds are enough (see Dir/Dentry/Walk).
    pub find_target_dentry : DentryPtr → Option Target
    unfolding find_from
    find_target_dentry d = find_from d (d.max + 1) 0 0 0
