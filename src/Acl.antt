-- ===== src/Acl.antt =====
-- The form of an ACL on disk, in acl.c and acl.h.
pub mod Size
pub mod Written
pub mod RoundTrip
mod Tests
use hoit_f2fs.Base.{
  ℕ, zero, suc, ◌+◌, ◌-◌, ◌*◌, ◌/◌, ◌%◌, ◌^◌, ◌<◌, ◌≡◌, Bool, true, false, not, Option, none, some,
  List, [], ◌∷◌, ltb, leb, ◌==◌, ◌||◌, if◌then◌else◌,
}
use hoit_f2fs.Base.Words.{u32_mod}
use hoit_f2fs.Base.Arrays.{Array, update}
use hoit_f2fs.Base.Lists.{length}

-- The tags of the kernel's posix_acl.h.
pub record Tags : Type 0 where
  pub user_obj : ℕ
  pub user : ℕ
  pub group_obj : ℕ
  pub group : ℕ
  pub mask : ℕ
  pub other : ℕ

-- The kernel's ids of users and groups, which have 32 bits in the initial name space.
pub record Ids : Type 0 where
  pub from_kuid : ℕ → ℕ
  pub make_kuid : ℕ → ℕ
  pub from_kgid : ℕ → ℕ
  pub make_kgid : ℕ → ℕ
  pub kuid_small : (k : ℕ) → k < u32_mod → from_kuid k < u32_mod
  pub kgid_small : (k : ℕ) → k < u32_mod → from_kgid k < u32_mod
  pub kuid_back : (k : ℕ) → k < u32_mod → make_kuid (from_kuid k) ≡ k
  pub kgid_back : (k : ℕ) → k < u32_mod → make_kgid (from_kgid k) ≡ k

-- An entry of the kernel's `struct posix_acl`. The id of an entry without a name is not set.
pub record AclEntry : Type 0 where
  pub e_tag : ℕ
  pub e_perm : ℕ
  pub e_id : ℕ

-- The cases of the two switches.
pub data EntryKind : Type 0 where
  unnamed named_user named_group unknown : EntryKind

-- F2FS_ACL_VERSION, and the sizes of the structures of acl.h.
abbrev pub acl_version : ℕ
acl_version = 1

abbrev pub acl_header : ℕ
acl_header = 4

abbrev pub acl_entry_short : ℕ
acl_entry_short = 4

abbrev pub acl_entry : ℕ
acl_entry = 8

pub acl_size : ℕ → ℕ
acl_size count =
    if leb count 4
    then acl_header + count * acl_entry_short
    else acl_header + 4 * acl_entry_short + (count - 4) * acl_entry

-- `size_t` has 64 bits, and `s` is a signed number; `none` is -1.
pub acl_count : ℕ → Option ℕ
acl_count size =
    let size' = (size + 2 ^ 64 - acl_header) % 2 ^ 64 in
    let s = (size' + 2 ^ 64 - 4 * acl_entry_short) % 2 ^ 64 in
    if leb (2 ^ 63) s
    then (if size' % acl_entry_short == 0 then some (size' / acl_entry_short) else none)
    else (if s % acl_entry == 0 then some (s / acl_entry + 4) else none)

-- Little-endian numbers in memory, a byte to a place.
pub le16 : Array ℕ → ℕ → ℕ
le16 mem p = mem p + mem (p + 1) * 2 ^ 8

pub le32 : Array ℕ → ℕ → ℕ
le32 mem p = mem p + mem (p + 1) * 2 ^ 8 + mem (p + 2) * 2 ^ 16 + mem (p + 3) * 2 ^ 24

pub put16 : Array ℕ → ℕ → ℕ → Array ℕ
put16 mem p v = update (update mem p (v % 2 ^ 8)) (p + 1) (v / 2 ^ 8 % 2 ^ 8)

pub put32 : Array ℕ → ℕ → ℕ → Array ℕ
unfolding put16
put32 mem p v = put16 (put16 mem p (v % 2 ^ 16)) (p + 2) (v / 2 ^ 16 % 2 ^ 16)

-- What the reading returns: an ACL, NULL, or an error.
pub data FromDisk : Type 0 where
  acl : List AclEntry → FromDisk
  no_acl : FromDisk
  einval : FromDisk
  enomem : FromDisk

pub data ToDisk : Type 0 where
  value : Array ℕ → ℕ → ToDisk
  einval : ToDisk
  enomem : ToDisk

pub kind : Tags → ℕ → EntryKind
kind t tag =
    if tag == t.user_obj || tag == t.group_obj || tag == t.mask || tag == t.other
    then unnamed
    else if tag == t.user
    then named_user
    else if tag == t.group
    then named_group
    else unknown

-- How far the pointer to the entry moves.
pub width : EntryKind → ℕ
width unnamed = acl_entry_short
width named_user = acl_entry
width named_group = acl_entry
width unknown = 0

abbrev pub is_unknown : EntryKind → Bool
is_unknown unnamed = false
is_unknown named_user = false
is_unknown named_group = false
is_unknown unknown = true

abbrev pub cons_entry : AclEntry → Option (List AclEntry) → Option (List AclEntry)
cons_entry e none = none
cons_entry e (some es) = some (e ∷ es)

abbrev pub read_result : Option (List AclEntry) → FromDisk
read_result none = einval
read_result (some es) = acl es

abbrev pub write_result : ℕ → Option (Array ℕ) → ToDisk
write_result count none = einval
write_result count (some mem) = value mem (acl_size count)

module _ (t : Tags) (ids : Ids) where
  pub read_id : EntryKind → Array ℕ → ℕ → ℕ → ℕ
  read_id unnamed mem p unset = unset
  read_id named_user mem p unset = ids.make_kuid (le32 mem (p + 4))
  read_id named_group mem p unset = ids.make_kgid (le32 mem (p + 4))
  read_id unknown mem p unset = unset

  -- The loop of `f2fs_acl_from_disk` from the entry at `p` on; `none` is `goto fail`. `unset` is what
  -- the fresh entries hold.
  pub read_entries : ℕ → Array ℕ → ℕ → ℕ → ℕ → Option (List AclEntry)
  read_entries unset mem end zero p = if p == end then some [] else none
  read_entries unset mem end (suc left) p =
      let k = kind t (le16 mem p) in
      let rest = read_entries unset mem end left (p + width k) in
      if ltb end p
      then none
      else if is_unknown k
      then none
      else cons_entry
          (record { e_tag = le16 mem p; e_perm = le16 mem (p + 2); e_id = read_id k mem p unset })
          rest

  -- The value begins at the place 0 of the memory.
  pub acl_from_disk : Bool → ℕ → Array ℕ → ℕ → FromDisk
  acl_from_disk allocated unset mem size =
      if not (le32 mem 0 == acl_version) then einval else elim (acl_count size) [
        | none ↦ einval
        | some count ↦
            if count == 0
            then no_acl
            else if not allocated
            then enomem
            else read_result (read_entries unset mem size count acl_header)
      ]

  pub write_id : EntryKind → AclEntry → Array ℕ → ℕ → Array ℕ
  write_id unnamed e mem p = mem
  write_id named_user e mem p = put32 mem (p + 4) (ids.from_kuid e.e_id)
  write_id named_group e mem p = put32 mem (p + 4) (ids.from_kgid e.e_id)
  write_id unknown e mem p = mem

  pub write_entry : AclEntry → Array ℕ → ℕ → Array ℕ
  write_entry e mem p = write_id (kind t e.e_tag) e (put16 (put16 mem p e.e_tag) (p + 2) e.e_perm) p

  -- The loop of `f2fs_acl_to_disk`.
  pub write_entries : List AclEntry → Array ℕ → ℕ → Option (Array ℕ)
  write_entries [] mem p = some mem
  write_entries (e ∷ es) mem p =
      let rest = write_entries es (write_entry e mem p) (p + width (kind t e.e_tag)) in
      if is_unknown (kind t e.e_tag) then none else rest

  pub acl_to_disk : Bool → Array ℕ → List AclEntry → ToDisk
  acl_to_disk allocated fresh es =
      if not allocated
      then enomem
      else write_result (length es) (write_entries es (put32 fresh 0 acl_version) acl_header)
