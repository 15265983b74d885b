-- ===== src/Xattr.antt =====
-- The extended attributes of an inode in xattr.c. The attributes stand one behind the other, first in
-- the inode and then in a block of their own; a pointer to an attribute is its place in their list,
-- which ends where memory holds the zero word.
pub mod Search
pub mod Set
pub mod Names
mod Tests
use hoit_f2fs.Base.{
  ℕ, zero, suc, ◌+◌, ◌-◌, ◌*◌, ◌/◌, ◌%◌, ◌^◌, Bool, true, false, not, ◌&&◌, ◌||◌, Option, none,
  some, List, [], ◌∷◌, ◌++◌, ltb, leb, ◌==◌, if◌then◌else◌,
}
use hoit_f2fs.Base.Lists.{length}

pub record XattrEntry : Type 0 where
  pub e_name_index : ℕ
  pub e_name : List ℕ
  pub e_value : List ℕ

pub data Errno : Type 0 where
  einval erange e2big eexist enodata enomem enospc eio : Errno

-- A result, or an error.
pub data Result (A : Type 0) : Type 0 where
  ok : A → Result A
  err : Errno → Result A

-- `memcmp` on bytes of one length.
pub same_bytes : List ℕ → List ℕ → Bool
same_bytes [] [] = true
same_bytes [] (y ∷ ys) = false
same_bytes (x ∷ xs) [] = false
same_bytes (x ∷ xs) (y ∷ ys) = x == y && same_bytes xs ys

-- XATTR_ALIGN.
pub xattr_align : ℕ → ℕ
xattr_align size = (size + 3) / 4 * 4

abbrev pub entry_head : ℕ
entry_head = 4

abbrev pub header_size : ℕ
header_size = 24

-- ENTRY_SIZE.
pub entry_size : XattrEntry → ℕ
entry_size e = xattr_align (entry_head + length e.e_name + length e.e_value)

pub is_named : ℕ → List ℕ → XattrEntry → Bool
unfolding same_bytes
is_named index name e =
    e.e_name_index == index && length e.e_name == length name && same_bytes e.e_name name

-- `__find_xattr`; `none` is the end of the list.
pub find_xattr : ℕ → List ℕ → List XattrEntry → Option XattrEntry
find_xattr index name [] = none
find_xattr index name (e ∷ es) =
    let rest = find_xattr index name es in if is_named index name e then some e else rest

-- What `__find_inline_xattr` returns: an attribute, the end of the list, or NULL with `*last_addr`,
-- from where the search goes on.
pub data InlineSearch : Type 0 where
  here : XattrEntry → InlineSearch
  at_end : InlineSearch
  last_addr : List XattrEntry → InlineSearch

-- `pos` is the distance of the entry from the base. The block is not read yet, so that the memory
-- from `inline_size` on is zero and ends the list.
pub find_inline_xattr : ℕ → ℕ → List ℕ → ℕ → List XattrEntry → InlineSearch
find_inline_xattr inline_size index name pos [] = at_end
find_inline_xattr inline_size index name pos (e ∷ es) =
    let rest = find_inline_xattr inline_size index name (pos + entry_size e) es in
    if leb inline_size pos
    then at_end
    else if ltb inline_size (pos + 4) || ltb inline_size (pos + entry_size e + 4)
    then last_addr (e ∷ es)
    else if is_named index name e
    then here e
    else rest

-- What the kernel and the disk do for a call: whether memory is given, and what reading and writing
-- of the inode's page and of the attribute block return.
pub record Io : Type 0 where
  pub memory : Bool
  pub inode_page : Bool
  pub xattr_page : Bool
  pub truncated : Bool
  pub free_nid : Bool

-- The attributes of an inode, and whether it has a block for them (i_xattr_nid).
pub record XattrState : Type 0 where
  pub entries : List XattrEntry
  pub has_block : Bool

-- `inline_xattr_size` of the inode, which is a number of words, VALID_XATTR_BLOCK_SIZE and
-- F2FS_NAME_LEN.
pub record Room : Type 0 where
  pub inline_size : ℕ
  pub valid_block_size : ℕ
  pub name_len : ℕ

abbrev pub checked : Option XattrEntry → Result XattrEntry
checked none = err enodata
checked (some e) = ok e

pub read_block : Io → Bool → Bool
read_block io has_block = not has_block || io.xattr_page

-- The attributes from the header on, up to the last.
pub hsize : List XattrEntry → ℕ
hsize [] = header_size
hsize (e ∷ es) = entry_size e + hsize es

-- f2fs_xattr_value_same.
pub value_same : XattrEntry → List ℕ → Bool
value_same e value = length e.e_value == length value && same_bytes e.e_value value

-- The list without the first attribute of the name.
pub remove_xattr : ℕ → List ℕ → List XattrEntry → List XattrEntry
remove_xattr index name [] = []
remove_xattr index name (e ∷ es) =
    let rest = remove_xattr index name es in if is_named index name e then es else e ∷ rest

abbrev pub written_entry : ℕ → List ℕ → List ℕ → XattrEntry
written_entry index name value = record { e_name_index = index; e_name = name; e_value = value }

-- A new attribute stands behind the others.
pub replace_xattr : ℕ → List ℕ → Option (List ℕ) → List XattrEntry → List XattrEntry
replace_xattr index name none es = remove_xattr index name es
replace_xattr index name (some value) es =
    remove_xattr index name es ++ written_entry index name value ∷ []

abbrev pub size_of : Option XattrEntry → ℕ
size_of none = 0
size_of (some e) = entry_size e

abbrev pub is_found : Option XattrEntry → Bool
is_found none = false
is_found (some e) = true

-- Whether `value` is a value that the attribute has already.
abbrev pub unchanged : Option XattrEntry → Option (List ℕ) → Bool
unchanged none value = false
unchanged (some e) none = false
unchanged (some e) (some value) = value_same e value

pub value_length : Option (List ℕ) → ℕ
value_length none = 0
value_length (some value) = length value

abbrev pub after_inline : Io → Bool → ℕ → List ℕ → InlineSearch → Result XattrEntry
after_inline io has_block index name (here e) = ok e
after_inline io has_block index name at_end = err enodata
after_inline io has_block index name (last_addr es) =
    if read_block io has_block then checked (find_xattr index name es) else err eio

module _ (r : Room) where
  open r use {inline_size, valid_block_size}

  pub lookup_all_xattrs : Io → XattrState → ℕ → List ℕ → Result XattrEntry
  lookup_all_xattrs io st index name =
      if not st.has_block && inline_size == 0
      then err enodata
      else if not io.memory
      then err enomem
      else if inline_size == 0
      then (if read_block io st.has_block
          then checked (find_xattr index name st.entries)
          else err eio)
      else if not io.inode_page
      then err eio
      else after_inline io st.has_block index name
          (find_inline_xattr inline_size index name header_size st.entries)

  pub read_all_xattrs : Io → XattrState → Result (List XattrEntry)
  read_all_xattrs io st =
      if not io.memory
      then err enomem
      else if not (inline_size == 0) && not io.inode_page
      then err eio
      else if read_block io st.has_block
      then ok st.entries
      else err eio

  -- The writing, which leaves the state where it fails.
  pub write_all_xattrs : Io → XattrState → List XattrEntry → Result XattrState
  write_all_xattrs io st es =
      if ltb inline_size (hsize es) && not st.has_block && not io.free_nid
      then err enospc
      else if not (inline_size == 0) && not io.inode_page
      then err eio
      else if not (inline_size == 0) && leb (hsize es) inline_size
      then (if io.truncated then ok (record { entries = es; has_block = false }) else err eio)
      else if io.xattr_page
      then ok (record { entries = es; has_block = true })
      else err eio

  -- MIN_OFFSET and MAX_VALUE_LEN.
  pub min_offset : ℕ
  min_offset = xattr_align (inline_size + valid_block_size)

  pub max_value_len : ℕ
  max_value_len = min_offset - header_size - entry_head

  -- The check of the space; `free < newsize` with the differences written as sums.
  pub lacks_space : ℕ → List ℕ → Option XattrEntry → Option (List ℕ) → List XattrEntry → Bool
  lacks_space index name old none es = false
  lacks_space index name old (some value) es =
      ltb (min_offset + size_of old) (hsize es + entry_size (written_entry index name value))

  -- From the search on, with the attributes that were read.
  pub set_found :
      Io
      → XattrState
      → ℕ
      → List ℕ
      → Option (List ℕ)
      → Bool
      → Bool
      → List XattrEntry
      → Result XattrState
  set_found io st index name value create replace es =
      let old = find_xattr index name es in
      if is_found old && create
      then err eexist
      else if unchanged old value
      then ok st
      else if not (is_found old) && replace
      then err enodata
      else if lacks_space index name old value es
      then err e2big
      else write_all_xattrs io st (replace_xattr index name value es)

  -- `__f2fs_setxattr` with a name, up to the marks on the inode. No value removes the attribute;
  -- `create` and `replace` are the flags.
  pub setxattr : Io → XattrState → ℕ → List ℕ → Option (List ℕ) → Bool → Bool → Result XattrState
  setxattr io st index name value create replace =
      if ltb r.name_len (length name)
      then err erange
      else if ltb max_value_len (value_length value)
      then err e2big
      else elim (read_all_xattrs io st) [
        | err e ↦ err e
        | ok es ↦ set_found io st index name value create replace es
      ]

  -- `f2fs_getxattr` with a name: the value, where the caller's buffer holds it.
  pub getxattr : Io → XattrState → ℕ → List ℕ → ℕ → Result (List ℕ)
  getxattr io st index name buffer_size =
      if ltb r.name_len (length name)
      then err erange
      else elim (lookup_all_xattrs io st index name) [
        | err e ↦ err e
        | ok e ↦ if ltb buffer_size (length e.e_value) then err erange else ok e.e_value
      ]

-- The prefix of the names of an index, where the kernel has a handler for it that lists them.
module _ (prefix : ℕ → Option (List ℕ)) where
  abbrev pub cons_name : List ℕ → Result (ℕ × List ℕ) → Result (ℕ × List ℕ)
  cons_name bytes (err e) = err e
  cons_name bytes (ok (rest, written)) = ok (rest, bytes ++ written)

  -- The loop of `f2fs_listxattr`: the space that remains, which wraps in 64 bits where there is no
  -- buffer, and the bytes written.
  pub list_names : Bool → ℕ → List XattrEntry → Result (ℕ × List ℕ)
  list_names buffer rest [] = ok (rest, [])
  list_names buffer rest (e ∷ es) = elim (prefix e.e_name_index) [
    | none ↦ list_names buffer rest es
    | some p ↦
        let size = length p + length e.e_name + 1 in
        let later = list_names buffer ((rest + 2 ^ 64 - size) % 2 ^ 64) es in
        let named = cons_name (if buffer then p ++ (e.e_name ++ 0 ∷ []) else []) later in
        if buffer && ltb rest size then err erange else named
  ]

  abbrev pub listed_size : ℕ → Result (ℕ × List ℕ) → Result (ℕ × List ℕ)
  listed_size buffer_size (err e) = err e
  listed_size buffer_size (ok (rest, written)) =
      ok ((buffer_size + 2 ^ 64 - rest) % 2 ^ 64, written)

  -- The number returned, and what the buffer holds.
  pub listxattr : Room → Io → XattrState → Bool → ℕ → Result (ℕ × List ℕ)
  listxattr r io st buffer buffer_size = elim (read_all_xattrs r io st) [
    | err e ↦ err e
    | ok es ↦ listed_size buffer_size (list_names buffer buffer_size es)
  ]
