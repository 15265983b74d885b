-- ===== src/Xattr/Tests.antt =====
-- Runs of the attribute calls, on an inode with 40 bytes of its own for attributes.
use hoit_f2fs.Base.{
  ℕ, ◌≡◌, ◌≤◌, true, false, Option, none, some, List, [], ◌∷◌, refl, arith, inl, inr, ◌==◌,
  if◌then◌else◌,
}
use hoit_f2fs.Xattr.{
  XattrEntry, erange, eexist, enodata, ok, err, entry_size, xattr_align, same_bytes, is_named,
  find_xattr, find_inline_xattr, Io, XattrState, Room, checked, read_block, lookup_all_xattrs,
  read_all_xattrs, hsize, write_all_xattrs, min_offset, max_value_len, remove_xattr, replace_xattr,
  lacks_space, value_length, set_found, setxattr, getxattr, listxattr,
}
use hoit_f2fs.Xattr.Search.{IsReadable, lookup_all_xattrs-find_xattr}
use hoit_f2fs.Xattr.Names.{listxattr-listed}
use hoit_f2fs.Xattr.Set.{IsStored}
use hoit_f2fs.Xattr.Set.Updates.{Updates, setxattr-Updates, IsUsable, getxattr-setxattr}

abbrev small_inode : Room
small_inode = record { inline_size = 40; valid_block_size = 60; name_len = 8 }

abbrev working : Io
working = record {
  memory = true;
  inode_page = true;
  xattr_page = true;
  truncated = true;
  free_nid = true;
}

abbrev first : XattrEntry
first = record { e_name_index = 1; e_name = 97 ∷ []; e_value = 5 ∷ 6 ∷ [] }

abbrev second : XattrEntry
second = record { e_name_index = 1; e_name = 98 ∷ []; e_value = 7 ∷ 8 ∷ 9 ∷ 10 ∷ 11 ∷ [] }

abbrev one : XattrState
one = record { entries = first ∷ []; has_block = false }

-- The second attribute takes the block.
abbrev two : XattrState
two = record { entries = first ∷ second ∷ []; has_block = true }

second_set :
    setxattr small_inode working one 1 (98 ∷ []) (some (7 ∷ 8 ∷ 9 ∷ 10 ∷ 11 ∷ [])) false false
    ≡ ok two
unfolding setxattr set_found read_all_xattrs write_all_xattrs read_block lacks_space replace_xattr
    remove_xattr find_xattr is_named hsize entry_size xattr_align min_offset max_value_len
    value_length same_bytes
second_set = refl

create_fails : setxattr small_inode working two 1 (98 ∷ []) (some []) true false ≡ err eexist
unfolding setxattr set_found read_all_xattrs write_all_xattrs read_block lacks_space replace_xattr
    remove_xattr find_xattr is_named hsize entry_size xattr_align min_offset max_value_len
    value_length same_bytes
create_fails = refl

-- The block is given back where the inode holds what is left.
second_removed : setxattr small_inode working two 1 (98 ∷ []) none false false ≡ ok one
unfolding setxattr set_found read_all_xattrs write_all_xattrs read_block lacks_space replace_xattr
    remove_xattr find_xattr is_named hsize entry_size xattr_align min_offset max_value_len
    value_length same_bytes
second_removed = refl

working-IsReadable : IsReadable working
working-IsReadable = record { memory = refl; inode_page = refl; xattr_page = refl }

working-IsUsable : IsUsable working
working-IsUsable = record { readable = working-IsReadable; truncated = refl; free_nid = refl }

one-IsStored : IsStored small_inode one
unfolding find_xattr hsize entry_size xattr_align min_offset
one-IsStored = record { unique = (refl, tt); fits = omega arith; home = inl (omega arith) }

-- With 24 bytes in the inode, which only the header fills, the search ends before the block is read.
abbrev header_only : Room
header_only = record { inline_size = 24; valid_block_size = 60; name_len = 8 }

block_unread : lookup_all_xattrs header_only working two 1 (98 ∷ []) ≡ err enodata
unfolding lookup_all_xattrs find_inline_xattr
block_unread = refl

lookup_all_xattrs-find_xattr_example :
    lookup_all_xattrs small_inode working two 1 (98 ∷ [])
    ≡ checked (find_xattr 1 (98 ∷ []) (first ∷ second ∷ []))
lookup_all_xattrs-find_xattr_example =
    lookup_all_xattrs-find_xattr small_inode working working-IsReadable two 1 (98 ∷ [])
      (inl (omega arith))

setxattr-Updates_example : Updates small_inode 1 (98 ∷ []) (some (7 ∷ 8 ∷ 9 ∷ 10 ∷ 11 ∷ [])) one two
setxattr-Updates_example =
    setxattr-Updates small_inode working one two 1 (98 ∷ []) (some (7 ∷ 8 ∷ 9 ∷ 10 ∷ 11 ∷ [])) false
      false one-IsStored second_set

second_space :
    lacks_space small_inode 1
      (98 ∷ [])
      (find_xattr 1 (98 ∷ []) (first ∷ []))
      (some (7 ∷ []))
      (first ∷ [])
    ≡ false
unfolding lacks_space find_xattr is_named hsize entry_size xattr_align min_offset same_bytes
second_space = refl

seven_fits : 1 ≤ max_value_len small_inode
unfolding max_value_len min_offset xattr_align
seven_fits = omega arith

getxattr-setxattr_example :
    (st' : XattrState) × (setxattr small_inode working one 1 (98 ∷ []) (some (7 ∷ [])) false false
      ≡ ok st')
    × (getxattr small_inode working st' 1 (98 ∷ []) 4 ≡ ok (7 ∷ []))
getxattr-setxattr_example =
    getxattr-setxattr small_inode working working-IsUsable one one-IsStored 1 (98 ∷ []) (7 ∷ [])
      (omega arith) seven_fits second_space (inr (omega arith)) 4 (omega arith)

-- The names of index 1 with the prefix "user.".
abbrev user_prefix : ℕ → Option (List ℕ)
user_prefix index = if index == 1 then some (117 ∷ 115 ∷ 101 ∷ 114 ∷ 46 ∷ []) else none

two_read : read_all_xattrs small_inode working two ≡ ok (first ∷ second ∷ [])
unfolding read_all_xattrs read_block
two_read = refl

listxattr-listed_example :
    (listxattr user_prefix small_inode working two false 10 ≡ ok (14, []))
    × (listxattr user_prefix small_inode working two true 10 ≡ err erange)
listxattr-listed_example =
    listxattr-listed user_prefix small_inode working two (first ∷ second ∷ []) 10 two_read
      (omega arith) (omega arith)
