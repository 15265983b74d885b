-- ===== src/Xattr/Set.antt =====
-- `__f2fs_setxattr` as an update of a map from names to values.
pub mod Names
pub mod Stores
pub mod Updates
use hoit_f2fs.Base.{
  ℕ, ◌+◌, ◌≤◌, ◌<◌, ◌≡◌, ◌⊎◌, Bool, true, false, Option, none, some, List, [], ◌∷◌,
}
use hoit_f2fs.Xattr.{
  XattrEntry, is_named, find_xattr, hsize, Room, XattrState, min_offset, written_entry,
}

abbrev pub value_in : Option XattrEntry → Option (List ℕ)
value_in none = none
value_in (some e) = some e.e_value

-- The value of a name.
pub value_of : List XattrEntry → ℕ → List ℕ → Option (List ℕ)
value_of es index name = value_in (find_xattr index name es)

-- No name stands twice.
abbrev pub Unique : List XattrEntry → Type 0
Unique [] = Unit
Unique (e ∷ es) = (find_xattr e.e_name_index e.e_name es ≡ none) × Unique es

-- Another name.
abbrev pub Differs : ℕ → List ℕ → ℕ → List ℕ → Type 0
Differs index name index' name' = is_named index name (written_entry index' name' []) ≡ false

-- The attributes fit the space, each name stands once, and where there is no space in the inode they
-- have a block.
pub record IsStored (r : Room) (st : XattrState) : Type 0 where
  pub unique : Unique st.entries
  pub fits : hsize st.entries ≤ min_offset r
  pub home : (0 < r.inline_size) ⊎ (st.has_block ≡ true) ⊎ (st.entries ≡ [])
