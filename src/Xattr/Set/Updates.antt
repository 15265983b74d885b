-- ===== src/Xattr/Set/Updates.antt =====
-- An attribute that is set is read back, and the others stay.
use hoit_f2fs.Base.{
  ℕ, ◌≤◌, ◌<◌, ◌≡◌, ◌⊎◌, ◌∙◌, ap, Bool, true, false, not, ◌&&◌, Option, some, Option-cases, List,
  leb, ◌==◌, arith, Bool-cases, inl, inr,
}
use hoit_f2fs.Base.Lists.{length}
use hoit_f2fs.Xattr.{
  XattrEntry, ok, Io, XattrState, Room, find_xattr, hsize, replace_xattr, unchanged, lacks_space,
  value_length, read_block, read_all_xattrs, write_all_xattrs, max_value_len, set_found, setxattr,
  getxattr, lookup_all_xattrs, checked, header_size,
}
use hoit_f2fs.Xattr.Search.{IsReadable, HasRoom, lookup_all_xattrs-find_xattr}
use hoit_f2fs.Xattr.Set.{value_of, Differs, IsStored}
use hoit_f2fs.Xattr.Set.Stores.{setxattr-Stored, Stored-IsStored, Stored-value, Stored-other}

-- The attributes afterwards: the value for the name, or none, and for the others what they had.
pub record Updates (r : Room) (index : ℕ) (name : List ℕ) (value : Option (List ℕ))
    (st st' : XattrState) : Type 0 where
  pub stored : IsStored r st'
  pub self : value_of st'.entries index name ≡ value
  pub others :
      (index' : ℕ) (name' : List ℕ)
      → Differs index' name' index name
      → value_of st'.entries index' name' ≡ value_of st.entries index' name'

-- Where `__f2fs_setxattr` succeeds, for any flags and whatever the disk does, the name has the value,
-- or is gone where there is none, the other names keep theirs, each name stands once, and the
-- attributes fit their space.
pub setxattr-Updates :
    (r : Room) (io : Io) (st st' : XattrState) (index : ℕ) (name : List ℕ) (value : Option (List ℕ))
    (create replace : Bool)
    → IsStored r st
    → setxattr r io st index name value create replace ≡ ok st'
    → Updates r index name value st st'
setxattr-Updates r io st st' index name value create replace k h =
    let s = setxattr-Stored r io st index name value create replace st' h in
    record {
      stored = Stored-IsStored r index name value st st' s k;
      self = Stored-value r index name value st st' s k.unique;
      others = Stored-other r index name value st st' s;
    }

-- The disk can be read and written.
pub record IsUsable (io : Io) : Type 0 where
  pub readable : IsReadable io
  pub truncated : io.truncated ≡ true
  pub free_nid : io.free_nid ≡ true

module _ (r : Room) (io : Io) (usable : IsUsable io) (st : XattrState) (k : IsStored r st)
    (index : ℕ) (name v : List ℕ) where
  write_all-works :
      (es : List XattrEntry) → (st' : XattrState) × (write_all_xattrs r io st es ≡ ok st')
  unfolding write_all_xattrs
  write_all-works es =
      let u = usable.readable in
      elim (Bool-cases (not (r.inline_size == 0) && leb (hsize es) r.inline_size)) [
        | inl inside ↦ (
          record { entries = es; has_block = false },
          ground (arith, inside, usable.truncated, usable.free_nid, u.inode_page),
        )
        | inr beyond ↦ (
          record { entries = es; has_block = true },
          ground (arith, beyond, usable.free_nid, u.inode_page, u.xattr_page),
        )
      ]

  reads : read_all_xattrs r io st ≡ ok st.entries
  unfolding read_all_xattrs read_block
  reads = let u = usable.readable in ground (arith, u.memory, u.inode_page, u.xattr_page)

  set_found-works :
      lacks_space r index name (find_xattr index name st.entries) (some v) st.entries ≡ false
      → (st' : XattrState) × (set_found r io st index name (some v) false false st.entries ≡ ok st')
  unfolding set_found
  set_found-works space =
      let (st', w) = write_all-works (replace_xattr index name (some v) st.entries) in
      elim (Bool-cases (unchanged (find_xattr index name st.entries) (some v))) [
        | inl keeps ↦ (st, ground (arith, keeps))
        | inr changes ↦ (st', ground (arith, changes, space, w))
      ]

  module _ (short : length name ≤ r.name_len) (fits : length v ≤ max_value_len r)
      (space : lacks_space r index name (find_xattr index name st.entries) (some v) st.entries
        ≡ false)
      (inner : (r.inline_size ≡ 0) ⊎ (header_size < r.inline_size)) where
    setxattr-works :
        (st' : XattrState) × (setxattr r io st index name (some v) false false ≡ ok st')
    unfolding setxattr value_length
    setxattr-works = let (st', w) = set_found-works space in (st', ground (arith, reads, w))

    module _ (st' : XattrState)
        (set : setxattr r io st index name (some v) false false ≡ ok st') where
      abbrev u : Updates r index name (some v) st st'
      u = setxattr-Updates r io st st' index name (some v) false false k set

      found : (e : XattrEntry) × (find_xattr index name st'.entries ≡ some e) × (e.e_value ≡ v)
      unfolding value_of
      found = elim (Option-cases (find_xattr index name st'.entries)) [
        | inl missing ↦ absurd (ground (arith, missing, u.self))
        | inr (e, there) ↦ (e, there, ground (arith, there, u.self))
      ]

      -- Attributes are kept somewhere.
      at_home : HasRoom r st'
      unfolding find_xattr
      at_home = elim inner [
        | inr space_inside ↦ inl space_inside
        | inl no_space ↦ elim u.stored.home [
          | inl i ↦ absurd (omega (arith, no_space))
          | inr (inl b) ↦ inr (no_space, b)
          | inr (inr empty) ↦ absurd (ground (arith, ap (find_xattr index name) empty, found.1))
        ]
      ]

      getxattr-eq :
          (buffer_size : ℕ)
          → length v ≤ buffer_size
          → getxattr r io st' index name buffer_size ≡ ok v
      unfolding getxattr
      getxattr-eq buffer_size enough =
          let (e, there, same) = found in
          let look = lookup_all_xattrs-find_xattr r io usable.readable st' index name at_home in
          let hit : lookup_all_xattrs r io st' index name ≡ ok e = look ∙ ap checked there in
          let size = ap (λ (w : List ℕ). length w) same in ground (arith, hit, same, size)

    -- On a disk that can be read and written, where the inode's space for attributes is empty or reaches
    -- beyond their header, a value for a name of allowed length that fits beside the other attributes
    -- is set, and `f2fs_getxattr` with a buffer that holds it then returns it.
    pub getxattr-setxattr :
        (buffer_size : ℕ)
        → length v ≤ buffer_size
        → (st' : XattrState) × (setxattr r io st index name (some v) false false ≡ ok st')
          × (getxattr r io st' index name buffer_size ≡ ok v)
    getxattr-setxattr buffer_size enough =
        let (st', set) = setxattr-works in (st', set, getxattr-eq st' set buffer_size enough)
