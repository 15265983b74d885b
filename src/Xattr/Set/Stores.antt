-- ===== src/Xattr/Set/Stores.antt =====
-- What `__f2fs_setxattr` and `f2fs_getxattr` do together.
use hoit_f2fs.Base.{
  ℕ, ◌≤◌, ◌<◌, ◌≡◌, ◌⊎◌, ◌∙◌, ap, Bool, true, false, not, ◌&&◌, Option, none, some, List, [], ◌==◌,
  arith, refl, Bool-cases, inl, inr,
}
use hoit_f2fs.Xattr.{
  XattrEntry, Errno, enomem, eio, ok, err, Io, XattrState, Room, is_named, find_xattr, remove_xattr,
  written_entry, hsize, replace_xattr, unchanged, value_same, lacks_space, read_block,
  read_all_xattrs, write_all_xattrs, min_offset, set_found, setxattr,
}
use hoit_f2fs.Xattr.Set.{value_in, value_of, Unique, Differs, IsStored}
use hoit_f2fs.Xattr.Set.Names.{
  same_bytes-eq, is_named_self, find-append, find-append_other, find-remove, find-remove_other,
  remove_xattr-Unique, hsize-remove, hsize-append, append-Unique,
}

module _ (index : ℕ) (name : List ℕ) where
  -- The new list has the value for the name,
  replace_xattr_self :
      (value : Option (List ℕ)) (es : List XattrEntry)
      → Unique es
      → value_of (replace_xattr index name value es) index name ≡ value
  unfolding value_of replace_xattr
  replace_xattr_self none es u = ap value_in (find-remove index name es u)
  replace_xattr_self (some v) es u =
      let found =
        find-append index name (remove_xattr index name es) (written_entry index name v)
          (find-remove index name es u) in
      let self = is_named_self index name v in rw found (rw self refl)

  -- and what it had for the others;
  replace_xattr-other :
      (value : Option (List ℕ)) (es : List XattrEntry) (index' : ℕ) (name' : List ℕ)
      → Differs index' name' index name
      → value_of (replace_xattr index name value es) index' name' ≡ value_of es index' name'
  unfolding value_of replace_xattr is_named
  replace_xattr-other none es index' name' differs =
      ap value_in (find-remove_other index name index' name' es differs)
  replace_xattr-other (some v) es index' name' differs = ap value_in (
      find-append_other index' name' (remove_xattr index name es) (written_entry index name v)
        differs
      ∙ find-remove_other index name index' name' es differs)

  -- each name stands once;
  replace_xattr-Unique :
      (value : Option (List ℕ)) (es : List XattrEntry)
      → Unique es
      → Unique (replace_xattr index name value es)
  unfolding replace_xattr
  replace_xattr-Unique none es u = remove_xattr-Unique index name es u
  replace_xattr-Unique (some v) es u =
      append-Unique (remove_xattr index name es) (written_entry index name v)
        (remove_xattr-Unique index name es u) (find-remove index name es u)

  -- and it has room.
  replace_xattr-fits :
      (r : Room) (value : Option (List ℕ)) (es : List XattrEntry)
      → hsize es ≤ min_offset r
      → lacks_space r index name (find_xattr index name es) value es ≡ false
      → hsize (replace_xattr index name value es) ≤ min_offset r
  unfolding replace_xattr lacks_space
  replace_xattr-fits r none es fits space = omega (arith, hsize-remove index name es)
  replace_xattr-fits r (some v) es fits space = ground (
    arith,
    space,
    hsize-remove index name es,
    hsize-append (remove_xattr index name es) (written_entry index name v),
  )

-- A value that is the same already.
unchanged-value :
    (o : Option XattrEntry) (value : Option (List ℕ))
    → unchanged o value ≡ true
    → value_in o ≡ value
unfolding value_same
unchanged-value none value h = cc
unchanged-value (some e) none h = cc
unchanged-value (some e) (some v) h = ground (arith, h, same_bytes-eq e.e_value v)

-- What the two ways of success leave.
pub data Stored (r : Room) (index : ℕ) (name : List ℕ) (value : Option (List ℕ))
    (st st' : XattrState) : Type 0 where
  same :
      unchanged (find_xattr index name st.entries) value ≡ true
      → st' ≡ st
      → Stored r index name value st st'
  placed :
      lacks_space r index name (find_xattr index name st.entries) value st.entries ≡ false
      → st'.entries ≡ replace_xattr index name value st.entries
      → (0 < r.inline_size) ⊎ (st'.has_block ≡ true)
      → Stored r index name value st st'

module _ (r : Room) (io : Io) (st : XattrState) where
  pub read_all-cases :
      (read_all_xattrs r io st ≡ ok st.entries) ⊎ ((e : Errno) × (read_all_xattrs r io st ≡ err e))
  unfolding read_all_xattrs
  read_all-cases = elim (Bool-cases (not io.memory)) [
    | inl none_left ↦ inr (enomem, rw none_left refl)
    | inr given ↦ elim (Bool-cases (not (r.inline_size == 0) && not io.inode_page)) [
      | inl bad ↦ inr (eio, rw given (rw bad refl))
      | inr good ↦ elim (Bool-cases (read_block io st.has_block)) [
        | inl read ↦ inl (rw given (rw good (rw read refl)))
        | inr unread ↦ inr (eio, rw given (rw good (rw unread refl)))
      ]
    ]
  ]

  write_all-entries :
      (es : List XattrEntry) (st' : XattrState)
      → write_all_xattrs r io st es ≡ ok st'
      → (st'.entries ≡ es) × ((0 < r.inline_size) ⊎ (st'.has_block ≡ true))
  unfolding write_all_xattrs
  write_all-entries es st' h = (ground (arith, h), ground (arith, h))

  module _ (index : ℕ) (name : List ℕ) (value : Option (List ℕ)) (create replace : Bool) where
    set_found-Stored :
        (st' : XattrState)
        → set_found r io st index name value create replace st.entries ≡ ok st'
        → Stored r index name value st st'
    unfolding set_found
    set_found-Stored st' h =
        elim (Bool-cases (unchanged (find_xattr index name st.entries) value)) [
          | inl keeps ↦ same keeps (ground (arith, h))
          | inr changes ↦
              let w : write_all_xattrs r io st (replace_xattr index name value st.entries)
                  ≡ ok st' =
                ground (arith, h) in
              let (e, home) = write_all-entries (replace_xattr index name value st.entries) st' w in
              placed (ground (arith, h)) e home
        ]

    pub setxattr-Stored :
        (st' : XattrState)
        → setxattr r io st index name value create replace ≡ ok st'
        → Stored r index name value st st'
    unfolding setxattr
    setxattr-Stored st' h = elim read_all-cases [
      | inl read ↦ set_found-Stored st' (ground (arith, h, read))
      | inr (e, failed) ↦ absurd (ground (arith, h, failed))
    ]

-- The invariant where the attributes are kept, and those that follow a successful setxattr.
module _ (r : Room) (index : ℕ) (name : List ℕ) (value : Option (List ℕ))
    (st st' : XattrState) where
  pub Stored-IsStored : Stored r index name value st st' → IsStored r st → IsStored r st'
  Stored-IsStored (same keeps e) k = rw e k
  Stored-IsStored (placed space e home) k = record {
    unique = rw e (replace_xattr-Unique index name value st.entries k.unique);
    fits = rw e (replace_xattr-fits index name r value st.entries k.fits space);
    home = home_of home;
  }
    where
      home_of :
          (0 < r.inline_size) ⊎ (st'.has_block ≡ true)
          → (0 < r.inline_size) ⊎ (st'.has_block ≡ true) ⊎ (st'.entries ≡ [])
      home_of (inl i) = inl i
      home_of (inr b) = inr (inl b)

  pub Stored-value :
      Stored r index name value st st' → Unique st.entries → value_of st'.entries index name ≡ value
  unfolding value_of
  Stored-value (same keeps e) u =
      rw e (unchanged-value (find_xattr index name st.entries) value keeps)
  Stored-value (placed space e home) u = rw e (replace_xattr_self index name value st.entries u)

  pub Stored-other :
      Stored r index name value st st'
      → (index' : ℕ) (name' : List ℕ) → Differs index' name' index name
      → value_of st'.entries index' name' ≡ value_of st.entries index' name'
  Stored-other (same keeps e) index' name' differs = rw e refl
  Stored-other (placed space e home) index' name' differs =
      rw e (replace_xattr-other index name value st.entries index' name' differs)
