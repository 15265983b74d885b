-- ===== src/Xattr/Search.antt =====
-- The search in two parts and the search of the whole list.
use hoit_f2fs.Base.{
  ℕ, ◌+◌, ◌<◌, ◌≡◌, ◌⊎◌, Bool, true, false, ◌||◌, List, [], ◌∷◌, ltb, leb, arith, refl, Bool-cases,
  inl, inr,
}
use hoit_f2fs.Xattr.{
  XattrEntry, entry_size, is_named, find_xattr, find_inline_xattr, Io, XattrState, Room, checked,
  read_block, after_inline, lookup_all_xattrs, header_size,
}

-- The disk gives what is read.
pub record IsReadable (io : Io) : Type 0 where
  pub memory : io.memory ≡ true
  pub inode_page : io.inode_page ≡ true
  pub xattr_page : io.xattr_page ≡ true

module _ (r : Room) (io : Io) (readable : IsReadable io) (index : ℕ) (name : List ℕ)
    (has_block : Bool) where
  block_read : read_block io has_block ≡ true
  unfolding read_block
  block_read = ground (arith, readable.xattr_page)

  inline-find :
      (pos : ℕ) (es : List XattrEntry)
      → pos < r.inline_size
      → after_inline io has_block index name (find_inline_xattr r.inline_size index name pos es)
        ≡ checked (find_xattr index name es)
  unfolding find_inline_xattr find_xattr
  inline-find pos [] within = refl
  inline-find pos (e ∷ es) within =
      let read : leb r.inline_size pos ≡ false = ground arith in
      elim (Bool-cases
        (ltb r.inline_size (pos + 4) || ltb r.inline_size (pos + entry_size e + 4))) [
          | inl beyond ↦ rw read (rw beyond (rw block_read refl))
          | inr inside ↦ elim (Bool-cases (is_named index name e)) [
            | inl named ↦ rw read (rw inside (rw named refl))
            | inr other ↦
                rw read (rw inside (rw other (inline-find (pos + entry_size e) es (ground arith))))
          ]
        ]

-- The inode has space for the header and an attribute, or none and a block instead.
abbrev pub HasRoom : Room → XattrState → Type 0
HasRoom r st = (header_size < r.inline_size) ⊎ ((r.inline_size ≡ 0) × (st.has_block ≡ true))

-- Where the disk is readable, and the inode's space for attributes reaches beyond their header, or is
-- empty and there is a block of them, `lookup_all_xattrs`, which reads the inode's space first and the block only where it must go on,
-- finds what `__find_xattr` finds in the whole list.
pub lookup_all_xattrs-find_xattr :
    (r : Room) (io : Io)
    → IsReadable io
    → (st : XattrState) (index : ℕ) (name : List ℕ) → HasRoom r st
    → lookup_all_xattrs r io st index name ≡ checked (find_xattr index name st.entries)
unfolding lookup_all_xattrs
lookup_all_xattrs-find_xattr r io readable st index name room =
    let block = block_read r io readable index name st.has_block in
    elim room [
      | inl inside ↦
          let inner =
            inline-find r io readable index name st.has_block header_size st.entries inside in
          ground (arith, block, inner, readable.memory, readable.inode_page, inside)
      | inr (no_space, some_block) ↦ ground (arith, block, readable.memory, no_space, some_block)
    ]
