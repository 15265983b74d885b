-- ===== src/Acl/Written.antt =====
-- What is read back from memory after a write.
use hoit_f2fs.Base.{ℕ, ◌+◌, ◌/◌, ◌%◌, ◌^◌, ◌<◌, ◌≡◌, ◌∙◌, some, List, [], ◌∷◌, arith, refl}
use hoit_f2fs.Base.Words.{u32_mod}
use hoit_f2fs.Base.Arrays.{Array}
use hoit_f2fs.Acl.{
  Tags, Ids, AclEntry, EntryKind, unnamed, named_user, named_group, unknown, le16, le32, put16,
  put32, kind, width, write_id, write_entry, write_entries,
}

pub le16-put16 : (mem : Array ℕ) (p v : ℕ) → v < 2 ^ 16 → le16 (put16 mem p v) p ≡ v
unfolding le16 put16
le16-put16 mem p v small = ground arith

-- A number in memory depends on its own bytes alone.
pub le16_ext : (a b : Array ℕ) (p : ℕ) → ((q : ℕ) → q < p + 2 → a q ≡ b q) → le16 a p ≡ le16 b p
unfolding le16
le16_ext a b p h = ground (arith, h p, h (p + 1))

pub le32_ext : (a b : Array ℕ) (p : ℕ) → ((q : ℕ) → q < p + 4 → a q ≡ b q) → le32 a p ≡ le32 b p
unfolding le32
le32_ext a b p h = ground (arith, h p, h (p + 1), h (p + 2), h (p + 3))

pub put16_other : (mem : Array ℕ) (p v q : ℕ) → q < p → put16 mem p v q ≡ mem q
unfolding put16
put16_other mem p v q before = ground arith

pub put32_other : (mem : Array ℕ) (p v q : ℕ) → q < p → put32 mem p v q ≡ mem q
unfolding put32
put32_other mem p v q before =
    put16_other (put16 mem p (v % 2 ^ 16)) (p + 2) (v / 2 ^ 16 % 2 ^ 16) q (omega arith)
    ∙ put16_other mem p (v % 2 ^ 16) q before

pub le32-put32 : (mem : Array ℕ) (p v : ℕ) → v < u32_mod → le32 (put32 mem p v) p ≡ v
unfolding le32 put32 put16
le32-put32 mem p v small = ground arith

module _ (t : Tags) (ids : Ids) where
  id_other :
      (e : AclEntry) (k : EntryKind) (m : Array ℕ) (p q : ℕ)
      → q < p
      → write_id t ids k e m p q ≡ m q
  unfolding write_id
  id_other e unnamed m p q before = refl
  id_other e named_user m p q before = put32_other m (p + 4) (ids.from_kuid e.e_id) q (omega arith)
  id_other e named_group m p q before = put32_other m (p + 4) (ids.from_kgid e.e_id) q (omega arith)
  id_other e unknown m p q before = refl

  -- An entry is written from its place on.
  write_entry_other :
      (e : AclEntry) (mem : Array ℕ) (p q : ℕ) → q < p → write_entry t ids e mem p q ≡ mem q
  unfolding write_entry
  write_entry_other e mem p q before =
      id_other e (kind t e.e_tag) (put16 (put16 mem p e.e_tag) (p + 2) e.e_perm) p q before
      ∙ put16_other (put16 mem p e.e_tag) (p + 2) e.e_perm q (omega arith)
      ∙ put16_other mem p e.e_tag q before

  -- So are all the entries.
  pub write_entries_other :
      (es : List AclEntry) (mem mem' : Array ℕ) (p q : ℕ)
      → write_entries t ids es mem p ≡ some mem'
      → q < p
      → mem' q ≡ mem q
  unfolding write_entries
  write_entries_other [] mem mem' p q h before = ground (arith, h)
  write_entries_other (e ∷ es) mem mem' p q h before =
      write_entries_other es (write_entry t ids e mem p) mem' (p + width (kind t e.e_tag)) q
        (ground (arith, h)) (omega arith)
      ∙ write_entry_other e mem p q before
