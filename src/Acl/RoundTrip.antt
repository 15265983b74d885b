-- ===== src/Acl/RoundTrip.antt =====
-- An ACL that was written to disk is read back.
use hoit_f2fs.Base.{
  ℕ, suc, ◌+◌, ◌*◌, ◌^◌, ◌<◌, ◌≤◌, ◌≡◌, ◌∙◌, ap, sym, ◌⊎◌, some, List, [], ◌∷◌, Bool, true, false,
  le→ltb, if◌then◌else◌, arith, refl,
}
use hoit_f2fs.Base.Words.{u32_mod}
use hoit_f2fs.Base.Arrays.{Array}
use hoit_f2fs.Base.Lists.{length}
use hoit_f2fs.Acl.{
  Tags, Ids, AclEntry, EntryKind, unnamed, named_user, named_group, unknown, le16, le32, put16,
  put32, kind, width, is_unknown, cons_entry, write_id, write_entry, write_entries, write_result,
  acl_to_disk, read_id, read_entries, read_result, acl_from_disk, acl_size, acl_version, acl_header,
  acl, value,
}
use hoit_f2fs.Acl.Size.{acl_count-acl_size}
use hoit_f2fs.Acl.Written.{
  le16-put16, le16_ext, le32-put32, le32_ext, put16_other, put32_other, write_entries_other,
}

-- An id that is not set is `unset`, and the others have 32 bits.
abbrev pub IdSet : ℕ → EntryKind → ℕ → Type 0
IdSet unset unnamed id = id ≡ unset
IdSet unset named_user id = id < u32_mod
IdSet unset named_group id = id < u32_mod
IdSet unset unknown id = ⊥

pub record IsEntry (t : Tags) (unset : ℕ) (e : AclEntry) : Type 0 where
  pub tag : e.e_tag < 2 ^ 16
  pub perm : e.e_perm < 2 ^ 16
  pub id : IdSet unset (kind t e.e_tag) e.e_id

abbrev pub AllEntries : Tags → ℕ → List AclEntry → Type 0
AllEntries t unset [] = Unit
AllEntries t unset (e ∷ es) = IsEntry t unset e × AllEntries t unset es

abbrev pub widths : Tags → List AclEntry → ℕ
widths t [] = 0
widths t (e ∷ es) = width (kind t e.e_tag) + widths t es

module _ (t : Tags) (ids : Ids) (unset : ℕ) where
  known_kind : (kd : EntryKind) (id : ℕ) → IdSet unset kd id → is_unknown kd ≡ false
  known_kind unnamed id set = refl
  known_kind named_user id set = refl
  known_kind named_group id set = refl
  known_kind unknown id set = absurd set

  -- The entry at a place, in a memory that agrees with the written one.
  module _ (e : AclEntry) (mem mem' : Array ℕ) (p : ℕ) where
    abbrev after : Array ℕ
    after = write_entry t ids e mem p

    abbrev Agrees : Type 0
    Agrees = (q : ℕ) → q < p + width (kind t e.e_tag) → mem' q ≡ after q

    abbrev plain : Array ℕ
    plain = put16 (put16 mem p e.e_tag) (p + 2) e.e_perm

    -- The id does not touch tag and permissions.
    plain_below : (k : EntryKind) (q : ℕ) → q < p + 4 → write_id t ids k e plain p q ≡ plain q
    unfolding write_id
    plain_below unnamed q less = refl
    plain_below named_user q less = put32_other plain (p + 4) (ids.from_kuid e.e_id) q less
    plain_below named_group q less = put32_other plain (p + 4) (ids.from_kgid e.e_id) q less
    plain_below unknown q less = refl

    width-ge : (k : EntryKind) → is_unknown k ≡ false → 4 ≤ width k
    unfolding width
    width-ge unnamed h = omega arith
    width-ge named_user h = omega arith
    width-ge named_group h = omega arith
    width-ge unknown h = cc

    module _ (known : is_unknown (kind t e.e_tag) ≡ false) (agrees : Agrees)
        (k : IsEntry t unset e) where
      agrees_plain : (q : ℕ) → q < p + 4 → mem' q ≡ plain q
      unfolding write_entry
      agrees_plain q less =
          agrees q (omega (arith, width-ge (kind t e.e_tag) known))
          ∙ plain_below (kind t e.e_tag) q less

      tag_read : le16 mem' p ≡ e.e_tag
      tag_read =
          le16_ext mem' plain p (λ q less. agrees_plain q (omega arith))
          ∙ le16_ext plain (put16 mem p e.e_tag) p
              (λ q less. put16_other (put16 mem p e.e_tag) (p + 2) e.e_perm q less)
          ∙ le16-put16 mem p e.e_tag k.tag

      perm_read : le16 mem' (p + 2) ≡ e.e_perm
      perm_read =
          le16_ext mem' plain (p + 2) (λ q less. agrees_plain q (omega arith))
          ∙ le16-put16 (put16 mem p e.e_tag) (p + 2) e.e_perm k.perm

    id_read :
        (kd : EntryKind)
        → ((q : ℕ) → q < p + width kd → mem' q ≡ write_id t ids kd e plain p q)
        → IdSet unset kd e.e_id
        → read_id t ids kd mem' p unset ≡ e.e_id
    unfolding read_id write_id width
    id_read unnamed agrees set = sym set
    id_read named_user agrees set =
        ap ids.make_kuid (
          le32_ext mem' (put32 plain (p + 4) (ids.from_kuid e.e_id)) (p + 4)
            (λ q less. agrees q (omega arith))
          ∙ le32-put32 plain (p + 4) (ids.from_kuid e.e_id) (ids.kuid_small e.e_id set))
        ∙ ids.kuid_back e.e_id set
    id_read named_group agrees set =
        ap ids.make_kgid (
          le32_ext mem' (put32 plain (p + 4) (ids.from_kgid e.e_id)) (p + 4)
            (λ q less. agrees q (omega arith))
          ∙ le32-put32 plain (p + 4) (ids.from_kgid e.e_id) (ids.kgid_small e.e_id set))
        ∙ ids.kgid_back e.e_id set
    id_read unknown agrees set = absurd set

  -- One round of the reading loop, on what the writing loop left.
  read_one :
      (e : AclEntry) (mem mem' : Array ℕ) (p end left : ℕ)
      → ((q : ℕ) → q < p + width (kind t e.e_tag) → mem' q ≡ write_entry t ids e mem p q)
      → IsEntry t unset e
      → p ≤ end
      → read_entries t ids unset mem' end (suc left) p
        ≡ cons_entry e (read_entries t ids unset mem' end left (p + width (kind t e.e_tag)))
  unfolding read_entries write_entry
  read_one e mem mem' p end left agrees k within =
      let known = known_kind (kind t e.e_tag) e.e_id k.id in
      let tag = tag_read e mem mem' p known agrees k in
      let perm = perm_read e mem mem' p known agrees k in
      let id = id_read e mem mem' p (kind t e.e_tag) agrees k.id in
      rw (tag, read_entries)
        (rw (perm, read_entries) (rw (id, read_entries) (rw known (rw (le→ltb end p within) refl))))

  written :
      (es : List AclEntry) (mem : Array ℕ) (p : ℕ)
      → AllEntries t unset es
      → (mem' : Array ℕ) × (write_entries t ids es mem p ≡ some mem')
  unfolding write_entries
  written [] mem p k = (mem, refl)
  written (e ∷ es) mem p (k, ks) =
      let (mem', h) = written es (write_entry t ids e mem p) (p + width (kind t e.e_tag)) ks in
      (mem', rw (known_kind (kind t e.e_tag) e.e_id k.id) h)

  rest_written :
      (e : AclEntry) (es : List AclEntry) (mem mem' : Array ℕ) (p : ℕ)
      → IsEntry t unset e
      → write_entries t ids (e ∷ es) mem p ≡ some mem'
      → write_entries t ids es (write_entry t ids e mem p) (p + width (kind t e.e_tag)) ≡ some mem'
  unfolding write_entries
  rest_written e es mem mem' p k h = ground (arith, h, known_kind (kind t e.e_tag) e.e_id k.id)

  read_all :
      (es : List AclEntry) (mem mem' : Array ℕ) (p end : ℕ)
      → AllEntries t unset es
      → write_entries t ids es mem p ≡ some mem'
      → p + widths t es ≡ end
      → read_entries t ids unset mem' end (length es) p ≡ some es
  unfolding read_entries
  read_all [] mem mem' p end k h e = ground arith
  read_all (e ∷ es) mem mem' p end (k, ks) h at =
      let rest = rest_written e es mem mem' p k h in
      read_one e mem mem' p end (length es)
        (λ q less.
          write_entries_other t ids es (write_entry t ids e mem p) mem' (p + width (kind t e.e_tag))
            q rest less)
        k (omega arith)
      ∙ ap (cons_entry e) (
          read_all es (write_entry t ids e mem p) mem' (p + width (kind t e.e_tag)) end ks rest
            (omega arith))

abbrev pub is_unnamed : EntryKind → Bool
is_unnamed unnamed = true
is_unnamed named_user = false
is_unnamed named_group = false
is_unnamed unknown = false

abbrev pub unnamed_entries : Tags → List AclEntry → ℕ
unnamed_entries t [] = 0
unnamed_entries t (e ∷ es) = (if is_unnamed (kind t e.e_tag) then 1 else 0) + unnamed_entries t es

-- An ACL of the kernel's: at most four entries, all without a name, or four of these beside the
-- entries with a name.
pub record IsAcl (t : Tags) (unset : ℕ) (es : List AclEntry) : Type 0 where
  pub entries : AllEntries t unset es
  pub some_entries : 0 < length es
  pub small : length es < u32_mod
  pub base : ((unnamed_entries t es ≡ length es) × (length es ≤ 4)) ⊎ (unnamed_entries t es ≡ 4)

module _ (t : Tags) (unset : ℕ) where
  width-eq :
      (k : EntryKind) (id : ℕ) → IdSet unset k id → width k + (if is_unnamed k then 4 else 0) ≡ 8
  unfolding width
  width-eq unnamed id set = omega arith
  width-eq named_user id set = omega arith
  width-eq named_group id set = omega arith
  width-eq unknown id set = absurd set

  widths-eq :
      (es : List AclEntry)
      → AllEntries t unset es
      → widths t es + 4 * unnamed_entries t es ≡ 8 * length es
  widths-eq [] k = omega arith
  widths-eq (e ∷ es) (k, ks) =
      ground (arith, width-eq (kind t e.e_tag) e.e_id k.id, widths-eq es ks)

  unnamed-le : (es : List AclEntry) → unnamed_entries t es ≤ length es
  unnamed-le [] = omega arith
  unnamed-le (e ∷ es) = ground (arith, unnamed-le es)

  -- The size tells where the last entry ends.
  size-widths :
      (es : List AclEntry) → IsAcl t unset es → acl_header + widths t es ≡ acl_size (length es)
  unfolding acl_size
  size-widths es k = ground (arith, widths-eq es k.entries, unnamed-le es, k.base)

module _ (t : Tags) (ids : Ids) (unset : ℕ) (fresh : Array ℕ) (es : List AclEntry)
    (k : IsAcl t unset es) where
  abbrev header : Array ℕ
  header = put32 fresh 0 acl_version

  abbrev body : (mem : Array ℕ) × (write_entries t ids es header acl_header ≡ some mem)
  body = written t ids unset es header acl_header k.entries

  version_read : le32 (body.0) 0 ≡ acl_version
  version_read =
      le32_ext (body.0) header 0
        (λ q less. write_entries_other t ids es header (body.0) acl_header q (body.1) less)
      ∙ le32-put32 fresh 0 acl_version (omega arith)

  reading :
      acl_from_disk t ids true unset (body.0) (acl_size (length es))
      ≡ read_result
          (read_entries t ids unset (body.0) (acl_size (length es)) (length es) acl_header)
  unfolding acl_from_disk
  reading =
      rw (version_read, acl_from_disk)
        (rw (acl_count-acl_size (length es) k.small, acl_from_disk)
          (ground (arith, k.some_entries)))

  -- An ACL of the kernel's is written to disk, and `f2fs_acl_from_disk` reads it back from there
  -- whatever the memory held before. Both get memory for it.
  pub acl_from_disk-acl_to_disk :
      (mem : Array ℕ) × (acl_to_disk t ids true fresh es ≡ value mem (acl_size (length es)))
      × (acl_from_disk t ids true unset mem (acl_size (length es)) ≡ acl es)
  unfolding acl_to_disk
  acl_from_disk-acl_to_disk = (
    body.0,
    ap (write_result (length es)) (body.1),
    reading
        ∙ ap read_result (
            read_all t ids unset es header (body.0) acl_header (acl_size (length es)) k.entries
              (body.1) (size-widths t unset es k)),
  )
