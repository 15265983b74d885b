-- ===== src/Dir/Dentry/Bits.antt =====
-- What `f2fs_update_dentry` writes, slot by slot.
use hoit_f2fs.Base.{
  ℕ, zero, suc, ◌+◌, ◌-◌, ◌*◌, ◌≤◌, ◌<◌, ◌≡◌, ◌≢◌, ◌∙◌, ap, ◌⊎◌, inl, inr, true, Bool-cases, List,
  [], ◌∷◌, ◌==◌, if◌then◌else◌, arith, refl,
}
use hoit_f2fs.Base.Arrays.{Array, update}
use hoit_f2fs.Base.Lists.{length, get_or}
use hoit_f2fs.Dir.Dentry.{
  DirEntry, DentryPtr, DentrySlots, put_name, mark_slots, update_dentry, read_name,
}

module _ (sl : DentrySlots) where
  -- Within the run the bits are set, and outside nothing changes.
  pub record Marked (bit_pos left i : ℕ) (d d' : DentryPtr) : Type 0 where
    pub set : (j : ℕ) → bit_pos + i ≤ j → j < bit_pos + i + left → d'.bitmap j ≡ true
    pub bitmap : (j : ℕ) → (j < bit_pos + i) ⊎ (bit_pos + i + left ≤ j) → d'.bitmap j ≡ d.bitmap j
    pub dentry :
        (j : ℕ)
        → (j < bit_pos + i) ⊎ (bit_pos + i + left ≤ j) ⊎ (j ≡ bit_pos)
        → d'.dentry j ≡ d.dentry j
    pub filename : d'.filename ≡ d.filename
    pub size : d'.max ≡ d.max

  mark_slots-Marked :
      (bit_pos left i : ℕ) (d : DentryPtr) → Marked bit_pos left i d (mark_slots bit_pos left i d)
  unfolding mark_slots
  mark_slots-Marked bit_pos zero i d = record {
    set = λ j lo hi. absurd (omega arith);
    bitmap = λ j out. refl;
    dentry = λ j out. refl;
    filename = refl;
    size = refl;
  }
  mark_slots-Marked bit_pos (suc left) i d =
      let at = bit_pos + i in
      let e = d.dentry at in
      let d1 = record d {
        bitmap = update d.bitmap at true;
        dentry = if i == 0 then d.dentry else update d.dentry at (record e { name_len = 0 });
      } in
      let ih = mark_slots-Marked bit_pos left (i + 1) d1 in
      record {
        set = λ j lo hi. elim (Bool-cases (at == j)) [
          | inl here ↦ ih.bitmap j (inl (ground arith)) ∙ ground (arith, here)
          | inr later ↦ ih.set j (ground arith) (omega arith)
        ];
        bitmap = λ j out. ih.bitmap j (ground (arith, out)) ∙ ground (arith, out);
        dentry = λ j out. ih.dentry j (ground (arith, out)) ∙ ground (arith, out);
        filename = ih.filename;
        size = ih.size;
      }

  -- What `f2fs_update_dentry` leaves: the dentry and its bits, and all other slots as they were.
  pub record Updated (d d' : DentryPtr) (e : DirEntry) (name : List ℕ) (pos slots : ℕ)
      : Type 0 where
    pub set : (j : ℕ) → pos ≤ j → j < pos + slots → d'.bitmap j ≡ true
    pub bitmap : (j : ℕ) → (j < pos) ⊎ (pos + slots ≤ j) → d'.bitmap j ≡ d.bitmap j
    pub here : d'.dentry pos ≡ e
    pub dentry : (j : ℕ) → (j < pos) ⊎ (pos + slots ≤ j) → j ≢ pos → d'.dentry j ≡ d.dentry j
    pub filename : d'.filename ≡ put_name d.filename (pos * sl.slot_len) name
    pub size : d'.max ≡ d.max

  abbrev pub entry_of : ℕ → ℕ → List ℕ → ℕ → DirEntry
  entry_of ino file_type name name_hash = record {
    hash_code = name_hash;
    ino = ino;
    name_len = length name;
    file_type = file_type;
  }

  pub update_dentry-Updated :
      (ino file_type : ℕ) (d : DentryPtr) (name : List ℕ) (name_hash pos : ℕ)
      → Updated d
          (update_dentry sl ino file_type d name name_hash pos)
          (entry_of ino file_type name name_hash)
          name
          pos
          (sl.dentry_slots (length name))
  unfolding update_dentry
  update_dentry-Updated ino file_type d name name_hash pos =
      let e = entry_of ino file_type name name_hash in
      let d1 = record d {
        dentry = update d.dentry pos e;
        filename = put_name d.filename (pos * sl.slot_len) name;
      } in
      let m = mark_slots-Marked pos (sl.dentry_slots (length name)) 0 d1 in
      record {
        set = λ j lo hi. m.set j (omega arith) (omega arith);
        bitmap = λ j out. m.bitmap j (ground (arith, out));
        here = m.dentry pos (inr (inr refl)) ∙ ground arith;
        dentry = λ j out ne. m.dentry j (ground (arith, out)) ∙ ground (arith, ne);
        filename = m.filename;
        size = m.size;
      }

  -- A name is read where it was put,
  get_or-later : (x : ℕ) (xs : List ℕ) (k : ℕ) → get_or (x ∷ xs) (k + 1) 0 ≡ get_or xs k 0
  get_or-later x xs k = ap (λ n. get_or (x ∷ xs) n 0) {y = suc k} (omega arith)

  read_name_ext :
      (mem mem' : Array ℕ) (p len : ℕ)
      → ((q : ℕ) → p ≤ q → q < p + len → mem' q ≡ mem q)
      → read_name mem' p len ≡ read_name mem p len
  unfolding read_name
  read_name_ext mem mem' p zero same = refl
  read_name_ext mem mem' p (suc len) same = ground (
    arith,
    same p (omega arith) (omega arith),
    read_name_ext mem mem' (p + 1) len (λ q lo hi. same q (omega arith) (omega arith)),
  )

  read_list :
      (mem : Array ℕ) (p : ℕ) (name : List ℕ)
      → ((k : ℕ) → k < length name → mem (p + k) ≡ get_or name k 0)
      → read_name mem p (length name) ≡ name
  unfolding read_name
  read_list mem p [] h = refl
  read_list mem p (x ∷ xs) h =
      let first : mem p ≡ x = ap mem {y = p + 0} (omega arith) ∙ h 0 (omega arith) in
      let rest = read_list mem (p + 1) xs (λ k less.
        ap mem {y = p + (k + 1)} (omega arith) ∙ h (k + 1) (omega arith) ∙ get_or-later x xs k) in
      ground (arith, first, rest)

  pub read_name-put_name :
      (mem : Array ℕ) (p : ℕ) (name : List ℕ)
      → read_name (put_name mem p name) p (length name) ≡ name
  read_name-put_name mem p name =
      read_list (put_name mem p name) p name
        (λ k less. ground (arith, ap (λ n. get_or name n 0) {x = p + k - p} {y = k} (omega arith)))

  -- and the bytes before it stay.
  pub read_name-put_before :
      (mem : Array ℕ) (p : ℕ) (name : List ℕ) (q len : ℕ)
      → q + len ≤ p
      → read_name (put_name mem p name) q len ≡ read_name mem q len
  read_name-put_before mem p name q len before =
      read_name_ext mem (put_name mem p name) q len (λ r lo hi. ground arith)
