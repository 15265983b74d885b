-- ===== src/Dir/Dentry/Found.antt =====
-- A dentry that was put into a block is found there, and `f2fs_delete_entry` gives its slots back.
use hoit_f2fs.Base.{
  ℕ, zero, suc, ◌+◌, ◌*◌, ◌≤◌, ◌<◌, ◌≡◌, ◌∙◌, ap, sym, inl, inr, Bool, true, false, Bool-cases,
  Option, none, some, List, ltb, lt→ltb, ◌==◌, if◌then◌else◌, arith, refl,
}
use mathlib.Core.Path.{subst}
use native.Mathlib.Nat as Nat
use hoit_f2fs.Base.Arrays.{Array, update}
use hoit_f2fs.Base.BitSearch.{BitSearch}
use hoit_f2fs.Base.Lists.{length}
use hoit_f2fs.Dir.{room_for_filename}
use hoit_f2fs.Dir.Room.{IsRoom, room_for_filename-IsFirstRoom}
use hoit_f2fs.Dir.Dentry.{
  DirEntry, DentryPtr, DentrySlots, put_name, update_dentry, clear_slots, delete_entry, read_name,
  Target, longer, is_target, find_from, find_target_dentry,
}
use hoit_f2fs.Dir.Dentry.Bits.{
  Updated, update_dentry-Updated, entry_of, read_name-put_name, read_name-put_before,
}
use hoit_f2fs.Dir.Dentry.Walk.{Walks, done, free, entry, update-Walks, behind_entry}

-- The rounds of the search.
module _ (sl : DentrySlots) (matches : List ℕ → Bool) (namehash : ℕ) (x : DentryPtr)
    (rounds b ml ms : ℕ) (inside : b < x.max) where
  step_free :
      x.bitmap b ≡ false
      → find_from sl matches namehash x (suc rounds) b ml ms
        ≡ find_from sl matches namehash x rounds (b + 1) (ml + 1) ms
  unfolding find_from
  step_free none_there = rw (lt→ltb b x.max inside) (rw none_there refl)

  module _ (taken : x.bitmap b ≡ true) (len : ℕ) (size : (x.dentry b).name_len ≡ len)
      (named : 0 < len) where
    has_name : ((x.dentry b).name_len == 0) ≡ false
    has_name = ground (arith, size)

    step_next :
        is_target sl matches namehash x b ≡ false
        → find_from sl matches namehash x (suc rounds) b ml ms
          ≡ find_from sl matches namehash x rounds (b + sl.dentry_slots len) 0 (longer ml ms)
    unfolding find_from
    step_next other = rw (lt→ltb b x.max inside) (rw taken (rw has_name (rw other (rw size refl))))

    step_hit :
        is_target sl matches namehash x b ≡ true
        → find_from sl matches namehash x (suc rounds) b ml ms
          ≡ some (record { de = some b; max_slots = longer ml ms })
    unfolding find_from
    step_hit hit = rw (lt→ltb b x.max inside) (rw taken (rw has_name (rw hit refl)))

module _ (sl : DentrySlots) (d d' : DentryPtr) (e : DirEntry) (name : List ℕ) (pos : ℕ)
    (u : Updated sl d d' e name pos (sl.dentry_slots (length name))) (matches : List ℕ → Bool)
    (matched : matches name ≡ true) (some_name : 0 < length name) (len : e.name_len ≡ length name)
    (clear : (j : ℕ) → pos ≤ j → j < pos + sl.dentry_slots (length name) → d.bitmap j ≡ false)
    (fits : pos + sl.dentry_slots (length name) ≤ d.max) where
  abbrev find : DentryPtr → ℕ → ℕ → ℕ → ℕ → Option Target
  find = find_from sl matches e.hash_code

  no_rounds : (b ml ms : ℕ) (t : Target) → find d 0 b ml ms ≡ some t → ⊥
  unfolding find_from
  no_rounds b ml ms t h = cc

  -- The search for the new name stops at it,
  is_target-new : is_target sl matches e.hash_code d' pos ≡ true
  unfolding is_target
  is_target-new =
      let here = u.here in
      let bytes : read_name d'.filename (pos * sl.slot_len) (length name) ≡ name =
        ap (λ m. read_name m (pos * sl.slot_len) (length name)) u.filename
        ∙ read_name-put_name sl d.filename (pos * sl.slot_len) name in
      let whole : read_name d'.filename (pos * sl.slot_len) ((d'.dentry pos).name_len) ≡ name =
        ap (λ (x : DirEntry). read_name d'.filename (pos * sl.slot_len) x.name_len) here
        ∙ ap (λ n. read_name d'.filename (pos * sl.slot_len) n) len
        ∙ bytes in
      let good : matches (read_name d'.filename (pos * sl.slot_len) ((d'.dentry pos).name_len))
          ≡ true =
        ap matches whole ∙ matched in
      ground (arith, here, good)

  -- and sees the dentries before as they were.
  is_target-before :
      (b size : ℕ)
      → (d.dentry b).name_len ≡ size
      → b + sl.dentry_slots size ≤ pos
      → b < pos
      → is_target sl matches e.hash_code d' b ≡ is_target sl matches e.hash_code d b
  unfolding is_target
  is_target-before b size sized ahead less =
      let same = u.dentry b (inl less) (omega arith) in
      let room : b * sl.slot_len + size ≤ pos * sl.slot_len = omega (
        arith,
        sl.slots_hold size,
        Nat.mul-le-mul_right {m = b + sl.dentry_slots size} {n = pos} sl.slot_len ahead,
      ) in
      let bytes : read_name d'.filename (b * sl.slot_len) ((d'.dentry b).name_len)
          ≡ read_name d.filename (b * sl.slot_len) ((d.dentry b).name_len) =
        ap (λ (x : DirEntry). read_name d'.filename (b * sl.slot_len) x.name_len) same
        ∙ ap (λ m. read_name m (b * sl.slot_len) ((d.dentry b).name_len)) u.filename
        ∙ ap (λ n. read_name (put_name d.filename (pos * sl.slot_len) name) (b * sl.slot_len) n)
            sized
        ∙ read_name-put_before sl d.filename (pos * sl.slot_len) name (b * sl.slot_len) size room
        ∙ ap (λ n. read_name d.filename (b * sl.slot_len) n) (sym sized) in
      ground (arith, same, ap matches bytes)

  hit :
      (rounds ml ms : ℕ)
      → (t' : Target) × (find d' (suc rounds) pos ml ms ≡ some t') × (t'.de ≡ some pos)
  hit rounds ml ms =
      let new_pos = sl.slots_pos (length name) some_name in
      (
        record { de = some pos; max_slots = longer ml ms },
        step_hit sl matches e.hash_code d' rounds pos ml ms (omega (arith, u.size))
            (u.set pos (omega arith) (omega arith)) (length name)
            (ap (λ (x : DirEntry). x.name_len) u.here ∙ len) some_name is_target-new,
        refl,
      )

  find-new :
      (rounds b ml ms ml' ms' : ℕ) (t : Target)
      → b ≤ pos
      → Walks sl d b
      → find d rounds b ml ms ≡ some t
      → t.de ≡ none
      → (t' : Target) × (find d' rounds b ml' ms' ≡ some t') × (t'.de ≡ some pos)
  find-new zero b ml ms ml' ms' t before w found missing = absurd (no_rounds b ml ms t found)
  find-new (suc rounds) b ml ms ml' ms' t before (done last) found missing =
      let new_pos = sl.slots_pos (length name) some_name in absurd (omega arith)
  find-new (suc rounds) b ml ms ml' ms' t before (free inside none_there w) found missing =
      elim (Bool-cases (b == pos)) [
        | inl same ↦
            let e' : b ≡ pos = ground arith in
            subst
              (λ n. (t' : Target) × (find d' (suc rounds) n ml' ms' ≡ some t') × (t'.de ≡ some pos))
              (sym e') (hit rounds ml' ms')
        | inr less ↦
            let old = step_free sl matches e.hash_code d rounds b ml ms inside none_there in
            let (t', h, at) =
              find-new rounds (b + 1) (ml + 1) ms (ml' + 1) ms' t (ground arith) w (sym old ∙ found)
                missing in
            (
              t',
              step_free sl matches e.hash_code d' rounds b ml' ms' (omega (arith, u.size))
                    (u.bitmap b (inl (ground arith)) ∙ none_there)
                  ∙ h,
              at,
            )
      ]
  find-new (suc rounds) b ml ms ml' ms' t before (entry size sized inside named taken w) found
        missing =
      let pos' = sl.slots_pos size named in
      let ahead = behind_entry sl d d' e name pos u fits some_name len clear b size before taken in
      let here = taken b (omega arith) (omega arith) in
      let same = is_target-before b size sized ahead (omega arith) in
      elim (Bool-cases (is_target sl matches e.hash_code d b)) [
        | inl target ↦
            let old =
              step_hit sl matches e.hash_code d rounds b ml ms inside here size sized named
                target in
            absurd (ground (arith, sym old ∙ found, missing))
        | inr other ↦
            let old =
              step_next sl matches e.hash_code d rounds b ml ms inside here size sized named
                other in
            let (t', h, at) =
              find-new rounds (b + sl.dentry_slots size) 0 (longer ml ms) 0 (longer ml' ms') t ahead
                w (sym old ∙ found) missing in
            (
              t',
              step_next sl matches e.hash_code d' rounds b ml' ms' (omega (arith, u.size))
                    (u.bitmap b (inl (omega arith)) ∙ here) size
                    (ap (λ (x : DirEntry). x.name_len)
                        (u.dentry b (inl (omega arith)) (omega arith))
                      ∙ sized)
                    named (same ∙ other)
                  ∙ h,
              at,
            )
      ]

clear_slots-bitmap :
    (pos left i : ℕ) (bitmap : Array Bool) (j : ℕ)
    → clear_slots pos left i bitmap j
      ≡ (if ltb j (pos + i) then bitmap j else if ltb j (pos + i + left) then false else bitmap j)
unfolding clear_slots
clear_slots-bitmap pos zero i bitmap j = ground arith
clear_slots-bitmap pos (suc left) i bitmap j =
    clear_slots-bitmap pos left (i + 1) (update bitmap (pos + i) false) j ∙ ground arith

module _ (sl : DentrySlots) (b : BitSearch) (d : DentryPtr) (name : List ℕ)
    (some_name : 0 < length name) (pos : ℕ)
    (room : room_for_filename b d.bitmap (sl.dentry_slots (length name)) d.max ≡ some pos)
    (inside : pos < d.max) (ino file_type name_hash : ℕ) where
  abbrev added : DentryPtr
  added = update_dentry sl ino file_type d name name_hash pos

  is_room : IsRoom b d.bitmap (sl.dentry_slots (length name)) d.max pos
  is_room =
      let (pos', e, k) =
        room_for_filename-IsFirstRoom b d.bitmap (sl.dentry_slots (length name)) d.max
          (sl.slots_pos (length name) some_name) in
      let same : pos' ≡ pos = ground (arith, sym e ∙ room) in
      elim k.room [
        | inl full ↦ absurd (omega arith)
        | inr r ↦ subst (IsRoom b d.bitmap (sl.dentry_slots (length name)) d.max) same r
      ]

  abbrev u :
      Updated sl d added
        (entry_of sl ino file_type name name_hash)
        name
        pos
        (sl.dentry_slots (length name))
  u = update_dentry-Updated sl ino file_type d name name_hash pos

  -- Where `f2fs_room_for_filename` found room in a well-formed block that did not have the name,
  -- `f2fs_update_dentry` puts the name there, the block is well-formed again, and
  -- `f2fs_find_target_dentry` ends and returns the new dentry.
  pub find_target_dentry-update_dentry :
      (matches : List ℕ → Bool) (t : Target)
      → matches name ≡ true
      → Walks sl d 0
      → find_target_dentry sl matches name_hash d ≡ some t
      → t.de ≡ none
      → Walks sl added 0
        × ((t' : Target) × (find_target_dentry sl matches name_hash added ≡ some t')
            × (t'.de ≡ some pos))
  unfolding find_target_dentry
  find_target_dentry-update_dentry matches t matched w found missing =
      let r = is_room in
      let e = entry_of sl ino file_type name name_hash in
      let (t', h, at) =
        find-new sl d added e name pos u matches matched some_name refl r.clear r.fits (d.max + 1) 0
          0 0 0 0 t (omega arith) w found missing in
      (
        update-Walks sl d added e name pos u r.fits some_name refl r.clear 0 (omega arith) w,
        (t', ap (λ m. find_from sl matches name_hash added (m + 1) 0 0 0) u.size ∙ h, at),
      )

  -- `f2fs_delete_entry` of the dentry that was put in gives the bitmap of before.
  pub delete_entry-update_dentry : (j : ℕ) → (delete_entry sl added pos).bitmap j ≡ d.bitmap j
  unfolding delete_entry
  delete_entry-update_dentry j =
      let r = is_room in
      let slots = sl.dentry_slots (length name) in
      let len : (added.dentry pos).name_len ≡ length name =
        ap (λ (x : DirEntry). x.name_len) u.here in
      ap (λ n. clear_slots pos (sl.dentry_slots n) 0 added.bitmap j) len
      ∙ clear_slots-bitmap pos slots 0 added.bitmap j
      ∙ ground (arith, u.bitmap j, r.clear j)
