-- ===== src/Dir/Dentry/Walk.antt =====
-- The walk of `f2fs_find_target_dentry` over a block: it ends, and a new dentry lies on it.
use hoit_f2fs.Base.{
  ℕ, zero, suc, ◌+◌, ◌≤◌, ◌<◌, ◌≡◌, ◌∙◌, ap, inl, inr, Bool, true, false, Bool-cases, none, some,
  List, ltb, ◌==◌, arith, refl,
}
use mathlib.Core.Path.{subst}
use hoit_f2fs.Base.Lists.{length}
use hoit_f2fs.Dir.Dentry.{
  DirEntry, DentryPtr, DentrySlots, Target, longer, is_target, find_from, find_target_dentry,
}
use hoit_f2fs.Dir.Dentry.Bits.{Updated}

module _ (sl : DentrySlots) where
  -- The search ends, whatever the block holds.
  find_from-ends :
      (matches : List ℕ → Bool) (namehash : ℕ) (d : DentryPtr)
      (rounds bit_pos max_len max_slots : ℕ)
      → d.max + 1 ≤ rounds + bit_pos
      → 0 < rounds
      → (t : Target) × (find_from sl matches namehash d rounds bit_pos max_len max_slots ≡ some t)
  unfolding find_from
  find_from-ends matches namehash d zero bit_pos ml ms enough more = absurd (omega arith)
  find_from-ends matches namehash d (suc rounds) bit_pos ml ms enough more =
      let e = d.dentry bit_pos in
      elim (Bool-cases (ltb bit_pos d.max)) [
        | inr beyond ↦ (record { de = none; max_slots = longer ml ms }, rw beyond refl)
        | inl inside ↦ elim (Bool-cases (d.bitmap bit_pos)) [
          | inr free ↦
              let (t, h) =
                find_from-ends matches namehash d rounds (bit_pos + 1) (ml + 1) ms (omega arith)
                  (ground arith) in
              (t, rw inside (rw free h))
          | inl set ↦ elim (Bool-cases (e.name_len == 0)) [
            | inl garbage ↦
                let (t, h) =
                  find_from-ends matches namehash d rounds (bit_pos + 1) ml ms (omega arith)
                    (ground arith) in
                (t, rw inside (rw set (rw garbage h)))
            | inr named ↦ elim (Bool-cases (is_target sl matches namehash d bit_pos)) [
              | inl found ↦ (
                record { de = some bit_pos; max_slots = longer ml ms },
                rw inside (rw set (rw named (rw found refl))),
              )
              | inr other ↦
                  let pos = sl.slots_pos e.name_len (ground arith) in
                  let (t, h) =
                    find_from-ends matches namehash d rounds (bit_pos + sl.dentry_slots e.name_len)
                      0 (longer ml ms) (omega arith) (ground arith) in
                  (t, rw inside (rw set (rw named (rw other h))))
            ]
          ]
        ]
      ]

  -- `f2fs_find_target_dentry` ends.
  pub find_target_dentry-ends :
      (matches : List ℕ → Bool) (namehash : ℕ) (d : DentryPtr)
      → (t : Target) × (find_target_dentry sl matches namehash d ≡ some t)
  unfolding find_target_dentry
  find_target_dentry-ends matches namehash d =
      find_from-ends matches namehash d (d.max + 1) 0 0 0 (omega arith) (omega arith)

  -- From a slot on, free slots and dentries follow each other up to the end; a dentry has a name, and
  -- all its slots are taken.
  pub data Walks (d : DentryPtr) : ℕ → Type 0 where
    done : {b : ℕ} → d.max ≡ b → Walks d b
    free : {b : ℕ} → b < d.max → d.bitmap b ≡ false → Walks d (b + 1) → Walks d b
    entry :
        {b : ℕ} (len : ℕ)
        → (d.dentry b).name_len ≡ len
        → b < d.max
        → 0 < len
        → ((j : ℕ) → b ≤ j → j < b + sl.dentry_slots len → d.bitmap j ≡ true)
        → Walks d (b + sl.dentry_slots len)
        → Walks d b

  module _ (d d' : DentryPtr) (e : DirEntry) (name : List ℕ) (pos : ℕ)
      (u : Updated sl d d' e name pos (sl.dentry_slots (length name))) where
    abbrev slots : ℕ
    slots = sl.dentry_slots (length name)

    -- Behind the new dentry the walk is the old one.
    behind : (b : ℕ) → pos + slots ≤ b → pos < b → Walks d b → Walks d' b
    behind b after later (done end) = done (u.size ∙ end)
    behind b after later (free inside clear w) =
        free (omega (arith, u.size)) (u.bitmap b (inr after) ∙ clear)
          (behind (b + 1) (omega arith) (omega arith) w)
    behind b after later (entry len size inside named taken w) =
        let pos' = sl.slots_pos len named in
        entry len (ap (λ (x : DirEntry). x.name_len) (u.dentry b (inr after) (omega arith)) ∙ size)
          (omega (arith, u.size)) named (λ j lo hi. u.bitmap j (inr (omega arith)) ∙ taken j lo hi)
          (behind (b + sl.dentry_slots len) (omega arith) (omega arith) w)

    module _ (fits : pos + slots ≤ d.max) (some_name : 0 < length name)
        (len : e.name_len ≡ length name)
        (clear : (j : ℕ) → pos ≤ j → j < pos + slots → d.bitmap j ≡ false) where
      -- The slots that were free are walked one by one.
      past_free : (n b : ℕ) → pos ≤ b → b + n ≡ pos + slots → Walks d b → Walks d (pos + slots)
      past_free zero b lo end w = subst (Walks d) (omega arith) w
      past_free (suc n) b lo end (done last) = absurd (omega arith)
      past_free (suc n) b lo end (free inside none_there w) =
          past_free n (b + 1) (omega arith) (omega arith) w
      past_free (suc n) b lo end (entry len' size inside named taken w) =
          let pos' = sl.slots_pos len' named in
          absurd (cc (clear b lo (omega arith), taken b (omega arith) (omega arith)))

      at_new : Walks d pos → Walks d' pos
      at_new w =
          let pos' = sl.slots_pos (length name) some_name in
          entry (length name) (ap (λ (x : DirEntry). x.name_len) u.here ∙ len)
            (omega (arith, u.size)) some_name u.set
            (behind (pos + slots) (omega arith) (omega arith)
              (past_free slots pos (omega arith) refl w))

      -- A dentry before the free slots ends before them.
      pub behind_entry :
          (b len' : ℕ)
          → b ≤ pos
          → ((j : ℕ) → b ≤ j → j < b + sl.dentry_slots len' → d.bitmap j ≡ true)
          → b + sl.dentry_slots len' ≤ pos
      behind_entry b len' before taken = elim (Bool-cases (ltb pos (b + sl.dentry_slots len'))) [
        | inl over ↦
            let new_pos = sl.slots_pos (length name) some_name in
            absurd (cc (clear pos (omega arith) (omega arith), taken pos before (ground arith)))
        | inr apart ↦ ground arith
      ]

      -- The dentry that is put into free slots lies on the walk.
      pub update-Walks : (b : ℕ) → b ≤ pos → Walks d b → Walks d' b
      update-Walks b before (done last) =
          absurd (omega (arith, sl.slots_pos (length name) some_name))
      update-Walks b before (free inside none_there w) = elim (Bool-cases (b == pos)) [
        | inl same ↦
            subst (Walks d') (ground arith)
              (at_new (subst (Walks d) (ground arith) (free inside none_there w)))
        | inr less ↦
            free (omega (arith, u.size)) (u.bitmap b (inl (ground arith)) ∙ none_there)
              (update-Walks (b + 1) (ground arith) w)
      ]
      update-Walks b before (entry len' size inside named taken w) =
          let pos' = sl.slots_pos len' named in
          let new_pos = sl.slots_pos (length name) some_name in
          let ahead = behind_entry b len' before taken in
          entry len'
            (ap (λ (x : DirEntry). x.name_len) (u.dentry b (inl (omega arith)) (omega arith))
              ∙ size)
            (omega (arith, u.size)) named
            (λ j lo hi. u.bitmap j (inl (omega arith)) ∙ taken j lo hi)
            (update-Walks (b + sl.dentry_slots len') ahead w)
