-- ===== src/Counts/Grants.antt =====
-- What `inc_valid_block_count` grants.
use hoit_f2fs.Base.{
  ℕ, ◌+◌, ◌-◌, ◌%◌, ◌<◌, ◌≤◌, ◌≡◌, ◌∙◌, ap, sym, inl, inr, true, some, ltb, if◌then◌else◌, min,
  arith, Bool-cases, refl,
}
use hoit_f2fs.Base.Words.{u32_mod, ◌+32◌}
use hoit_f2fs.Counts.{
  Counts, Caller, Quota, ok, enospc, allow_reserved_blocks, avail_user_block_count, grant,
  inc_valid_block_count,
}

-- The blocks in use and those kept back fit the device, and all numbers fit 32 bits.
pub record IsCounted (s : Counts) : Type 0 where
  pub blocks : s.total_valid_block_count + s.current_reserved_blocks ≤ s.user_block_count
  pub nodes : s.total_valid_node_count ≤ s.total_node_count
  pub goal : s.reserved_blocks + s.root_reserved_blocks ≤ s.user_block_count
  pub reserve : s.current_reserved_blocks ≤ s.reserved_blocks
  pub small : s.user_block_count + s.root_reserved_blocks + 1 < u32_mod
  pub small_nodes : s.total_node_count + 1 < u32_mod

-- The blocks that are left for the caller.
abbrev pub room : Caller → Counts → ℕ
room c s =
    s.user_block_count
    - s.current_reserved_blocks
    - (if allow_reserved_blocks c true then 0 else s.root_reserved_blocks)
    - s.total_valid_block_count

pub avail-eq :
    (c : Caller) (s : Counts)
    → IsCounted s
    → avail_user_block_count c s
      ≡ s.user_block_count
        - s.current_reserved_blocks
        - (if allow_reserved_blocks c true then 0 else s.root_reserved_blocks)
unfolding avail_user_block_count
avail-eq c s k = ground (arith, k)

module _ (quota : Quota) where
  open quota use {State, reserve, release, claim}

  module _ (avail t count : ℕ) (s : Counts) (q : State)
      (total : s.total_valid_block_count ≡ t + count) (small : t + count < u32_mod)
      (some_blocks : 0 < count) (avail_small : avail < u32_mod) where
    grant_none :
        avail ≤ t
        → grant quota avail s q count
          ≡ enospc
              (record s {
                total_valid_block_count = t;
                alloc_valid_block_count = s.alloc_valid_block_count - count;
              })
              (release q count)
    unfolding grant
    grant_none full = ground arith

    grant_part :
        t < avail
        → avail < t + count
        → grant quota avail s q count
          ≡ ok
              (record s { total_valid_block_count = avail })
              (claim (release q (t + count - avail)) (avail - t))
              (avail - t)
    unfolding grant
    grant_part some_room less = ground arith

    grant_all : t + count ≤ avail → grant quota avail s q count ≡ ok s (claim q count) count
    unfolding grant
    grant_all enough = ground arith

  -- What is granted: the blocks that the caller asks for, or as many as are left.
  abbrev pub granted : Caller → Counts → ℕ → ℕ
  granted c s count = min count (room c s)

  abbrev pub with_granted : Caller → Counts → ℕ → Counts
  with_granted c s count = record s {
    alloc_valid_block_count = s.alloc_valid_block_count + count;
    total_valid_block_count = s.total_valid_block_count + granted c s count;
  }

  pub data Grants (c : Caller) (s : Counts) (q : State) (count : ℕ) : Type 0 where
    nothing :
        room c s ≡ 0 → inc_valid_block_count quota c s q count ≡ enospc s q → Grants c s q count
    some_of_it :
        (q' : State)
        → 0 < granted c s count
        → reserve q (granted c s count) ≡ some q'
        → inc_valid_block_count quota c s q count
          ≡ ok (with_granted c s count) (claim q' (granted c s count)) (granted c s count)
        → Grants c s q count

  module _ (c : Caller) (s : Counts) (k : IsCounted s) (q q' : State) (count : ℕ)
      (some_blocks : 0 < count) (small : s.total_valid_block_count + count < u32_mod)
      (reserved : reserve q count ≡ some q') where
    abbrev avail : ℕ
    avail = avail_user_block_count c s

    abbrev t : ℕ
    t = s.total_valid_block_count

    abbrev s' : Counts
    s' = record s {
      alloc_valid_block_count = s.alloc_valid_block_count + count;
      total_valid_block_count = s.total_valid_block_count +32 (count % u32_mod);
    }

    inc-grant : inc_valid_block_count quota c s q count ≡ grant quota avail s' q' count
    unfolding inc_valid_block_count
    inc-grant = rw (reserved, inc_valid_block_count) refl

    total-eq : s'.total_valid_block_count ≡ t + count
    total-eq = omega arith

    room-eq : room c s ≡ avail - t
    room-eq = ap (λ n. n - t) (sym (avail-eq c s k))

    avail_small : avail < u32_mod
    avail_small = ground (arith, avail-eq c s k, k.small)

    reserve_split : (kept back : ℕ) → kept + back ≡ count → reserve q kept ≡ some (release q' back)
    reserve_split kept back e = quota.reserve_part q q' kept back (ap (reserve q) e ∙ reserved)

    release_all : release q' count ≡ q
    release_all = ground (arith, reserve_split 0 count (omega arith), quota.reserve_nothing q)

    -- Where the counts are right, no number wraps and the quota can be reserved, inc_valid_block_count
    -- for some blocks grants as many as are left for the caller, at most those asked for: it adds them
    -- to the count and claims quota for them alone. Where none are left, it fails with -ENOSPC and
    -- leaves the counts and the quota as they were.
    pub inc_valid_block_count-Grants : Grants c s q count
    inc_valid_block_count-Grants = elim (Bool-cases (ltb t avail)) [
      | inr full ↦ nothing (ground (arith, room-eq)) (
          inc-grant
          ∙ grant_none avail t count s' q' total-eq small some_blocks avail_small (ground arith)
          ∙ ground (arith, release_all))
      | inl left ↦ elim (Bool-cases (ltb avail (t + count))) [
        | inl part ↦
            let g : granted c s count ≡ avail - t = ground (arith, room-eq) in
            some_of_it (release q' (t + count - avail)) (ground (arith, g))
              (ap (reserve q) g ∙ reserve_split (avail - t) (t + count - avail) (ground arith))
              (inc-grant
                ∙ grant_part avail t count s' q' total-eq small some_blocks avail_small
                    (ground arith) (ground arith)
                ∙ ground (arith, g))
        | inr all ↦
            let g : granted c s count ≡ count = ground (arith, room-eq) in
            some_of_it q' (ground (arith, g)) (ap (reserve q) g ∙ reserved) (
              inc-grant
              ∙ grant_all avail t count s' q' total-eq small some_blocks avail_small (ground arith)
              ∙ ground (arith, g))
      ]
    ]
