-- ===== src/Counts/Steps.antt =====
-- The operations on the counts, and what they keep.
use hoit_f2fs.Base.{
  ℕ, ◌+◌, ◌-◌, ◌%◌, ◌<◌, ◌≤◌, ◌≡◌, inl, inr, Bool, not, ◌&&◌, some, ltb, ◌==◌, if◌then◌else◌, arith,
  Bool-cases, Option-cases,
}
use hoit_f2fs.Base.Words.{u32_mod, ◌+32◌, ◌-32◌}
use hoit_f2fs.Counts.{
  Counts, Caller, Quota, CountResult, ok, enospc, no_quota, avail_user_block_count, grant,
  inc_valid_block_count, grow_reserve, dec_valid_block_count, count_node, inc_valid_node_count,
  dec_valid_node_count, store_reserved_blocks, limit_reserve_root,
}
use hoit_f2fs.Counts.Grants.{IsCounted, avail-eq}

abbrev pub counts_of : {Q : Type 0} → CountResult Q → Counts
counts_of (ok s q n) = s
counts_of (enospc s q) = s
counts_of (no_quota s q) = s

module _ (quota : Quota) where
  open quota use {State}

  -- One operation. The number of blocks added stays within 32 bits.
  pub data CountStep (s : Counts) : Counts → Type 0 where
    adding_blocks :
        (c : Caller) (q : State) (count : ℕ)
        → s.total_valid_block_count + count < u32_mod
        → CountStep s (counts_of (inc_valid_block_count quota c s q count))
    removing_blocks :
        (q q' : State) (count : ℕ) (s' : Counts)
        → count < u32_mod
        → dec_valid_block_count quota s q count ≡ some (s', q')
        → CountStep s s'
    adding_node :
        (c : Caller) (is_inode : Bool) (q : State)
        → CountStep s (counts_of (inc_valid_node_count quota c is_inode s q))
    removing_node :
        (is_inode : Bool) (q q' : State) (s' : Counts)
        → dec_valid_node_count quota is_inode s q ≡ some (s', q')
        → CountStep s s'
    storing_reserve : (t : ℕ) (s' : Counts) → store_reserved_blocks s t ≡ some s' → CountStep s s'
    limiting_root : (reserve_root : Bool) → CountStep s (limit_reserve_root reserve_root s)

  module _ (s : Counts) (k : IsCounted s) where
    -- What a grant up to `avail` leaves.
    grant-IsCounted :
        (avail count : ℕ) (q : State) (a : ℕ)
        → avail + s.current_reserved_blocks ≤ s.user_block_count
        → s.total_valid_block_count + count < u32_mod
        → IsCounted (
            counts_of (
              grant quota avail
                (record s {
                  alloc_valid_block_count = a;
                  total_valid_block_count = s.total_valid_block_count +32 (count % u32_mod);
                })
                q
                count))
    unfolding grant
    grant-IsCounted avail count q a fits small = record {
      blocks = ground (arith, k.blocks, k.small);
      nodes = ground (arith, k.nodes);
      goal = ground (arith, k.goal);
      reserve = ground (arith, k.reserve);
      small = ground (arith, k.small);
      small_nodes = ground (arith, k.small_nodes);
    }

    avail-fits :
        (c : Caller) → avail_user_block_count c s + s.current_reserved_blocks ≤ s.user_block_count
    avail-fits c = omega (arith, avail-eq c s k, k.blocks)

    adding_blocks-IsCounted :
        (c : Caller) (q : State) (count : ℕ)
        → s.total_valid_block_count + count < u32_mod
        → IsCounted (counts_of (inc_valid_block_count quota c s q count))
    unfolding inc_valid_block_count
    adding_blocks-IsCounted c q count small = elim (Option-cases (quota.reserve q count)) [
      | inl e ↦ rw (e, inc_valid_block_count) k
      | inr (q', e) ↦
          rw (e, inc_valid_block_count)
            (grant-IsCounted (avail_user_block_count c s) count q'
              (s.alloc_valid_block_count + count) (avail-fits c) small)
    ]

    grow_reserve-IsCounted :
        (count total nodes : ℕ)
        → count + total ≤ s.total_valid_block_count
        → nodes ≤ s.total_valid_node_count
        → IsCounted (
            grow_reserve
              (record s { total_valid_block_count = total; total_valid_node_count = nodes })
              count)
    unfolding grow_reserve
    grow_reserve-IsCounted count total nodes fits fewer = record {
      blocks = ground (arith, k.blocks, k.small);
      nodes = ground (arith, k.nodes);
      goal = ground (arith, k.goal);
      reserve = ground (arith, k.reserve);
      small = ground (arith, k.small);
      small_nodes = ground (arith, k.small_nodes);
    }

    removing_blocks-IsCounted :
        (q q' : State) (count : ℕ) (s' : Counts)
        → count < u32_mod
        → dec_valid_block_count quota s q count ≡ some (s', q')
        → IsCounted s'
    unfolding dec_valid_block_count
    removing_blocks-IsCounted q q' count s' small h =
        elim (Bool-cases (ltb s.total_valid_block_count count)) [
          | inl less ↦ ground (arith, h)
          | inr enough ↦
              let total = s.total_valid_block_count -32 count in
              let e : s' ≡ grow_reserve (record s { total_valid_block_count = total }) count =
                ground (arith, h) in
              rw e (
                grow_reserve-IsCounted count total s.total_valid_node_count
                  (ground (arith, k.small, k.blocks)) (omega arith))
        ]

    count_node-IsCounted : (c : Caller) (s' : Counts) → count_node c s ≡ some s' → IsCounted s'
    unfolding count_node
    count_node-IsCounted c s' h = record {
      blocks = ground (arith, h, k);
      nodes = ground (arith, h, k);
      goal = ground (arith, h, k);
      reserve = ground (arith, h, k);
      small = ground (arith, h, k);
      small_nodes = ground (arith, h, k);
    }

    adding_node-IsCounted :
        (c : Caller) (is_inode : Bool) (q : State)
        → IsCounted (counts_of (inc_valid_node_count quota c is_inode s q))
    unfolding inc_valid_node_count
    adding_node-IsCounted c is_inode q =
        let charged = not c.no_inode && not is_inode in
        elim (Option-cases (if charged then quota.reserve q 1 else some q)) [
          | inl e ↦ rw (e, inc_valid_node_count) k
          | inr (q', e) ↦ elim (Option-cases (count_node c s)) [
            | inl full ↦ rw (e, inc_valid_node_count) (rw (full, inc_valid_node_count) k)
            | inr (s', counted) ↦
                rw (e, inc_valid_node_count)
                  (rw (counted, inc_valid_node_count) (count_node-IsCounted c s' counted))
          ]
        ]

    removing_node-IsCounted :
        (is_inode : Bool) (q q' : State) (s' : Counts)
        → dec_valid_node_count quota is_inode s q ≡ some (s', q')
        → IsCounted s'
    unfolding dec_valid_node_count
    removing_node-IsCounted is_inode q q' s' h =
        elim (Bool-cases (s.total_valid_block_count == 0)) [
          | inl empty ↦ ground (arith, h)
          | inr full ↦
              let total = s.total_valid_block_count - 1 in
              let nodes = s.total_valid_node_count - 1 in
              let e : s'
                  ≡ grow_reserve
                      (record s { total_valid_block_count = total; total_valid_node_count = nodes })
                      1 =
                ground (arith, h) in
              rw e (grow_reserve-IsCounted 1 total nodes (ground arith) (omega arith))
        ]

    storing_reserve-IsCounted :
        (t : ℕ) (s' : Counts) → store_reserved_blocks s t ≡ some s' → IsCounted s'
    unfolding store_reserved_blocks
    storing_reserve-IsCounted t s' h = record {
      blocks = ground (arith, h, k);
      nodes = ground (arith, h, k);
      goal = ground (arith, h, k);
      reserve = ground (arith, h, k);
      small = ground (arith, h, k);
      small_nodes = ground (arith, h, k);
    }

    limiting_root-IsCounted : (reserve_root : Bool) → IsCounted (limit_reserve_root reserve_root s)
    unfolding limit_reserve_root
    limiting_root-IsCounted reserve_root = ground (arith, k)

  -- Each operation keeps the blocks in use and the current reserve within the device, the nodes within
  -- their number, and the reserves for root and by sysfs together within the device.
  pub CountStep-IsCounted : {s s' : Counts} → CountStep s s' → IsCounted s → IsCounted s'
  CountStep-IsCounted {s} (adding_blocks c q count small) k =
      adding_blocks-IsCounted s k c q count small
  CountStep-IsCounted {s} (removing_blocks q q' count s' small h) k =
      removing_blocks-IsCounted s k q q' count s' small h
  CountStep-IsCounted {s} (adding_node c is_inode q) k = adding_node-IsCounted s k c is_inode q
  CountStep-IsCounted {s} (removing_node is_inode q q' s' h) k =
      removing_node-IsCounted s k is_inode q q' s' h
  CountStep-IsCounted {s} (storing_reserve t s' h) k = storing_reserve-IsCounted s k t s' h
  CountStep-IsCounted {s} (limiting_root reserve_root) k = limiting_root-IsCounted s k reserve_root
