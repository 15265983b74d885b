-- ===== src/Counts.antt =====
-- The counts of valid blocks and nodes of f2fs.h, without CONFIG_F2FS_FAULT_INJECTION.
pub mod Back
pub mod Grants
pub mod Steps
mod Tests
use hoit_f2fs.Base.{
  ℕ, zero, suc, ◌+◌, ◌-◌, ◌*◌, ◌/◌, ◌%◌, ◌<◌, ◌≤◌, ◌≡◌, Bool, true, false, not, ◌&&◌, ◌||◌, Option,
  none, some, ltb, leb, ◌==◌, if◌then◌else◌, min,
}
use hoit_f2fs.Base.Words.{u32_mod, ◌+32◌, ◌-32◌}

-- The counts of `struct f2fs_sb_info`. The two of the last kind are per-cpu counters.
pub record Counts : Type 0 where
  pub user_block_count : ℕ
  pub total_valid_block_count : ℕ
  pub reserved_blocks : ℕ
  pub current_reserved_blocks : ℕ
  pub root_reserved_blocks : ℕ
  pub total_node_count : ℕ
  pub total_valid_node_count : ℕ
  pub alloc_valid_block_count : ℕ
  pub total_valid_inode_count : ℕ

-- What `__allow_reserved_blocks` asks of the inode, the options and the task.
pub record Caller : Type 0 where
  pub no_inode : Bool
  pub reserve_root : Bool
  pub noquota : Bool
  pub is_resuid : Bool
  pub resgid_is_root : Bool
  pub in_resgid : Bool
  pub capable : Bool

pub allow_reserved_blocks : Caller → Bool → Bool
allow_reserved_blocks c cap =
    if c.no_inode
    then true
    else if not c.reserve_root
    then false
    else if c.noquota
    then true
    else if c.is_resuid
    then true
    else if not c.resgid_is_root && c.in_resgid
    then true
    else cap && c.capable

-- The kernel's disk quota of an inode, whose blocks it counts too, in sectors. A reservation can
-- fail; a part of it can be given back, and what is reserved is claimed.
pub record Quota : Type 1 where
  pub State : Type 0
  pub i_blocks : State → ℕ
  pub reserve : State → ℕ → Option State
  pub release : State → ℕ → State
  pub claim : State → ℕ → State
  pub free : State → ℕ → State
  pub reserve_part :
      (q q' : State) (kept back : ℕ)
      → reserve q (kept + back) ≡ some q'
      → reserve q kept ≡ some (release q' back)
  pub reserve_nothing : (q : State) → reserve q 0 ≡ some q
  pub claim_sectors : (q : State) (n : ℕ) → i_blocks (claim q n) ≡ i_blocks q + n * 8

-- What an operation returns, with the counts and the quota afterwards.
pub data CountResult (Q : Type 0) : Type 0 where
  ok : Counts → Q → ℕ → CountResult Q
  enospc : Counts → Q → CountResult Q
  no_quota : Counts → Q → CountResult Q

-- The blocks up to which the caller may use the device.
pub avail_user_block_count : Caller → Counts → ℕ
avail_user_block_count c s =
    let avail = s.user_block_count -32 s.current_reserved_blocks in
    if allow_reserved_blocks c true then avail else avail -32 s.root_reserved_blocks

-- The reserve grows up to its goal as blocks get free.
pub grow_reserve : Counts → ℕ → Counts
grow_reserve s count =
    if not (s.reserved_blocks == 0) && ltb s.current_reserved_blocks s.reserved_blocks
    then record s {
      current_reserved_blocks = min s.reserved_blocks (s.current_reserved_blocks +32 count);
    }
    else s

-- From the lock on: whether the node was counted.
pub count_node : Caller → Counts → Option Counts
count_node c s =
    let valid_block_count = s.total_valid_block_count +32 s.current_reserved_blocks +32 1 in
    let valid_block_count' =
      if allow_reserved_blocks c false
      then valid_block_count
      else valid_block_count +32 s.root_reserved_blocks in
    if ltb s.user_block_count valid_block_count'
    then none
    else if ltb s.total_node_count (s.total_valid_node_count +32 1)
    then none
    else some (record s {
      total_valid_node_count = s.total_valid_node_count +32 1;
      total_valid_block_count = s.total_valid_block_count +32 1;
      alloc_valid_block_count = s.alloc_valid_block_count + 1;
    })

module _ (quota : Quota) where
  open quota use {State, reserve, release, claim, free, i_blocks}

  -- From the check of `total_valid_block_count` on.
  pub grant : ℕ → Counts → State → ℕ → CountResult State
  grant avail s q count =
      let over = s.total_valid_block_count -32 avail in
      let diff = if ltb count over then count else over in
      let s' = record s {
        total_valid_block_count = s.total_valid_block_count -32 (diff % u32_mod);
      } in
      if ltb avail s.total_valid_block_count
      then (if count - diff == 0
          then enospc (record s' { alloc_valid_block_count = s'.alloc_valid_block_count - diff })
              (release q diff)
          else ok s' (claim (if diff == 0 then q else release q diff) (count - diff))
              (count - diff))
      else ok s (claim q count) count

  -- The caller's `*count` afterwards is the number with `ok`.
  pub inc_valid_block_count : Caller → Counts → State → ℕ → CountResult State
  inc_valid_block_count c s q count = elim (reserve q count) [
    | none ↦ no_quota s q
    | some q' ↦
        grant (avail_user_block_count c s)
          (record s {
            alloc_valid_block_count = s.alloc_valid_block_count + count;
            total_valid_block_count = s.total_valid_block_count +32 (count % u32_mod);
          })
          q' count
  ]

  -- `none` is a `f2fs_bug_on`.
  pub dec_valid_block_count : Counts → State → ℕ → Option (Counts × State)
  dec_valid_block_count s q count =
      if ltb s.total_valid_block_count count || ltb (i_blocks q) ((count * 8) % u32_mod)
      then none
      else some (
        grow_reserve (record s { total_valid_block_count = s.total_valid_block_count -32 count })
            count,
        free q count,
      )

  -- An inode that is a node of its own is not charged to the quota here.
  pub inc_valid_node_count : Caller → Bool → Counts → State → CountResult State
  inc_valid_node_count c is_inode s q =
      let charged = not c.no_inode && not is_inode in
      elim (if charged then reserve q 1 else some q) [
        | none ↦ no_quota s q
        | some q' ↦ elim (count_node c s) [
          | none ↦ enospc s (if charged then release q' 1 else q')
          | some s' ↦ ok s' (if charged then claim q' 1 else q') 1
        ]
      ]

  pub dec_valid_node_count : Bool → Counts → State → Option (Counts × State)
  dec_valid_node_count is_inode s q =
      if s.total_valid_block_count == 0
        || s.total_valid_node_count == 0
        || (not is_inode && i_blocks q == 0)
      then none
      else some (
        grow_reserve
            (record s {
              total_valid_node_count = s.total_valid_node_count - 1;
              total_valid_block_count = s.total_valid_block_count - 1;
            })
            1,
        if is_inode then q else free q 1,
      )

-- The store to `reserved_blocks` in sysfs; `none` is -EINVAL.
pub store_reserved_blocks : Counts → ℕ → Option Counts
store_reserved_blocks s t =
    if ltb (s.user_block_count -32 s.root_reserved_blocks) t
    then none
    else some (record s {
      reserved_blocks = t;
      current_reserved_blocks = min t (s.user_block_count -32 s.total_valid_block_count);
    })

-- `limit_reserve_root`, with whether the option RESERVE_ROOT is set.
pub limit_reserve_root : Bool → Counts → Counts
limit_reserve_root reserve_root s =
    let limit = ((s.user_block_count * 2) % u32_mod) / 1000 in
    if reserve_root && ltb limit s.root_reserved_blocks
    then record s { root_reserved_blocks = limit }
    else s
