-- ===== src/Curseg/Types.antt =====
-- Which log a write goes to: `__get_segment_type` of segment.c and what it calls, the hints that go
-- down with it, and `nvm_alloc` of nvm.c, which decides whether the log's next segment has one in
-- the NVM.
pub mod Kinds
pub mod Fill
mod Tests
use hoit_f2fs.Base.{
  ℕ, ◌+◌, ◌-◌, ◌*◌, ◌/◌, ◌%◌, ◌^◌, Bool, true, false, not, ◌&&◌, ◌||◌, leb, ltb, ◌==◌,
  if◌then◌else◌,
}
use hoit_f2fs.Base.Words.{◌-32◌, ◌+32◌, ◌*32◌}

-- `enum rw_hint` of the kernel.
pub data WriteHint : Type 0 where
  not_set no_hint short medium long extreme : WriteHint

-- `fio->type`.
pub data PageType : Type 0 where
  data_page node_page meta_page : PageType

abbrev pub is_data : PageType → Bool
is_data data_page = true
is_data node_page = false
is_data meta_page = false

-- The order of `enum temp_type`.
pub data Temp : Type 0 where
  hot warm cold : Temp

-- What the functions ask of the page and its inode.
pub record PageInfo : Type 0 where
  pub page_type : PageType
  pub is_dir : Bool
  pub is_dnode : Bool
  pub is_cold_node : Bool
  pub is_cold_data : Bool
  pub file_is_cold : Bool
  pub file_is_hot : Bool
  pub hot_data : Bool
  pub atomic_file : Bool
  pub volatile_file : Bool
  pub write_hint : WriteHint

-- `f2fs_rw_hint_to_seg_type`.
pub rw_hint_to_seg_type : WriteHint → ℕ
rw_hint_to_seg_type short = 0
rw_hint_to_seg_type extreme = 2
rw_hint_to_seg_type not_set = 1
rw_hint_to_seg_type no_hint = 1
rw_hint_to_seg_type medium = 1
rw_hint_to_seg_type long = 1

-- `__get_segment_type_2`, `_4` and `_6`.
pub segment_type_2 : PageInfo → ℕ
segment_type_2 p = if is_data p.page_type then 0 else 3

pub segment_type_4 : PageInfo → ℕ
segment_type_4 p =
    if is_data p.page_type
    then (if p.is_dir then 0 else 2)
    else if p.is_dnode && p.is_cold_node
    then 4
    else 5

pub segment_type_6 : PageInfo → ℕ
unfolding rw_hint_to_seg_type
segment_type_6 p =
    if is_data p.page_type
    then (if p.is_cold_data || p.file_is_cold
        then 2
        else if p.file_is_hot || p.hot_data || p.atomic_file || p.volatile_file
        then 0
        else rw_hint_to_seg_type p.write_hint)
    else if p.is_dnode
    then (if p.is_cold_node then 4 else 3)
    else 5

abbrev pub temp_of : ℕ → Temp
temp_of log_type =
    if (log_type == 3) || (log_type == 0)
    then hot
    else if (log_type == 4) || (log_type == 1)
    then warm
    else cold

-- `__get_segment_type`, with the temperature that it stores; a number of logs other than 2, 4 and 6
-- meets the `f2fs_bug_on`, which goes on here with the type 0.
pub get_segment_type : ℕ → PageInfo → ℕ × Temp
unfolding segment_type_2 segment_type_4 segment_type_6
get_segment_type active_logs p =
    let log_type =
      if active_logs == 2
      then segment_type_2 p
      else if active_logs == 4
      then segment_type_4 p
      else if active_logs == 6
      then segment_type_6 p
      else 0 in
    (log_type, temp_of log_type)

pub data WhintMode : Type 0 where
  whint_off whint_user whint_fs : WhintMode

-- `f2fs_io_type_to_rw_hint`.
pub io_type_to_rw_hint : WhintMode → PageType → Temp → WriteHint
io_type_to_rw_hint whint_off t temp = not_set
io_type_to_rw_hint whint_user data_page warm = not_set
io_type_to_rw_hint whint_user data_page hot = short
io_type_to_rw_hint whint_user data_page cold = extreme
io_type_to_rw_hint whint_user node_page temp = not_set
io_type_to_rw_hint whint_user meta_page temp = not_set
io_type_to_rw_hint whint_fs data_page warm = long
io_type_to_rw_hint whint_fs data_page hot = short
io_type_to_rw_hint whint_fs data_page cold = extreme
io_type_to_rw_hint whint_fs node_page warm = not_set
io_type_to_rw_hint whint_fs node_page hot = not_set
io_type_to_rw_hint whint_fs node_page cold = no_hint
io_type_to_rw_hint whint_fs meta_page temp = medium

-- A queue of no requests counts as one.
abbrev pub at_least_one : ℕ → ℕ
at_least_one size = if size == 0 then 1 else size

-- The share of the NVM in the two queues, in percent.
abbrev pub queue_ratio : ℕ → ℕ → ℕ
queue_ratio ssd_aqu_sz nvm_aqu_sz =
    (100 *32 at_least_one nvm_aqu_sz) / (at_least_one ssd_aqu_sz +32 at_least_one nvm_aqu_sz)

-- `real_low_boundary`: the boundary 33 falls by up to 16 as the second half of the NVM fills.
pub real_low_boundary : ℕ → ℕ → ℕ
real_low_boundary all free =
    let used = all -32 free in
    if ltb all (2 *32 used) then 33 -32 ((16 *32 (2 *32 used -32 all)) / all) else 33

-- `nvm_alloc` with the queues that it reads.
pub nvm_alloc : ℕ → ℕ → ℕ → ℕ → ℕ → Bool
unfolding real_low_boundary
nvm_alloc log_type all free ssd_aqu_sz nvm_aqu_sz =
    (log_type == 0)
    || (log_type == 3)
    || ltb (queue_ratio ssd_aqu_sz nvm_aqu_sz) (real_low_boundary all free)
