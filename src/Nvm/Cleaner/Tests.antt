-- ===== src/Nvm/Cleaner/Tests.antt =====
-- Runs of the choice on a small device.
use hoit_f2fs.Base.{◌+◌, ◌-◌, ◌*◌, none, some, false, ◌==◌, if◌then◌else◌, ltb}
use hoit_f2fs.Nvm.Segments.{Nvm}
use hoit_f2fs.Nvm.Heap.{Heap}
use hoit_f2fs.Nvm.Lfu.{Lfu}
use hoit_f2fs.Nvm.Cleaner.{Sections}

-- NVM segments 0 to 3 hold the SSD segments 4 to 7; 600 stands next in the allocation.
abbrev device : Nvm
device = record {
  mpt = λ i.
      if ltb i 4
      then (i + 4) * 8 + 3
      else if ltb i 8
      then 0
      else if ltb i 12
      then (i - 8) * 8 + 3
      else 0;
  mpt_dirty_map = λ i. false;
  segment_map = λ i. ltb i 4;
  main_segment_nums = 4;
  main_segment_free_nums = 0;
  cur_alloc_nvm_segoff = 600;
  nsb_dirty = false;
}

-- SSD segment i has been read 10 - i times on the current level.
abbrev reads : Lfu
reads = record {
  lfu_count = λ i seg. if i == 0 then some (10 - seg) else none;
  now_lfu_counter = 0;
}

abbrev logs : Sections
logs = record {
  hot_data = 20;
  warm_data = 21;
  cold_data = 22;
  hot_node = 23;
  warm_node = 24;
  cold_node = 7;
  segs_per_sec = 1;
  cur_victim_sec = 30;
}

abbrev empty_heap : Heap
empty_heap = record { nodes = λ i. record { count = 0; seg_off = 0 }; cur_num = 0; k = 2 }
