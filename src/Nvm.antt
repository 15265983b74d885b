-- ===== src/Nvm.antt =====
-- nvm.c, nvm.h and gc_nvm.c: the mapping of SSD segments to NVM segments, the allocation of NVM
-- segments, and the choice of the segments that move between the devices.
pub mod Entry
pub mod Segments
pub mod Heap
pub mod TopK
pub mod Lfu
pub mod Cleaner
