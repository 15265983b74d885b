-- ===== src/Ino/Tests.antt =====
-- Runs of the operations.
use hoit_f2fs.Base.{[], ◌∷◌, ◌==◌, arith}
use hoit_f2fs.Ino.{orphan_ino, InodeManagement, add_ino_entry}
use hoit_f2fs.Ino.Orphans.{IsReserved, adding, OrphanStep-IsReserved}

-- The number 9 is there, and one more place is reserved.
abbrev one : InodeManagement
one = record { ino_list = record { ino = 9; dirty_device = λ i. i == 2 } ∷ []; ino_num = 2 }

one-IsReserved : IsReserved 3 one
one-IsReserved = record { reserved = omega arith; bounded = omega arith }

OrphanStep-IsReserved_example : IsReserved 3 (add_ino_entry 12 0 orphan_ino one)
OrphanStep-IsReserved_example =
    OrphanStep-IsReserved 3 one (add_ino_entry 12 0 orphan_ino one) (adding 12 one (omega arith))
      one-IsReserved
