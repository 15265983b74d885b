-- ===== src/Dir/Dentry/Tests.antt =====
-- Runs on a block of eight slots of four bytes.
use hoit_f2fs.Base.{
  ℕ, ◌+◌, ◌*◌, ◌/◌, ◌≤◌, ◌<◌, ◌≡◌, Bool, false, none, some, List, [], ◌∷◌, ◌==◌, ◌&&◌, refl, arith,
}
use hoit_f2fs.Base.BitSearch.Scan.{scanning, scan}
use hoit_f2fs.Base.Lists.{length}
use hoit_f2fs.Dir.{room_for_filename, room_from}
use hoit_f2fs.Dir.Dentry.{
  DirEntry, DentryPtr, DentrySlots, mark_slots, update_dentry, delete_entry, Target, read_name,
  is_target, find_from, find_target_dentry,
}
use hoit_f2fs.Dir.Dentry.Walk.{Walks, done, free}
use hoit_f2fs.Dir.Dentry.Found.{find_target_dentry-update_dentry, delete_entry-update_dentry}

abbrev no_entry : DirEntry
no_entry = record { hash_code = 0; ino = 0; name_len = 0; file_type = 0 }

abbrev empty_block : DentryPtr
empty_block = record { max = 8; bitmap = λ i. false; dentry = λ i. no_entry; filename = λ i. 0 }

four_pos : (len : ℕ) → 0 < len → 0 < (len + 3) / 4
four_pos len named = omega arith

four_hold : (len : ℕ) → len ≤ (len + 3) / 4 * 4
four_hold len = omega arith

-- Slots of four bytes.
abbrev four : DentrySlots
four = record {
  slot_len = 4;
  dentry_slots = λ len. (len + 3) / 4;
  slots_pos = four_pos;
  slots_hold = four_hold;
}

-- A name of five bytes takes two slots.
abbrev hello : List ℕ
hello = 104 ∷ 101 ∷ 108 ∷ 108 ∷ 111 ∷ []

abbrev is_hello : List ℕ → Bool
is_hello [] = false
is_hello (c ∷ cs) = c == 104 && length cs == 4

abbrev with_hello : DentryPtr
with_hello = update_dentry four 77 1 empty_block hello 9 0

found_hello :
    find_target_dentry four is_hello 9 with_hello ≡ some (record { de = some 0; max_slots = 0 })
unfolding find_target_dentry find_from update_dentry mark_slots is_target read_name
found_hello = refl

-- Behind the two slots six are free.
other_hash :
    find_target_dentry four is_hello 8 with_hello ≡ some (record { de = none; max_slots = 6 })
unfolding find_target_dentry find_from update_dentry mark_slots is_target read_name
other_hash = refl

room_at_start : room_for_filename scanning empty_block.bitmap (four.dentry_slots 5) 8 ≡ some 0
unfolding room_for_filename room_from scan
room_at_start = refl

nothing_found :
    find_target_dentry four is_hello 9 empty_block ≡ some (record { de = none; max_slots = 8 })
unfolding find_target_dentry find_from
nothing_found = refl

empty-Walks : Walks four empty_block 0
empty-Walks = free (omega arith) refl (
    free (omega arith) refl (
      free (omega arith) refl (
        free (omega arith) refl (
          free (omega arith) refl (
            free (omega arith) refl
              (free (omega arith) refl (free (omega arith) refl (done refl))))))))

find_target_dentry-update_dentry_example :
    Walks four with_hello 0
    × ((t' : Target) × (find_target_dentry four is_hello 9 with_hello ≡ some t') × (t'.de ≡ some 0))
find_target_dentry-update_dentry_example =
    find_target_dentry-update_dentry four scanning empty_block hello (omega arith) 0 room_at_start
      (omega arith) 77 1 9 is_hello (record { de = none; max_slots = 8 }) refl empty-Walks
      nothing_found refl

delete_entry-update_dentry_example : (delete_entry four with_hello 0).bitmap 1 ≡ false
delete_entry-update_dentry_example =
    delete_entry-update_dentry four scanning empty_block hello (omega arith) 0 room_at_start
      (omega arith) 77 1 9 1
