-- ===== src/Dir/Empty/Tests.antt =====
-- Runs of `f2fs_empty_dir`.
use hoit_f2fs.Base.{◌≡◌, ltb, Bool, true, false, some, ◌==◌, if◌then◌else◌, refl}
use hoit_f2fs.Base.Arrays.{Array}
use hoit_f2fs.Base.BitSearch.Scan.{scanning, scan}
use hoit_f2fs.Dir.Empty.{
  BlockRead, page, enoent, first_bit, goes_on, empty_from, inline_dentries, blocks,
  empty_inline_dir, empty_dir,
}
use hoit_f2fs.Dir.Empty.Tells.{DirTells, empty_dir-Tells}

-- The dot entries stand in the first block, the second is a hole, and the third has an entry or not.
abbrev dots : Array Bool
dots i = ltb i 2

abbrev third_taken : Array Bool
third_taken i = i == 9

abbrev with_third : Array Bool → Array BlockRead
with_third third bidx = if bidx == 0 then page dots else if bidx == 1 then enoent else page third

hole-is_empty : empty_dir scanning 214 (blocks (with_third (λ i. false)) 3) ≡ true
unfolding empty_dir empty_from goes_on scan first_bit
hole-is_empty = refl

third_block-not_empty : empty_dir scanning 214 (blocks (with_third third_taken) 3) ≡ false
unfolding empty_dir empty_from goes_on scan first_bit
third_block-not_empty = refl

inline_entry-not_empty : empty_dir scanning 214 (inline_dentries 182 (some third_taken)) ≡ false
unfolding empty_dir empty_inline_dir scan
inline_entry-not_empty = refl

empty_dir-Tells_example :
    DirTells scanning 214
      (blocks (with_third third_taken) 3)
      (empty_dir scanning 214 (blocks (with_third third_taken) 3))
empty_dir-Tells_example = empty_dir-Tells scanning 214 (blocks (with_third third_taken) 3)
