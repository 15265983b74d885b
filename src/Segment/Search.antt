-- ===== src/Segment/Search.antt =====
-- The search of a bitmap by words in segment.c, `__find_rev_next_bit` and `__find_rev_next_zero_bit`,
-- with words of 64 bits. The bits of a byte stand in reversed order there; the bits of a map are
-- numbered as `f2fs_test_bit` does, and those of a word that `__reverse_ulong` has turned from the top,
-- so that the bit j of the word p is the bit 64 * p + j of the map. The two functions differ in the bit
-- that they look for; where that is zero, a word stands for its complement.
pub mod Ffs
pub mod Finds
mod Tests
use hoit_f2fs.Base.{
  ℕ, zero, suc, ◌+◌, ◌-◌, ◌*◌, ◌/◌, ◌%◌, Bool, true, not, ◌&&◌, leb, ltb, if◌then◌else◌,
}
use hoit_f2fs.Base.Arrays.{Array}

pub reverse_ulong : Bool → Array Bool → ℕ → Array Bool
reverse_ulong wanted map p j = if wanted then map (p * 64 + j) else not (map (p * 64 + j))

-- Whether the bits of a word under a mask, so many from one on, are zero.
pub none_set : Array Bool → ℕ → ℕ → Bool
none_set word from zero = true
none_set word from (suc n) = not (word (from + n)) && none_set word from n

-- One step of `__reverse_ffs`: the upper half of what is left, or the lower one.
pub halve : ℕ → Array Bool → ℕ → ℕ
unfolding none_set
halve width word num = if none_set word num width then num + width else num

pub reverse_ffs : Array Bool → ℕ
unfolding halve
reverse_ffs word =
    halve 1 word (halve 2 word (halve 4 word (halve 8 word (halve 16 word (halve 32 word 0)))))

-- The bits before the offset and behind the size do not count.
pub masked : ℕ → ℕ → Array Bool → Array Bool
masked size offset word j = not (ltb j offset) && not (ltb size 64 && leb size j) && word j

-- The `while` loop, from the word `p` on; `result` is the size of the whole map.
pub search_words : Bool → Array Bool → ℕ → ℕ → ℕ → ℕ → ℕ → ℕ
unfolding reverse_ulong none_set reverse_ffs masked
search_words wanted map zero result p size offset = result
search_words wanted map (suc rounds) result p size offset =
    let word = reverse_ulong wanted map p in
    let tmp = masked size offset word in
    let rest = search_words wanted map rounds result (p + 1) (size - 64) 0 in
    if not (none_set word 0 64) && not (none_set tmp 0 64)
    then result - size + reverse_ffs tmp
    else if leb size 64
    then result
    else rest

-- The rounds are as many as words hold the map, which are enough (see Segment/Search/Finds).
pub find_rev_next : Bool → Array Bool → ℕ → ℕ → ℕ
unfolding search_words
find_rev_next wanted map size offset =
    if leb size offset
    then size
    else search_words wanted map (size / 64 + 1) size (offset / 64) (size - offset / 64 * 64)
        (offset % 64)
