-- ===== src/Segment/Search/Tests.antt =====
-- Runs of the search by words.
use hoit_f2fs.Base.{◌≡◌, true, false, not, ◌==◌, refl}
use hoit_f2fs.Base.BitSearch.{IsSearch}
use hoit_f2fs.Segment.Search.Finds.{find_rev_next-IsSearch}
use hoit_f2fs.Segment.Search.{
  reverse_ulong, none_set, halve, reverse_ffs, masked, search_words, find_rev_next,
}

find_rev_next-IsSearch_example : IsSearch false (find_rev_next false)
find_rev_next-IsSearch_example = find_rev_next-IsSearch false

-- All bits but 130 are set.
zero_at_130 : find_rev_next false (λ i. not (i == 130)) 512 3 ≡ 130
unfolding find_rev_next search_words reverse_ulong none_set halve reverse_ffs masked
zero_at_130 = refl

-- The bit 70 lies behind the size.
none_inside : find_rev_next true (λ i. i == 70) 68 3 ≡ 68
unfolding find_rev_next search_words reverse_ulong none_set halve reverse_ffs masked
none_inside = refl
