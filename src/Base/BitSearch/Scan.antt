-- ===== src/Base/BitSearch/Scan.antt =====
-- A bit by bit scan, which meets the interface of the kernel's searches.
use Prim.Native.Nat.{ℕ, zero, suc, ◌+◌, ◌-◌, ◌≤◌, ◌<◌}
use mathlib.Core.Path.{◌≡◌}
use mathlib.Core.Bool.{Bool, true, false, not}
use native.Mathlib.Omega.{arith}
use hoit_f2fs.Base.Tests.{if◌then◌else◌, ltb}
use hoit_f2fs.Base.Arrays.{Array}
use hoit_f2fs.Base.BitSearch.{IsSearch, BitSearch}

module _ (wanted : Bool) (map : Array Bool) where
  pub hits : ℕ → Bool
  hits i = if wanted then map i else not (map i)

  pub scan_from : ℕ → ℕ → ℕ
  unfolding hits
  scan_from zero i = i
  scan_from (suc left) i = let rest = scan_from left (i + 1) in if hits i then i else rest

  hits_wanted : (i : ℕ) → hits i ≡ true → map i ≡ wanted
  unfolding hits
  hits_wanted i h = ground arith

  misses_wanted : (i : ℕ) → hits i ≡ false → map i ≡ not wanted
  unfolding hits
  misses_wanted i h = ground arith

  pub scan_from_bounds : (left i : ℕ) → (i ≤ scan_from left i) × (scan_from left i ≤ i + left)
  unfolding scan_from
  scan_from_bounds zero i = omega arith
  scan_from_bounds (suc left) i = ground (arith, scan_from_bounds left (i + 1))

  pub scan_from_found : (left i : ℕ) → scan_from left i < i + left → map (scan_from left i) ≡ wanted
  unfolding scan_from
  scan_from_found zero i h = absurd (omega arith)
  scan_from_found (suc left) i h = ground (arith, hits_wanted i, scan_from_found left (i + 1))

  pub scan_from_first : (left i j : ℕ) → i ≤ j → j < scan_from left i → map j ≡ not wanted
  unfolding scan_from
  scan_from_first zero i j h k = absurd (omega arith)
  scan_from_first (suc left) i j h k =
      ground (arith, misses_wanted i, scan_from_first left (i + 1) j)

unfoldable pub scan : Bool → Array Bool → ℕ → ℕ → ℕ
unfolding scan_from
scan wanted map size offset =
    if ltb offset size then scan_from wanted map (size - offset) offset else size

pub scan-IsSearch : (wanted : Bool) → IsSearch wanted (scan wanted)
unfolding scan
scan-IsSearch wanted = record {
  within = λ map size offset. ground (arith, scan_from_bounds wanted map (size - offset) offset);
  found = λ map size offset h. ground (
    arith,
    scan_from_bounds wanted map (size - offset) offset,
    scan_from_found wanted map (size - offset) offset,
  );
  first =
      λ map size offset i h k. ground (arith, scan_from_first wanted map (size - offset) offset i);
}

abbrev pub scanning : BitSearch
scanning = record {
  find_next_bit = scan true;
  find_next_zero_bit = scan false;
  next_bit = scan-IsSearch true;
  next_zero_bit = scan-IsSearch false;
}
