-- ===== src/Nid/Lists.antt =====
-- How often a number stands in a list.
use hoit_f2fs.Base.{ℕ, ◌+◌, ◌<◌, ◌≡◌, List, [], ◌∷◌, ◌++◌, ◌==◌, if◌then◌else◌, arith}
use hoit_f2fs.Base.Lists.{length}
use hoit_f2fs.Nid.{list_del}

abbrev pub occurrences : ℕ → List ℕ → ℕ
occurrences n [] = 0
occurrences n (x ∷ xs) = (if n == x then 1 else 0) + occurrences n xs

pub occurrences-append :
    (n m : ℕ) (xs : List ℕ)
    → occurrences n (xs ++ m ∷ []) ≡ occurrences n xs + (if n == m then 1 else 0)
occurrences-append n m [] = ground arith
occurrences-append n m (x ∷ xs) = ground (arith, occurrences-append n m xs)

pub occurrences-list_del :
    (n m : ℕ) (xs : List ℕ)
    → 0 < occurrences m xs
    → occurrences n (list_del m xs) + (if n == m then 1 else 0) ≡ occurrences n xs
occurrences-list_del n m [] h = absurd (omega arith)
occurrences-list_del n m (x ∷ xs) h = ground (arith, occurrences-list_del n m xs)

pub length-list_del :
    (m : ℕ) (xs : List ℕ) → 0 < occurrences m xs → length (list_del m xs) + 1 ≡ length xs
length-list_del m [] h = absurd (omega arith)
length-list_del m (x ∷ xs) h = ground (arith, length-list_del m xs)

pub length-append_one : (m : ℕ) (xs : List ℕ) → length (xs ++ m ∷ []) ≡ length xs + 1
length-append_one m [] = omega arith
length-append_one m (x ∷ xs) = omega (arith, length-append_one m xs)
