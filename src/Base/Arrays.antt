-- ===== src/Base/Arrays.antt =====
-- A C array as the function from its indices to its elements. An access out of the allocated
-- range does not fail here: where it matters, a theorem bounds the indices.
use Prim.Native.Nat.{ℕ, zero, suc, ◌+◌, ◌*◌, ◌<◌, ◌≤◌}
use mathlib.Core.Path.{◌≡◌, refl}
use mathlib.Core.Bool.{Bool, true, false}
use native.Mathlib.Omega.{arith}
use hoit_f2fs.Base.Tests.{◌==◌, if◌then◌else◌, Bool-cases}
use mathlib.Core.Logic.{inl, inr}

abbrev pub Array {ℓ} : Type ℓ → Type ℓ
Array A = ℕ → A

abbrev pub update {ℓ} : {A : Type ℓ} → Array A → ℕ → A → Array A
update a i v j = if i == j then v else a j

-- How many of the first `n` elements pass a test.
unfoldable pub count {ℓ} : {A : Type ℓ} → (A → Bool) → Array A → ℕ → ℕ
count p a zero = 0
count p a (suc n) = (if p (a n) then 1 else 0) + count p a n

module _ {ℓ} {A : Type ℓ} (p : A → Bool) where
  -- A write beyond the counted range does not show.
  pub count-update_beyond :
      (a : Array A) (i : ℕ) (v : A) (n : ℕ) → n ≤ i → count p (update a i v) n ≡ count p a n
  unfolding count
  count-update_beyond a i v zero h = refl
  count-update_beyond a i v (suc n) h = ground (arith, count-update_beyond a i v n)

  -- A write within the range exchanges the old element for the new one.
  pub count-update :
      (a : Array A) (i : ℕ) (v : A) (n : ℕ)
      → i < n
      → count p (update a i v) n + (if p (a i) then 1 else 0) ≡ count p a n + (if p v then 1 else 0)
  unfolding count
  count-update a i v zero h = elim h [ ]
  count-update a i v (suc n) h = ground (arith, count-update a i v n, count-update_beyond a i v n)

-- Where every counted element passes, the count is the range.
pub count_all {ℓ} :
    {A : Type ℓ} (p : A → Bool) (a : Array A) (n : ℕ)
    → ((i : ℕ) → i < n → p (a i) ≡ true)
    → count p a n ≡ n
unfolding count
count_all p a zero h = refl
count_all p a (suc n) h =
    ground (arith, count_all p a n (λ i less. h i (omega arith)), h n (omega arith))

module _ {ℓ} {A : Type ℓ} (p : A → Bool) (a : Array A) where
  pub count-le : (n : ℕ) → count p a n ≤ n
  unfolding count
  count-le zero = omega arith
  count-le (suc n) = ground (arith, count-le n)

  -- Where as many pass as there are, each one passes.
  pub count_each : (n : ℕ) → count p a n ≡ n → (i : ℕ) → i < n → p (a i) ≡ true
  unfolding count
  count_each zero e i less = absurd (omega arith)
  count_each (suc n) e i less = elim (Bool-cases (i == n)) [
    | inl last ↦ ground (arith, count-le n)
    | inr before ↦ count_each n (ground (arith, count-le n)) i (ground arith)
  ]

  -- Where an element passes, the count is positive.
  pub count_pos : (n i : ℕ) → i < n → p (a i) ≡ true → 0 < count p a n
  unfolding count
  count_pos zero i less h = absurd (omega arith)
  count_pos (suc n) i less h = elim (Bool-cases (i == n)) [
    | inl last ↦ ground arith
    | inr before ↦ ground (arith, count_pos n i)
  ]

-- Where no counted element passes, the count is zero.
pub count_none {ℓ} :
    {A : Type ℓ} (p : A → Bool) (a : Array A) (n : ℕ)
    → ((i : ℕ) → i < n → p (a i) ≡ false)
    → count p a n ≡ 0
unfolding count
count_none p a zero h = refl
count_none p a (suc n) h =
    ground (arith, count_none p a n (λ i less. h i (omega arith)), h n (omega arith))

-- More pass a weaker test.
pub count_mono {ℓ} :
    {A : Type ℓ} (p q : A → Bool) (a : Array A) (n : ℕ)
    → ((i : ℕ) → i < n → p (a i) ≡ true → q (a i) ≡ true)
    → count p a n ≤ count q a n
unfolding count
count_mono p q a zero h = omega arith
count_mono p q a (suc n) h =
    ground (arith, count_mono p q a n (λ i less. h i (omega arith)), h n (omega arith))

-- The count depends on the counted elements alone.
pub count_ext {ℓ} :
    {A : Type ℓ} (p : A → Bool) (a b : Array A) (n : ℕ)
    → ((i : ℕ) → i < n → a i ≡ b i)
    → count p a n ≡ count p b n
unfolding count
count_ext p a b zero h = refl
count_ext p a b (suc n) h =
    ground (arith, count_ext p a b n (λ i less. h i (omega arith)), h n (omega arith))

-- The sum of a number of the first `n` elements.
unfoldable pub sum {ℓ} : {A : Type ℓ} → (A → ℕ) → Array A → ℕ → ℕ
sum f a zero = 0
sum f a (suc n) = f (a n) + sum f a n

module _ {ℓ} {A : Type ℓ} (f : A → ℕ) where
  pub sum_ext :
      (a b : Array A) (n : ℕ) → ((i : ℕ) → i < n → f (a i) ≡ f (b i)) → sum f a n ≡ sum f b n
  unfolding sum
  sum_ext a b zero h = refl
  sum_ext a b (suc n) h =
      ground (arith, sum_ext a b n (λ i less. h i (omega arith)), h n (omega arith))

  pub sum-update_beyond :
      (a : Array A) (i : ℕ) (v : A) (n : ℕ) → n ≤ i → sum f (update a i v) n ≡ sum f a n
  unfolding sum
  sum-update_beyond a i v zero h = refl
  sum-update_beyond a i v (suc n) h = ground (arith, sum-update_beyond a i v n)

  pub sum-update :
      (a : Array A) (i : ℕ) (v : A) (n : ℕ)
      → i < n
      → sum f (update a i v) n + f (a i) ≡ sum f a n + f v
  unfolding sum
  sum-update a i v zero h = elim h [ ]
  sum-update a i v (suc n) h = ground (arith, sum-update a i v n, sum-update_beyond a i v n)

  pub le-sum : (a : Array A) (i n : ℕ) → i < n → f (a i) ≤ sum f a n
  unfolding sum
  le-sum a i zero h = elim h [ ]
  le-sum a i (suc n) h = elim (Bool-cases (i == n)) [
    | inl last ↦ ground arith
    | inr before ↦ ground (arith, le-sum a i n)
  ]

  pub sum-le :
      (a : Array A) (most n : ℕ) → ((i : ℕ) → i < n → f (a i) ≤ most) → sum f a n ≤ n * most
  unfolding sum
  sum-le a most zero h = omega arith
  sum-le a most (suc n) h =
      ground (arith, sum-le a most n (λ i less. h i (omega arith)), h n (omega arith))

module _ {ℓ ℓ'} {A : Type ℓ} {B : Type ℓ'} (f : A → B) (a : Array A) (i : ℕ) (v : A) where
  -- A write that keeps what `f` reads at its place keeps it everywhere.
  pub keeps-update : f v ≡ f (a i) → (j : ℕ) → f (update a i v j) ≡ f (a j)
  keeps-update h j = elim (Bool-cases (i == j)) [
    | inl own ↦ ground (arith, h)
    | inr other ↦ ground arith
  ]
