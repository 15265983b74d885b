-- ===== src/Extent/Lookup/Find.antt =====
-- Going down the tree finds the extent that a walk through the list finds.
use hoit_f2fs.Base.{
  ℕ, ◌+◌, ◌<◌, ◌≤◌, ◌≡◌, true, false, Option, none, some, List, [], ◌∷◌, ◌++◌, ltb, if◌then◌else◌,
  arith, refl, inl, inr, Bool-cases, sym, ◌∙◌, ap,
}
use mathlib.Core.Path.{subst}
use hoit_f2fs.Extent.{Extent, holds_page}
use hoit_f2fs.Extent.Map.{PageMap, Agrees, Chain, nil, link}
use hoit_f2fs.Extent.Lookup.{Tree, leaf, node, in_order, lookup_rb_tree_slow, lookup_rb_tree}

-- The first extent that holds the page.
abbrev pub find_page : ℕ → List Extent → Option Extent
find_page ofs [] = none
find_page ofs (e ∷ es) = let rest = find_page ofs es in if holds_page e ofs then some e else rest

abbrev pub or_this : Extent → Option Extent → Extent
or_this d none = d
or_this d (some e) = e

pub data Listed (e : Extent) : List Extent → Type 0 where
  here : {es : List Extent} → Listed e (e ∷ es)
  there : {x : Extent} {es : List Extent} → Listed e es → Listed e (x ∷ es)

module _ (m : PageMap) (ofs : ℕ) where
  pub find_page_low :
      (lo : ℕ) (es : List Extent) → ofs < lo → Chain m lo es → find_page ofs es ≡ none
  find_page_low lo [] less c = refl
  find_page_low lo (e ∷ es) less (link below some_page a c) =
      ground (arith, find_page_low (e.fofs + e.len) es (omega arith) c)

  -- The extent behind the first ones, and the rest.
  record IsBehind (lo : ℕ) (e : Extent) (ys : List Extent) : Type 0 where
    below : lo ≤ e.fofs
    agrees : Agrees m e
    rest : Chain m (e.fofs + e.len) ys

  Chain-IsBehind :
      (lo : ℕ) (xs : List Extent) (e : Extent) (ys : List Extent)
      → Chain m lo (xs ++ e ∷ ys)
      → IsBehind lo e ys
  Chain-IsBehind lo [] e ys (link below some_page a c) = record {
    below = below;
    agrees = a;
    rest = c;
  }
  Chain-IsBehind lo (x ∷ xs) e ys (link below some_page a c) =
      let s = Chain-IsBehind (x.fofs + x.len) xs e ys c in
      record { below = omega (arith, s.below); agrees = s.agrees; rest = s.rest }

  find_page_right :
      (lo : ℕ) (xs : List Extent) (e : Extent) (ys : List Extent)
      → e.fofs ≤ ofs
      → Chain m lo (xs ++ e ∷ ys)
      → find_page ofs (xs ++ e ∷ ys) ≡ find_page ofs (e ∷ ys)
  find_page_right lo [] e ys le c = refl
  find_page_right lo (x ∷ xs) e ys le (link below some_page a c) =
      let s = Chain-IsBehind (x.fofs + x.len) xs e ys c in
      ground (arith, s.below, a.pages_fit, find_page_right (x.fofs + x.len) xs e ys le c)

  find_page_left :
      (lo : ℕ) (xs : List Extent) (e : Extent) (ys : List Extent)
      → ofs < e.fofs
      → Chain m lo (xs ++ e ∷ ys)
      → find_page ofs (xs ++ e ∷ ys) ≡ find_page ofs xs
  find_page_left lo [] e ys less (link below some_page a c) =
      ground (arith, find_page_low (e.fofs + e.len) ys (omega arith) c)
  find_page_left lo (x ∷ xs) e ys less (link below some_page a c) =
      ground (arith, find_page_left (x.fofs + x.len) xs e ys less c)

  Chain-left : (lo : ℕ) (xs ys : List Extent) → Chain m lo (xs ++ ys) → Chain m lo xs
  Chain-left lo [] ys c = nil
  Chain-left lo (x ∷ xs) ys (link below some_page a c) =
      link below some_page a (Chain-left (x.fofs + x.len) xs ys c)

  pub lookup_rb_tree_slow-find_page :
      (lo : ℕ) (t : Tree)
      → Chain m lo (in_order t)
      → lookup_rb_tree_slow t ofs ≡ find_page ofs (in_order t)
  unfolding lookup_rb_tree_slow
  lookup_rb_tree_slow-find_page lo leaf c = refl
  lookup_rb_tree_slow-find_page lo (node l e r) c =
      let s = Chain-IsBehind lo (in_order l) e (in_order r) c in
      let in_left =
        lookup_rb_tree_slow-find_page lo l (Chain-left lo (in_order l) (e ∷ in_order r) c) in
      let in_right = lookup_rb_tree_slow-find_page (e.fofs + e.len) r s.rest in
      elim (Bool-cases (ltb ofs e.fofs)) [
        | inl before ↦
            rw before
              (in_left ∙ sym (find_page_left lo (in_order l) e (in_order r) (ground arith) c))
        | inr not_before ↦ rw not_before (
            ground (arith, s.agrees, in_right)
            ∙ sym (find_page_right lo (in_order l) e (in_order r) (ground arith) c))
      ]

  Listed-below :
      (lo : ℕ) (e : Extent) (es : List Extent) → Chain m lo es → Listed e es → lo ≤ e.fofs
  Listed-below lo e [] c l = elim l [ ]
  Listed-below lo e (x ∷ es) (link below some_page a c) here = below
  Listed-below lo e (x ∷ es) (link below some_page a c) (there l) =
      omega (arith, Listed-below (x.fofs + x.len) e es c l)

  -- An extent of the list that holds the page is the one found.
  find_page-Listed :
      (lo : ℕ) (e : Extent) (es : List Extent)
      → Chain m lo es
      → Listed e es
      → holds_page e ofs ≡ true
      → find_page ofs es ≡ some e
  find_page-Listed lo e [] c l h = elim l [ ]
  find_page-Listed lo e (x ∷ es) (link below some_page a c) here h = rw h refl
  find_page-Listed lo e (x ∷ es) (link below some_page a c) (there l) h = ground (
    arith,
    a.pages_fit,
    Listed-below (x.fofs + x.len) e es c l,
    find_page-Listed (x.fofs + x.len) e es c l h,
  )

  pub hit_eq :
      (x e : Extent) (rest : Option Extent)
      → holds_page x ofs ≡ true
      → (if holds_page x ofs then some x else rest) ≡ some e
      → some x ≡ some e
  hit_eq x e rest hit f = sym (rw hit refl) ∙ f

  pub miss_eq :
      (x e : Extent) (rest : Option Extent)
      → holds_page x ofs ≡ false
      → (if holds_page x ofs then some x else rest) ≡ some e
      → rest ≡ some e
  miss_eq x e rest miss f = sym (rw miss refl) ∙ f

  -- What is found holds the page and is right.
  pub find_page-Agrees :
      (lo : ℕ) (e : Extent) (es : List Extent)
      → Chain m lo es
      → find_page ofs es ≡ some e
      → Agrees m e × (holds_page e ofs ≡ true) × Listed e es
  find_page-Agrees lo e [] c f = absurd (ground arith)
  find_page-Agrees lo e (x ∷ es) (link below some_page a c) f =
      elim (Bool-cases (holds_page x ofs)) [
        | inl hit ↦
            subst (λ y. Agrees m y × (holds_page y ofs ≡ true) × Listed y (x ∷ es))
              (ap (or_this x) (hit_eq x e (find_page ofs es) hit f)) (a, hit, here)
        | inr miss ↦
            let (b, h, l) =
              find_page-Agrees (x.fofs + x.len) e es c (miss_eq x e (find_page ofs es) miss f) in
            (b, h, there l)
      ]

-- Where the tree is in order and `cached_en` is one of its nodes, `f2fs_lookup_rb_tree` finds the
-- extent that a walk through all nodes in order finds.
pub lookup_rb_tree-find_page :
    (m : PageMap) (lo ofs : ℕ) (t : Tree) (cached : Option Extent)
    → Chain m lo (in_order t)
    → ((e : Extent) → cached ≡ some e → Listed e (in_order t))
    → lookup_rb_tree t cached ofs ≡ find_page ofs (in_order t)
unfolding lookup_rb_tree
lookup_rb_tree-find_page m lo ofs t none c listed = lookup_rb_tree_slow-find_page m ofs lo t c
lookup_rb_tree-find_page m lo ofs t (some e) c listed = elim (Bool-cases (holds_page e ofs)) [
  | inl hit ↦ rw hit (sym (find_page-Listed m ofs lo e (in_order t) c (listed e refl) hit))
  | inr miss ↦ rw miss (lookup_rb_tree_slow-find_page m ofs lo t c)
]
