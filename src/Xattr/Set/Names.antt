-- ===== src/Xattr/Set/Names.antt =====
-- The search for a name after an attribute is removed or added.
use hoit_f2fs.Base.{
  ℕ, ◌+◌, ◌≡◌, ◌∙◌, ap, true, false, ◌&&◌, none, some, List, [], ◌∷◌, ◌++◌, ◌==◌, if◌then◌else◌,
  arith, refl, Bool-cases, inl, inr,
}
use hoit_f2fs.Base.Lists.{length}
use hoit_f2fs.Xattr.{
  XattrEntry, same_bytes, is_named, find_xattr, remove_xattr, written_entry, entry_size, hsize,
  size_of,
}
use hoit_f2fs.Xattr.Set.{Unique, Differs}

pub same_bytes-eq : (xs ys : List ℕ) → same_bytes xs ys ≡ true → xs ≡ ys
unfolding same_bytes
same_bytes-eq [] [] h = refl
same_bytes-eq [] (y ∷ ys) h = cc
same_bytes-eq (x ∷ xs) [] h = cc
same_bytes-eq (x ∷ xs) (y ∷ ys) h = ground (arith, h, same_bytes-eq xs ys)

pub same_bytes_self : (xs : List ℕ) → same_bytes xs xs ≡ true
unfolding same_bytes
same_bytes_self [] = refl
same_bytes_self (x ∷ xs) = ground (arith, same_bytes_self xs)

pub is_named-eq :
    (index : ℕ) (name : List ℕ) (e : XattrEntry)
    → is_named index name e ≡ true
    → (e.e_name_index ≡ index) × (e.e_name ≡ name)
unfolding is_named
is_named-eq index name e h = (ground (arith, h), ground (arith, h, same_bytes-eq e.e_name name))

pub is_named_self :
    (index : ℕ) (name value : List ℕ) → is_named index name (written_entry index name value) ≡ true
unfolding is_named
is_named_self index name value = ground (arith, same_bytes_self name)

-- Two names of one attribute are one.
pub named-once :
    (index : ℕ) (name : List ℕ) (index' : ℕ) (name' : List ℕ) (e : XattrEntry)
    → Differs index' name' index name
    → is_named index name e ≡ true
    → is_named index' name' e ≡ false
unfolding is_named
named-once index name index' name' e differs h =
    let (i, n) = is_named-eq index name e h in
    ap (λ k. k == index' && length e.e_name == length name' && same_bytes e.e_name name') i
    ∙ ap (λ k. index == index' && length k == length name' && same_bytes k name') n
    ∙ differs

pub find-append :
    (index : ℕ) (name : List ℕ) (es : List XattrEntry) (e : XattrEntry)
    → find_xattr index name es ≡ none
    → find_xattr index name (es ++ e ∷ []) ≡ (if is_named index name e then some e else none)
unfolding find_xattr
find-append index name [] e h = refl
find-append index name (d ∷ es) e h = ground (arith, h, find-append index name es e)

pub find-append_other :
    (index : ℕ) (name : List ℕ) (es : List XattrEntry) (e : XattrEntry)
    → is_named index name e ≡ false
    → find_xattr index name (es ++ e ∷ []) ≡ find_xattr index name es
unfolding find_xattr
find-append_other index name [] e h = rw h refl
find-append_other index name (d ∷ es) e h = ground (arith, find-append_other index name es e h)

module _ (index : ℕ) (name : List ℕ) where
  pub find-remove :
      (es : List XattrEntry) → Unique es → find_xattr index name (remove_xattr index name es) ≡ none
  unfolding find_xattr remove_xattr
  find-remove [] u = refl
  find-remove (e ∷ es) (u, us) = elim (Bool-cases (is_named index name e)) [
    | inl named ↦ let (i, n) = is_named-eq index name e named in rw named (rw (← i) (rw (← n) u))
    | inr other ↦ rw other (rw other (find-remove es us))
  ]

  pub find-remove_other :
      (index' : ℕ) (name' : List ℕ) (es : List XattrEntry)
      → Differs index' name' index name
      → find_xattr index' name' (remove_xattr index name es) ≡ find_xattr index' name' es
  unfolding find_xattr remove_xattr
  find-remove_other index' name' [] differs = refl
  find-remove_other index' name' (e ∷ es) differs = ground (
    arith,
    named-once index name index' name' e differs,
    find-remove_other index' name' es differs,
  )

  -- Nothing is found that was not there.
  pub find-remove_none :
      (index' : ℕ) (name' : List ℕ) (es : List XattrEntry)
      → find_xattr index' name' es ≡ none
      → find_xattr index' name' (remove_xattr index name es) ≡ none
  unfolding find_xattr remove_xattr
  find-remove_none index' name' [] h = refl
  find-remove_none index' name' (e ∷ es) h = ground (arith, h, find-remove_none index' name' es)

  pub remove_xattr-Unique : (es : List XattrEntry) → Unique es → Unique (remove_xattr index name es)
  unfolding remove_xattr
  remove_xattr-Unique [] u = u
  remove_xattr-Unique (e ∷ es) (u, us) = elim (Bool-cases (is_named index name e)) [
    | inl named ↦ rw named us
    | inr other ↦
        rw other (find-remove_none e.e_name_index e.e_name es u, remove_xattr-Unique es us)
  ]

  pub hsize-remove :
      (es : List XattrEntry)
      → hsize (remove_xattr index name es) + size_of (find_xattr index name es) ≡ hsize es
  unfolding hsize remove_xattr find_xattr
  hsize-remove [] = omega arith
  hsize-remove (e ∷ es) = elim (Bool-cases (is_named index name e)) [
    | inl named ↦ rw named (omega arith)
    | inr other ↦ rw other (omega (arith, hsize-remove es))
  ]

pub hsize-append :
    (es : List XattrEntry) (e : XattrEntry) → hsize (es ++ e ∷ []) ≡ hsize es + entry_size e
unfolding hsize
hsize-append [] e = omega arith
hsize-append (d ∷ es) e = omega (arith, hsize-append es e)

-- Names are compared alike in both directions.
named_sym :
    (d e : XattrEntry)
    → is_named d.e_name_index d.e_name e ≡ true
    → is_named e.e_name_index e.e_name d ≡ true
named_sym d e h =
    let (i, n) = is_named-eq d.e_name_index d.e_name e h in
    rw i (rw n (is_named_self d.e_name_index d.e_name d.e_value))

-- An attribute of a new name may follow the others.
pub append-Unique :
    (es : List XattrEntry) (e : XattrEntry)
    → Unique es
    → find_xattr e.e_name_index e.e_name es ≡ none
    → Unique (es ++ e ∷ [])
unfolding find_xattr
append-Unique [] e u h = (refl, tt)
append-Unique (d ∷ es) e (u, us) h = (
  find-append d.e_name_index d.e_name es e u ∙ ground (arith, h, named_sym d e),
  append-Unique es e us (ground (arith, h)),
)
