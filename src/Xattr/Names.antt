-- ===== src/Xattr/Names.antt =====
-- The sizes that `f2fs_listxattr` returns.
use hoit_f2fs.Base.{
  ℕ, ◌+◌, ◌-◌, ◌%◌, ◌^◌, ◌<◌, ◌≡◌, ◌∙◌, ap, Bool, true, false, Option, none, some, Option-cases,
  List, [], ◌∷◌, ◌++◌, ltb, if◌then◌else◌, arith, inl, inr,
}
use hoit_f2fs.Base.Lists.{length, length-append}
use hoit_f2fs.Xattr.{
  XattrEntry, erange, Result, ok, err, Io, XattrState, Room, read_all_xattrs, list_names, listxattr,
}

module _ (prefix : ℕ → Option (List ℕ)) where
  abbrev pub bytes_with : Option (List ℕ) → XattrEntry → List ℕ
  bytes_with none e = []
  bytes_with (some p) e = p ++ (e.e_name ++ 0 ∷ [])

  -- The names that are listed, each with its prefix and a zero at the end.
  abbrev pub listed : List XattrEntry → List ℕ
  listed [] = []
  listed (e ∷ es) = bytes_with (prefix e.e_name_index) e ++ listed es

  -- What the loop returns for a buffer of that size.
  abbrev pub listing : Bool → ℕ → List XattrEntry → Result (ℕ × List ℕ)
  listing true rest es =
      if ltb rest (length (listed es))
      then err erange
      else ok (rest - length (listed es), listed es)
  listing false rest es = ok ((rest + 2 ^ 64 - length (listed es)) % 2 ^ 64, [])

  name-length : (p name : List ℕ) → length (p ++ (name ++ 0 ∷ [])) ≡ length p + length name + 1
  name-length p name = length-append p (name ++ 0 ∷ []) ∙ omega (arith, length-append name (0 ∷ []))

  list_names-buffer :
      (rest : ℕ) (es : List XattrEntry)
      → rest < 2 ^ 64
      → list_names prefix true rest es ≡ listing true rest es
  unfolding list_names
  list_names-buffer rest [] small = ground arith
  list_names-buffer rest (e ∷ es) small = elim (Option-cases (prefix e.e_name_index)) [
    | inl hidden ↦ rw (hidden, list_names) (list_names-buffer rest es small)
    | inr (p, shown) ↦
        let size = length p + length e.e_name + 1 in
        let rest' = (rest + 2 ^ 64 - size) % 2 ^ 64 in
        let bytes = p ++ (e.e_name ++ 0 ∷ []) in
        let len : length (bytes ++ listed es) ≡ size + length (listed es) =
          length-append bytes (listed es) ∙ omega (arith, name-length p e.e_name) in
        let later = list_names-buffer rest' es (omega arith) in
        rw (shown, list_names) (rw later (ground (arith, len)))
  ]

  list_names-size :
      (rest : ℕ) (es : List XattrEntry)
      → rest < 2 ^ 64
      → length (listed es) < 2 ^ 64
      → list_names prefix false rest es ≡ listing false rest es
  unfolding list_names
  list_names-size rest [] small fits = ground arith
  list_names-size rest (e ∷ es) small fits = elim (Option-cases (prefix e.e_name_index)) [
    | inl hidden ↦
        rw (hidden, list_names) (list_names-size rest es small (ground (arith, fits, hidden)))
    | inr (p, shown) ↦
        let size = length p + length e.e_name + 1 in
        let rest' = (rest + 2 ^ 64 - size) % 2 ^ 64 in
        let bytes = p ++ (e.e_name ++ 0 ∷ []) in
        let len : length (bytes ++ listed es) ≡ size + length (listed es) =
          length-append bytes (listed es) ∙ omega (arith, name-length p e.e_name) in
        let whole : length (bytes ++ listed es) < 2 ^ 64 =
          omega (arith, fits, ap (λ o. length (bytes_with o e ++ listed es)) shown) in
        let later = list_names-size rest' es (omega arith) (omega arith) in
        rw (shown, list_names) (rw later (ground (arith, len, whole)))
  ]

  -- Where the attributes can be read, `f2fs_listxattr` without a buffer returns the number of bytes of
  -- their names, those of indices that are listed, each with its prefix and a zero. With a buffer it
  -- writes just these bytes and returns their number where they fit, and fails with -ERANGE where not.
  pub listxattr-listed :
      (r : Room) (io : Io) (st : XattrState) (es : List XattrEntry) (buffer_size : ℕ)
      → read_all_xattrs r io st ≡ ok es
      → buffer_size < 2 ^ 64
      → length (listed es) < 2 ^ 64
      → (listxattr prefix r io st false buffer_size ≡ ok (length (listed es), []))
        × (listxattr prefix r io st true buffer_size ≡ (
            if ltb buffer_size (length (listed es))
            then err erange
            else ok (length (listed es), listed es)))
  unfolding listxattr
  listxattr-listed r io st es buffer_size read small fits = (
    rw (read, listxattr) (rw (list_names-size buffer_size es small fits) (ground arith)),
    rw (read, listxattr) (rw (list_names-buffer buffer_size es small) (ground arith)),
  )
