-- ===== src/Ino/Sets.antt =====
-- Which numbers a list holds, and which devices of them are dirty.
use hoit_f2fs.Base.{
  ℕ, ◌+◌, ◌≡◌, ◌≤◌, true, false, not, ◌&&◌, ◌||◌, List, [], ◌∷◌, ◌++◌, ◌==◌, if◌then◌else◌, refl,
  arith,
}
use hoit_f2fs.Ino.{
  InoType, flush_ino, InoEntry, InodeManagement, find_ino, found, drop_ino, mark_device, with_entry,
  dirty_on, add_ino_entry, remove_ino_entry, exist_written_data, is_dirty_device,
}

-- How many entries a number has.
abbrev pub entries : ℕ → List InoEntry → ℕ
entries n [] = 0
entries n (e ∷ es) = (if n == e.ino then 1 else 0) + entries n es

found-entries : (n : ℕ) (es : List InoEntry) → entries n es ≡ 0 → found (find_ino n es) ≡ false
found-entries n [] h = refl
found-entries n (e ∷ es) h = ground (arith, found-entries n es)

found-append :
    (n : ℕ) (es : List InoEntry) (x : InoEntry)
    → found (find_ino n (es ++ x ∷ [])) ≡ (found (find_ino n es) || (n == x.ino))
found-append n [] x = ground arith
found-append n (e ∷ es) x = ground (arith, found-append n es x)

found-mark_device :
    (n ino devidx : ℕ) (es : List InoEntry)
    → found (find_ino n (mark_device ino devidx es)) ≡ found (find_ino n es)
found-mark_device n ino devidx [] = refl
found-mark_device n ino devidx (e ∷ es) = ground (arith, found-mark_device n ino devidx es)

found-with_entry :
    (n ino : ℕ) (es : List InoEntry)
    → found (find_ino n (with_entry ino es)) ≡ ((n == ino) || found (find_ino n es))
found-with_entry n ino es =
    ground (arith, found-append n es (record { ino = ino; dirty_device = λ i. false }))

-- After `__add_ino_entry` the numbers with an entry are those of before and the one added.
pub exist_written_data-add_ino_entry :
    (n ino devidx : ℕ) (ty : InoType) (im : InodeManagement)
    → exist_written_data n (add_ino_entry ino devidx ty im)
      ≡ ((n == ino) || exist_written_data n im)
unfolding exist_written_data add_ino_entry
exist_written_data-add_ino_entry n ino devidx ty im = ground (
  arith,
  found-with_entry n ino im.ino_list,
  found-mark_device n ino devidx (with_entry ino im.ino_list),
)

found-drop_ino :
    (n ino : ℕ) (es : List InoEntry)
    → entries ino es ≤ 1
    → found (find_ino n (drop_ino ino es)) ≡ (not (n == ino) && found (find_ino n es))
found-drop_ino n ino [] h = ground arith
found-drop_ino n ino (e ∷ es) h = ground (arith, found-drop_ino n ino es, found-entries ino es)

-- Where the number removed has at most one entry, the numbers with an entry after
-- `__remove_ino_entry` are the others of before.
pub exist_written_data-remove_ino_entry :
    (n ino : ℕ) (im : InodeManagement)
    → entries ino im.ino_list ≤ 1
    → exist_written_data n (remove_ino_entry ino im) ≡ (not (n == ino) && exist_written_data n im)
unfolding exist_written_data remove_ino_entry
exist_written_data-remove_ino_entry n ino im h = ground (arith, found-drop_ino n ino im.ino_list h)

dirty-append :
    (n d : ℕ) (es : List InoEntry) (ino : ℕ)
    → dirty_on d (find_ino n (es ++ record { ino = ino; dirty_device = λ i. false } ∷ []))
      ≡ dirty_on d (find_ino n es)
dirty-append n d [] ino = ground arith
dirty-append n d (e ∷ es) ino = ground (arith, dirty-append n d es ino)

dirty-mark_device :
    (n d ino devidx : ℕ) (es : List InoEntry)
    → found (find_ino ino es) ≡ true
    → dirty_on d (find_ino n (mark_device ino devidx es))
      ≡ (((n == ino) && (d == devidx)) || dirty_on d (find_ino n es))
dirty-mark_device n d ino devidx [] h = ground arith
dirty-mark_device n d ino devidx (e ∷ es) h = ground (arith, dirty-mark_device n d ino devidx es)

dirty-with_entry :
    (n d ino : ℕ) (es : List InoEntry)
    → dirty_on d (find_ino n (with_entry ino es)) ≡ dirty_on d (find_ino n es)
dirty-with_entry n d ino es = ground (arith, dirty-append n d es ino)

-- `f2fs_set_dirty_device` for FLUSH_INO marks the device for the number, and changes no other answer
-- of `f2fs_is_dirty_device`.
pub is_dirty_device-add_ino_entry :
    (n d ino devidx : ℕ) (im : InodeManagement)
    → is_dirty_device n d (add_ino_entry ino devidx flush_ino im)
      ≡ (((n == ino) && (d == devidx)) || is_dirty_device n d im)
unfolding is_dirty_device add_ino_entry
is_dirty_device-add_ino_entry n d ino devidx im = ground (
  arith,
  found-with_entry ino ino im.ino_list,
  dirty-mark_device n d ino devidx (with_entry ino im.ino_list),
  dirty-with_entry n d ino im.ino_list,
)
