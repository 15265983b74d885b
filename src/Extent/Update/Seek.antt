-- ===== src/Extent/Update/Seek.antt =====
-- The lookup that starts the update parts the tree before the range.
use hoit_f2fs.Base.{ℕ, ◌+◌, ◌<◌, ◌≤◌, ◌≡◌, List, [], ◌∷◌, leb, arith, inl, inr, Bool-cases, refl}
use hoit_f2fs.Extent.{Extent, extent_end}
use hoit_f2fs.Extent.Map.{
  PageMap, Chain, ChainDown, nil, link, written, Agrees-written, ChainDown-weaken,
}
use hoit_f2fs.Extent.Update.{Cursor, seek}

-- The first extent, where there is one, ends behind the page.
abbrev pub EndsBehind : ℕ → List Extent → Type 0
EndsBehind p [] = p ≡ p
EndsBehind p (e ∷ es) = p < e.fofs + e.len

pub seek-largest :
    (fofs : ℕ) (largest : Extent) (left es : List Extent)
    → (seek fofs largest left es).largest ≡ largest
unfolding seek
seek-largest fofs largest left [] = refl
seek-largest fofs largest left (e ∷ es) = ground (arith, seek-largest fofs largest (e ∷ left) es)

module _ (m : PageMap) (fofs blkaddr len : ℕ) where
  abbrev m' : PageMap
  m' = written m fofs blkaddr len

  -- Everything before the range lies on the left.
  pub record Sought (c : Cursor) : Type 0 where
    pub bound : ℕ
    pub bound_le : bound ≤ fofs
    pub left : ChainDown m' bound c.left
    pub right : Chain m bound c.right
    pub ends : EndsBehind fofs c.right

  pub seek-Sought :
      (lo : ℕ) (largest : Extent) (left es : List Extent)
      → lo ≤ fofs
      → ChainDown m' lo left
      → Chain m lo es
      → Sought (seek fofs largest left es)
  unfolding seek
  seek-Sought lo largest left [] le down up = record {
    bound = lo;
    bound_le = le;
    left = down;
    right = nil;
    ends = refl;
  }
  seek-Sought lo largest left (e ∷ es) le down (link below some_page a up) =
      elim (Bool-cases (leb (extent_end e) fofs)) [
        | inl before ↦ rw before (
            seek-Sought (e.fofs + e.len) largest (e ∷ left) es (ground (arith, a.pages_fit))
              (link (omega arith) some_page
                (Agrees-written m fofs blkaddr len e (inl (ground (arith, a.pages_fit))) a)
                (ChainDown-weaken m' lo e.fofs left below down))
              up)
        | inr behind ↦ rw behind (record {
          bound = lo;
          bound_le = le;
          left = down;
          right = link below some_page a up;
          ends = ground (arith, a.pages_fit);
        })
      ]
