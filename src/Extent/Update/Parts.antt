-- ===== src/Extent/Update/Parts.antt =====
-- The parts of an extent that stay beside the range.
use hoit_f2fs.Base.{ℕ, ◌+◌, ◌<◌, ◌≤◌, ◌≡◌, not, true, false, List, ◌∷◌, ltb, arith}
use hoit_f2fs.Extent.{Extent}
use hoit_f2fs.Extent.Map.{
  PageMap, Agrees, Chain, ChainDown, link, written, Chain-written, ChainDown-weaken, Chain-weaken,
}
use hoit_f2fs.Extent.Update.{keeps_left, keeps_right, left_part, right_part, moved_right}

module _ (m : PageMap) (fofs blkaddr len : ℕ) where
  abbrev m' : PageMap
  m' = written m fofs blkaddr len

  pub left_part-Agrees :
      (e : Extent)
      → e.fofs < fofs
      → fofs < e.fofs + e.len
      → Agrees m e
      → Agrees m' (left_part fofs e)
  left_part-Agrees e h k a = record {
    pages_fit = ground (arith, a.pages_fit);
    blocks_fit = ground (arith, a.pages_fit, a.blocks_fit);
    same = λ p le less. ground (arith, a.pages_fit, a.same p);
  }

  pub moved_right-Agrees :
      (e : Extent)
      → e.fofs < fofs + len
      → fofs + len < e.fofs + e.len
      → Agrees m e
      → Agrees m' (moved_right (fofs + len) e)
  moved_right-Agrees e h k a = record {
    pages_fit = ground (arith, a.pages_fit);
    blocks_fit = ground (arith, a.pages_fit, a.blocks_fit);
    same = λ p le less. ground (arith, a.pages_fit, a.blocks_fit, a.same p);
  }

  pub right_part-Agrees :
      (e : Extent)
      → e.fofs < fofs + len
      → fofs + len < e.fofs + e.len
      → Agrees m e
      → Agrees m' (right_part (fofs + len) e)
  right_part-Agrees e h k a = record {
    pages_fit = ground (arith, a.pages_fit);
    blocks_fit = ground (arith, a.pages_fit, a.blocks_fit);
    same = λ p le less. ground (arith, a.pages_fit, a.blocks_fit, a.same p);
  }

  -- A part that stays at the right, and all behind it.
  pub right-Chain :
      (e r : Extent) (es : List Extent)
      → fofs + len ≤ r.fofs
      → r.fofs + r.len ≡ e.fofs + e.len
      → 0 < r.len
      → Agrees m' r
      → Chain m (e.fofs + e.len) es
      → Chain m' (fofs + len) (r ∷ es)
  right-Chain e r es le eq some_page a up = link le some_page a (
      Chain-weaken m' (e.fofs + e.len) (r.fofs + r.len) es (omega arith)
        (Chain-written m fofs blkaddr len (e.fofs + e.len) es (omega arith) up))

  pub right_part-end :
      (e : Extent)
      → e.fofs < fofs + len
      → fofs + len < e.fofs + e.len
      → Agrees m e
      → (fofs + len + (right_part (fofs + len) e).len ≡ e.fofs + e.len)
        × (0 < (right_part (fofs + len) e).len)
  right_part-end e h k a = ground (arith, a.pages_fit)

  pub moved_right-end :
      (e : Extent)
      → e.fofs < fofs + len
      → fofs + len < e.fofs + e.len
      → Agrees m e
      → (fofs + len + (moved_right (fofs + len) e).len ≡ e.fofs + e.len)
        × (0 < (moved_right (fofs + len) e).len)
  moved_right-end e h k a = ground (arith, a.pages_fit)

  pub keeps_left→ : (e : Extent) → keeps_left fofs e ≡ true → e.fofs < fofs
  keeps_left→ e h = ground arith

  pub keeps_right→ :
      (e : Extent) → Agrees m e → keeps_right (fofs + len) e ≡ true → fofs + len < e.fofs + e.len
  keeps_right→ e a h = ground (arith, a.pages_fit)

  pub stays→ : (e : Extent) → not (ltb e.fofs (fofs + len)) ≡ true → fofs + len ≤ e.fofs
  stays→ e h = ground arith

  pub goes→ : (e : Extent) → not (ltb e.fofs (fofs + len)) ≡ false → e.fofs < fofs + len
  goes→ e h = ground arith

  pub left_part-ChainDown :
      (e : Extent) (bound : ℕ) (left : List Extent)
      → e.fofs < fofs
      → fofs < e.fofs + e.len
      → bound ≤ e.fofs
      → Agrees m e
      → ChainDown m' bound left
      → ChainDown m' fofs (left_part fofs e ∷ left)
  left_part-ChainDown e bound left h k le a down =
      link (ground (arith, a.pages_fit)) (ground (arith, a.pages_fit)) (left_part-Agrees e h k a)
        (ChainDown-weaken m' bound e.fofs left le down)
