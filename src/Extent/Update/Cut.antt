-- ===== src/Extent/Update/Cut.antt =====
-- The loop leaves nothing of the range in the tree.
use hoit_f2fs.Base.{
  ℕ, ◌+◌, ◌<◌, ◌≤◌, ◌≡◌, ◌&&◌, not, Bool, true, List, [], ◌∷◌, ltb, arith, inl, inr, Bool-cases,
  refl,
}
use hoit_f2fs.Extent.{Extent, try_update_largest_extent}
use hoit_f2fs.Extent.Map.{
  PageMap, Agrees, Chain, ChainDown, nil, link, written, Agrees-written,
  Agrees-try_update_largest_extent, Chain-written, ChainDown-weaken,
}
use hoit_f2fs.Extent.Update.{
  Cursor, invalidate, keeps_left, keeps_right, left_part, right_part, moved_right,
}
use hoit_f2fs.Extent.Update.Seek.{EndsBehind}
use hoit_f2fs.Extent.Update.Parts.{
  left_part-Agrees, moved_right-Agrees, right_part-Agrees, right-Chain, right_part-end,
  moved_right-end, keeps_left→, keeps_right→, stays→, goes→, left_part-ChainDown,
}

and→left : (a b : Bool) → (a && b) ≡ true → a ≡ true
and→left a b h = ground arith

module _ (m : PageMap) (fofs blkaddr len : ℕ) where
  abbrev m' : PageMap
  m' = written m fofs blkaddr len

  -- What the loop ends with.
  pub record IsCut (c : Cursor) : Type 0 where
    pub left : ChainDown m' fofs c.left
    pub right : Chain m' (fofs + len) c.right
    pub largest : Agrees m' c.largest

  rest-EndsBehind : (p lo : ℕ) (es : List Extent) → p < lo → Chain m lo es → EndsBehind p es
  rest-EndsBehind p lo [] less up = refl
  rest-EndsBehind p lo (e ∷ es) less (link below some_page a up) = omega arith

  pub record Cutting (lo : ℕ) (c : Cursor) (es : List Extent) : Type 0 where
    pub bound : ℕ
    pub bound_le : bound ≤ fofs
    pub bound_lo : bound ≤ lo
    pub left : ChainDown m' bound c.left
    pub largest : Agrees m' c.largest
    pub ends : EndsBehind fofs es

  module _ (c : Cursor) (lo : ℕ) (e : Extent) (es : List Extent) (s : Cutting lo c (e ∷ es))
      (below : lo ≤ e.fofs) (some_page : 0 < e.len) (a : Agrees m e)
      (up : Chain m (e.fofs + e.len) es) where
    stays-IsCut : fofs + len ≤ e.fofs → IsCut (record c { right = e ∷ es })
    stays-IsCut k = record {
      left = ChainDown-weaken m' s.bound fofs c.left s.bound_le s.left;
      right =
          link k some_page (Agrees-written m fofs blkaddr len e (inr k) a)
            (Chain-written m fofs blkaddr len (e.fofs + e.len) es (omega arith) up);
      largest = s.largest;
    }

    both-IsCut :
        e.fofs < fofs
        → e.fofs < fofs + len
        → fofs + len < e.fofs + e.len
        → IsCut (record c {
          left = left_part fofs e ∷ c.left;
          prev_known = true;
          right = right_part (fofs + len) e ∷ es;
          largest =
              try_update_largest_extent
                (left_part fofs e)
                (try_update_largest_extent (right_part (fofs + len) e) c.largest);
          dei_len = e.len;
        })
    both-IsCut h g k =
        let r = right_part (fofs + len) e in
        let right = right_part-Agrees m fofs blkaddr len e g k a in
        let (eq, some_left) = right_part-end m fofs blkaddr len e g k a in
        record {
          left =
              left_part-ChainDown m fofs blkaddr len e s.bound c.left h s.ends
                (omega (arith, s.bound_lo)) a s.left;
          right = right-Chain m fofs blkaddr len e r es (omega arith) eq some_left right up;
          largest =
              Agrees-try_update_largest_extent m' (left_part fofs e)
                (try_update_largest_extent r c.largest)
                (left_part-Agrees m fofs blkaddr len e h s.ends a)
                (Agrees-try_update_largest_extent m' r c.largest right s.largest);
        }

    right-IsCut :
        e.fofs < fofs + len
        → fofs + len < e.fofs + e.len
        → IsCut (record c {
          right = moved_right (fofs + len) e ∷ es;
          largest = try_update_largest_extent (moved_right (fofs + len) e) c.largest;
          dei_len = e.len;
        })
    right-IsCut g k =
        let r = moved_right (fofs + len) e in
        let right = moved_right-Agrees m fofs blkaddr len e g k a in
        let (eq, some_left) = moved_right-end m fofs blkaddr len e g k a in
        record {
          left = ChainDown-weaken m' s.bound fofs c.left s.bound_le s.left;
          right = right-Chain m fofs blkaddr len e r es (omega arith) eq some_left right up;
          largest = Agrees-try_update_largest_extent m' r c.largest right s.largest;
        }

    -- The loop goes on behind a left part,
    left-Cutting :
        e.fofs < fofs
        → Cutting
            (e.fofs + e.len)
            (record c {
              left = left_part fofs e ∷ c.left;
              prev_known = true;
              largest = try_update_largest_extent (left_part fofs e) c.largest;
              dei_len = e.len;
            })
            es
    left-Cutting h = record {
      bound = fofs;
      bound_le = omega arith;
      bound_lo = omega (arith, s.ends);
      left =
          left_part-ChainDown m fofs blkaddr len e s.bound c.left h s.ends
            (omega (arith, s.bound_lo)) a s.left;
      largest =
          Agrees-try_update_largest_extent m' (left_part fofs e) c.largest
            (left_part-Agrees m fofs blkaddr len e h s.ends a) s.largest;
      ends = rest-EndsBehind fofs (e.fofs + e.len) es s.ends up;
    }

    -- and behind an extent that is released.
    none-Cutting : Cutting (e.fofs + e.len) (record c { dei_len = e.len }) es
    none-Cutting = record {
      bound = s.bound;
      bound_le = s.bound_le;
      bound_lo = omega (arith, s.bound_lo);
      left = s.left;
      largest = s.largest;
      ends = rest-EndsBehind fofs (e.fofs + e.len) es s.ends up;
    }

  pub invalidate-IsCut :
      (alloc : Bool) (c : Cursor) (lo : ℕ) (es : List Extent)
      → Cutting lo c es
      → Chain m lo es
      → IsCut (invalidate fofs (fofs + len) alloc c es)
  unfolding invalidate
  invalidate-IsCut alloc c lo [] s up = record {
    left = ChainDown-weaken m' s.bound fofs c.left s.bound_le s.left;
    right = nil;
    largest = s.largest;
  }
  invalidate-IsCut alloc c lo (e ∷ es) s (link below some_page a up) =
      elim (Bool-cases (not (ltb e.fofs (fofs + len)))) [
        | inl stays ↦
            rw stays
              (stays-IsCut c lo e es s below some_page a up (stays→ m fofs blkaddr len e stays))
        | inr goes ↦
            let g = goes→ m fofs blkaddr len e goes in
            rw goes (elim (Bool-cases (keeps_left fofs e)) [
              | inl kl ↦
                  let h = keeps_left→ m fofs blkaddr len e kl in
                  rw kl (elim (Bool-cases (keeps_right (fofs + len) e && alloc)) [
                    | inl kr ↦
                        let k =
                          keeps_right→ m fofs blkaddr len e a
                            (and→left (keeps_right (fofs + len) e) alloc kr) in
                        rw kr (both-IsCut c lo e es s below some_page a up h g k)
                    | inr nr ↦ rw nr (
                        invalidate-IsCut alloc
                          (record c {
                            left = left_part fofs e ∷ c.left;
                            prev_known = true;
                            largest = try_update_largest_extent (left_part fofs e) c.largest;
                            dei_len = e.len;
                          })
                          (e.fofs + e.len) es (left-Cutting c lo e es s below some_page a up h) up)
                  ])
              | inr nl ↦ rw nl (elim (Bool-cases (keeps_right (fofs + len) e)) [
                | inl kr ↦ rw kr (
                    right-IsCut c lo e es s below some_page a up g
                      (keeps_right→ m fofs blkaddr len e a kr))
                | inr nr ↦ rw nr (
                    invalidate-IsCut alloc (record c { dei_len = e.len }) (e.fofs + e.len) es
                      (none-Cutting c lo e es s below some_page a up) up)
              ])
            ])
      ]
