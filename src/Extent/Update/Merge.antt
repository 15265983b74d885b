-- ===== src/Extent/Update/Merge.antt =====
-- The new extent between its neighbours, merged with them or not.
use hoit_f2fs.Base.{
  ℕ, ◌+◌, ◌<◌, ◌≤◌, ◌≡◌, ◌&&◌, ◌||◌, Bool, List, [], ◌∷◌, arith, inl, inr, Bool-cases, refl,
}
use hoit_f2fs.Base.Words.{◌+32◌}
use hoit_f2fs.Extent.{Extent, is_extent_mergeable}
use hoit_f2fs.Extent.Map.{
  PageMap, Agrees, Chain, ChainDown, IsSound, nil, link, Agrees-try_update_largest_extent,
  Chain-weaken,
}
use hoit_f2fs.Extent.Update.{Cursor, Merged, joined, merge_back, merge_front, insert_extent}

module _ (m : PageMap) where
  -- The new extent and what it has merged with, between the others.
  record IsMergedBack (last : ℕ) (b : Merged) : Type 0 where
    agrees : Agrees m b.ei
    some_page : 0 < b.ei.len
    ends : b.ei.fofs + b.ei.len ≡ last
    others : ChainDown m b.ei.fofs b.others

  merge_back-IsMergedBack :
      (ei : Extent) (known : Bool) (left : List Extent)
      → Agrees m ei
      → 0 < ei.len
      → ChainDown m ei.fofs left
      → IsMergedBack (ei.fofs + ei.len) (merge_back ei known left)
  merge_back-IsMergedBack ei known [] a some_page down = record {
    agrees = a;
    some_page = some_page;
    ends = refl;
    others = nil;
  }
  merge_back-IsMergedBack ei known (e ∷ left) a some_page (link below some_old b down) =
      elim (Bool-cases (known && is_extent_mergeable e ei)) [
        | inl merges ↦ rw merges (record {
          agrees = record {
            pages_fit = ground (arith, a.pages_fit, b.pages_fit, a.blocks_fit, b.blocks_fit);
            blocks_fit = ground (arith, a.pages_fit, b.pages_fit, a.blocks_fit, b.blocks_fit);
            same = λ p le less.
                ground
                  (arith, a.pages_fit, b.pages_fit, a.blocks_fit, b.blocks_fit, a.same p, b.same p);
          };
          some_page = ground (arith, a.pages_fit, b.pages_fit);
          ends = ground (arith, a.pages_fit, b.pages_fit);
          others = down;
        })
        | inr alone ↦ rw alone (record {
          agrees = a;
          some_page = some_page;
          ends = refl;
          others = link below some_old b down;
        })
      ]

  record IsMergedFront (first : ℕ) (f : Merged) : Type 0 where
    agrees : Agrees m f.ei
    some_page : 0 < f.ei.len
    starts : f.ei.fofs ≡ first
    others : Chain m (f.ei.fofs + f.ei.len) f.others

  merge_front-IsMergedFront :
      (ei : Extent) (right : List Extent)
      → Agrees m ei
      → 0 < ei.len
      → Chain m (ei.fofs + ei.len) right
      → IsMergedFront ei.fofs (merge_front ei right)
  merge_front-IsMergedFront ei [] a some_page up = record {
    agrees = a;
    some_page = some_page;
    starts = refl;
    others = nil;
  }
  merge_front-IsMergedFront ei (e ∷ right) a some_page (link below some_old b up) =
      elim (Bool-cases (is_extent_mergeable ei e)) [
        | inl merges ↦ rw merges (record {
          agrees = record {
            pages_fit = ground (arith, a.pages_fit, b.pages_fit, a.blocks_fit, b.blocks_fit);
            blocks_fit = ground (arith, a.pages_fit, b.pages_fit, a.blocks_fit, b.blocks_fit);
            same = λ p le less.
                ground
                  (arith, a.pages_fit, b.pages_fit, a.blocks_fit, b.blocks_fit, a.same p, b.same p);
          };
          some_page = ground (arith, a.pages_fit, b.pages_fit);
          starts = refl;
          others =
              Chain-weaken m (e.fofs + e.len) (ei.fofs + (e.len +32 ei.len)) right
                (ground (arith, a.pages_fit, b.pages_fit)) up;
        })
        | inr alone ↦ rw alone (record {
          agrees = a;
          some_page = some_page;
          starts = refl;
          others = link below some_old b up;
        })
      ]

  pub joined-Chain :
      (hi lo : ℕ) (left right : List Extent)
      → hi ≤ lo
      → ChainDown m hi left
      → Chain m lo right
      → Chain m 0 (joined left right)
  joined-Chain hi lo [] right le down up = Chain-weaken m lo 0 right (omega arith) up
  joined-Chain hi lo (e ∷ left) right le (link below some_page a down) up =
      joined-Chain e.fofs e.fofs left (e ∷ right) (omega arith) down
        (link (omega arith) some_page a (Chain-weaken m lo (e.fofs + e.len) right (omega arith) up))

  pub insert_extent-IsSound :
      (ei : Extent) (alloc : Bool) (c : Cursor)
      → Agrees m ei
      → 0 < ei.len
      → ChainDown m ei.fofs c.left
      → Chain m (ei.fofs + ei.len) c.right
      → Agrees m c.largest
      → IsSound m (insert_extent ei alloc c)
  unfolding insert_extent
  insert_extent-IsSound ei alloc c a some_page down up l =
      let b = merge_back ei c.prev_known c.left in
      let f = merge_front b.ei c.right in
      let isb = merge_back-IsMergedBack ei c.prev_known c.left a some_page down in
      let isf = merge_front-IsMergedFront b.ei c.right isb.agrees isb.some_page (
        Chain-weaken m (ei.fofs + ei.len) (b.ei.fofs + b.ei.len) c.right (omega (arith, isb.ends))
          up) in
      elim (Bool-cases (b.done || f.done || alloc)) [
        | inl stored ↦ rw stored (record {
          chain =
              joined-Chain b.ei.fofs f.ei.fofs b.others (f.ei ∷ f.others)
                (omega (arith, isf.starts)) isb.others
                (link (omega arith) isf.some_page isf.agrees isf.others);
          largest = Agrees-try_update_largest_extent m f.ei c.largest isf.agrees l;
          off = inl refl;
        })
        | inr lost ↦ rw lost (record {
          chain = joined-Chain ei.fofs (ei.fofs + ei.len) c.left c.right (omega arith) down up;
          largest = l;
          off = inl refl;
        })
      ]
