-- ===== src/Afu/Dma/Link.antt =====
-- drivers/fpga/dfl-afu-dma-region.c: the walk of afu_dma_region_add to the place of a region.
use mathlib.Core.List.{append_assoc}
use linux_dfl_backport.Base.{
  ◌<◌, ◌≡◌, refl, sym, ap, ◌∙◌, false, List, [], ◌∷◌, ◌++◌, arith, All, ◌⊎◌, inl, inr, ◌↔◌, ok,
}
use linux_dfl_backport.Afu.Dma.Region.{Region, dma_region_check_iova}
use linux_dfl_backport.Afu.Dma.Tree.{Tree, leaf, node, inorder, link}
use linux_dfl_backport.Afu.Dma.Spaced.{
  IsArea, IsSpaced, Before, Apart, AllBefore, Has, IsSpaced-split, All-split, All-join,
  Has-append_right,
}

link-left :
    (l r l' : Tree) (y x : Region)
    → dma_region_check_iova y x.iova x.length ≡ false
    → x.iova < y.iova
    → link l x ≡ ok l'
    → link (node l y r) x ≡ ok (node l' y r)
unfolding link
link-left l r l' y x h k e = ground arith

link-right :
    (l r r' : Tree) (y x : Region)
    → dma_region_check_iova y x.iova x.length ≡ false
    → y.iova < x.iova
    → link r x ≡ ok r'
    → link (node l y r) x ≡ ok (node l y r')
unfolding link
link-right l r r' y x h k e = ground arith

check-Apart :
    (y x : Region)
    → IsArea x
    → IsArea y
    → Apart x y
    → dma_region_check_iova y x.iova x.length ≡ false
unfolding dma_region_check_iova
check-Apart y x hx hy (inl b) = ground arith
check-Apart y x hx hy (inr b) = ground arith

-- Where the walk links a new region: between the regions before it and those after it.
pub record Linked (t : Tree) (x : Region) : Type 0 where
  pub tree : Tree
  pub linked : link t x ≡ ok tree
  pub left : List Region
  pub right : List Region
  pub old : inorder t ≡ left ++ right
  pub new : inorder tree ≡ left ++ (x ∷ right)
  pub below : All (λ a. Before a x) left
  pub above : All (Before x) right

All-Before_trans :
    (x y : Region) (zs : List Region)
    → Before x y
    → 0 < y.length
    → All (Before y) zs
    → All (Before x) zs
All-Before_trans x y [] b p h = tt
All-Before_trans x y (z ∷ zs) b p h = (omega arith, All-Before_trans x y zs b p h.1)

All-Before_last :
    (ys : List Region) (y x : Region)
    → All (λ a. Before a y) ys
    → 0 < y.length
    → Before y x
    → All (λ a. Before a x) ys
All-Before_last [] y x h p b = tt
All-Before_last (a ∷ ys) y x h p b = (omega arith, All-Before_last ys y x h.1 p b)

AllBefore-head :
    (xs ys : List Region) (y : Region) → AllBefore xs (y ∷ ys) → All (λ a. Before a y) xs
AllBefore-head [] ys y h = tt
AllBefore-head (x ∷ xs) ys y h = (h.0.0, AllBefore-head xs ys y h.1)

pub link-Linked :
    (t : Tree) (x : Region)
    → IsSpaced (inorder t)
    → IsArea x
    → All (Apart x) (inorder t)
    → Linked t x
unfolding inorder link
link-Linked leaf x h hx a = record {
  tree = node leaf x leaf;
  linked = refl;
  left = [];
  right = [];
  old = refl;
  new = refl;
  below = tt;
  above = tt;
}
link-Linked (node l y r) x h hx a =
    let (hl, hr, b) = IsSpaced-split (inorder l) (y ∷ inorder r) h in
    let (al, ar) = All-split (Apart x) (inorder l) (y ∷ inorder r) a in
    let c : dma_region_check_iova y x.iova x.length ≡ false = check-Apart y x hx hr.0 ar.0 in
    elim ar.0 [
      | inl before ↦
          let i = link-Linked l x hl hx al in
          record {
            tree = node i.tree y r;
            linked = link-left l r i.tree y x c (omega arith) i.linked;
            left = i.left;
            right = i.right ++ (y ∷ inorder r);
            old =
                ap (λ zs. zs ++ (y ∷ inorder r)) i.old
                ∙ append_assoc i.left i.right (y ∷ inorder r);
            new =
                ap (λ zs. zs ++ (y ∷ inorder r)) i.new
                ∙ append_assoc i.left (x ∷ i.right) (y ∷ inorder r);
            below = i.below;
            above =
                All-join (Before x) i.right (y ∷ inorder r) i.above
                  (before, All-Before_trans x y (inorder r) before hr.0.0 hr.1);
          }
      | inr after ↦
          let i = link-Linked r x hr.2 hx ar.1 in
          record {
            tree = node l y i.tree;
            linked = link-right l r i.tree y x c (omega arith) i.linked;
            left = inorder l ++ (y ∷ i.left);
            right = i.right;
            old =
                ap (λ zs. inorder l ++ (y ∷ zs)) i.old
                ∙ sym (append_assoc (inorder l) (y ∷ i.left) i.right);
            new =
                ap (λ zs. inorder l ++ (y ∷ zs)) i.new
                ∙ sym (append_assoc (inorder l) (y ∷ i.left) (x ∷ i.right));
            below =
                All-join (λ z. Before z x) (inorder l) (y ∷ i.left)
                  (All-Before_last (inorder l) y x (AllBefore-head (inorder l) (inorder r) y b)
                    hr.0.0 after)
                  (after, i.below);
            above = i.above;
          }
    ]

pub Has-insert :
    (y x : Region) (xs ys : List Region) → Has y (xs ++ (x ∷ ys)) ↔ ((y ≡ x) ⊎ Has y (xs ++ ys))
Has-insert y x xs ys = (there xs, back xs)
  where
    there : (xs : List Region) → Has y (xs ++ (x ∷ ys)) → (y ≡ x) ⊎ Has y (xs ++ ys)
    there [] h = h
    there (z ∷ xs) (inl e) = inr (inl e)
    there (z ∷ xs) (inr h) = elim (there xs h) [ inl e ↦ inl e | inr k ↦ inr (inr k) ]

    back : (xs : List Region) → (y ≡ x) ⊎ Has y (xs ++ ys) → Has y (xs ++ (x ∷ ys))
    back xs (inl e) = Has-append_right y xs (x ∷ ys) (inl e)
    back [] (inr h) = inr h
    back (z ∷ xs) (inr (inl e)) = inl e
    back (z ∷ xs) (inr (inr h)) = inr (back xs (inr h))

pub AllBefore-insert :
    (xs ys : List Region) (x : Region)
    → All (λ a. Before a x) xs
    → AllBefore xs ys
    → AllBefore xs (x ∷ ys)
AllBefore-insert [] ys x h b = tt
AllBefore-insert (a ∷ xs) ys x h b = ((h.0, b.0), AllBefore-insert xs ys x h.1 b.1)
