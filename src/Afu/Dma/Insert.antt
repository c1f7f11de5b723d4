-- ===== src/Afu/Dma/Insert.antt =====
-- drivers/fpga/dfl-afu-dma-region.c: afu_dma_region_add and afu_dma_region_remove.
use native.Mathlib.Decide.{ℕ_discrete}
use linux_dfl_backport.Base.{
  ℕ, ◌≡◌, ◌≢◌, refl, sym, ap, ◌∙◌, subst, true, List, [], ◌∷◌, ◌++◌, arith, All, ◌⊎◌, inl, inr, ◌↔◌,
  Result, ok, err, eexist,
}
use linux_dfl_backport.Afu.Dma.Region.{Region, dma_region_check_iova}
use linux_dfl_backport.Afu.Dma.Tree.{Tree, leaf, node, inorder, link, Rbtree, add, remove}
use linux_dfl_backport.Afu.Dma.Spaced.{
  IsArea, IsSpaced, Before, Apart, Has, IsSpaced-split, IsSpaced-join, IsSpaced-remove, All-split,
  Has-append_left, Has-append_right, All-Has,
}
use linux_dfl_backport.Afu.Dma.Link.{link-Linked, Has-insert, AllBefore-insert}

-- A region clear of all that are in the tree is added; the regions stay in order and apart, and the
-- new tree has exactly the old regions and the new one.
pub add-fresh :
    (rb : Rbtree) (t : Tree) (x : Region)
    → IsSpaced (inorder t)
    → IsArea x
    → All (Apart x) (inorder t)
    → (t' : Tree) × (add rb t x ≡ ok t')
      × IsSpaced (inorder t')
      × ((y : Region) → Has y (inorder t') ↔ ((y ≡ x) ⊎ Has y (inorder t)))
unfolding add
add-fresh rb t x h hx a =
    let i = link-Linked t x h hx a in
    let e = rb.inorder-insert_color i.tree ∙ i.new in
    let (sl, sr, b) = IsSpaced-split i.left i.right (subst IsSpaced i.old h) in
    (
      rb.insert_color i.tree,
      rw (i.linked, add),
      rw e (
          IsSpaced-join i.left (x ∷ i.right) sl (hx, i.above, sr)
            (AllBefore-insert i.left i.right x i.below b)),
      λ y. rw (e, i.old) (Has-insert y x i.left i.right),
    )

link-err_cases :
    (l r : Tree) (y x : Region) (e : ℕ)
    → link (node l y r) x ≡ err e
    → ((dma_region_check_iova y x.iova x.length ≡ true) × (e ≡ eexist))
      ⊎ ((y.iova ≡ x.iova) × (e ≡ eexist))
      ⊎ (link l x ≡ err e)
      ⊎ (link r x ≡ err e)
unfolding link
link-err_cases l r y x e h = ground arith

-- The walk refuses a region only for a region of the tree that contains it or starts where it does.
link-err :
    (t : Tree) (x : Region) (e : ℕ)
    → link t x ≡ err e
    → (e ≡ eexist)
      × (y : Region) × Has y (inorder t)
      × ((dma_region_check_iova y x.iova x.length ≡ true) ⊎ (y.iova ≡ x.iova))
unfolding link inorder
link-err leaf x e h = cc
link-err (node l y r) x e h = elim (link-err_cases l r y x e h) [
  | inl (c, q) ↦ (q, y, Has-append_right y (inorder l) (y ∷ inorder r) (inl refl), inl c)
  | inr (inl (c, q)) ↦ (q, y, Has-append_right y (inorder l) (y ∷ inorder r) (inl refl), inr c)
  | inr (inr (inl k)) ↦
      let (q, z, m, c) = link-err l x e k in
      (q, z, Has-append_left z (inorder l) (y ∷ inorder r) m, c)
  | inr (inr (inr k)) ↦
      let (q, z, m, c) = link-err r x e k in
      (q, z, Has-append_right z (inorder l) (y ∷ inorder r) (inr m), c)
]

-- The walk refuses a region only with -EEXIST, and only for a region of the tree that contains it
-- by the source's test or starts where it does.
add-err :
    (rb : Rbtree) (t : Tree) (x : Region) (e : ℕ)
    → add rb t x ≡ err e
    → (e ≡ eexist)
      × (y : Region) × Has y (inorder t)
      × ((dma_region_check_iova y x.iova x.length ≡ true) ⊎ (y.iova ≡ x.iova))
unfolding add
add-err rb t x e h = go (link t x) (link-err t x) h
  where
    go :
        (r : Result Tree)
        → ((e : ℕ)
            → r ≡ err e
            → (e ≡ eexist)
              × (y : Region) × Has y (inorder t)
              × ((dma_region_check_iova y x.iova x.length ≡ true) ⊎ (y.iova ≡ x.iova)))
        → elim r [ ok t' ↦ ok (rb.insert_color t') | err e' ↦ err e' ] ≡ err e
        → (e ≡ eexist)
          × (y : Region) × Has y (inorder t)
          × ((dma_region_check_iova y x.iova x.length ≡ true) ⊎ (y.iova ≡ x.iova))
    go (ok t') k q = cc
    go (err e') k q = k e q

pub Region-discrete : Discrete Region
Region-discrete = hlevel ℕ_discrete

-- The first place of a region in a list.
pub Has-split :
    (x : Region) (zs : List Region)
    → Has x zs
    → (xs : List Region) × (ys : List Region) × All (λ y. y ≢ x) xs × (zs ≡ xs ++ (x ∷ ys))
Has-split x [] h = absurd h
Has-split x (z ∷ zs) h = elim (Region-discrete z x) [
  | yes e ↦ ([], zs, tt, ap (λ a. a ∷ zs) e)
  | no ne ↦ elim h [
    | inl e ↦ absurd (ne (sym e))
    | inr k ↦ let (xs, ys, a, e) = Has-split x zs k in (z ∷ xs, ys, (ne, a), ap (◌∷◌ z) e)
  ]
]

-- Regions that are kept apart are not the one between them.
apart-ne :
    (xs ys : List Region) (x y : Region) → IsSpaced (xs ++ (x ∷ ys)) → Has y (xs ++ ys) → y ≢ x
apart-ne [] ys x y h k e =
    let b : Before x x = subst (Before x) e (All-Has (Before x) y ys h.1 k) in absurd (omega arith)
apart-ne (z ∷ xs) ys x y h (inl q) e =
    let b : Before x x =
      subst (λ a. Before a x) (sym q ∙ e) (All-split (Before z) xs (x ∷ ys) h.1).1.0 in
    let a : IsArea x = subst IsArea (sym q ∙ e) h.0 in absurd (omega arith)
apart-ne (z ∷ xs) ys x y h (inr k) e = apart-ne xs ys x y h.2 k e

-- The removal of a region of the tree leaves exactly the others, still in order and apart.
pub remove_lem :
    (rb : Rbtree) (t : Tree) (x : Region)
    → IsSpaced (inorder t)
    → Has x (inorder t)
    → IsSpaced (inorder (remove rb t x))
      × ((y : Region) → Has y (inorder (remove rb t x)) ↔ (Has y (inorder t) × (y ≢ x)))
unfolding remove
remove_lem rb t x h k =
    let (xs, ys, first, e) = Has-split x (inorder t) k in
    let gone = rb.inorder-erase t xs ys x first e in
    let s : IsSpaced (xs ++ (x ∷ ys)) = subst IsSpaced e h in
    (
      rw gone (IsSpaced-remove xs ys x s),
      λ y.
          rw (gone, e)
            (
              λ m. ((Has-insert y x xs ys).1 (inr m), apart-ne xs ys x y s m),
              λ (m, ne). elim ((Has-insert y x xs ys).0 m) [ inl q ↦ absurd (ne q) | inr r ↦ r ],
            ),
    )
