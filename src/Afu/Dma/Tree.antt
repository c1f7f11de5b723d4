-- ===== src/Afu/Dma/Tree.antt =====
-- drivers/fpga/dfl-afu-dma-region.c: the tree operations. Rebalancing (rb_insert_color) and removal
-- (rb_erase) are the kernel's and come as a record of operations with their documented effect on
-- the order of the nodes.
use linux_dfl_backport.Base.{
  ℕ, ◌≡◌, ◌≢◌, All, List, [], ◌∷◌, ◌++◌, Option, none, some, ltb, if◌then◌else◌, Result, ok, err,
  eexist,
}
use linux_dfl_backport.Afu.Dma.Region.{Region, dma_region_check_iova}

pub data Tree : Type 0 where
  leaf : Tree
  node : Tree → Region → Tree → Tree

-- The regions from left to right.
unfoldable pub inorder : Tree → List Region
inorder leaf = []
inorder (node l x r) = inorder l ++ (x ∷ inorder r)

-- `erase` takes a node out; where several have the same contents, it is the first.
pub record Rbtree : Type 0 where
  pub insert_color : Tree → Tree
  pub erase : Region → Tree → Tree
  pub inorder-insert_color : (t : Tree) → inorder (insert_color t) ≡ inorder t
  pub inorder-erase :
      (t : Tree) (xs ys : List Region) (x : Region)
      → All (λ y. y ≢ x) xs
      → inorder t ≡ xs ++ (x ∷ ys)
      → inorder (erase x t) ≡ xs ++ ys

abbrev pub in_left : Region → Tree → Result Tree → Result Tree
in_left x r (ok l) = ok (node l x r)
in_left x r (err e) = err e

abbrev pub in_right : Tree → Region → Result Tree → Result Tree
in_right l x (ok r) = ok (node l x r)
in_right l x (err e) = err e

-- The walk of afu_dma_region_add, and rb_link_node at its end.
unfoldable pub link : Tree → Region → Result Tree
link leaf region = ok (node leaf region leaf)
link (node l this r) region =
    let left = link l region in
    let right = link r region in
    if dma_region_check_iova this region.iova region.length
    then err eexist
    else if ltb region.iova this.iova
    then in_left this r left
    else if ltb this.iova region.iova
    then in_right l this right
    else err eexist

unfoldable pub find : Tree → ℕ → ℕ → Option Region
find leaf iova size = none
find (node l region r) iova size =
    let left = find l iova size in
    let right = find r iova size in
    if dma_region_check_iova region iova size
    then some region
    else if ltb iova region.iova
    then left
    else if ltb region.iova iova
    then right
    else none

-- afu_dma_region_find_iova.
unfoldable pub find_iova : Tree → ℕ → Option Region
unfolding find
find_iova t iova = find t iova 0

module _ (rb : Rbtree) where
  -- afu_dma_region_add.
  unfoldable pub add : Tree → Region → Result Tree
  unfolding link
  add t region = elim (link t region) [ ok t' ↦ ok (rb.insert_color t') | err e ↦ err e ]

  -- afu_dma_region_remove.
  unfoldable pub remove : Tree → Region → Tree
  remove t region = rb.erase region t
