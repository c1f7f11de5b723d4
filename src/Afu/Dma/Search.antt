-- ===== src/Afu/Dma/Search.antt =====
-- drivers/fpga/dfl-afu-dma-region.c: the searches (afu_dma_region_find, afu_dma_region_find_iova).
use linux_dfl_backport.Base.{
  ℕ, ◌+◌, ◌^◌, ◌≤◌, ◌<◌, ◌≡◌, refl, sym, ◌∙◌, subst, true, false, List, [], ◌∷◌, ◌++◌, arith, inl,
  inr, some, ltb, Bool-cases, ◌↔◌, ltb→lt,
}
use linux_dfl_backport.Afu.Dma.Region.{Region, dma_region_check_iova}
use linux_dfl_backport.Afu.Dma.Tree.{Tree, leaf, node, inorder, find, find_iova}
use linux_dfl_backport.Afu.Dma.Spaced.{
  IsArea, IsSpaced, Before, Has, Has-append, Has-append_left, Has-append_right, IsSpaced-split,
  All-Has,
}

-- What the comment above dma_region_check_iova asks for: the area lies in the region, and an empty
-- area only at its start.
abbrev pub Contains : Region → ℕ → ℕ → Type 0
Contains x iova size =
    (x.iova ≤ iova) × (iova + size ≤ x.iova + x.length) × (size ≡ 0 → x.iova ≡ iova)

-- For regions and areas that do not wrap, the test is that containment.
pub check_iova_iff :
    (x : Region) (iova size : ℕ)
    → x.iova + x.length < 2 ^ 64
    → iova + size < 2 ^ 64
    → (dma_region_check_iova x iova size ≡ true) ↔ Contains x iova size
unfolding dma_region_check_iova
check_iova_iff x iova size hx ha = ground arith

find-here :
    (l r : Tree) (y : Region) (iova size : ℕ)
    → dma_region_check_iova y iova size ≡ true
    → find (node l y r) iova size ≡ some y
unfolding find
find-here l r y iova size h = rw h

find-left :
    (l r : Tree) (y : Region) (iova size : ℕ)
    → dma_region_check_iova y iova size ≡ false
    → iova < y.iova
    → find (node l y r) iova size ≡ find l iova size
unfolding find
find-left l r y iova size h k = ground arith

find-right :
    (l r : Tree) (y : Region) (iova size : ℕ)
    → dma_region_check_iova y iova size ≡ false
    → y.iova < iova
    → find (node l y r) iova size ≡ find r iova size
unfolding find
find-right l r y iova size h k = ground arith

-- A region before the one that contains the area, or after it, fails the test.
check-Before :
    (y x : Region) (iova size : ℕ)
    → IsArea y
    → IsArea x
    → Before y x
    → Contains x iova size
    → iova + size < 2 ^ 64
    → (dma_region_check_iova y iova size ≡ false) × (y.iova < iova)
unfolding dma_region_check_iova
check-Before y x iova size hy hx b c n = ground arith

check-after :
    (x y : Region) (iova size : ℕ)
    → IsArea x
    → IsArea y
    → Before x y
    → Contains x iova size
    → (dma_region_check_iova y iova size ≡ false) × (iova < y.iova)
unfolding dma_region_check_iova
check-after x y iova size hx hy b c = ground arith

IsSpaced-Has : (x : Region) (xs : List Region) → IsSpaced xs → Has x xs → IsArea x
IsSpaced-Has x [] h k = absurd k
IsSpaced-Has x (y ∷ xs) h (inl e) = subst IsArea (sym e) h.0
IsSpaced-Has x (y ∷ xs) h (inr k) = IsSpaced-Has x xs h.2 k

module _ (x : Region) (iova size : ℕ) (inside : Contains x iova size)
    (n : iova + size < 2 ^ 64) where
  find_complete : (t : Tree) → IsSpaced (inorder t) → Has x (inorder t) → find t iova size ≡ some x
  unfolding inorder
  find_complete leaf h k = absurd k
  find_complete (node l y r) h k =
      let (hl, hr, b) = IsSpaced-split (inorder l) (y ∷ inorder r) h in
      let area = IsSpaced-Has x (inorder l ++ (y ∷ inorder r)) h k in
      elim (Has-append x (inorder l) (y ∷ inorder r) k) [
        | inl left ↦
            let (c, lt) =
              check-after x y iova size area hr.0 (All-Has _ x (inorder l) b left).0 inside in
            find-left l r y iova size c lt ∙ find_complete l hl left
        | inr (inl e) ↦ rw e (
            find-here l r y iova size (
              (check_iova_iff y iova size hr.0.1 n).1 (subst (λ z. Contains z iova size) e inside)))
        | inr (inr right) ↦
            let (c, lt) =
              check-Before y x iova size hr.0 area (All-Has _ x (inorder r) hr.1 right) inside n in
            find-right l r y iova size c lt ∙ find_complete r hr.2 right
      ]

pub find_sound :
    (t : Tree) (iova size : ℕ) (x : Region)
    → find t iova size ≡ some x
    → Has x (inorder t) × (dma_region_check_iova x iova size ≡ true)
unfolding find inorder
find_sound leaf iova size x h = cc
find_sound (node l y r) iova size x h = elim (Bool-cases (dma_region_check_iova y iova size)) [
  | inl c ↦
      let e : y ≡ x = cc (find-here l r y iova size c) in
      (
        Has-append_right x (inorder l) (y ∷ inorder r) (inl (sym e)),
        subst (λ z. dma_region_check_iova z iova size ≡ true) e c,
      )
  | inr c ↦ elim (Bool-cases (ltb iova y.iova)) [
    | inl lt ↦
        let (a, b) =
          find_sound l iova size x (sym (find-left l r y iova size c (ltb→lt _ _ lt)) ∙ h) in
        (Has-append_left x (inorder l) (y ∷ inorder r) a, b)
    | inr ge ↦ elim (Bool-cases (ltb y.iova iova)) [
      | inl gt ↦
          let (a, b) =
            find_sound r iova size x (sym (find-right l r y iova size c (ltb→lt _ _ gt)) ∙ h) in
          (Has-append_right x (inorder l) (y ∷ inorder r) (inr a), b)
      | inr eq ↦ absurd (ground (arith, h))
    ]
  ]
]

-- In a tree of regions that lie apart, the search for an area that does not wrap finds a region
-- exactly if it is in the tree and contains the area.
pub find_iff :
    (t : Tree) (iova size : ℕ) (x : Region)
    → IsSpaced (inorder t)
    → iova + size < 2 ^ 64
    → (find t iova size ≡ some x) ↔ (Has x (inorder t) × Contains x iova size)
find_iff t iova size x h n = (
  λ e.
      let (a, b) = find_sound t iova size x e in
      (a, (check_iova_iff x iova size (IsSpaced-Has x (inorder t) h a).1 n).0 b),
  λ (a, c). find_complete x iova size c n t h a,
)

-- In such a tree, the search by start address finds a region exactly if it is in the tree and
-- starts there.
pub find_iova_iff :
    (t : Tree) (iova : ℕ) (x : Region)
    → IsSpaced (inorder t)
    → iova < 2 ^ 64
    → (find_iova t iova ≡ some x) ↔ (Has x (inorder t) × (x.iova ≡ iova))
unfolding find_iova
find_iova_iff t iova x h n =
    let (there, back) = find_iff t iova 0 x h (omega arith) in
    (
      λ e. let (a, c) = there e in (a, c.2 refl),
      λ (a, c). back (a, (omega arith, omega arith, λ _. c)),
    )
