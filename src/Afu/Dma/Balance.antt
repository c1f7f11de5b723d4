-- ===== src/Afu/Dma/Balance.antt =====
-- drivers/fpga/dfl-afu-dma-region.c: the ledger beside the regions of the tree.
use mathlib.Core.List.{append_assoc}
use linux_dfl_backport.Base.{
  ℕ, ◌-◌, ◌<◌, ◌≡◌, ◌≢◌, refl, sym, ap, ◌∙◌, subst, true, false, List, [], ◌∷◌, ◌++◌, some, arith,
  Result, ok, err, ebusy, length, is_nil, All, ◌⊎◌, inl, inr, Bool-cases, Option-cases,
}
use linux_dfl_backport.Afu.Dma.Region.{Region}
use linux_dfl_backport.Afu.Dma.Tree.{
  Tree, leaf, node, inorder, link, Rbtree, add, remove, find_iova,
}
use linux_dfl_backport.Afu.Dma.Spaced.{Has, All-split, All-join}
use linux_dfl_backport.Afu.Dma.Search.{find_sound}
use linux_dfl_backport.Afu.Dma.Insert.{Has-split}
use linux_dfl_backport.Afu.Dma.Map.{
  pfn_down, Ledger, Env, State, Mapped, mapped_at, refused, wild, afu_dma_map_region, unmap_found,
  afu_dma_unmap_region, destroy_one, destroy_all, afu_dma_region_destroy,
}
use linux_dfl_backport.Afu.Dma.Account.{FitsInt, charge, new_region, Accounts, map_region-Accounts}

abbrev pub empty_ledger : Ledger
empty_ledger = record { regions = 0; arrays = 0; locked = 0; pinned = 0; mapped = 0 }

-- What regions take together.
unfoldable pub total : List Region → Ledger
total [] = empty_ledger
total (x ∷ xs) = charge (pfn_down x.length) (total xs)

-- A region of the tree has its pages.
abbrev pub IsPinned : Region → Type 0
IsPinned x = (length x.pages ≡ pfn_down x.length) × (0 < pfn_down x.length)

pub record IsBalanced (st : State) : Type 0 where
  pub even : st.ledger ≡ total (inorder st.tree)
  pub pinned : All IsPinned (inorder st.tree)

total-middle :
    (xs ys : List Region) (x : Region)
    → total (xs ++ (x ∷ ys)) ≡ charge (pfn_down x.length) (total (xs ++ ys))
unfolding total
total-middle [] ys x = refl
total-middle (z ∷ xs) ys x = ap (charge (pfn_down z.length)) (total-middle xs ys x) ∙ ground arith

link-ok_cases :
    (l r : Tree) (y x : Region) (t' : Tree)
    → link (node l y r) x ≡ ok t'
    → ((l' : Tree) × (link l x ≡ ok l') × (t' ≡ node l' y r))
      ⊎ ((r' : Tree) × (link r x ≡ ok r') × (t' ≡ node l y r'))
unfolding link
link-ok_cases l r y x t' h = ground arith

-- A region that is added stands somewhere between the others.
link-shape :
    (t : Tree) (x : Region) (t' : Tree)
    → link t x ≡ ok t'
    → (xs : List Region) × (ys : List Region) × (inorder t ≡ xs ++ ys)
      × (inorder t' ≡ xs ++ (x ∷ ys))
unfolding link inorder
link-shape leaf x t' h = ([], [], refl, ground arith)
link-shape (node l y r) x t' h = elim (link-ok_cases l r y x t' h) [
  | inl (l', e, q) ↦
      let (xs, ys, a, b) = link-shape l x l' e in
      (
        xs,
        ys ++ (y ∷ inorder r),
        ap (λ zs. zs ++ (y ∷ inorder r)) a ∙ append_assoc xs ys (y ∷ inorder r),
        ap inorder q
            ∙ ap (λ zs. zs ++ (y ∷ inorder r)) b
            ∙ append_assoc xs (x ∷ ys) (y ∷ inorder r),
      )
  | inr (r', e, q) ↦
      let (xs, ys, a, b) = link-shape r x r' e in
      (
        inorder l ++ (y ∷ xs),
        ys,
        ap (λ zs. inorder l ++ (y ∷ zs)) a ∙ sym (append_assoc (inorder l) (y ∷ xs) ys),
        ap inorder q
            ∙ ap (λ zs. inorder l ++ (y ∷ zs)) b
            ∙ sym (append_assoc (inorder l) (y ∷ xs) (x ∷ ys)),
      )
]

add-shape :
    (rb : Rbtree) (t : Tree) (x : Region) (t' : Tree)
    → add rb t x ≡ ok t'
    → (xs : List Region) × (ys : List Region) × (inorder t ≡ xs ++ ys)
      × (inorder t' ≡ xs ++ (x ∷ ys))
unfolding add
add-shape rb t x t' h = go (link t x) (link-shape t x) h
  where
    go :
        (r : Result Tree)
        → ((u : Tree)
            → r ≡ ok u
            → (xs : List Region) × (ys : List Region) × (inorder t ≡ xs ++ ys)
              × (inorder u ≡ xs ++ (x ∷ ys)))
        → elim r [ ok u ↦ ok (rb.insert_color u) | err e ↦ err e ] ≡ ok t'
        → (xs : List Region) × (ys : List Region) × (inorder t ≡ xs ++ ys)
          × (inorder t' ≡ xs ++ (x ∷ ys))
    go (ok u) k q =
        let (xs, ys, a, b) = k u refl in
        let e : rb.insert_color u ≡ t' = cc q in
        (xs, ys, a, ap inorder (sym e) ∙ rb.inorder-insert_color u ∙ b)
    go (err e) k q = cc

-- Afu_dma_map_region keeps the ledger equal to what the regions of the tree take, on every path,
-- for a length whose count of pages fits an int.
pub map-IsBalanced :
    (rb : Rbtree) (env : Env) (st : State) (user_addr len flags : ℕ)
    → IsBalanced st
    → FitsInt len
    → IsBalanced (afu_dma_map_region rb env st user_addr len flags).0
map-IsBalanced rb env st user_addr len flags b f =
    go (afu_dma_map_region rb env st user_addr len flags)
      (map_region-Accounts rb st user_addr len flags env f)
  where
    go : (r : State × Mapped) → Accounts rb st user_addr len flags r → IsBalanced r.0
    go (st', refused e) a = subst IsBalanced (sym a) b
    go (st', wild) a = absurd a
    go (st', mapped_at iova) (l, pages, n, p, e) =
        let x = new_region user_addr len flags iova pages in
        let (xs, ys, old, new) = add-shape rb st.tree x st'.tree e in
        let (hx, hy) = All-split IsPinned xs ys (subst (All IsPinned) old b.pinned) in
        record {
          even =
              l
              ∙ ap (charge (pfn_down len)) (b.even ∙ ap total old)
              ∙ sym (ap total new ∙ total-middle xs ys x);
          pinned = subst (All IsPinned) (sym new) (All-join IsPinned xs (x ∷ ys) hx ((n, p), hy));
        }

-- What a release gives back.
unfoldable pub discharge : ℕ → Ledger → Ledger
discharge n l = record {
  regions = l.regions - 1;
  arrays = l.arrays - 1;
  locked = l.locked - n;
  pinned = l.pinned - n;
  mapped = l.mapped - 1;
}

pub discharge-charge : (n : ℕ) (l : Ledger) → discharge n (charge n l) ≡ l
unfolding discharge
discharge-charge n l = ground arith

pub unmap_found-free :
    (rb : Rbtree) (st : State) (x : Region)
    → x.in_use ≡ false
    → unmap_found rb st (some x) ≡ (
      record { tree = rb.erase x st.tree; ledger = discharge (pfn_down x.length) st.ledger },
      ok tt,
    )
unfolding unmap_found remove discharge
unmap_found-free rb st x u = simp u

unmap_found-busy :
    (rb : Rbtree) (st : State) (x : Region)
    → x.in_use ≡ true
    → unmap_found rb st (some x) ≡ (st, err ebusy)
unfolding unmap_found
unmap_found-busy rb st x u = simp u

unmap_found-IsBalanced :
    (rb : Rbtree) (st : State) (x : Region)
    → IsBalanced st
    → Has x (inorder st.tree)
    → IsBalanced (unmap_found rb st (some x)).0
unmap_found-IsBalanced rb st x b h = elim (Bool-cases x.in_use) [
  | inl u ↦ rw (unmap_found-busy rb st x u) b
  | inr u ↦
      let (xs, ys, first, e) = Has-split x (inorder st.tree) h in
      let (hx, hy) = All-split IsPinned xs (x ∷ ys) (subst (All IsPinned) e b.pinned) in
      let gone = sym (rb.inorder-erase st.tree xs ys x first e) in
      rw (unmap_found-free rb st x u) (record {
        even =
            ap (discharge (pfn_down x.length)) (b.even ∙ ap total e ∙ total-middle xs ys x)
            ∙ discharge-charge (pfn_down x.length) (total (xs ++ ys))
            ∙ ap total gone;
        pinned = subst (All IsPinned) gone (All-join IsPinned xs ys hx hy.1);
      })
]

-- Afu_dma_unmap_region keeps the ledger equal to what the regions of the tree take, on every path.
pub unmap-IsBalanced :
    (rb : Rbtree) (st : State) (iova : ℕ)
    → IsBalanced st
    → IsBalanced (afu_dma_unmap_region rb st iova).0
unfolding afu_dma_unmap_region
unmap-IsBalanced rb st iova b = elim (Option-cases (find_iova st.tree iova)) [
  | inl e ↦ rw e b
  | inr (x, e) ↦
      rw e
        (unmap_found-IsBalanced rb st x b (unfold find_iova in (find_sound st.tree iova 0 x e).0))
]

destroy_one-head :
    (rb : Rbtree) (st : State) (x : Region) (xs : List Region)
    → st.ledger ≡ total (x ∷ xs)
    → inorder st.tree ≡ x ∷ xs
    → IsPinned x
    → x.iova ≢ 0
    → ((destroy_one rb st x).ledger ≡ total xs) × (inorder (destroy_one rb st x).tree ≡ xs)
unfolding destroy_one total discharge
destroy_one-head rb st x xs l e (n, p) z = (
  spent ∙ ap (discharge (pfn_down x.length)) l ∙ discharge-charge (pfn_down x.length) (total xs),
  rb.inorder-erase st.tree [] xs x tt e,
)
  where
    full : is_nil x.pages ≡ false
    full = grind (arith, n, p)

    spent : (destroy_one rb st x).ledger ≡ discharge (pfn_down x.length) st.ledger
    spent = ground (arith, full, z)

destroy_all-frees :
    (rb : Rbtree) (xs : List Region) (st : State)
    → st.ledger ≡ total xs
    → inorder st.tree ≡ xs
    → All IsPinned xs
    → All (λ x. x.iova ≢ 0) xs
    → ((destroy_all rb st xs).ledger ≡ empty_ledger) × (inorder (destroy_all rb st xs).tree ≡ [])
unfolding destroy_all total
destroy_all-frees rb [] st l e p z = (l, e)
destroy_all-frees rb (x ∷ xs) st l e p z =
    let (l', e') = destroy_one-head rb st x xs l e p.0 z.0 in
    destroy_all-frees rb xs (destroy_one rb st x) l' e' p.1 z.1

-- Afu_dma_region_destroy gives back all that is out and empties the tree, where no region is mapped
-- at address 0.
pub destroy_frees :
    (rb : Rbtree) (st : State)
    → IsBalanced st
    → All (λ x. x.iova ≢ 0) (inorder st.tree)
    → ((afu_dma_region_destroy rb st).ledger ≡ empty_ledger)
      × (inorder (afu_dma_region_destroy rb st).tree ≡ [])
unfolding afu_dma_region_destroy
destroy_frees rb st b z = destroy_all-frees rb (inorder st.tree) st b.even refl b.pinned z
