-- ===== src/Afu/Dma/RoundTrip.antt =====
-- drivers/fpga/dfl-afu-dma-region.c: mapping and unmapping a region, and lengths that an int does not fit.
use linux_dfl_backport.Base.{
  ℕ, ◌+◌, ◌%◌, ◌^◌, ◌<◌, ◌≡◌, refl, ap, ◌∙◌, subst, true, false, not, ◌||◌, [], arith, ltb, ◌==◌,
  ok, All, ◌⊎◌, inl, inr, ◌↔◌, some,
}
use linux_dfl_backport.Afu.Dma.Region.{Region, u64, check_continuous}
use linux_dfl_backport.Afu.Dma.Tree.{Tree, inorder, Rbtree, add, remove, find_iova}
use linux_dfl_backport.Afu.Dma.Spaced.{IsArea, IsSpaced, Apart, Has, All-Has}
use linux_dfl_backport.Afu.Dma.Search.{find_iova_iff}
use linux_dfl_backport.Afu.Dma.Insert.{add-fresh, remove_lem}
use linux_dfl_backport.Afu.Dma.Map.{
  page_size, pfn_down, int_npages, Env, State, mapped_at, wild, afu_dma_map_region,
  afu_dma_unmap_region,
}
use linux_dfl_backport.Afu.Dma.Account.{FitsInt, new_region, Accounts, map_region-Accounts}
use linux_dfl_backport.Afu.Dma.Balance.{discharge, discharge-charge, unmap_found-free}

not-Apart_self : (x : Region) → IsArea x → ¬ Apart x x
not-Apart_self x h (inl b) = absurd (omega arith)
not-Apart_self x h (inr b) = absurd (omega arith)

-- What is left when a region was added and is then removed.
module _ (rb : Rbtree) (t t' : Tree) (x : Region) (spaced : IsSpaced (inorder t)) (area : IsArea x)
    (clear : All (Apart x) (inorder t)) (added : add rb t x ≡ ok t') where
  added-IsSpaced :
      IsSpaced (inorder t') × ((y : Region) → Has y (inorder t') ↔ ((y ≡ x) ⊎ Has y (inorder t)))
  added-IsSpaced =
      let (u, e, s, h) = add-fresh rb t x spaced area clear in
      let q : u ≡ t' = cc in
      (
        subst (λ v. IsSpaced (inorder v)) q s,
        subst (λ v. (y : Region) → Has y (inorder v) ↔ ((y ≡ x) ⊎ Has y (inorder t))) q h,
      )

  removed-Has : (y : Region) → Has y (inorder (remove rb t' x)) ↔ Has y (inorder t)
  removed-Has y =
      let (s, h) = added-IsSpaced in
      let (_, r) = remove_lem rb t' x s ((h x).1 (inl refl)) in
      (
        λ k. elim ((h y).0 ((r y).0 k).0) [ inl e ↦ absurd (((r y).0 k).1 e) | inr m ↦ m ],
        λ m. (r y).1 (
          (h y).1 (inr m),
          λ e.
              not-Apart_self x area
                (All-Has (Apart x) x (inorder t) clear (subst (λ z. Has z (inorder t)) e m)),
        ),
      )

-- Where the regions of the tree are in order and apart, a region that was mapped at an address
-- where it is not empty, does not wrap and is clear of the others, for a length whose count of
-- pages fits an int, can be unmapped by that address, which restores the ledger and the set of
-- regions.
pub map_unmap :
    (rb : Rbtree) (env : Env) (st st' : State) (user_addr len flags iova : ℕ)
    → FitsInt len
    → IsSpaced (inorder st.tree)
    → IsArea (new_region user_addr len flags iova [])
    → All (Apart (new_region user_addr len flags iova [])) (inorder st.tree)
    → afu_dma_map_region rb env st user_addr len flags ≡ (st', mapped_at iova)
    → (st'' : State) × (afu_dma_unmap_region rb st' iova ≡ (st'', ok tt))
      × (st''.ledger ≡ st.ledger)
      × ((y : Region) → Has y (inorder st''.tree) ↔ Has y (inorder st.tree))
unfolding afu_dma_unmap_region
map_unmap rb env st st' user_addr len flags iova fits spaced area clear e =
    let (l, pages, _, _, a) =
      subst (Accounts rb st user_addr len flags) e
        (map_region-Accounts rb st user_addr len flags env fits) in
    let x = new_region user_addr len flags iova pages in
    let (s, h) = added-IsSpaced rb st.tree st'.tree x spaced area clear a in
    let found : find_iova st'.tree iova ≡ some x =
      (find_iova_iff st'.tree iova x s (omega arith)).1 ((h x).1 (inl refl), refl) in
    (
      record { tree = remove rb st'.tree x; ledger = discharge (pfn_down len) st'.ledger },
      rw found (unfold remove in unmap_found-free rb st' x refl),
      ap (discharge (pfn_down len)) l ∙ discharge-charge (pfn_down len) st.ledger,
      removed-Has rb st.tree st'.tree x spaced area clear a,
    )

-- A length that is a multiple of 2^32 pages counts as no pages: when the kernel grants them, the
-- mapping reads the first entry of an array of no pages.
map_wild :
    (rb : Rbtree) (env : Env) (st : State) (user_addr len flags : ℕ)
    → (user_addr % page_size ≡ 0) × (len % page_size ≡ 0)
    → 0 < len
    → user_addr + len < 2 ^ 64
    → pfn_down len % 2 ^ 32 ≡ 0
    → env.region_alloc ≡ true
    → env.account_locked_vm 0 ≡ 0
    → env.pages_alloc 0 ≡ true
    → env.pin_user_pages 0 ≡ ok []
    → (afu_dma_map_region rb env st user_addr len flags).1 ≡ wild
unfolding afu_dma_map_region check_continuous
map_wild rb env st user_addr len flags aligned p n z a b c d =
    rw (guard, no_wrap, a) (rw (zero_npages, b, c, d) refl)
  where
    guard : (not (user_addr % page_size == 0) || (not (len % page_size == 0) || len == 0)) ≡ false
    guard = ground (arith, aligned)

    no_wrap : ltb (u64 (user_addr + len)) user_addr ≡ false
    no_wrap = ground arith

    zero_npages : int_npages len ≡ 0
    zero_npages = unfold int_npages in ground (arith, z)
