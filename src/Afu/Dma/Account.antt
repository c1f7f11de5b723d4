-- ===== src/Afu/Dma/Account.antt =====
-- drivers/fpga/dfl-afu-dma-region.c: what a call of afu_dma_map_region does to tree and ledger.
use linux_dfl_backport.Base.{
  ℕ, ◌+◌, ◌%◌, ◌^◌, ◌<◌, ◌≡◌, refl, false, not, ◌||◌, List, [], ◌∷◌, Option, none, some, arith, ltb,
  ==_iff, Bool-cases, ◌==◌, Result, ok, err, length, inl, inr,
}
use linux_dfl_backport.Afu.Dma.Region.{Region, u64, dma_flag_to_dir, check_continuous}
use linux_dfl_backport.Afu.Dma.Tree.{Tree, Rbtree, add}
use linux_dfl_backport.Afu.Dma.Map.{
  page_size, pfn_down, int_npages, Ledger, Env, pinned_pages, afu_dma_pin_pages, State, Mapped,
  mapped_at, refused, wild, map_added, map_dma, map_page, map_pinned, afu_dma_map_region,
}

-- For regions below 8 TiB the count of pages fits an int.
abbrev pub FitsInt : ℕ → Type 0
FitsInt len = pfn_down len < 2 ^ 31

int_npages-FitsInt : (len : ℕ) → FitsInt len → int_npages len ≡ pfn_down len
unfolding int_npages
int_npages-FitsInt len h = ground arith

-- What a region takes, of a ledger.
abbrev pub charge : ℕ → Ledger → Ledger
charge n l = record {
  regions = l.regions + 1;
  arrays = l.arrays + 1;
  locked = l.locked + n;
  pinned = l.pinned + n;
  mapped = l.mapped + 1;
}

-- The ledger once the region and its pages are there, before the mapping.
abbrev held : ℕ → Ledger → Ledger
held n l = record {
  regions = l.regions + 1;
  arrays = l.arrays + 1;
  locked = l.locked + n;
  pinned = l.pinned + n;
  mapped = l.mapped;
}

abbrev pub new_region : (user_addr len flags iova : ℕ) (pages : List ℕ) → Region
new_region user_addr len flags iova pages = record {
  user_addr = user_addr;
  length = len;
  iova = iova;
  pages = pages;
  in_use = false;
  direction = dma_flag_to_dir flags;
}

module _ (rb : Rbtree) (st : State) (user_addr len flags : ℕ) where
  -- What a call of afu_dma_map_region may have done: a refusal leaves the tree and the ledger as
  -- they were; a success charges the region once, and adds it to the tree with all its pages.
  abbrev pub Accounts : State × Mapped → Type 0
  Accounts (st', refused e) = st' ≡ st
  Accounts (st', wild) = ⊥
  Accounts (st', mapped_at iova) =
      (st'.ledger ≡ charge (pfn_down len) st.ledger)
      × (pages : List ℕ) × (length pages ≡ pfn_down len)
      × (0 < pfn_down len)
      × (add rb st.tree (new_region user_addr len flags iova pages) ≡ ok st'.tree)

  map_added-Accounts :
      (iova : ℕ) (pages : List ℕ) (r : Result Tree)
      → length pages ≡ pfn_down len
      → 0 < pfn_down len
      → add rb st.tree (new_region user_addr len flags iova pages) ≡ r
      → Accounts (
          map_added rb st
            (charge (pfn_down len) st.ledger)
            (new_region user_addr len flags iova pages)
            r)
  unfolding map_added
  map_added-Accounts iova pages (ok t) h p e = (refl, pages, h, p, e)
  map_added-Accounts iova pages (err x) h p e = ground arith

  map_dma-Accounts :
      (pages : List ℕ) (o : Option ℕ)
      → length pages ≡ pfn_down len
      → 0 < pfn_down len
      → Accounts (map_dma rb st (held (pfn_down len) st.ledger) user_addr len flags pages o)
  unfolding map_dma
  map_dma-Accounts pages none h p = ground arith
  map_dma-Accounts pages (some iova) h p = map_added-Accounts iova pages _ h p refl

  map_page-Accounts :
      (env : Env) (pages : List ℕ)
      → length pages ≡ pfn_down len
      → 0 < pfn_down len
      → Accounts (map_page rb env st (held (pfn_down len) st.ledger) user_addr len flags pages)
  unfolding map_page
  map_page-Accounts env [] h p = absurd (omega arith)
  map_page-Accounts env (page ∷ pages) h p = map_dma-Accounts (page ∷ pages) _ h p

  -- The ledger with the region struct alone.
  abbrev struct_only : Ledger
  struct_only = record (st.ledger) { regions = st.ledger.regions + 1 }

  -- Pinning gives all back when it fails, and holds every page of the region otherwise.
  abbrev Pinned : Ledger × Result (List ℕ) → Type 0
  Pinned (l, err e) = l ≡ struct_only
  Pinned (l, ok pages) = (l ≡ held (pfn_down len) st.ledger) × (length pages ≡ pfn_down len)

  pinned_pages-Pinned :
      (r : Result (List ℕ))
      → Pinned (
          pinned_pages
            (pfn_down len)
            (record (held (pfn_down len) st.ledger) { pinned = st.ledger.pinned })
            r)
  unfolding pinned_pages
  pinned_pages-Pinned (err e) = ground arith
  pinned_pages-Pinned (ok pages) = elim (Bool-cases (length pages == pfn_down len)) [
    | inl e ↦ let q = (==_iff (length pages) (pfn_down len)).0 e in rw e (ground (arith, q), q)
    | inr e ↦ rw e (ground arith)
  ]

  pin_pages-Pinned : (env : Env) → FitsInt len → Pinned (afu_dma_pin_pages env len struct_only)
  unfolding afu_dma_pin_pages
  pin_pages-Pinned env f =
      rw (int_npages-FitsInt len f) (elim (Bool-cases (env.account_locked_vm (pfn_down len) == 0)) [
        | inr e ↦ rw e refl
        | inl e ↦ rw e (elim (Bool-cases (env.pages_alloc (pfn_down len))) [
          | inr a ↦ rw a (ground arith)
          | inl a ↦ rw a (pinned_pages-Pinned (env.pin_user_pages (pfn_down len)))
        ])
      ])

  map_pinned-Accounts :
      (env : Env) (p : Ledger × Result (List ℕ))
      → 0 < pfn_down len
      → Pinned p
      → Accounts (map_pinned rb env st user_addr len flags p)
  unfolding map_pinned
  map_pinned-Accounts env (l, err e) p h = rw h (ground arith)
  map_pinned-Accounts env (l, ok pages) p (h, k) =
      rw h (elim (Bool-cases (check_continuous pages)) [
        | inl e ↦ rw e (map_page-Accounts env pages k p)
        | inr e ↦ rw e (ground arith)
      ])

  -- A call of afu_dma_map_region that is refused leaves tree and ledger as they were, and one that
  -- succeeds charges the region once and adds it to the tree with all its pages, for a length whose
  -- count of pages fits an int.
  pub map_region-Accounts :
      (env : Env) → FitsInt len → Accounts (afu_dma_map_region rb env st user_addr len flags)
  unfolding afu_dma_map_region
  map_region-Accounts env f =
      elim (Bool-cases
        (not (user_addr % page_size == 0) || (not (len % page_size == 0) || len == 0))) [
          | inl e ↦ rw e refl
          | inr e ↦ rw e (elim (Bool-cases (ltb (u64 (user_addr + len)) user_addr)) [
            | inl o ↦ rw o refl
            | inr o ↦ rw o (elim (Bool-cases env.region_alloc) [
              | inr a ↦ rw a refl
              | inl a ↦
                  rw a (map_pinned-Accounts env _ (ground (arith, e)) (pin_pages-Pinned env f))
            ])
          ])
        ]
