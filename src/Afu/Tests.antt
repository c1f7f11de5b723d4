-- ===== src/Afu/Tests.antt =====
-- drivers/fpga/dfl-afu-dma-region.c and dfl-afu-region.c: runs on a small set of regions. The
-- tree of the tests is a spine to the right, rebuilt at each change.
use linux_dfl_backport.Base.{
  ℕ, ◌≡◌, ◌≢◌, refl, ap, ◌∙◌, true, List, [], ◌∷◌, ◌++◌, arith, inl, inr, ok, All, some, ◌↔◌, ◌⊎◌,
}
use linux_dfl_backport.Afu.Dma.Region.{Region, check_continuous, dma_region_check_iova}
use linux_dfl_backport.Afu.Dma.Tree.{Tree, leaf, node, inorder, Rbtree, add, find}
use linux_dfl_backport.Afu.Dma.Spaced.{IsSpaced, Apart, Has}
use linux_dfl_backport.Afu.Dma.Search.{Contains, find_iff}
use linux_dfl_backport.Afu.Dma.Insert.{Region-discrete, add-fresh}
use linux_dfl_backport.Afu.Dma.Map.{
  Env, State, mapped_at, afu_dma_map_region, afu_dma_unmap_region, afu_dma_region_destroy,
  int_npages,
}
use linux_dfl_backport.Afu.Dma.Account.{new_region, Accounts, map_region-Accounts}
use linux_dfl_backport.Afu.Dma.Balance.{
  IsBalanced, empty_ledger, total, map-IsBalanced, unmap-IsBalanced, destroy_frees,
}
use linux_dfl_backport.Afu.Dma.RoundTrip.{map_unmap}

spine : List Region → Tree
spine [] = leaf
spine (x ∷ xs) = node leaf x (spine xs)

inorder-spine : (xs : List Region) → inorder (spine xs) ≡ xs
unfolding inorder spine
inorder-spine [] = refl
inorder-spine (x ∷ xs) = ap (◌∷◌ x) (inorder-spine xs)

drop_one : Region → List Region → List Region
drop_one x [] = []
drop_one x (y ∷ ys) = elim (Region-discrete y x) [ yes e ↦ ys | no ne ↦ y ∷ drop_one x ys ]

drop_one-first :
    (x : Region) (xs ys : List Region)
    → All (λ y. y ≢ x) xs
    → drop_one x (xs ++ (x ∷ ys)) ≡ xs ++ ys
unfolding drop_one
drop_one-first x [] ys h =
    elim (Region-discrete x x) as (λ d. elim d [ yes e ↦ ys | no ne ↦ x ∷ drop_one x ys ] ≡ ys) [
      | yes e ↦ refl
      | no ne ↦ absurd (ne refl)
    ]
drop_one-first x (z ∷ xs) ys h =
    elim (Region-discrete z x)
      as (λ d.
        elim d [ yes e ↦ xs ++ (x ∷ ys) | no ne ↦ z ∷ drop_one x (xs ++ (x ∷ ys)) ]
        ≡ z ∷ (xs ++ ys)) [
          | yes e ↦ absurd (h.0 e)
          | no ne ↦ ap (◌∷◌ z) (drop_one-first x xs ys h.1)
        ]

rb : Rbtree
rb = record {
  insert_color = λ t. t;
  erase = λ x t. spine (drop_one x (inorder t));
  inorder-insert_color = λ t. refl;
  inorder-erase = λ t xs ys x h e.
      inorder-spine (drop_one x (inorder t)) ∙ ap (drop_one x) e ∙ drop_one-first x xs ys h;
}

abbrev pages_at : ℕ → ℕ → Region
pages_at iova page = new_region 0x10000 4096 0 iova (page ∷ [])

-- Two regions with a gap of a page.
abbrev two : Tree
two = node leaf (pages_at 0x1000 7) (node leaf (pages_at 0x3000 9) leaf)

abbrev two_pages : State
two_pages = record {
  tree = two;
  ledger = record { regions = 2; arrays = 2; locked = 2; pinned = 2; mapped = 2 };
}

two-IsSpaced : IsSpaced (inorder two)
unfolding inorder
two-IsSpaced = ground arith

two-IsBalanced : IsBalanced two_pages
unfolding inorder total
two-IsBalanced = record { even = refl; pinned = ground arith }

-- The kernel maps page 11 at 0x2000.
abbrev env : Env
env = record {
  region_alloc = true;
  account_locked_vm = λ n. 0;
  pages_alloc = λ n. true;
  pin_user_pages = λ n. ok (11 ∷ []);
  dma_map_page = λ page len dir. some 0x2000;
}

find_iff_example :
    (find two 0x3800 0x800 ≡ some (pages_at 0x3000 9))
    ↔ (Has (pages_at 0x3000 9) (inorder two) × Contains (pages_at 0x3000 9) 0x3800 0x800)
find_iff_example = find_iff two 0x3800 0x800 (pages_at 0x3000 9) two-IsSpaced (omega arith)

two-clear : All (Apart (pages_at 0x2000 11)) (inorder two)
unfolding inorder
two-clear = (inr (omega arith), (inl (omega arith), tt))

add-fresh_example :
    (t' : Tree) × (add rb two (pages_at 0x2000 11) ≡ ok t')
    × IsSpaced (inorder t')
    × ((y : Region) → Has y (inorder t') ↔ ((y ≡ pages_at 0x2000 11) ⊎ Has y (inorder two)))
add-fresh_example =
    add-fresh rb two (pages_at 0x2000 11) two-IsSpaced (omega arith, omega arith) two-clear

map_region-Accounts_example :
    Accounts rb two_pages 0x10000 4096 0 (afu_dma_map_region rb env two_pages 0x10000 4096 0)
map_region-Accounts_example = map_region-Accounts rb two_pages 0x10000 4096 0 env (omega arith)

map-IsBalanced_example : IsBalanced (afu_dma_map_region rb env two_pages 0x10000 4096 0).0
map-IsBalanced_example = map-IsBalanced rb env two_pages 0x10000 4096 0 two-IsBalanced (omega arith)

unmap-IsBalanced_example : IsBalanced (afu_dma_unmap_region rb two_pages 0x3000).0
unmap-IsBalanced_example = unmap-IsBalanced rb two_pages 0x3000 two-IsBalanced

destroy_frees_example :
    ((afu_dma_region_destroy rb two_pages).ledger ≡ empty_ledger)
    × (inorder (afu_dma_region_destroy rb two_pages).tree ≡ [])
destroy_frees_example = destroy_frees rb two_pages two-IsBalanced (unfold inorder in ground arith)

abbrev three_pages : State
three_pages = record {
  tree =
      node leaf (pages_at 0x1000 7) (
        node (node leaf (new_region 0x10000 4096 0 0x2000 (11 ∷ [])) leaf) (pages_at 0x3000 9)
          leaf);
  ledger = record { regions = 3; arrays = 3; locked = 3; pinned = 3; mapped = 3 };
}

three-mapped : afu_dma_map_region rb env two_pages 0x10000 4096 0 ≡ (three_pages, mapped_at 0x2000)
unfolding rb afu_dma_map_region int_npages check_continuous add dma_region_check_iova
three-mapped = refl

map_unmap_example :
    (st'' : State) × (afu_dma_unmap_region rb three_pages 0x2000 ≡ (st'', ok tt))
    × (st''.ledger ≡ two_pages.ledger)
    × ((y : Region) → Has y (inorder st''.tree) ↔ Has y (inorder two))
map_unmap_example =
    map_unmap rb env two_pages three_pages 0x10000 4096 0 0x2000 (omega arith) two-IsSpaced
      (omega arith, omega arith) two-clear three-mapped
