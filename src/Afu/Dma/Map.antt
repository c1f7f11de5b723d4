-- ===== src/Afu/Dma/Map.antt =====
-- drivers/fpga/dfl-afu-dma-region.c: pinning, afu_dma_map_region, afu_dma_unmap_region and
-- afu_dma_region_destroy, with a ledger of what the kernel has given out. The allocator, the
-- memory accounting, page pinning and the DMA API come as the functions of `Env`.
use linux_dfl_backport.Base.{
  ℕ, ◌+◌, ◌-◌, ◌/◌, ◌%◌, ◌^◌, Bool, false, not, ◌||◌, List, [], ◌∷◌, Option, none, some, ltb, ◌==◌,
  if◌then◌else◌, Result, ok, err, einval, enomem, efault, ebusy, length, is_nil,
}
use linux_dfl_backport.Afu.Dma.Region.{Region, Direction, u64, dma_flag_to_dir, check_continuous}
use linux_dfl_backport.Afu.Dma.Tree.{Tree, inorder, Rbtree, add, remove, find_iova}

abbrev pub page_size : ℕ
page_size = 4096

-- PFN_DOWN.
abbrev pub pfn_down : ℕ → ℕ
pfn_down n = n / page_size

-- `int npages = PFN_DOWN(length)`: the low 32 bits as a signed number, here as the unsigned long
-- that a call with it gets.
unfoldable pub int_npages : ℕ → ℕ
int_npages len =
    let low = pfn_down len % 2 ^ 32 in if ltb low (2 ^ 31) then low else 2 ^ 64 - 2 ^ 32 + low

-- What is out: region structs, page arrays, locked and pinned pages, DMA mappings.
pub record Ledger : Type 0 where
  pub regions : ℕ
  pub arrays : ℕ
  pub locked : ℕ
  pub pinned : ℕ
  pub mapped : ℕ

pub record Env : Type 0 where
  pub region_alloc : Bool
  pub account_locked_vm : ℕ → ℕ
  pub pages_alloc : ℕ → Bool
  pub pin_user_pages : ℕ → Result (List ℕ)
  -- The address that dma_map_page gives for a page, a length and a direction, if it gives one.
  pub dma_map_page : ℕ → ℕ → Direction → Option ℕ

abbrev unlock : ℕ → Ledger → Ledger
unlock n l = record l { locked = l.locked - n }

abbrev free_array : Ledger → Ledger
free_array l = record l { arrays = l.arrays - 1 }

abbrev unpin : ℕ → Ledger → Ledger
unpin n l = record l { pinned = l.pinned - n }

abbrev free_region : Ledger → Ledger
free_region l = record l { regions = l.regions - 1 }

abbrev unmap_page : Ledger → Ledger
unmap_page l = record l { mapped = l.mapped - 1 }

-- What pin_user_pages_fast gave, and the ways out at the end of afu_dma_pin_pages.
unfoldable pub pinned_pages : ℕ → Ledger → Result (List ℕ) → Ledger × Result (List ℕ)
pinned_pages n l (err e) = (unlock n (free_array l), err e)
pinned_pages n l (ok pages) =
    let l' = record l { pinned = l.pinned + length pages } in
    if length pages == n
    then (l', ok pages)
    else (unlock n (free_array (unpin (length pages) l')), err efault)

unfoldable pub afu_dma_pin_pages : Env → ℕ → Ledger → Ledger × Result (List ℕ)
unfolding pinned_pages
afu_dma_pin_pages env len l =
    let n = int_npages len in
    let status = env.account_locked_vm n in
    if not (status == 0)
    then (l, err status)
    else let l' = record l { locked = l.locked + n } in
      if not (env.pages_alloc n)
      then (unlock n l', err enomem)
      else pinned_pages n (record l' { arrays = l'.arrays + 1 }) (env.pin_user_pages n)

-- Here npages is a long.
unfoldable pub afu_dma_unpin_pages : ℕ → Ledger → Ledger
afu_dma_unpin_pages len l = let n = pfn_down len in unlock n (free_array (unpin n l))

-- The accelerator's tree and the ledger.
pub record State : Type 0 where
  pub tree : Tree
  pub ledger : Ledger

-- `wild` is the read of pages[0] in an array of no pages.
pub data Mapped : Type 0 where
  mapped_at : ℕ → Mapped
  refused : ℕ → Mapped
  wild : Mapped

module _ (rb : Rbtree) where
  -- What afu_dma_region_add gave; l is the ledger with the mapping.
  unfoldable pub map_added : State → Ledger → Region → Result Tree → State × Mapped
  unfolding afu_dma_unpin_pages
  map_added st l region (ok tree') = (record { tree = tree'; ledger = l }, mapped_at region.iova)
  map_added st l region (err e) = (
    record st { ledger = free_region (afu_dma_unpin_pages region.length (unmap_page l)) },
    refused e,
  )

  -- What dma_map_page gave for the first page.
  unfoldable pub map_dma :
      State → Ledger → (user_addr len flags : ℕ) → List ℕ → Option ℕ → State × Mapped
  unfolding map_added
  map_dma st l user_addr len flags pages none =
      (record st { ledger = free_region (afu_dma_unpin_pages len l) }, refused efault)
  map_dma st l user_addr len flags pages (some iova) =
      let region : Region = record {
        user_addr = user_addr;
        length = len;
        iova = iova;
        pages = pages;
        in_use = false;
        direction = dma_flag_to_dir flags;
      } in
      map_added st (record l { mapped = l.mapped + 1 }) region (add rb st.tree region)

  -- The mapping of pages[0].
  unfoldable pub map_page :
      Env → State → Ledger → (user_addr len flags : ℕ) → List ℕ → State × Mapped
  unfolding map_dma
  map_page env st l user_addr len flags [] = (record st { ledger = l }, wild)
  map_page env st l user_addr len flags (page ∷ pages) =
      map_dma st l user_addr len flags (page ∷ pages)
        (env.dma_map_page page len (dma_flag_to_dir flags))

  -- From the test for continuous pages on.
  unfoldable pub map_pinned :
      Env → State → (user_addr len flags : ℕ) → Ledger × Result (List ℕ) → State × Mapped
  unfolding map_page
  map_pinned env st user_addr len flags (l, err e) =
      (record st { ledger = free_region l }, refused e)
  map_pinned env st user_addr len flags (l, ok pages) =
      if not (check_continuous pages)
      then (record st { ledger = free_region (afu_dma_unpin_pages len l) }, refused einval)
      else map_page env st l user_addr len flags pages

  unfoldable pub afu_dma_map_region : Env → State → (user_addr len flags : ℕ) → State × Mapped
  unfolding afu_dma_pin_pages map_pinned
  afu_dma_map_region env st user_addr len flags =
      if not (user_addr % page_size == 0) || (not (len % page_size == 0) || len == 0)
      then (st, refused einval)
      else if ltb (u64 (user_addr + len)) user_addr
      then (st, refused einval)
      else if not env.region_alloc
      then (st, refused enomem)
      else map_pinned env st user_addr len flags
          (afu_dma_pin_pages env len (record (st.ledger) { regions = st.ledger.regions + 1 }))

  -- The release of a region that has left the tree.
  unfoldable pub unmap_found : State → Option Region → State × Result (Unit {0})
  unfolding afu_dma_unpin_pages
  unmap_found st none = (st, err einval)
  unmap_found st (some region) = if region.in_use then (st, err ebusy) else (
    record {
      tree = remove rb st.tree region;
      ledger = free_region (afu_dma_unpin_pages region.length (unmap_page st.ledger));
    },
    ok tt,
  )

  unfoldable pub afu_dma_unmap_region : State → ℕ → State × Result (Unit {0})
  unfolding unmap_found
  afu_dma_unmap_region st iova = unmap_found st (find_iova st.tree iova)

  -- One round of afu_dma_region_destroy.
  unfoldable pub destroy_one : State → Region → State
  unfolding afu_dma_unpin_pages
  destroy_one st region =
      let l = if region.iova == 0 then st.ledger else unmap_page st.ledger in
      let l' = if is_nil region.pages then l else afu_dma_unpin_pages region.length l in
      record { tree = rb.erase region st.tree; ledger = free_region l' }

  -- The nodes that rb_first and rb_next go through, from left to right.
  unfoldable pub destroy_all : State → List Region → State
  unfolding destroy_one
  destroy_all st [] = st
  destroy_all st (region ∷ rest) = destroy_all (destroy_one st region) rest

  unfoldable pub afu_dma_region_destroy : State → State
  unfolding destroy_all
  afu_dma_region_destroy st = destroy_all st (inorder st.tree)
