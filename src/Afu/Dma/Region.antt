-- ===== src/Afu/Dma/Region.antt =====
-- drivers/fpga/dfl-afu-dma-region.c: a region, and the test whether it contains a memory area.
-- u64 sums wrap.
use Prim.Native.Nat.{bit_and}
use linux_dfl_backport.Base.{
  ℕ, ◌+◌, ◌%◌, ◌^◌, Bool, true, false, not, ◌&&◌, List, [], ◌∷◌, leb, ◌==◌, if◌then◌else◌,
}

pub data Direction : Type 0 where
  bidirectional to_device from_device : Direction

-- struct dfl_afu_dma_region: `pages` are the frame numbers of the pinned pages.
pub record Region : Type 0 where
  pub user_addr : ℕ
  pub length : ℕ
  pub iova : ℕ
  pub pages : List ℕ
  pub in_use : Bool
  pub direction : Direction

abbrev pub u64 : ℕ → ℕ
u64 n = n % 2 ^ 64

unfoldable pub dma_region_check_iova : Region → ℕ → ℕ → Bool
dma_region_check_iova region iova size =
    if (size == 0) && not (region.iova == iova)
    then false
    else leb region.iova iova && leb (u64 (iova + size)) (u64 (region.length + region.iova))

abbrev pub dma_map_flag_read : ℕ
dma_map_flag_read = 1

abbrev pub dma_map_flag_write : ℕ
dma_map_flag_write = 2

-- The mask has the two bits, so that flags & mask is flags % 4.
unfoldable pub dma_flag_to_dir : ℕ → Direction
dma_flag_to_dir flags =
    let masked = bit_and flags 3 in
    if masked == dma_map_flag_read
    then to_device
    else if masked == dma_map_flag_write
    then from_device
    else bidirectional

-- afu_dma_check_continuous_pages.
unfoldable pub check_continuous : List ℕ → Bool
check_continuous [] = true
check_continuous (a ∷ []) = true
check_continuous (a ∷ b ∷ pages) = if a + 1 == b then check_continuous (b ∷ pages) else false
