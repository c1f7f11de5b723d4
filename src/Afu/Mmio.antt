-- ===== src/Afu/Mmio.antt =====
-- drivers/fpga/dfl-afu-region.c: the MMIO regions of an accelerator, a list with the newest first.
-- devm_kzalloc comes as a Boolean; mutexes are left out, since each operation holds fdata->lock
-- from its first access to the list to its last.
use linux_dfl_backport.Base.{
  ℕ, suc, ◌+◌, ◌-◌, ◌*◌, ◌/◌, ◌%◌, ◌^◌, ◌≤◌, ◌<◌, ◌≡◌, refl, Bool, true, false, not, ◌&&◌, List, [],
  ◌∷◌, Option, none, some, arith, leb, ◌==◌, if◌then◌else◌, Result, ok, err, enomem, eexist, einval,
  is_none,
}
pub mod Layout
pub mod Tests

-- struct dfl_afu_mmio_region.
pub record Region : Type 0 where
  pub index : ℕ
  pub flags : ℕ
  pub size : ℕ
  pub offset : ℕ
  pub phys : ℕ

-- The fields of struct dfl_afu for regions.
pub record Afu : Type 0 where
  pub region_cur_offset : ℕ
  pub num_regions : ℕ
  pub regions : List Region

-- afu_mmio_region_init, on zeroed memory.
unfoldable pub init : Afu
init = record { region_cur_offset = 0; num_regions = 0; regions = [] }

unfoldable pub get_region_by_index : List Region → ℕ → Option Region
get_region_by_index [] index = none
get_region_by_index (r ∷ rs) index =
    if r.index == index then some r else get_region_by_index rs index

-- PAGE_ALIGN on u64, for pages of 4096 bytes: (x + 4095) & ~4095.
unfoldable pub page_align : ℕ → ℕ
page_align x = (x + 4095) % 2 ^ 64 / 4096 * 4096

unfoldable pub afu_mmio_region_add :
    (allocated : Bool) → Afu → (index size phys flags : ℕ) → Afu × Result (Unit {0})
unfolding page_align
afu_mmio_region_add allocated afu index size phys flags =
    if not allocated
    then (afu, err enomem)
    else if not (is_none (get_region_by_index afu.regions index))
    then (afu, err eexist)
    else (
      record {
        region_cur_offset = (afu.region_cur_offset + page_align size) % 2 ^ 64;
        num_regions = afu.num_regions + 1;
        regions =
            record {
              index = index;
              flags = flags;
              size = size;
              offset = afu.region_cur_offset;
              phys = phys;
            }
            ∷ afu.regions;
      },
      ok tt,
    )

unfoldable pub afu_mmio_region_get_by_index : Afu → ℕ → Result Region
unfolding get_region_by_index
afu_mmio_region_get_by_index afu index = elim (get_region_by_index afu.regions index) [
  | none ↦ err einval
  | some r ↦ ok r
]

-- The test of the search by offset; the sums are of u64 and wrap.
unfoldable pub covers : Region → ℕ → ℕ → Bool
covers r offset size =
    leb r.offset offset && leb ((offset + size) % 2 ^ 64) ((r.offset + r.size) % 2 ^ 64)

unfoldable pub find_by_offset : List Region → ℕ → ℕ → Result Region
find_by_offset [] offset size = err einval
find_by_offset (r ∷ rs) offset size =
    if covers r offset size then ok r else find_by_offset rs offset size

unfoldable pub afu_mmio_region_get_by_offset : Afu → ℕ → ℕ → Result Region
unfolding find_by_offset
afu_mmio_region_get_by_offset afu offset size = find_by_offset afu.regions offset size
