-- ===== src/Afu/Mmio/Tests.antt =====
-- drivers/fpga/dfl-afu-region.c: runs on an accelerator with two MMIO regions.
use linux_dfl_backport.Base.{◌≡◌, refl, true, [], ◌∷◌, arith, ok, ◌↔◌}
use linux_dfl_backport.Afu.Mmio.{
  Region, Afu, init, afu_mmio_region_add, get_region_by_index, page_align,
  afu_mmio_region_get_by_offset,
}
use linux_dfl_backport.Afu.Mmio.Layout.{IsLaidOut, Has, Within, add-IsLaidOut, get_by_offset_iff}

abbrev uafu : Region
uafu = record { index = 0; flags = 7; size = 0x40000; offset = 0; phys = 0xf0000000 }

abbrev stp : Region
stp = record { index = 1; flags = 3; size = 0x1800; offset = 0x40000; phys = 0xf0100000 }

-- The user clock's region and the signal tap's, of a page and a half.
abbrev two_regions : Afu
two_regions = record { region_cur_offset = 0x42000; num_regions = 2; regions = stp ∷ uafu ∷ [] }

two-IsLaidOut : IsLaidOut two_regions
unfolding get_region_by_index
two-IsLaidOut = record { tiles = ground arith; counted = refl; small = omega arith }

add_two :
    (afu_mmio_region_add true
      (afu_mmio_region_add true init 0 0x40000 0xf0000000 7).0
      1
      0x1800
      0xf0100000
      3).0
    ≡ two_regions
unfolding afu_mmio_region_add page_align init get_region_by_index
add_two = refl

add-IsLaidOut_example : IsLaidOut (afu_mmio_region_add true two_regions 2 0x1000 0xf0200000 3).0
add-IsLaidOut_example =
    add-IsLaidOut true two_regions 2 0x1000 0xf0200000 3 two-IsLaidOut (omega arith)

get_by_offset_iff_example :
    (afu_mmio_region_get_by_offset two_regions 0x41000 0x800 ≡ ok stp)
    ↔ (Has stp two_regions.regions × Within stp 0x41000 0x800)
get_by_offset_iff_example =
    get_by_offset_iff two_regions 0x41000 0x800 stp two-IsLaidOut (omega arith) (omega arith)
