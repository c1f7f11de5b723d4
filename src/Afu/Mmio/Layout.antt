-- ===== src/Afu/Mmio/Layout.antt =====
-- drivers/fpga/dfl-afu-region.c: the layout of the MMIO regions in the device file.
use linux_dfl_backport.Base.{
  ℕ, ◌+◌, ◌*◌, ◌/◌, ◌^◌, ◌≤◌, ◌<◌, ◌≡◌, refl, sym, ap, subst, Bool, true, false, not, List, [], ◌∷◌,
  Option, none, some, arith, ok, err, einval, eexist, is_none, Bool-cases, ◌⊎◌, inl, inr, ◌↔◌,
  length, ==_iff, Option-cases,
}
use linux_dfl_backport.Afu.Mmio.{
  Region, Afu, init, get_region_by_index, page_align, afu_mmio_region_add,
  afu_mmio_region_get_by_index, covers, find_by_offset, afu_mmio_region_get_by_offset,
}

-- The size that a region takes in the device file: whole pages.
abbrev pub span : Region → ℕ
span r = (r.size + 4095) / 4096 * 4096

-- Each region starts where the one before it ends; the last one ends at `cur`.
abbrev pub Tiles : List Region → ℕ → Type 0
Tiles [] cur = cur ≡ 0
Tiles (r ∷ rs) cur =
    (r.offset + span r ≡ cur) × (get_region_by_index rs r.index ≡ none) × Tiles rs r.offset

pub record IsLaidOut (afu : Afu) : Type 0 where
  pub tiles : Tiles afu.regions afu.region_cur_offset
  pub counted : afu.num_regions ≡ length afu.regions
  pub small : afu.region_cur_offset < 2 ^ 64

pub init-IsLaidOut : IsLaidOut init
unfolding init
init-IsLaidOut = record { tiles = refl; counted = refl; small = omega arith }

-- The device file has room for one more region of this size.
abbrev pub HasSpace : Afu → ℕ → Type 0
HasSpace afu size = afu.region_cur_offset + size + 4095 < 2 ^ 64

page_align-span : (size : ℕ) → size + 4095 < 2 ^ 64 → page_align size ≡ (size + 4095) / 4096 * 4096
unfolding page_align
page_align-span size h = omega arith

is_none→none : (o : Option Region) → not (is_none o) ≡ false → o ≡ none
is_none→none none h = refl
is_none→none (some r) h = cc

-- Afu_mmio_region_add keeps the regions side by side in the device file and their indices apart,
-- whatever it returns, while the offsets do not pass 2^64.
pub add-IsLaidOut :
    (allocated : Bool) (afu : Afu) (index size phys flags : ℕ)
    → IsLaidOut afu
    → HasSpace afu size
    → IsLaidOut (afu_mmio_region_add allocated afu index size phys flags).0
unfolding afu_mmio_region_add
add-IsLaidOut false afu index size phys flags l s = l
add-IsLaidOut true afu index size phys flags l s =
    elim (Bool-cases (not (is_none (get_region_by_index afu.regions index)))) [
      | inl used ↦ rw used l
      | inr free ↦ rw free (record {
        tiles = (omega (arith, page_align-span size), is_none→none _ free, l.tiles);
        counted = omega (arith, l.counted);
        small = omega (arith, page_align-span size);
      })
    ]

-- The region is an entry of the list.
abbrev pub Has : Region → List Region → Type 0
Has a [] = ⊥
Has a (x ∷ xs) = (a ≡ x) ⊎ Has a xs

-- An area of the device file that lies in the pages of a region, from its first byte to its last.
abbrev pub Within : Region → ℕ → ℕ → Type 0
Within r offset size = (r.offset ≤ offset) × (offset + size ≤ r.offset + r.size)

Tiles-bound :
    (rs : List Region) (cur : ℕ) (r : Region) → Tiles rs cur → Has r rs → r.offset + span r ≤ cur
Tiles-bound [] cur r t h = absurd h
Tiles-bound (x ∷ rs) cur r t (inl e) = subst (λ z. z.offset + span z ≤ cur) (sym e) (omega arith)
Tiles-bound (x ∷ rs) cur r t (inr h) = omega (arith, Tiles-bound rs x.offset r t.2 h)

covers_iff :
    (r : Region) (offset size : ℕ)
    → r.offset + r.size < 2 ^ 64
    → offset + size < 2 ^ 64
    → (covers r offset size ≡ true) ↔ Within r offset size
unfolding covers
covers_iff r offset size h k = ground arith

find_by_offset_sound :
    (rs : List Region) (offset size : ℕ) (r : Region)
    → find_by_offset rs offset size ≡ ok r
    → Has r rs × (covers r offset size ≡ true)
unfolding find_by_offset
find_by_offset_sound [] offset size r h = cc
find_by_offset_sound (x ∷ rs) offset size r h = elim (Bool-cases (covers x offset size)) [
  | inl c ↦
      let e : x ≡ r = ground (arith, h, c) in
      (inl (sym e), subst (λ z. covers z offset size ≡ true) e c)
  | inr c ↦ let (a, b) = find_by_offset_sound rs offset size r (rw c at h) in (inr a, b)
]

find_by_offset_complete :
    (rs : List Region) (cur offset size : ℕ) (r : Region)
    → Tiles rs cur
    → cur < 2 ^ 64
    → Has r rs
    → 0 < size
    → offset + size < 2 ^ 64
    → Within r offset size
    → find_by_offset rs offset size ≡ ok r
unfolding find_by_offset
find_by_offset_complete [] cur offset size r t s h p n w = absurd h
find_by_offset_complete (x ∷ rs) cur offset size r t s (inl e) p n w =
    let c = (covers_iff x offset size (omega arith) n).1 (subst (λ z. Within z offset size) e w) in
    rw c (ap ok (sym e))
find_by_offset_complete (x ∷ rs) cur offset size r t s (inr h) p n w =
    let b = Tiles-bound rs x.offset r t.2 h in
    let c : covers x offset size ≡ false = unfold covers in ground (arith, b, w) in
    rw c (find_by_offset_complete rs x.offset offset size r t.2 (omega arith) h p n w)

-- For an area that is not empty and does not wrap, the search by offset finds a region exactly if
-- it is one of the accelerator's and contains the area.
pub get_by_offset_iff :
    (afu : Afu) (offset size : ℕ) (r : Region)
    → IsLaidOut afu
    → 0 < size
    → offset + size < 2 ^ 64
    → (afu_mmio_region_get_by_offset afu offset size ≡ ok r)
      ↔ (Has r afu.regions × Within r offset size)
unfolding afu_mmio_region_get_by_offset
get_by_offset_iff afu offset size r l p n = (
  λ e.
      let (h, c) = find_by_offset_sound afu.regions offset size r e in
      let b = Tiles-bound afu.regions afu.region_cur_offset r l.tiles h in
      (h, (covers_iff r offset size (omega (arith, l.small, b)) n).0 c),
  λ (h, w).
      find_by_offset_complete afu.regions afu.region_cur_offset offset size r l.tiles l.small h p n
        w,
)

abbrev made : Afu → (index size phys flags : ℕ) → Region
made afu index size phys flags = record {
  index = index;
  flags = flags;
  size = size;
  offset = afu.region_cur_offset;
  phys = phys;
}

get_region-head : (r : Region) (rs : List Region) → get_region_by_index (r ∷ rs) r.index ≡ some r
unfolding get_region_by_index
get_region-head r rs = rw ((==_iff r.index r.index).1 refl)

get_by_index-some :
    (afu : Afu) (index : ℕ) (r : Region)
    → get_region_by_index afu.regions index ≡ some r
    → afu_mmio_region_get_by_index afu index ≡ ok r
unfolding afu_mmio_region_get_by_index
get_by_index-some afu index r e = rw (e, afu_mmio_region_get_by_index)

get_by_index-none :
    (afu : Afu) (index : ℕ)
    → get_region_by_index afu.regions index ≡ none
    → afu_mmio_region_get_by_index afu index ≡ err einval
unfolding afu_mmio_region_get_by_index
get_by_index-none afu index e = rw (e, afu_mmio_region_get_by_index)

-- Adding a region whose index is taken is refused with -EEXIST and changes nothing; otherwise the
-- region is found under its index at the old end of the device file.
add-get_by_index :
    (afu : Afu) (index size phys flags : ℕ)
    → let (afu', r) = afu_mmio_region_add true afu index size phys flags in
      ((r ≡ err eexist)
        × (afu' ≡ afu)
        × ((x : Region) × (afu_mmio_region_get_by_index afu index ≡ ok x)))
      ⊎ ((r ≡ ok tt)
          × (afu_mmio_region_get_by_index afu index ≡ err einval)
          × (afu_mmio_region_get_by_index afu' index
              ≡ ok (record {
                index = index;
                flags = flags;
                size = size;
                offset = afu.region_cur_offset;
                phys = phys;
              })))
unfolding afu_mmio_region_add
add-get_by_index afu index size phys flags =
    elim (Option-cases (get_region_by_index afu.regions index)) [
      | inr (x, e) ↦ inl (rw e refl, rw e refl, (x, get_by_index-some afu index x e))
      | inl e ↦ inr (
        rw e refl,
        get_by_index-none afu index e,
        rw e (
            get_by_index-some _ index (made afu index size phys flags)
              (get_region-head (made afu index size phys flags) afu.regions)),
      )
    ]

-- An area behind a region that wraps around 2^64 and ends before the region's end passes the test
-- of the search by offset.
covers_wraps :
    (r : Region) (offset size : ℕ)
    → r.offset + r.size ≤ offset
    → offset < 2 ^ 64
    → 2 ^ 64 ≤ offset + size
    → offset + size ≤ 2 ^ 64 + (r.offset + r.size)
    → covers r offset size ≡ true
unfolding covers
covers_wraps r offset size h o w e = ground arith
