-- ===== src/Dfl/Feature/Ranges.antt =====
-- drivers/fpga/dfl.c: where the resource of a sub feature lies (create_feature_instance).
use linux_dfl_backport.Base.{
  ℕ, ◌+◌, ◌-◌, ◌*◌, ◌%◌, ◌^◌, ◌≤◌, ◌<◌, ◌≡◌, refl, ap, ◌∙◌, Bool, true, false, List, [], ◌∷◌, ◌++◌,
  Option, none, some, arith, ltb, ◌==◌, Result, ok, err, Bool-cases, ==_iff, ◌⊎◌, inl, inr,
}
use linux_dfl_backport.Dfl.Field.{field, bit, dfhv1_csr_addr, dfhv1_csr_size_grp}
use linux_dfl_backport.Dfl.Feature.{
  FeatureInfo, Binfo, Env, vectors, check_irqs, parse_feature_irqs, in_range, with_memory,
  v0_vectors, fresh_info, resource, create_feature_instance, port_id, checked_range, csr_end,
  v1_resource, append_feature, with_resource, add_instance,
}

-- The resource lies in the region that is enumerated.
abbrev pub InRegion : Binfo → FeatureInfo → Type 0
InRegion b f =
    (b.start ≤ f.res_start)
    × (f.res_start < b.start + b.len)
    × (b.start ≤ f.res_end)
    × (f.res_end < b.start + b.len)

-- What create_feature_instance may do to the list: nothing, or the addition of one sub feature at
-- its end.
abbrev pub Grows : (FeatureInfo → Type 0) → Binfo → Binfo × ℕ → Type 0
Grows P b (b', status) =
    (b' ≡ b)
    ⊎ ((status ≡ 0)
        × (f : FeatureInfo) × P f
        × (b' ≡ record b {
          sub_features = b.sub_features ++ f ∷ [];
          feature_num = b.feature_num + 1;
        }))

append-Grows :
    (P : FeatureInfo → Type 0) (b : Binfo) (f : FeatureInfo) (r : Result (ℕ × ℕ))
    → ((base n : ℕ) → P (record f { irq_base = base; nr_irqs = n }))
    → Grows P b (append_feature b f r)
unfolding append_feature
append-Grows P b f (err e) h = inl refl
append-Grows P b f (ok (base, n)) h = inr (refl, _, h base n, refl)

in_range_sound :
    (val start len : ℕ)
    → val < 2 ^ 64
    → start + len < 2 ^ 64
    → in_range val start len ≡ true
    → (start ≤ val) × (val < start + len)
unfolding in_range
in_range_sound val start len hv hl h = ground arith

with_resource-Grows :
    (P : FeatureInfo → Type 0) (env : Env) (b : Binfo) (ofst : ℕ) (f : FeatureInfo)
    (o : Option (ℕ × ℕ))
    → ((start end base n : ℕ)
        → o ≡ some (start, end)
        → P (record f { res_start = start; res_end = end; irq_base = base; nr_irqs = n }))
    → Grows P b (with_resource env b ofst f o)
unfolding with_resource
with_resource-Grows P env b ofst f none h = inl refl
with_resource-Grows P env b ofst f (some (start, end)) h =
    append-Grows P b (record f { res_start = start; res_end = end }) _
      (λ base n. h start end base n refl)

checked_range_sound :
    (b : Binfo) (s e start end : ℕ)
    → b.start + b.len < 2 ^ 64
    → s < 2 ^ 64
    → e < 2 ^ 64
    → checked_range b true s e ≡ some (start, end)
    → (b.start ≤ start) × (start < b.start + b.len) × (b.start ≤ end) × (end < b.start + b.len)
unfolding checked_range
checked_range_sound b s e start end small hs he h = elim (Bool-cases (in_range s b.start b.len)) [
  | inr x ↦ absurd (cc (rw x at h))
  | inl x ↦ elim (Bool-cases (in_range e b.start b.len)) [
    | inr y ↦ absurd (cc (rw (x, y) at h))
    | inl y ↦
        let q : some (s, e) ≡ some (start, end) = rw (x, y) at h in
        let qs : s ≡ start = cc q in
        let qe : e ≡ end = cc q in
        let (a, c) = in_range_sound s b.start b.len hs small x in
        let (d, f) = in_range_sound e b.start b.len he small y in
        (omega (arith, qs), omega (arith, qs), omega (arith, qe), omega (arith, qe))
  ]
]

csr_end-small : (start csr_size : ℕ) → start < 2 ^ 64 → csr_end start csr_size < 2 ^ 64
unfolding csr_end
csr_end-small start csr_size h = ground arith

-- The resource of a version 1 feature with a relative address.
v1_resource_sound :
    (env : Env) (b : Binfo) (ofst start end : ℕ)
    → b.start + b.len < 2 ^ 64
    → bit 0 (env.readq (b.start + ofst + dfhv1_csr_addr)) ≡ false
    → v1_resource env b ofst ≡ some (start, end)
    → (b.start ≤ start) × (start < b.start + b.len) × (b.start ≤ end) × (end < b.start + b.len)
unfolding v1_resource
v1_resource_sound env b ofst start end small rel h =
    let s =
      (b.start + ofst + field 1 63 (env.readq (b.start + ofst + dfhv1_csr_addr)) * 2) % 2 ^ 64 in
    let size = field 32 32 (env.readq (b.start + ofst + dfhv1_csr_size_grp)) in
    checked_range_sound b s (csr_end s size) start end small (omega arith)
      (csr_end-small s size (omega arith)) (rw rel at h)

-- A resource that create_feature_instance finds is in the region.
resource_sound :
    (env : Env) (b : Binfo) (ofst size version start end : ℕ)
    → b.start + b.len < 2 ^ 64
    → ltb ((b.len + 2 ^ 64 - ofst) % 2 ^ 64) size ≡ false
    → ofst ≤ b.len
    → 0 < size
    → (version ≡ 1 → bit 0 (env.readq (b.start + ofst + dfhv1_csr_addr)) ≡ false)
    → resource env b ofst size version ≡ some (start, end)
    → (b.start ≤ start) × (start < b.start + b.len) × (b.start ≤ end) × (end < b.start + b.len)
unfolding resource
resource_sound env b ofst size version start end small fits le p rel h =
    elim (Bool-cases (version == 1)) [
      | inl v ↦
          v1_resource_sound env b ofst start end small (rel ((==_iff version 1).0 v)) (rw v at h)
      | inr v ↦
          let q : some (b.start + ofst, (b.start + ofst + size + 2 ^ 64 - 1) % 2 ^ 64)
              ≡ some (start, end) =
            rw v at h in
          let qs : b.start + ofst ≡ start = cc q in
          let qe : (b.start + ofst + size + 2 ^ 64 - 1) % 2 ^ 64 ≡ end = cc q in
          let room : size + ofst ≤ b.len = ground (arith, fits) in
          (
            omega (arith, qs),
            omega (arith, qs, room),
            omega (arith, qe, room),
            omega (arith, qe, room),
          )
    ]

with_memory-Grows :
    (P : FeatureInfo → Type 0) (allocated : Bool) (env : Env) (b : Binfo) (ofst : ℕ)
    (f : FeatureInfo) (o : Option (ℕ × ℕ))
    → ((start end base n : ℕ)
        → o ≡ some (start, end)
        → P (record f { res_start = start; res_end = end; irq_base = base; nr_irqs = n }))
    → Grows P b (with_memory allocated env b ofst f o)
unfolding with_memory
with_memory-Grows P false env b ofst f o h = inl refl
with_memory-Grows P true env b ofst f o h = with_resource-Grows P env b ofst f o h

-- Create_feature_instance, from the test of the length on, leaves the list as it is or adds one sub
-- feature whose resource lies in the region, if the offset does, the size is not 0 and a version 1
-- address is relative.
pub add_instance-Grows :
    (env : Env) (b : Binfo) (ofst size fid revision version psize : ℕ)
    → b.start + b.len < 2 ^ 64
    → ofst ≤ b.len
    → 0 < size
    → (version ≡ 1 → bit 0 (env.readq (b.start + ofst + dfhv1_csr_addr)) ≡ false)
    → Grows (InRegion b) b (add_instance env b ofst size fid revision version psize)
unfolding add_instance
add_instance-Grows env b ofst size fid revision version psize small le p rel =
    elim (Bool-cases (ltb ((b.len + 2 ^ 64 - ofst) % 2 ^ 64) size)) [
      | inl e ↦ rw e (inl refl)
      | inr e ↦ rw e (
          with_memory-Grows (InRegion b) env.allocated env b ofst
            (fresh_info env b ofst fid revision version psize) (resource env b ofst size version)
            (λ start end base n q.
              resource_sound env b ofst size version start end small e le p rel q))
    ]

no_vectors :
    (env : Env) (b : Binfo) (ofst : ℕ) (params : List ℕ)
    → b.type ≡ some port_id
    → parse_feature_irqs env b ofst 0 0xff params ≡ ok (0, 0)
unfolding parse_feature_irqs vectors v0_vectors check_irqs
no_vectors env b ofst params t =
    ap (λ ty. check_irqs env (v0_vectors env ty (b.start + ofst) 0xff)) t

add_instance-beyond :
    (env : Env) (b : Binfo) (ofst size : ℕ)
    → b.len < ofst
    → ofst < 2 ^ 24
    → size < 2 ^ 26
    → env.allocated ≡ true
    → add_instance env b ofst size 0xff 0 0 0
      ≡ with_resource env b ofst
          (fresh_info env b ofst 0xff 0 0 0)
          (some (b.start + ofst, (b.start + ofst + size + 2 ^ 64 - 1) % 2 ^ 64))
unfolding add_instance resource with_memory
add_instance-beyond env b ofst size h k s a =
    let fits : ltb ((b.len + 2 ^ 64 - ofst) % 2 ^ 64) size ≡ false = ground arith in
    rw fits (
      ap
        (λ al.
          with_memory al env b ofst (fresh_info env b ofst 0xff 0 0 0)
            (some (b.start + ofst, (b.start + ofst + size + 2 ^ 64 - 1) % 2 ^ 64)))
        a)

-- An AFU of a port whose offset lies behind the region's end is added with a resource behind the
-- region's end.
afu_escapes :
    (env : Env) (b : Binfo) (ofst size : ℕ)
    → b.len < ofst
    → ofst < 2 ^ 24
    → size < 2 ^ 26
    → env.allocated ≡ true
    → b.type ≡ some port_id
    → (f : FeatureInfo) × (create_feature_instance env b ofst size 0xff
        ≡ some (
          record b { sub_features = b.sub_features ++ f ∷ []; feature_num = b.feature_num + 1 },
          0,
        ))
      × (b.start + b.len < f.res_start)
unfolding create_feature_instance with_resource append_feature fresh_info
afu_escapes env b ofst size h k s a t =
    let start = b.start + ofst in
    let end = (b.start + ofst + size + 2 ^ 64 - 1) % 2 ^ 64 in
    let f = record (fresh_info env b ofst 0xff 0 0 0) { res_start = start; res_end = end } in
    (
      record f { irq_base = 0; nr_irqs = 0 },
      ap some (
          add_instance-beyond env b ofst size h k s a
          ∙ ap (append_feature b f)
              (no_vectors env b ofst (fresh_info env b ofst 0xff 0 0 0).params t)),
      omega arith,
    )
