-- ===== src/Dfl/Param/Sizes.antt =====
-- drivers/fpga/dfl.c: the loops of dfh_get_param_size and feature_size.
use linux_dfl_backport.Base.{
  ℕ, zero, suc, ◌+◌, ◌-◌, ◌*◌, ◌%◌, ◌^◌, ◌≤◌, ◌<◌, ◌≡◌, ◌≢◌, refl, ap, ◌∙◌, subst, true, false,
  List, [], ◌∷◌, ◌++◌, none, some, arith, ◌==◌, ltb, length, length-append, All, Bool-cases, ==_iff,
  inl, inr, ltb→lt, lt→ltb,
}
use linux_dfl_backport.Dfl.Field.{
  dfh_next_hdr_ofst, dfh_eol, dfh_type, dfh_type_interface, bit, dfhv1_csr_size_grp,
  dfhv1_param_hdr, param_hdr_next_eop, param_hdr_next_offset,
}
use linux_dfl_backport.Dfl.Param.{
  int_as_u64, param_size_from, dfh_get_param_size, feature_size_from, feature_size,
}
use linux_dfl_backport.Dfl.Param.Blocks.{Block, IsBlock, header, encode, header-fields}

-- The device's registers from an address on hold the words.
abbrev pub Holds : (ℕ → ℕ) → ℕ → List ℕ → Type 0
Holds readq addr [] = Unit
Holds readq addr (w ∷ ws) = (readq addr ≡ w) × Holds readq (addr + 8) ws

Holds-append :
    (readq : ℕ → ℕ) (addr : ℕ) (xs ys : List ℕ)
    → Holds readq addr (xs ++ ys)
    → Holds readq (addr + length xs * 8) ys
Holds-append readq addr [] ys h = subst (λ a. Holds readq a ys) (omega arith) h
Holds-append readq addr (x ∷ xs) ys h =
    subst (λ a. Holds readq a ys) (omega arith) (Holds-append readq (addr + 8) xs ys h.1)

module _ (readq : ℕ → ℕ) (dfh_base max : ℕ) where
  -- One round at a block that lies below max.
  round-last :
      (n size : ℕ) (b : Block)
      → IsBlock b
      → readq (dfh_base + dfhv1_param_hdr + size) ≡ header true b
      → size + (length b.words + 1) * 8 + dfhv1_param_hdr ≤ max
      → max < 2 ^ 31
      → param_size_from readq (suc n) dfh_base max size ≡ some (size + (length b.words + 1) * 8)
  unfolding param_size_from int_as_u64
  round-last n size b h e fits small =
      let pos : ltb size (2 ^ 31) ≡ true = lt→ltb size (2 ^ 31) (omega arith) in
      rw (pos, e) (ground (arith, header-fields true b h))

  round-next :
      (n size : ℕ) (b : Block)
      → IsBlock b
      → readq (dfh_base + dfhv1_param_hdr + size) ≡ header false b
      → size + (length b.words + 1) * 8 + dfhv1_param_hdr ≤ max
      → max < 2 ^ 31
      → param_size_from readq (suc n) dfh_base max size
        ≡ param_size_from readq n dfh_base max (size + (length b.words + 1) * 8)
  unfolding param_size_from int_as_u64
  round-next n size b h e fits small =
      let (i, p, o) = header-fields false b h in
      let wrap : (size + (length b.words + 1) * 8) % 2 ^ 32 ≡ size + (length b.words + 1) * 8 =
        omega arith in
      let pos : ltb size (2 ^ 31) ≡ true = lt→ltb size (2 ^ 31) (omega arith) in
      rw (pos, e, p, o, wrap) (ground arith)

  param_size_from-encode :
      (bs : List Block) (b : Block) (n size : ℕ)
      → length bs < n
      → All IsBlock (b ∷ bs)
      → Holds readq (dfh_base + dfhv1_param_hdr + size) (encode (b ∷ bs))
      → size + length (encode (b ∷ bs)) * 8 + dfhv1_param_hdr ≤ max
      → max < 2 ^ 31
      → param_size_from readq n dfh_base max size ≡ some (size + length (encode (b ∷ bs)) * 8)
  unfolding encode
  param_size_from-encode bs b zero size lt k h fits small = absurd (omega arith)
  param_size_from-encode [] b (suc n) size lt k h fits small =
      round-last n size b k.0 h.0 (omega arith) small ∙ ap some (omega arith)
  param_size_from-encode (c ∷ bs) b (suc n) size lt k h fits small =
      let len = length-append b.words (encode (c ∷ bs)) in
      round-next n size b k.0 h.0 (omega (arith, len)) small
      ∙ param_size_from-encode bs c n (size + (length b.words + 1) * 8) (omega arith) k.1
          (subst (λ a. Holds readq a (encode (c ∷ bs))) (omega arith)
            (Holds-append readq (dfh_base + dfhv1_param_hdr + size + 8) b.words (encode (c ∷ bs))
              h.1))
          (omega (arith, len)) small
      ∙ ap some (omega (arith, len))

-- A header that lies `next` bytes before the one that is read after it, and is not the last.
abbrev pub LeadsOn : ℕ → ℕ → Type 0
LeadsOn next v = (param_hdr_next_eop v ≡ false) × (param_hdr_next_offset v * 8 ≡ next)

module _ (readq : ℕ → ℕ) (dfh_base max s : ℕ) where
  loop_once :
      (n size next : ℕ)
      → LeadsOn next (readq (dfh_base + dfhv1_param_hdr + size))
      → 0 < next
      → size + dfhv1_param_hdr < max
      → max < 2 ^ 31
      → param_size_from readq (suc n) dfh_base max size
        ≡ param_size_from readq n dfh_base max ((size + next) % 2 ^ 32)
  unfolding param_size_from int_as_u64
  loop_once n size next (e, o) p lt small =
      let pos : ltb size (2 ^ 31) ≡ true = lt→ltb size (2 ^ 31) (omega arith) in
      rw (pos, e, o) (ground (arith, o))

  both_loop :
      (n : ℕ)
      → LeadsOn s (readq (dfh_base + dfhv1_param_hdr + 0))
      → LeadsOn (2 ^ 32 - s) (readq (dfh_base + dfhv1_param_hdr + s))
      → 0 < s
      → s + dfhv1_param_hdr < max
      → max < 2 ^ 31
      → (param_size_from readq n dfh_base max 0 ≡ none)
        × (param_size_from readq n dfh_base max s ≡ none)
  both_loop zero h k p lt small = unfold param_size_from in (refl, refl)
  both_loop (suc n) h k p lt small =
      let (a, b) = both_loop n h k p lt small in
      (
        loop_once n 0 s h p (omega arith) small
            ∙ ap (param_size_from readq n dfh_base max) (omega arith)
            ∙ b,
        loop_once n s (2 ^ 32 - s) k (omega arith) lt small
            ∙ ap (param_size_from readq n dfh_base max) (omega arith)
            ∙ a,
      )

-- Where a device says that it has parameters and its registers hold the words of a list of blocks
-- that fits, dfh_get_param_size returns the size of those words.
pub get_param_size-encode :
    (readq : ℕ → ℕ) (dfh_base max fuel : ℕ) (b : Block) (bs : List Block)
    → bit 31 (readq (dfh_base + dfhv1_csr_size_grp)) ≡ true
    → length bs < fuel
    → All IsBlock (b ∷ bs)
    → Holds readq (dfh_base + dfhv1_param_hdr) (encode (b ∷ bs))
    → length (encode (b ∷ bs)) * 8 + dfhv1_param_hdr ≤ max
    → max < 2 ^ 31
    → dfh_get_param_size readq fuel dfh_base max ≡ some (length (encode (b ∷ bs)) * 8)
unfolding dfh_get_param_size
get_param_size-encode readq dfh_base max fuel b bs has enough k h fits small = rw has (
    param_size_from-encode readq dfh_base max bs b fuel 0 enough k
      (subst (λ a. Holds readq a (encode (b ∷ bs))) (omega arith) h) (omega arith) small
    ∙ ap some (omega arith))

-- Dfh_get_param_size never ends on two headers of which the second leads back to the first by the
-- wrap of the int size.
param_size_loops :
    (readq : ℕ → ℕ) (dfh_base max s fuel : ℕ)
    → bit 31 (readq (dfh_base + dfhv1_csr_size_grp)) ≡ true
    → LeadsOn s (readq (dfh_base + dfhv1_param_hdr))
    → LeadsOn (2 ^ 32 - s) (readq (dfh_base + dfhv1_param_hdr + s))
    → 0 < s
    → s + dfhv1_param_hdr < max
    → max < 2 ^ 31
    → dfh_get_param_size readq fuel dfh_base max ≡ none
unfolding dfh_get_param_size
param_size_loops readq dfh_base max s fuel has h k p lt small =
    rw has
      (both_loop readq dfh_base max s fuel (subst (λ a. LeadsOn s (readq a)) (omega arith) h) k p lt
        small).0

-- An interface header that is not the end of the list.
abbrev pub IsInner : ℕ → Type 0
IsInner v = (dfh_type v ≡ dfh_type_interface) × (dfh_eol v ≡ false)

feature_size_from-stuck :
    (readq : ℕ → ℕ) (n dfh_ioaddr end ofst : ℕ)
    → IsInner (readq (dfh_ioaddr + ofst))
    → dfh_next_hdr_ofst (readq (dfh_ioaddr + ofst)) ≡ 0
    → dfh_ioaddr + ofst < end
    → ofst < 2 ^ 32
    → feature_size_from readq n dfh_ioaddr end ofst ≡ none
unfolding feature_size_from
feature_size_from-stuck readq zero dfh_ioaddr end ofst h z lt small = refl
feature_size_from-stuck readq (suc n) dfh_ioaddr end ofst (t, e) z lt small =
    let stay : (ofst + 0) % 2 ^ 32 ≡ ofst = omega arith in
    rw (t, e, z, stay)
      (ground (arith, feature_size_from-stuck readq n dfh_ioaddr end ofst (t, e) z lt small))

-- Feature_size never ends on an interface header without a distance to the next that is not the
-- last.
feature_size_loops :
    (readq : ℕ → ℕ) (fuel dfh_ioaddr end value : ℕ)
    → dfh_next_hdr_ofst value ≢ 0
    → dfh_eol value ≡ false
    → IsInner (readq (dfh_ioaddr + dfh_next_hdr_ofst value))
    → dfh_next_hdr_ofst (readq (dfh_ioaddr + dfh_next_hdr_ofst value)) ≡ 0
    → dfh_ioaddr + dfh_next_hdr_ofst value < end
    → feature_size readq fuel dfh_ioaddr end value ≡ none
unfolding feature_size
feature_size_loops readq fuel dfh_ioaddr end value ne e h z lt =
    let s =
      feature_size_from-stuck readq fuel dfh_ioaddr end (dfh_next_hdr_ofst value) h z lt
        (omega arith) in
    ground (arith, s)

module _ (readq : ℕ → ℕ) (dfh_ioaddr end : ℕ)
    (go_on : (a : ℕ) → IsInner (readq a) → dfh_next_hdr_ofst (readq a) ≢ 0)
    (small : end + 2 ^ 24 < dfh_ioaddr + 2 ^ 32) where
  feature_size_from-ends :
      (n ofst : ℕ)
      → dfh_ioaddr + ofst < end
      → end ≤ dfh_ioaddr + ofst + n
      → (size : ℕ) × (feature_size_from readq n dfh_ioaddr end ofst ≡ some size)
  unfolding feature_size_from
  feature_size_from-ends zero ofst lt enough = absurd (omega arith)
  feature_size_from-ends (suc n) ofst lt enough =
      let v = readq (dfh_ioaddr + ofst) in
      let ofst' = (ofst + dfh_next_hdr_ofst v) % 2 ^ 32 in
      elim (Bool-cases (dfh_type v == dfh_type_interface)) [
        | inr t ↦ (ofst, rw t refl)
        | inl t ↦ elim (Bool-cases (dfh_eol v)) [
          | inl e ↦ (ofst', rw (t, e) refl)
          | inr e ↦ elim (Bool-cases (ltb (dfh_ioaddr + ofst') end)) [
            | inr l ↦ (0, rw (t, e, l) refl)
            | inl l ↦
                let ne =
                  go_on (dfh_ioaddr + ofst) ((==_iff (dfh_type v) dfh_type_interface).0 t, e) in
                let (size, ih) =
                  feature_size_from-ends n ofst' (ltb→lt _ _ l) (omega (arith, ne)) in
                (size, rw (t, e, l) ih)
          ]
        ]
      ]

-- Feature_size ends within as many rounds as there are bytes to the end, on a device whose
-- interface headers that are not the last have a distance to the next.
feature_size_ends :
    (readq : ℕ → ℕ) (dfh_ioaddr end value : ℕ)
    → ((a : ℕ) → IsInner (readq a) → dfh_next_hdr_ofst (readq a) ≢ 0)
    → end + 2 ^ 24 < dfh_ioaddr + 2 ^ 32
    → dfh_ioaddr + dfh_next_hdr_ofst value < end
    → (size : ℕ) × (feature_size readq (end - dfh_ioaddr) dfh_ioaddr end value ≡ some size)
unfolding feature_size
feature_size_ends readq dfh_ioaddr end value go_on small lt =
    let (size, e) =
      feature_size_from-ends readq dfh_ioaddr end go_on small (end - dfh_ioaddr)
        (dfh_next_hdr_ofst value) lt (omega arith) in
    elim (Bool-cases (dfh_next_hdr_ofst value == 0)) [
      | inl z ↦ (4096, rw z refl)
      | inr z ↦ elim (Bool-cases (dfh_eol value)) [
        | inl l ↦ (dfh_next_hdr_ofst value, rw (z, l) refl)
        | inr l ↦ (size, rw (z, l) e)
      ]
    ]
