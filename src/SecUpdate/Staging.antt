-- ===== src/SecUpdate/Staging.antt =====
-- drivers/fpga/intel-m10-bmc-sec-update.c: which bytes m10bmc_sec_write hands to the regmap behind
-- the last whole word.
use linux_dfl_backport.Base.{
  ℕ, zero, suc, ◌+◌, ◌-◌, ◌*◌, ◌/◌, ◌%◌, ◌^◌, ◌<◌, ◌≡◌, ◌≢◌, refl, sym, ap, ◌∙◌, inl, inr, false,
  List, [], ◌∷◌, ◌==◌, ltb, arith, Bool-cases, if◌then◌else◌, take, drop, get_elem?,
}
use linux_dfl_backport.SecUpdate.Defs.{Card}
use linux_dfl_backport.SecUpdate.Ops.{staging_base, bytes_from, leftover_written, m10bmc_sec_write}

-- The first entry of what is taken from an index on.
head-take-drop {ℓ} :
    {A : Type ℓ} (n i : ℕ) (xs : List A) → get_elem? (take (suc n) (drop i xs)) 0 ≡ get_elem? xs i
head-take-drop n zero [] = refl
head-take-drop n zero (x ∷ xs) = refl
head-take-drop n (suc i) [] = refl
head-take-drop n (suc i) (x ∷ xs) = head-take-drop n i xs

bytes_from-ne :
    (buf : List ℕ) (i j n : ℕ)
    → 0 < n
    → get_elem? buf i ≢ get_elem? buf j
    → bytes_from buf i n ≢ bytes_from buf j n
bytes_from-ne buf i j zero pos differ e = absurd (omega arith)
bytes_from-ne buf i j (suc n) pos differ e =
    differ
      (sym (head-take-drop n i buf) ∙ ap (λ (l : List ℕ). get_elem? l 0) e ∙ head-take-drop n j buf)

module _ {D : Type 0} (c : Card D) where
  leftover-call :
      (buf : List ℕ) (offset o n : ℕ) (d : D)
      → 0 < n
      → leftover_written c buf offset o n (0, d)
        ≡ c.regmap_write ((staging_base + offset + o) % 2 ^ 32) (bytes_from buf o n) d
  unfolding leftover_written
  leftover-call buf offset o n d pos = elim (Bool-cases (n == 0)) [
    | inl z ↦ absurd (ground arith)
    | inr z ↦ rw z refl
  ]

  -- Over a narrow regmap, the rest of a block behind its whole words is taken from the buffer
  -- without the block's offset; where the buffer differs there, the card gets other bytes than the
  -- image has.
  leftover_misplaced :
      (buf : List ℕ) (offset size : ℕ) (d d' : D)
      → c.has_flash_bulk_ops ≡ false
      → ltb 4 c.reg_stride ≡ false
      → let o = size / c.reg_stride * c.reg_stride in
        o < size
        → c.regmap_bulk_write ((staging_base + offset) % 2 ^ 32) (bytes_from buf offset o) d
          ≡ (0, d')
        → get_elem? buf o ≢ get_elem? buf (offset + o)
        → (m10bmc_sec_write c buf offset size d
            ≡ c.regmap_write
                ((staging_base + offset + o) % 2 ^ 32)
                (bytes_from buf o (size - o))
                d')
          × (bytes_from buf o (size - o) ≢ bytes_from buf (offset + o) (size - o))
  unfolding m10bmc_sec_write
  leftover_misplaced buf offset size d d' no_ops narrow rest bulk differ =
      let o = size / c.reg_stride * c.reg_stride in
      let n = size - o in
      (
        ap
              (λ b.
                if b
                then c.flash_write buf offset size d
                else if ltb 4 c.reg_stride
                then (22, d)
                else leftover_written c buf offset o n (
                    c.regmap_bulk_write ((staging_base + offset) % 2 ^ 32) (bytes_from buf offset o)
                      d))
              no_ops
            ∙ ap
                (λ b.
                  if b
                  then (22, d)
                  else leftover_written c buf offset o n (
                      c.regmap_bulk_write ((staging_base + offset) % 2 ^ 32)
                        (bytes_from buf offset o) d))
                narrow
            ∙ ap (leftover_written c buf offset o n) bulk
            ∙ leftover-call buf offset o n d' (omega arith),
        bytes_from-ne buf o (offset + o) n (omega arith) differ,
      )
