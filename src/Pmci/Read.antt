-- ===== src/Pmci/Read.antt =====
-- drivers/mfd/intel-m10-bmc-pmci.c: what pmci_flash_bulk_read puts into the buffer.
use linux_dfl_backport.Base.{
  ℕ, zero, suc, ◌+◌, ◌-◌, ◌*◌, ◌/◌, ◌%◌, ◌^◌, ◌≤◌, ◌<◌, ◌≡◌, refl, sym, ap, ◌∙◌, inl, inr, Bool,
  true, false, List, ◌∷◌, ◌++◌, Option, some, ◌==◌, ltb, if◌then◌else◌, arith, Bool-cases, ltb→lt,
  replicate,
}
use mathlib.Core.List.{append-nil}
use linux_dfl_backport.Pmci.Defs.{
  flash_bytes, ReadResult, behind_block, read_rest, behind_all, words_of, read_block,
  pmci_flash_bulk_read,
}

flash_bytes-add :
    (flash : ℕ → ℕ) (addr n m : ℕ)
    → flash_bytes flash addr (n + m) ≡ flash_bytes flash addr n ++ flash_bytes flash (addr + n) m
unfolding flash_bytes
flash_bytes-add flash addr zero m =
    let e : 0 + m ≡ m = omega arith in let a : addr + 0 ≡ addr = omega arith in rw (e, a) refl
flash_bytes-add flash addr (suc n) m =
    let e : suc n + m ≡ suc (n + m) = omega arith in
    let a : addr + 1 + n ≡ addr + suc n = omega arith in
    ap (flash_bytes flash addr) e
    ∙ ap (◌∷◌ (flash addr)) (
        flash_bytes-add flash (addr + 1) n m
        ∙ ap (λ (k : ℕ). flash_bytes flash (addr + 1) n ++ flash_bytes flash k m) a)

-- A read that answers in time.
abbrev pub read_whole : (flash : ℕ → ℕ) → (addr size : ℕ) → (cleared : Bool) → ReadResult
read_whole flash addr size cleared = record {
  bytes = flash_bytes flash addr (size / 4 * 4);
  ctrl_cleared = if size == 0 then cleared else size % 4 == 0;
  status = 0;
}

module _ (polls : List Bool) (flash : ℕ → ℕ) (addr size : ℕ) (cleared : Bool) (pos : 0 < size) where
  size-ne-zero : (size == 0) ≡ false
  size-ne-zero = ground arith

  -- A block that ends within a word is the last.
  round-last :
      ltb (read_block size / 4) (words_of (read_block size)) ≡ true
      → pmci_flash_bulk_read (true ∷ polls) flash addr size cleared
        ≡ some (
            behind_block
              (flash_bytes flash (addr % 2 ^ 32) (read_block size / 4 * 4))
              (read_rest flash (addr + read_block size) (size - read_block size) false))
  unfolding pmci_flash_bulk_read
  round-last t = rw (size-ne-zero, t) refl

  round-next :
      ltb (read_block size / 4) (words_of (read_block size)) ≡ false
      → pmci_flash_bulk_read (true ∷ polls) flash addr size cleared
        ≡ behind_all (flash_bytes flash (addr % 2 ^ 32) (read_block size / 4 * 4)) (
            pmci_flash_bulk_read polls flash (addr + read_block size) (size - read_block size) true)
  unfolding pmci_flash_bulk_read
  round-next t = rw (size-ne-zero, t) refl

ends_in_word : (n : ℕ) → 0 < n % 4 → ltb (n / 4) (words_of n) ≡ true
unfolding words_of
ends_in_word n h = ground arith

ends_by_word : (n : ℕ) → n % 4 ≡ 0 → ltb (n / 4) (words_of n) ≡ false
unfolding words_of
ends_by_word n h = ground arith

read_block-small : (size : ℕ) → size < 2048 → read_block size ≡ size
unfolding read_block
read_block-small size h = ground arith

read_block-big : (size : ℕ) → 2048 ≤ size → read_block size ≡ 2048
unfolding read_block
read_block-big size h = ground arith

read-nothing :
    (n : ℕ) (flash : ℕ → ℕ) (addr : ℕ) (cleared : Bool)
    → pmci_flash_bulk_read (replicate n true) flash addr 0 cleared
      ≡ some (read_whole flash addr 0 cleared)
unfolding pmci_flash_bulk_read read_rest flash_bytes
read-nothing zero flash addr cleared = refl
read-nothing (suc n) flash addr cleared = refl

abbrev result : List ℕ → Bool → Option ReadResult
result bytes cleared = some (record { bytes = bytes; ctrl_cleared = cleared; status = 0 })

-- The results of the three kinds of a round.
module _ (flash : ℕ → ℕ) (addr size : ℕ) (cleared : Bool) (pos : 0 < size) where
  whole-result :
      (size % 4 == 0) ≡ true
      → behind_all
          (flash_bytes flash addr (size / 4 * 4))
          (some (read_whole flash (addr + size) 0 true))
        ≡ some (read_whole flash addr size cleared)
  unfolding behind_all behind_block
  whole-result e =
      let z : (size == 0) ≡ false = ground arith in
      rw (z, e) (ap (λ l. result l true) (none_behind (addr + size)))
    where
      none_behind :
          (a : ℕ)
          → flash_bytes flash addr (size / 4 * 4) ++ flash_bytes flash a 0
            ≡ flash_bytes flash addr (size / 4 * 4)
      none_behind a = unfold flash_bytes in append-nil (flash_bytes flash addr (size / 4 * 4))

  part-result :
      (size % 4 == 0) ≡ false
      → some (
          behind_block
            (flash_bytes flash addr (size / 4 * 4))
            (read_rest flash (addr + size) 0 false))
        ≡ some (read_whole flash addr size cleared)
  unfolding behind_block read_rest
  part-result e =
      let z : (size == 0) ≡ false = ground arith in
      rw (z, e) (ap (λ l. result l false) (append-nil (flash_bytes flash addr (size / 4 * 4))))

  cleared_then :
      2048 ≤ size → (if size - 2048 == 0 then true else (size - 2048) % 4 == 0) ≡ (size % 4 == 0)
  cleared_then h = ground arith

  big-result :
      2048 ≤ size
      → behind_all
          (flash_bytes flash addr 2048)
          (some (read_whole flash (addr + 2048) (size - 2048) true))
        ≡ some (read_whole flash addr size cleared)
  unfolding behind_all behind_block
  big-result h =
      let z : (size == 0) ≡ false = ground arith in
      let e : 2048 + (size - 2048) / 4 * 4 ≡ size / 4 * 4 = omega arith in
      rw z (
        ap (λ l. result l (if size - 2048 == 0 then true else (size - 2048) % 4 == 0))
          (sym (flash_bytes-add flash addr 2048 ((size - 2048) / 4 * 4))
            ∙ ap (flash_bytes flash addr) e)
        ∙ ap (result (flash_bytes flash addr (size / 4 * 4))) (cleared_then h))

-- Where the flash answers each block in time and the range does not pass 2^32, pmci_flash_bulk_read
-- succeeds with the whole words of the range and no byte behind them, and leaves the control
-- register cleared exactly if the size is a multiple of a word, or as it was for a size of 0.
pub bulk_read_lem :
    (n : ℕ) (flash : ℕ → ℕ) (addr size : ℕ) (cleared : Bool)
    → size ≤ n * 2048
    → addr + size ≤ 2 ^ 32
    → pmci_flash_bulk_read (replicate n true) flash addr size cleared
      ≡ some (read_whole flash addr size cleared)
bulk_read_lem n flash addr zero cleared h k = read-nothing n flash addr cleared
bulk_read_lem zero flash addr (suc size) cleared h k = absurd (omega arith)
bulk_read_lem (suc n) flash addr (suc size) cleared h k =
    let full = suc size in
    let pos : 0 < full = omega arith in
    let here : addr % 2 ^ 32 ≡ addr = omega arith in
    let same : full - full ≡ 0 = omega arith in
    elim (Bool-cases (ltb full 2048)) [
      | inl small ↦
          let b = read_block-small full (ltb→lt full 2048 small) in
          elim (Bool-cases (full % 4 == 0)) [
            | inl whole ↦
                round-next (replicate n true) flash addr full cleared pos
                  (rw b (ends_by_word full (ground arith)))
                ∙ rw (b, here, same)
                    (ap (behind_all _) (read-nothing n flash (addr + full) true)
                      ∙ whole-result flash addr full cleared pos whole)
            | inr part ↦
                round-last (replicate n true) flash addr full cleared pos
                  (rw b (ends_in_word full (ground arith)))
                ∙ rw (b, here, same) (part-result flash addr full cleared pos part)
          ]
      | inr big ↦
          let le : 2048 ≤ full = ground arith in
          let b = read_block-big full le in
          round-next (replicate n true) flash addr full cleared pos (rw b (ends_by_word 2048 refl))
          ∙ rw (b, here)
              (ap (behind_all _) (
                  bulk_read_lem n flash (addr + 2048) (full - 2048) true (omega arith)
                    (omega arith))
                ∙ big-result flash addr full cleared pos le)
    ]
