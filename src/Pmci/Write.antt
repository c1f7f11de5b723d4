-- ===== src/Pmci/Write.antt =====
-- drivers/mfd/intel-m10-bmc-pmci.c: what pmci_flash_bulk_write puts into the FIFO.
use linux_dfl_backport.Base.{
  ℕ, zero, suc, ◌+◌, ◌-◌, ◌*◌, ◌/◌, ◌%◌, ◌≤◌, ◌<◌, ◌≡◌, refl, sym, ap, ◌∙◌, inl, inr, Bool, true,
  false, List, [], ◌∷◌, ◌++◌, some, ◌==◌, ltb, if◌then◌else◌, arith, Bool-cases, ltb→lt, take, drop,
  replicate,
}
use mathlib.Core.List.{append-nil, append_assoc}
use linux_dfl_backport.Pmci.Defs.{words, pmci_write_fifo, block, remainder, pmci_flash_bulk_write}

-- The last word of a transfer: what is left of the buffer behind the whole words, with zeros, but
-- only where the last block is shorter than a word.
abbrev pub last_word : (buf : List ℕ) → (size : ℕ) → List (List ℕ)
last_word buf size =
    if size % 2048 == 0
    then []
    else if ltb (size % 2048) 4
    then (take (size % 4) (drop (size / 4 * 4) buf) ++ replicate (4 - size % 4) 0) ∷ []
    else []

drop-nil : (k : ℕ) → drop {A = ℕ} k [] ≡ []
drop-nil zero = refl
drop-nil (suc k) = refl

drop-add : (n m : ℕ) (xs : List ℕ) → drop m (drop n xs) ≡ drop (n + m) xs
drop-add zero m xs = ap (λ (k : ℕ). drop k xs) (omega arith)
drop-add (suc n) m [] = drop-nil m ∙ sym (drop-nil (suc n + m))
drop-add (suc n) m (x ∷ xs) =
    let e : suc n + m ≡ suc (n + m) = omega arith in
    drop-add n m xs ∙ ap (λ (k : ℕ). drop k (x ∷ xs)) (sym e)

words-add : (n m : ℕ) (buf : List ℕ) → words (n + m) buf ≡ words n buf ++ words m (drop (n * 4) buf)
unfolding words
words-add zero m buf = ap (λ (k : ℕ). words k buf) (omega arith)
words-add (suc n) m buf =
    let e : suc n + m ≡ suc (n + m) = omega arith in
    let f : 4 + n * 4 ≡ suc n * 4 = omega arith in
    ap (λ (k : ℕ). words k buf) e
    ∙ ap (◌∷◌ (take 4 buf)) (
        words-add n m (drop 4 buf)
        ∙ ap (λ l. words n (drop 4 buf) ++ words m l)
            (drop-add 4 (n * 4) buf ∙ ap (λ (k : ℕ). drop k buf) f))

-- The words and the last word of a longer buffer, from a whole block on.
last_word-block :
    (buf : List ℕ) (size : ℕ)
    → 2048 ≤ size
    → last_word (drop 2048 buf) (size - 2048) ≡ last_word buf size
last_word-block buf size h =
    let a : (size - 2048) % 2048 ≡ size % 2048 = omega arith in
    let b : (size - 2048) % 4 ≡ size % 4 = omega arith in
    let e : 2048 + (size - 2048) / 4 * 4 ≡ size / 4 * 4 = omega arith in
    rw (a, b, drop-add 2048 ((size - 2048) / 4 * 4) buf, e) refl

words-block :
    (buf : List ℕ) (size : ℕ)
    → 2048 ≤ size
    → words 512 buf ++ words ((size - 2048) / 4) (drop 2048 buf) ≡ words (size / 4) buf
words-block buf size h =
    let e : 512 + (size - 2048) / 4 ≡ size / 4 = omega arith in
    sym (words-add 512 ((size - 2048) / 4) buf) ∙ ap (λ (k : ℕ). words k buf) e

write-nothing :
    (n : ℕ) (fifo : List (List ℕ)) (buf : List ℕ)
    → pmci_flash_bulk_write (replicate n true) fifo buf 0 ≡ some (fifo, 0)
unfolding pmci_flash_bulk_write
write-nothing zero fifo buf = refl
write-nothing (suc n) fifo buf = refl

module _ (spaces : List Bool) (fifo : List (List ℕ)) (buf : List ℕ) (size : ℕ)
    (pos : 0 < size) where
  not_zero : (n : ℕ) → 0 < n → (n == 0) ≡ false
  not_zero n h = ground arith

  block-pos : 0 < block true size
  unfolding block
  block-pos = ground arith

  -- A round on less than a word is the last.
  round-last :
      ltb size 4 ≡ true
      → pmci_flash_bulk_write (true ∷ spaces) fifo buf size ≡ some (remainder fifo buf size, 0)
  unfolding pmci_flash_bulk_write
  round-last t = rw (not_zero size pos, not_zero (block true size) block-pos, t) refl

  round-next :
      ltb size 4 ≡ false
      → pmci_flash_bulk_write (true ∷ spaces) fifo buf size
        ≡ pmci_flash_bulk_write spaces
            (fifo ++ words (block true size / 4) buf)
            (drop (block true size) buf)
            (size - block true size)
  unfolding pmci_flash_bulk_write pmci_write_fifo
  round-next t = rw (not_zero size pos, not_zero (block true size) block-pos, t) refl

block-small : (size : ℕ) → size < 2048 → block true size ≡ size
unfolding block
block-small size h = ground arith

block-big : (size : ℕ) → 2048 ≤ size → block true size ≡ 2048
unfolding block
block-big size h = ground arith

remainder-last :
    (fifo : List (List ℕ)) (buf : List ℕ) (size : ℕ)
    → 0 < size
    → size < 4
    → remainder fifo buf size ≡ fifo ++ (words (size / 4) buf ++ last_word buf size)
unfolding remainder words
remainder-last fifo buf size pos h =
    let a : size / 4 ≡ 0 = omega arith in
    let b : size % 4 ≡ size = omega arith in
    let d : size % 2048 ≡ size = omega arith in
    let z : (size == 0) ≡ false = ground arith in
    let t : ltb size 4 ≡ true = ground arith in rw (a, b, d, z, t) refl

-- No last word behind a short block of at least a word, or behind whole blocks.
last_word-none : (buf : List ℕ) (size : ℕ) → 4 ≤ size → size < 2048 → last_word buf size ≡ []
last_word-none buf size h k =
    let d : size % 2048 ≡ size = omega arith in
    let z : (size == 0) ≡ false = ground arith in
    let t : ltb size 4 ≡ false = ground arith in rw (d, z, t) refl

regroup {ℓ} : {A : Type ℓ} (a w x l : List A) → (a ++ w) ++ (x ++ l) ≡ a ++ ((w ++ x) ++ l)
regroup a w x l = simp append_assoc

no_words : (fifo : List (List ℕ)) (buf : List ℕ) → fifo ≡ fifo ++ (words (0 / 4) buf ++ [])
unfolding words
no_words fifo buf = sym (append-nil fifo)

-- The words of a whole block in front of those of the others.
behind_block :
    (fifo : List (List ℕ)) (buf : List ℕ) (size : ℕ)
    → 2048 ≤ size
    → (fifo ++ words 512 buf)
        ++ (words ((size - 2048) / 4) (drop 2048 buf) ++ last_word (drop 2048 buf) (size - 2048))
      ≡ fifo ++ (words (size / 4) buf ++ last_word buf size)
behind_block fifo buf size h =
    regroup fifo (words 512 buf) (words ((size - 2048) / 4) (drop 2048 buf))
      (last_word (drop 2048 buf) (size - 2048))
    ∙ ap (λ l. fifo ++ (l ++ last_word (drop 2048 buf) (size - 2048))) (words-block buf size h)
    ∙ ap (λ l. fifo ++ (words (size / 4) buf ++ l)) (last_word-block buf size h)

-- Where the FIFO gets empty in time for each block, pmci_flash_bulk_write sends the whole words of
-- the buffer in order, and the bytes behind them, with zeros, exactly if the last block is shorter
-- than a word.
pub bulk_write_lem :
    (n : ℕ) (fifo : List (List ℕ)) (buf : List ℕ) (size : ℕ)
    → size ≤ n * 2048
    → pmci_flash_bulk_write (replicate n true) fifo buf size
      ≡ some (fifo ++ (words (size / 4) buf ++ last_word buf size), 0)
bulk_write_lem n fifo buf zero h =
    write-nothing n fifo buf ∙ ap (λ l. some (l, 0)) (no_words fifo buf)
bulk_write_lem zero fifo buf (suc size) h = absurd (omega arith)
bulk_write_lem (suc n) fifo buf (suc size) h =
    let full = suc size in
    let pos : 0 < full = omega arith in
    elim (Bool-cases (ltb full 4)) [
      | inl tiny ↦
          round-last (replicate n true) fifo buf full pos tiny
          ∙ ap (λ l. some (l, 0)) (remainder-last fifo buf full pos (ltb→lt full 4 tiny))
      | inr more ↦
          round-next (replicate n true) fifo buf full pos more ∙ elim (Bool-cases (ltb full 2048)) [
            | inl small ↦
                let same : full - full ≡ 0 = omega arith in
                let b = block-small full (ltb→lt full 2048 small) in
                rw (b, last_word-none buf full (ground arith) (ltb→lt full 2048 small))
                  (rw (same, append-nil) (write-nothing n _ _))
            | inr big ↦
                let le : 2048 ≤ full = ground arith in
                rw (block-big full le) (
                  bulk_write_lem n (fifo ++ words 512 buf) (drop 2048 buf) (full - 2048)
                    (omega arith)
                  ∙ ap (λ l. some (l, 0)) (behind_block fifo buf full le))
          ]
    ]
