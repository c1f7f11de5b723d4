-- ===== src/Dfl/Param/Blocks.antt =====
-- drivers/fpga/dfl.c: dfh_find_param on the words of a list of parameter blocks.
use mathlib.Core.List.{append-nil}
use linux_dfl_backport.Base.{
  ℕ, zero, suc, ◌+◌, ◌*◌, ◌^◌, ◌≤◌, ◌<◌, ◌≡◌, ◌≢◌, refl, sym, ap, ◌∙◌, Bool, true, false, List, [],
  ◌∷◌, ◌++◌, Option, none, some, arith, ◌==◌, if◌then◌else◌, Result, ok, err, enoent, length,
  length-append, drop, drop-length_append, All, Bool-cases, ==_iff, inl, inr,
}
use linux_dfl_backport.Dfl.Field.{param_hdr_id, param_hdr_next_eop, param_hdr_next_offset}
use linux_dfl_backport.Dfl.Param.{find_from, param_data, dfh_find_param}

-- A parameter block: an id and words of data.
pub record Block : Type 0 where
  pub id : ℕ
  pub words : List ℕ

-- An id of 16 bits, and a length that the header has room for.
abbrev pub IsBlock : Block → Type 0
IsBlock b = (b.id < 2 ^ 16) × (length b.words + 1 < 2 ^ 29)

-- The header of a block: its id, whether it is the last, and the distance to the next in words.
abbrev pub header : Bool → Block → ℕ
header last b = b.id + (if last then 2 ^ 32 else 0) + (length b.words + 1) * 2 ^ 35

-- The words of a list of blocks.
unfoldable pub encode : List Block → List ℕ
encode [] = []
encode (b ∷ []) = header true b ∷ b.words
encode (b ∷ c ∷ bs) = header false b ∷ (b.words ++ encode (c ∷ bs))

-- The first block with the id, and those behind it.
unfoldable pub find_block : List Block → ℕ → Option (Block × List Block)
find_block [] id = none
find_block (b ∷ bs) id = if id == b.id then some (b, bs) else find_block bs id

-- What dfh_find_param should return: the words from the block's data on, and the data's size.
unfoldable pub data_of : Option (Block × List Block) → Result (List ℕ × ℕ)
data_of none = err enoent
data_of (some (b, bs)) = ok (b.words ++ encode bs, length b.words * 8)

pub header-fields :
    (last : Bool) (b : Block)
    → IsBlock b
    → (param_hdr_id (header last b) ≡ b.id)
      × (param_hdr_next_eop (header last b) ≡ last)
      × (param_hdr_next_offset (header last b) ≡ length b.words + 1)
header-fields true b h = (omega arith, ground arith, omega arith)
header-fields false b h = (omega arith, ground arith, omega arith)

encode-last : (b : Block) → encode (b ∷ []) ≡ header true b ∷ (b.words ++ encode [])
unfolding encode
encode-last b = ap (◌∷◌ (header true b)) (sym (append-nil b.words))

find_from-here :
    (n : ℕ) (last : Bool) (b : Block) (rest : List ℕ) (id : ℕ)
    → IsBlock b
    → id ≡ b.id
    → param_data (find_from (suc n) (header last b ∷ rest) id) ≡ ok (rest, length b.words * 8)
unfolding find_from param_data
find_from-here n last b rest id h e = ground (arith, header-fields last b h)

find_from-end :
    (n : ℕ) (b : Block) (rest : List ℕ) (id : ℕ)
    → IsBlock b
    → id ≢ b.id
    → find_from (suc n) (header true b ∷ rest) id ≡ none
unfolding find_from
find_from-end n b rest id h e = ground (arith, header-fields true b h)

find_from-next :
    (n : ℕ) (b : Block) (rest : List ℕ) (id : ℕ)
    → IsBlock b
    → id ≢ b.id
    → find_from (suc n) (header false b ∷ (b.words ++ rest)) id ≡ find_from n rest id
unfolding find_from
find_from-next n b rest id h e =
    let (i, p, o) = header-fields false b h in
    let one_more : length b.words + 1 ≡ suc (length b.words) = omega arith in
    let d : drop (length b.words + 1) (header false b ∷ (b.words ++ rest)) ≡ rest =
      ap (λ k. drop k (header false b ∷ (b.words ++ rest))) one_more
      ∙ drop-length_append b.words rest in
    rw (i, p, o, d) (ground arith)

find_from-nil : (n id : ℕ) → find_from n [] id ≡ none
unfolding find_from
find_from-nil zero id = refl
find_from-nil (suc n) id = refl

find_from-encode :
    (n : ℕ) (bs : List Block) (id : ℕ)
    → length (encode bs) ≤ n
    → All IsBlock bs
    → param_data (find_from n (encode bs) id) ≡ data_of (find_block bs id)
unfolding encode find_block data_of
find_from-encode n [] id h k = rw (find_from-nil n id) (unfold param_data in refl)
find_from-encode zero (b ∷ []) id h k = absurd (omega arith)
find_from-encode zero (b ∷ c ∷ bs) id h k = absurd (omega arith)
find_from-encode (suc n) (b ∷ []) id h k = elim (Bool-cases (id == b.id)) [
  | inl e ↦ rw e (
      find_from-here n true b b.words id k.0 ((==_iff id b.id).0 e)
      ∙ ap (λ ws. ok (ws, length b.words * 8)) (sym (append-nil b.words)))
  | inr e ↦
      rw (e, find_from-end n b b.words id k.0 (λ q. ground (arith, e, q)))
        (unfold param_data in refl)
]
find_from-encode (suc n) (b ∷ c ∷ bs) id h k = elim (Bool-cases (id == b.id)) [
  | inl e ↦
      rw e (find_from-here n false b (b.words ++ encode (c ∷ bs)) id k.0 ((==_iff id b.id).0 e))
  | inr e ↦
      rw (e, find_from-next n b (encode (c ∷ bs)) id k.0 (λ q. ground (arith, e, q)))
        (find_from-encode n (c ∷ bs) id (omega (arith, length-append b.words (encode (c ∷ bs))))
          k.1)
]

-- For the words of a list of parameter blocks, dfh_find_param returns the words from the data of
-- the first block with the id on, and that data's size, or -ENOENT if there is none.
pub find_param-encode :
    (bs : List Block) (id : ℕ)
    → All IsBlock bs
    → dfh_find_param (encode bs) id ≡ data_of (find_block bs id)
unfolding dfh_find_param
find_param-encode bs id k = find_from-encode (length (encode bs)) bs id (omega arith) k
