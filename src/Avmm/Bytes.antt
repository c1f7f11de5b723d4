-- ===== src/Avmm/Bytes.antt =====
-- drivers/base/regmap/regmap-spi-avmm.c: byte order (cpu_to_le32, cpu_to_be16, cpu_to_be32 and
-- their inverses, swab32p) and the word swap.
use linux_dfl_backport.Base.{
  ℕ, zero, suc, ◌+◌, ◌*◌, ◌/◌, ◌%◌, ◌^◌, ◌<◌, ◌≡◌, refl, ap, List, [], ◌∷◌, ◌++◌, arith, All,
  length,
}

unfoldable pub le32 : ℕ → List ℕ
le32 v = v % 256 ∷ v / 256 % 256 ∷ v / 65536 % 256 ∷ v / 16777216 % 256 ∷ []

unfoldable pub be32 : ℕ → List ℕ
be32 v = v / 16777216 % 256 ∷ v / 65536 % 256 ∷ v / 256 % 256 ∷ v % 256 ∷ []

unfoldable pub be16 : ℕ → List ℕ
be16 v = v / 256 % 256 ∷ v % 256 ∷ []

-- le32_to_cpu of each of the first n words of a buffer; what lies behind its end reads as 0.
unfoldable pub le32_to_cpu : ℕ → List ℕ → List ℕ
le32_to_cpu zero xs = []
le32_to_cpu (suc n) (a ∷ b ∷ c ∷ d ∷ xs) =
    (a + b * 256 + c * 65536 + d * 16777216) ∷ le32_to_cpu n xs
le32_to_cpu (suc n) _ = 0 ∷ le32_to_cpu n []

unfoldable pub le32_all : List ℕ → List ℕ
unfolding le32
le32_all [] = []
le32_all (v ∷ vs) = le32 v ++ le32_all vs

pub length-le32_all : (vs : List ℕ) → length (le32_all vs) ≡ length vs * 4
unfolding le32_all
length-le32_all [] = refl
length-le32_all (v ∷ vs) = omega (arith, length-le32_all vs)

abbrev pub IsWord : ℕ → Type 0
IsWord v = v < 2 ^ 32

le32_value :
    (v : ℕ)
    → v < 2 ^ 32
    → v % 256 + v / 256 % 256 * 256 + v / 65536 % 256 * 65536 + v / 16777216 % 256 * 16777216 ≡ v
le32_value v h = omega arith

-- Decoding the encoding of 32-bit values gives the values.
pub le32_to_cpu-le32_all :
    (vs : List ℕ) → All IsWord vs → le32_to_cpu (length vs) (le32_all vs) ≡ vs
unfolding le32_to_cpu le32_all
le32_to_cpu-le32_all [] h = refl
le32_to_cpu-le32_all (v ∷ vs) h = λ i. (le32_value v h.0 i) ∷ (le32_to_cpu-le32_all vs h.1 i)

-- br_swap_words_32: the bytes of each whole word are reversed; len / 4 words are, so a rest of
-- less than a word stays.
unfoldable pub br_swap_words_32 : List ℕ → List ℕ
br_swap_words_32 (a ∷ b ∷ c ∷ d ∷ xs) = d ∷ c ∷ b ∷ a ∷ br_swap_words_32 xs
br_swap_words_32 xs = xs

pub br_swap_words_32_twice : (xs : List ℕ) → br_swap_words_32 (br_swap_words_32 xs) ≡ xs
unfolding br_swap_words_32
br_swap_words_32_twice (a ∷ b ∷ c ∷ d ∷ xs) =
    ap (λ ys. a ∷ b ∷ c ∷ d ∷ ys) (br_swap_words_32_twice xs)
br_swap_words_32_twice [] = refl
br_swap_words_32_twice (a ∷ []) = refl
br_swap_words_32_twice (a ∷ b ∷ []) = refl
br_swap_words_32_twice (a ∷ b ∷ c ∷ []) = refl

pub length-br_swap_words_32 : (xs : List ℕ) → length (br_swap_words_32 xs) ≡ length xs
unfolding br_swap_words_32
length-br_swap_words_32 (a ∷ b ∷ c ∷ d ∷ xs) = omega (arith, length-br_swap_words_32 xs)
length-br_swap_words_32 [] = refl
length-br_swap_words_32 (a ∷ []) = refl
length-br_swap_words_32 (a ∷ b ∷ []) = refl
length-br_swap_words_32 (a ∷ b ∷ c ∷ []) = refl
