-- ===== src/Avmm/Wire.antt =====
-- drivers/base/regmap/regmap-spi-avmm.c: the stream of bytes that the words of the slave make up.
use mathlib.Core.List.{reverse}
use linux_dfl_backport.Base.{
  ℕ, ◌≡◌, refl, Bool, true, false, List, [], ◌∷◌, ◌++◌, arith, if◌then◌else◌, All, length, map,
  flatten,
}
use linux_dfl_backport.Avmm.Bytes.{br_swap_words_32}
use linux_dfl_backport.Avmm.Rx.{Poll}

-- The bytes of a word in the order of the stream.
abbrev pub delivered : Bool → Poll → List ℕ
delivered swap p = if swap then br_swap_words_32 p.word else p.word

-- The stream that the words make up.
unfoldable pub stream : Bool → List Poll → List ℕ
stream swap [] = []
stream swap (p ∷ ps) = delivered swap p ++ stream swap ps

-- The bytes of a word in the order of the wire: the bridge that swaps gets whole words, each with its
-- bytes reversed.
abbrev pub on_wire : Bool → Poll → List ℕ
on_wire true p = reverse p.word
on_wire false p = p.word

abbrev pub IsWhole : Bool → Poll → Type 0
IsWhole true p = length p.word ≡ 4
IsWhole false p = Unit {0}

swap-reverse : (w : List ℕ) → length w ≡ 4 → br_swap_words_32 w ≡ reverse w
unfolding br_swap_words_32
swap-reverse [] h = absurd (omega arith)
swap-reverse (a ∷ []) h = absurd (omega arith)
swap-reverse (a ∷ b ∷ []) h = absurd (omega arith)
swap-reverse (a ∷ b ∷ c ∷ []) h = absurd (omega arith)
swap-reverse (a ∷ b ∷ c ∷ d ∷ []) h = refl
swap-reverse (a ∷ b ∷ c ∷ d ∷ e ∷ w) h = absurd (omega arith)

delivered-on_wire : (swap : Bool) (p : Poll) → IsWhole swap p → delivered swap p ≡ on_wire swap p
delivered-on_wire true p h = swap-reverse p.word h
delivered-on_wire false p h = refl

pub stream-on_wire :
    (swap : Bool) (ps : List Poll)
    → All (IsWhole swap) ps
    → stream swap ps ≡ flatten (map (on_wire swap) ps)
unfolding stream
stream-on_wire swap [] h = refl
stream-on_wire swap (p ∷ ps) h = λ i. delivered-on_wire swap p h.0 i ++ stream-on_wire swap ps h.1 i
