-- ===== src/Avmm/Frame.antt =====
-- drivers/base/regmap/regmap-spi-avmm.c: the bytes of a packet as a plain recursion over the
-- request, beside the loop in br_pkt_phy_tx_prepare.
use Prim.Native.Nat.{bit_xor}
use linux_dfl_backport.Base.{
  ℕ, zero, suc, ◌+◌, ◌-◌, ◌*◌, ◌≤◌, ◌≡◌, refl, ap, ◌⊎◌, inl, inr, Bool, true, false, ◌||◌, Option,
  none, some, List, [], ◌∷◌, ◌++◌, arith, if◌then◌else◌, length, length-append, is_nil, is_none,
  ◌&&◌,
}
use mathlib.Core.List.{append_assoc}
use mathlib.Core.Path.{◌≡⟨◌⟩◌, ◌∎}
use linux_dfl_backport.Avmm.Defs.{pkt_sop, pkt_eop, pkt_channel, pkt_esc, phy_esc}
use linux_dfl_backport.Avmm.Tx.{TxState, is_pkt_special, is_phy_special, tx_loop}

-- "Escape char first, following the byte XOR'ed with 0x20".
unfoldable pub escape : ℕ → List ℕ
unfolding is_pkt_special is_phy_special
escape c =
    if is_pkt_special c
    then pkt_esc ∷ bit_xor c 0x20 ∷ []
    else if is_phy_special c
    then phy_esc ∷ bit_xor c 0x20 ∷ []
    else c ∷ []

-- The payload of a packet, with EOP before the last byte.
unfoldable pub payload : ℕ → List ℕ → List ℕ
payload c [] = pkt_eop ∷ escape c
payload c (d ∷ r) = escape c ++ payload d r

-- Where EOP stands in the payload.
unfoldable pub eop_offset : ℕ → List ℕ → ℕ
eop_offset c [] = 0
eop_offset c (d ∷ r) = length (escape c) + eop_offset d r

unfoldable pub frame : ℕ → List ℕ → List ℕ
frame c r = pkt_sop ∷ pkt_channel ∷ 0x0 ∷ payload c r

pub length-escape : (c : ℕ) → (1 ≤ length (escape c)) × (length (escape c) ≤ 2)
unfolding escape
length-escape c = ground arith

pub length-payload : (c : ℕ) (r : List ℕ) → length (payload c r) ≤ 2 * length r + 3
unfolding payload
length-payload c [] = omega (arith, length-escape c)
length-payload c (d ∷ r) =
    omega (arith, length-append (escape c) (payload d r), length-escape c, length-payload d r)

abbrev pub IsSpecial : ℕ → Bool → Type 0
IsSpecial c b = (is_pkt_special c || is_phy_special c) ≡ b

pub escape_cases :
    (c : ℕ)
    → (IsSpecial c true × (length (escape c) ≡ 2)) ⊎ (IsSpecial c false × (escape c ≡ c ∷ []))
unfolding escape
escape_cases c = ground arith

abbrev at : List ℕ → List ℕ → Bool → Option ℕ → TxState
at tb pb e o = record { tb = tb; pb = pb; need_esc = e; pb_eop = o }

-- One round writes an ordinary byte; two write the escaped form of a special one.
module _ (c : ℕ) (rest pb : List ℕ) (o : Option ℕ) (mid : (is_nil rest && is_none o) ≡ false) where
  emit_special :
      (room : ℕ)
      → (is_pkt_special c || is_phy_special c) ≡ true
      → tx_loop (suc (suc room)) (at (c ∷ rest) pb false o)
        ≡ tx_loop room (at rest (pb ++ escape c) false o)
  unfolding tx_loop escape
  emit_special room h = ground (
    arith,
    mid,
    append_assoc pb (pkt_esc ∷ []) (bit_xor c 0x20 ∷ []),
    append_assoc pb (phy_esc ∷ []) (bit_xor c 0x20 ∷ []),
  )

  emit_plain :
      (room : ℕ)
      → (is_pkt_special c ≡ false) × (is_phy_special c ≡ false)
      → tx_loop (suc room) (at (c ∷ rest) pb false o)
        ≡ tx_loop room (at rest (pb ++ escape c) false o)
  unfolding tx_loop escape
  emit_plain room h = ground (arith, mid)

  -- With room for the escaped form of a byte, the loop writes it and goes on.
  emit :
      (room k : ℕ)
      → room ≡ length (escape c) + k
      → tx_loop room (at (c ∷ rest) pb false o) ≡ tx_loop k (at rest (pb ++ escape c) false o)
  emit room k h = elim (escape_cases c) [
    | inl (special, two) ↦ let e : room ≡ suc (suc k) = omega arith in rw e (emit_special k special)
    | inr (plain, one) ↦
        let e : room ≡ suc k = omega (arith, ap length one) in
        rw e (emit_plain k (ground (arith, plain)))
  ]

-- Before the last byte one more round writes EOP.
emit_eop :
    (c room : ℕ) (pb : List ℕ)
    → tx_loop (suc room) (at (c ∷ []) pb false none)
      ≡ tx_loop room (at (c ∷ []) (pb ++ pkt_eop ∷ []) false (some (length pb)))
unfolding tx_loop
emit_eop c room pb = refl

tx_loop-done :
    (room : ℕ) (pb : List ℕ) (o : Option ℕ) → tx_loop room (at [] pb false o) ≡ at [] pb false o
unfolding tx_loop
tx_loop-done zero pb o = refl
tx_loop-done (suc room) pb o = refl

-- With room for the payload, the loop writes it and has then come to the end of trans_buf.
pub tx_loop-payload :
    (c : ℕ) (r : List ℕ) (room : ℕ) (pb : List ℕ)
    → length (payload c r) ≤ room
    → tx_loop room (at (c ∷ r) pb false none)
      ≡ at [] (pb ++ payload c r) false (some (length pb + eop_offset c r))
unfolding payload eop_offset
tx_loop-payload c [] zero pb h = absurd (omega arith)
tx_loop-payload c [] (suc room) pb h =
    tx_loop (suc room) (at (c ∷ []) pb false none)
    ≡⟨ emit_eop c room pb ⟩ tx_loop room (at (c ∷ []) (pb ++ pkt_eop ∷ []) false (some (length pb)))
    ≡⟨ emit c [] (pb ++ pkt_eop ∷ []) (some (length pb)) refl room (room - length (escape c))
        (omega arith) ⟩
      tx_loop (room - length (escape c))
        (at [] ((pb ++ pkt_eop ∷ []) ++ escape c) false (some (length pb)))
    ≡⟨ tx_loop-done _ _ _ ⟩ at [] ((pb ++ pkt_eop ∷ []) ++ escape c) false (some (length pb))
    ≡⟨ ground (arith, append_assoc pb (pkt_eop ∷ []) (escape c)) ⟩
      at [] (pb ++ payload c []) false (some (length pb + 0)) ∎
tx_loop-payload c (d ∷ r) room pb h =
    let k = room - length (escape c) in
    tx_loop room (at (c ∷ d ∷ r) pb false none)
    ≡⟨ emit c (d ∷ r) pb none refl room k (omega (arith, length-append (escape c) (payload d r))) ⟩
      tx_loop k (at (d ∷ r) (pb ++ escape c) false none)
    ≡⟨ tx_loop-payload d r k (pb ++ escape c)
        (omega (arith, length-append (escape c) (payload d r))) ⟩
      at [] ((pb ++ escape c) ++ payload d r) false
        (some (length (pb ++ escape c) + eop_offset d r))
    ≡⟨ ground (arith, append_assoc pb (escape c) (payload d r), length-append pb (escape c)) ⟩
      at [] (pb ++ (escape c ++ payload d r)) false
        (some (length pb + (length (escape c) + eop_offset d r))) ∎
