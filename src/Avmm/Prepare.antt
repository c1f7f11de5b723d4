-- ===== src/Avmm/Prepare.antt =====
-- drivers/base/regmap/regmap-spi-avmm.c: the packet in phy_buf behind br_pkt_phy_tx_prepare.
use mathlib.Core.List.{append_assoc}
use linux_dfl_backport.Base.{
  ℕ, ◌+◌, ◌-◌, ◌%◌, ◌≤◌, ◌<◌, ◌≡◌, refl, sym, ap, ◌∙◌, ◌⊎◌, inl, inr, false, some, List, [], ◌∷◌,
  ◌++◌, arith, length, length-append, take, drop, replicate, length-replicate, take-length_append,
  drop-length_append, ok,
}
use linux_dfl_backport.Avmm.Defs.{
  pkt_sop, pkt_eop, pkt_channel, phy_idle, phy_buf_size, trans_tx_max,
}
use linux_dfl_backport.Avmm.Tx.{tx_pad, move_eop, align, br_pkt_phy_tx_prepare}
use linux_dfl_backport.Avmm.Frame.{escape, payload, eop_offset, length-payload, tx_loop-payload}

-- The escaped bytes before EOP, and the byte after it.
unfoldable pub before_eop : ℕ → List ℕ → List ℕ
before_eop c [] = []
before_eop c (d ∷ r) = escape c ++ before_eop d r

unfoldable pub final : ℕ → List ℕ → ℕ
final c [] = c
final c (d ∷ r) = final d r

-- A packet that carries the bytes c ∷ r, with so many idle bytes before EOP.
unfoldable pub packet : ℕ → List ℕ → ℕ → List ℕ
packet c r hole =
    pkt_sop
    ∷ pkt_channel
    ∷ 0x0
    ∷ (before_eop c r ++ (replicate hole phy_idle ++ (pkt_eop ∷ escape (final c r))))

abbrev tail : ℕ → List ℕ → List ℕ
tail c r = pkt_eop ∷ escape (final c r)

payload-split : (c : ℕ) (r : List ℕ) → payload c r ≡ before_eop c r ++ tail c r
unfolding payload before_eop final
payload-split c [] = refl
payload-split c (d ∷ r) =
    ap (◌++◌ (escape c)) (payload-split d r)
    ∙ sym (append_assoc (escape c) (before_eop d r) (tail d r))

length-before_eop : (c : ℕ) (r : List ℕ) → length (before_eop c r) ≡ eop_offset c r
unfolding before_eop eop_offset
length-before_eop c [] = refl
length-before_eop c (d ∷ r) =
    omega (arith, length-append (escape c) (before_eop d r), length-before_eop d r)

abbrev header : List ℕ
header = pkt_sop ∷ pkt_channel ∷ 0x0 ∷ []

pub length-packet :
    (c : ℕ) (r : List ℕ) (hole : ℕ) → length (packet c r hole) ≡ 3 + length (payload c r) + hole
unfolding packet
length-packet c r hole = omega (
  arith,
  ap length (payload-split c r),
  length-append (before_eop c r) (tail c r),
  length-append (before_eop c r) (replicate hole phy_idle ++ tail c r),
  length-append (replicate hole phy_idle) (tail c r),
  length-replicate hole phy_idle,
)

packet-zero : (c : ℕ) (r : List ℕ) → header ++ payload c r ≡ packet c r 0
unfolding packet
packet-zero c r = ap (◌++◌ header) (payload-split c r)

-- Cutting a list at the length of its first part, and filling the cut.
fill_cut {ℓ} :
    {A : Type ℓ} (xs ys mid : List A) (n : ℕ)
    → n ≡ length xs
    → take n (xs ++ ys) ++ mid ++ drop n (xs ++ ys) ≡ xs ++ (mid ++ ys)
fill_cut xs ys mid n e =
    rw (e, take-length_append xs ys, drop-length_append xs ys) (append_assoc xs mid ys)

move_eop-packet :
    (c : ℕ) (r : List ℕ) (aligned : ℕ)
    → move_eop (header ++ payload c r) (some (3 + eop_offset c r)) aligned
      ≡ packet c r (aligned - length (header ++ payload c r))
unfolding move_eop packet
move_eop-packet c r aligned =
    let hole = replicate (aligned - length (header ++ payload c r)) phy_idle in
    ap
      (λ p.
        take (3 + eop_offset c r) (header ++ p) ++ hole ++ drop (3 + eop_offset c r) (header ++ p))
      (payload-split c r)
    ∙ fill_cut (header ++ before_eop c r) (tail c r) hole (3 + eop_offset c r)
        (omega (arith, length-before_eop c r))

-- The lengths that the SPI words of this driver have.
abbrev pub IsWordLen : ℕ → Type 0
IsWordLen w = (w ≡ 1) ⊎ (w ≡ 4)

-- How many idle bytes fill the last word.
pub hole_size : ℕ → ℕ → List ℕ → ℕ
unfolding align
hole_size w c r = align (3 + length (payload c r)) w - (3 + length (payload c r))

tx_pad-packet :
    (w c : ℕ) (r : List ℕ)
    → IsWordLen w
    → length r < trans_tx_max
    → tx_pad w (record {
      tb = [];
      pb = header ++ payload c r;
      need_esc = false;
      pb_eop = some (3 + eop_offset c r);
    })
      ≡ ok (packet c r (hole_size w c r))
unfolding tx_pad hole_size
tx_pad-packet w c r (inl e) h = ground (arith, length-payload c r, packet-zero c r)
tx_pad-packet w c r (inr e) h = ground (
  arith,
  length-payload c r,
  packet-zero c r,
  move_eop-packet c r (align (3 + length (payload c r)) 4),
)

-- A request of at most TRANS_TX_MAX bytes is never refused and becomes one packet with its EOP
-- moved behind the idle bytes that fill the last word.
pub prepare-packet :
    (w c : ℕ) (r : List ℕ)
    → IsWordLen w
    → length r < trans_tx_max
    → br_pkt_phy_tx_prepare w (c ∷ r) ≡ ok (packet c r (hole_size w c r))
unfolding br_pkt_phy_tx_prepare
prepare-packet w c r hw h =
    rw (tx_loop-payload c r 25 header (omega (arith, length-payload c r)))
      (tx_pad-packet w c r hw h)

-- That packet fills whole words, fits phy_buf, and has less than a word of idle bytes.
pub packet_bounds :
    (w c : ℕ) (r : List ℕ)
    → IsWordLen w
    → length r < trans_tx_max
    → (length (packet c r (hole_size w c r)) % w ≡ 0)
      × (length (packet c r (hole_size w c r)) ≤ phy_buf_size)
      × (hole_size w c r < w)
unfolding hole_size
packet_bounds w c r (inl e) h = ground (
  arith,
  length-payload c r,
  length-packet c r (align (3 + length (payload c r)) w - (3 + length (payload c r))),
)
packet_bounds w c r (inr e) h = ground (
  arith,
  length-payload c r,
  length-packet c r (align (3 + length (payload c r)) w - (3 + length (payload c r))),
)
