-- ===== src/Avmm/Access.antt =====
-- drivers/base/regmap/regmap-spi-avmm.c: what do_reg_access sends.
use mathlib.Core.List.{append-nil}
use linux_dfl_backport.Base.{
  ℕ, ◌*◌, ◌%◌, ◌≤◌, ◌<◌, ◌≡◌, refl, ◌∙◌, subst, Bool, true, false, List, [], ◌⊎◌, inl, inr, ◌∷◌,
  ◌++◌, arith, ◌==◌, if◌then◌else◌, length, ok, take,
}
use linux_dfl_backport.Avmm.Defs.{val_size, trans_tx_max, phy_buf_size, Bridge}
use linux_dfl_backport.Avmm.Bytes.{
  le32_all, be16, be32, br_swap_words_32_twice, length-br_swap_words_32,
}
use linux_dfl_backport.Avmm.Tx.{
  trans_code, trans_req_header, br_trans_tx_prepare, br_pkt_phy_tx_prepare,
}
use linux_dfl_backport.Avmm.Prepare.{packet, hole_size, IsWordLen, prepare-packet, packet_bounds}
use linux_dfl_backport.Avmm.Rx.{rx_start, br_do_rx_and_pkt_phy_parse}
use linux_dfl_backport.Avmm.Parse.{Parses-packet}
use linux_dfl_backport.Avmm.Stream.{Parses}
use linux_dfl_backport.Avmm.Transfer.{
  error, Spi, br_do_tx, after_rx, after_tx, do_reg_access, spi_avmm_bridge_ctx_gen,
}

-- What spi_avmm_bridge_ctx_gen makes: words of one byte, or swapped words of four.
abbrev pub IsBridge : Bridge → Type 0
IsBridge br =
    ((br.word_len ≡ 1) × (br.swap_words ≡ false)) ⊎ ((br.word_len ≡ 4) × (br.swap_words ≡ true))

-- A bridge that spi_avmm_bridge_ctx_gen makes has words of one byte that are not swapped, or words
-- of four that are.
ctx_gen-IsBridge :
    (has_spi allocated : Bool) (spi_setup : ℕ → ℕ) (br : Bridge)
    → spi_avmm_bridge_ctx_gen has_spi spi_setup allocated ≡ ok br
    → IsBridge br
unfolding spi_avmm_bridge_ctx_gen
ctx_gen-IsBridge has_spi allocated spi_setup br h = ground arith

-- The request of the transaction layer: a header of eight bytes, and the data of a write.
pub request : Bool → ℕ → List ℕ → ℕ → List ℕ
request is_read reg value count =
    trans_req_header is_read reg count ++ (if is_read then [] else le32_all (take count value))

-- The request as its first byte and the rest.
request_rest : Bool → ℕ → List ℕ → ℕ → List ℕ
unfolding trans_req_header
request_rest is_read reg value count =
    0 ∷ be16 (count % 65536 * val_size % 65536)
    ++ be32 reg
    ++ (if is_read then [] else le32_all (take count value))

request_form :
    (is_read : Bool) (reg : ℕ) (value : List ℕ) (count : ℕ)
    → request is_read reg value count
      ≡ trans_code is_read count ∷ request_rest is_read reg value count
unfolding request request_rest trans_req_header be16 be32
request_form is_read reg value count = refl

-- The requests that the regmap core makes: reads, and writes of one value.
abbrev pub IsRequest : Bool → List ℕ → ℕ → Type 0
IsRequest true value count = Unit {0}
IsRequest false value count = (count ≡ 1) × (length value ≡ 1)

tx_prepare-request :
    (is_read : Bool) (reg : ℕ) (value : List ℕ) (count : ℕ)
    → IsRequest is_read value count
    → br_trans_tx_prepare is_read reg value count ≡ ok (request is_read reg value count)
unfolding br_trans_tx_prepare request
tx_prepare-request true reg value count h = refl
tx_prepare-request false reg value count h = rw (h.0)

length-request_rest :
    (is_read : Bool) (reg : ℕ) (value : List ℕ) (count : ℕ)
    → IsRequest is_read value count
    → length (request_rest is_read reg value count) < trans_tx_max
unfolding request_rest be16 be32 le32_all
length-request_rest true reg value count h = omega arith
length-request_rest false reg (v ∷ []) count h = rw (h.0) (omega arith)
length-request_rest false reg [] count h = rw (h.0) (omega arith)
length-request_rest false reg (v ∷ w ∷ vs) count h = absurd (omega arith)

pub IsBridge-word_len : (br : Bridge) → IsBridge br → IsWordLen br.word_len
IsBridge-word_len br (inl h) = inl h.0
IsBridge-word_len br (inr h) = inr h.0

module _ (br : Bridge) (is_read : Bool) (reg : ℕ) (value : List ℕ) (count : ℕ) (known : IsBridge br)
    (asked : IsRequest is_read value count) where
  -- phy_buf for the request.
  phy : List ℕ
  phy =
      let c = trans_code is_read count in
      let r = request_rest is_read reg value count in packet c r (hole_size br.word_len c r)

  phy_prepared : br_pkt_phy_tx_prepare br.word_len (request is_read reg value count) ≡ ok phy
  unfolding phy
  phy_prepared = rw (request_form is_read reg value count) (
      prepare-packet br.word_len _ _ (IsBridge-word_len br known)
        (length-request_rest is_read reg value count asked))

  -- The access goes through to the receive phase.
  access-after_tx :
      (xfer_timeout : ℕ) (spi : Spi)
      → do_reg_access xfer_timeout br spi is_read reg value count
        ≡ after_tx xfer_timeout br spi is_read count phy
  unfolding do_reg_access
  access-after_tx xfer_timeout spi =
      rw (tx_prepare-request is_read reg value count asked, do_reg_access) (rw phy_prepared)

do_tx_twice : (br : Bridge) (bs : List ℕ) → br_do_tx br (br_do_tx br bs) ≡ bs
unfolding br_do_tx
do_tx_twice br bs = ground (arith, br_swap_words_32_twice bs)

length-do_tx : (br : Bridge) (bs : List ℕ) → length (br_do_tx br bs) ≡ length bs
unfolding br_do_tx
length-do_tx br bs = ground (arith, length-br_swap_words_32 bs)

phy-Parses :
    (br : Bridge) (is_read : Bool) (reg : ℕ) (value : List ℕ) (count : ℕ) (known : IsBridge br)
    (asked : IsRequest is_read value count)
    → Parses rx_start (phy br is_read reg value count known asked) (request is_read reg value count)
unfolding phy
phy-Parses br is_read reg value count known asked =
    let c = trans_code is_read count in
    let r = request_rest is_read reg value count in
    rw (request_form is_read reg value count) (
      subst (λ bs. Parses rx_start bs (c ∷ r)) (append-nil (packet c r (hole_size br.word_len c r)))
        (Parses-packet c r (hole_size br.word_len c r) []
          (omega (arith, length-request_rest is_read reg value count asked))))

-- An access hands spi_write whole words that fit phy_buf; with the bytes of each word in the order
-- of the stream, the parser reads the request of the transaction layer back from them; if spi_write
-- fails, its error is the result, otherwise the answer decides (for a read, or the write of one
-- value).
pub request_sent :
    (xfer_timeout : ℕ) (br : Bridge) (spi : Spi) (is_read : Bool) (reg : ℕ) (value : List ℕ)
    (count : ℕ)
    → IsBridge br
    → IsRequest is_read value count
    → (wire : List ℕ) × Parses rx_start (br_do_tx br wire) (request is_read reg value count)
      × (length wire ≤ phy_buf_size)
      × (length wire % br.word_len ≡ 0)
      × (do_reg_access xfer_timeout br spi is_read reg value count ≡ (
          if spi.write_status wire == 0
          then after_rx is_read count
              (br_do_rx_and_pkt_phy_parse br.swap_words xfer_timeout spi.jiffies spi.polls)
          else error (spi.write_status wire)))
unfolding after_tx
request_sent xfer_timeout br spi is_read reg value count known asked =
    let p = phy br is_read reg value count known asked in
    (
      br_do_tx br p,
      rw (do_tx_twice br p) (phy-Parses br is_read reg value count known asked),
      rw (length-do_tx br p) (unfold phy in bounds.1),
      rw (length-do_tx br p) (unfold phy in bounds.0),
      access-after_tx br is_read reg value count known asked xfer_timeout spi ∙ ground arith,
    )
  where
    bounds :
        (length (phy br is_read reg value count known asked) % br.word_len ≡ 0)
        × (length (phy br is_read reg value count known asked) ≤ phy_buf_size)
        × (hole_size br.word_len (trans_code is_read count) (request_rest is_read reg value count)
            < br.word_len)
    bounds =
        unfold phy in
        packet_bounds br.word_len _ _ (IsBridge-word_len br known)
          (length-request_rest is_read reg value count asked)
