-- ===== src/Avmm/Tx.antt =====
-- drivers/base/regmap/regmap-spi-avmm.c, transmit side: br_trans_tx_prepare and
-- br_pkt_phy_tx_prepare.
use Prim.Native.Nat.{bit_xor}
use linux_dfl_backport.Base.{
  ℕ, zero, suc, ◌+◌, ◌-◌, ◌*◌, ◌/◌, ◌%◌, ◌^◌, ◌≡◌, refl, Bool, true, false, not, ◌&&◌, ◌||◌, Option,
  none, some, List, [], ◌∷◌, ◌++◌, ltb, ◌==◌, if◌then◌else◌, is_none, is_nil, length, take, drop,
  replicate, Result, ok, err, enomem,
}
use linux_dfl_backport.Avmm.Defs.{
  pkt_sop, pkt_eop, pkt_channel, pkt_esc, phy_idle, phy_esc, trans_code_write, trans_code_seq_write,
  trans_code_read, trans_code_seq_read, val_size, trans_req_hd_size, trans_buf_size, phy_buf_size,
}
use linux_dfl_backport.Avmm.Bytes.{le32_all, be32, be16}

unfoldable pub trans_code : Bool → ℕ → ℕ
trans_code is_read count =
    if is_read
    then (if count == 1 then trans_code_read else trans_code_seq_read)
    else (if count == 1 then trans_code_write else trans_code_seq_write)

-- struct trans_req_header: code, rsvd, size (the product is cut to 16 bits), addr.
unfoldable pub trans_req_header : Bool → ℕ → ℕ → List ℕ
unfolding trans_code be32 be16
trans_req_header is_read reg count =
    trans_code is_read count ∷ 0 ∷ be16 (count % 65536 * val_size % 65536) ++ be32 reg

-- The result is the bridge's trans_buf, whose length is trans_len. The write request is refused
-- when it does not fit the buffer; the length is a sum of unsigned ints. (Where it wraps, the values
-- are written behind the end of trans_buf.)
unfoldable pub br_trans_tx_prepare : Bool → ℕ → List ℕ → ℕ → Result (List ℕ)
unfolding trans_req_header le32_all
br_trans_tx_prepare is_read reg wr_val count =
    let header = trans_req_header is_read reg count in
    if is_read
    then ok header
    else if ltb trans_buf_size ((trans_req_hd_size + val_size * count) % 2 ^ 32)
    then err enomem
    else ok (header ++ le32_all (take count wr_val))

-- The locals of br_pkt_phy_tx_prepare: the bytes of trans_buf from `tb` on, the bytes of phy_buf
-- up to `pb`, and the offset of `pb_eop` in phy_buf, if it is set.
pub record TxState : Type 0 where
  pub tb : List ℕ
  pub pb : List ℕ
  pub need_esc : Bool
  pub pb_eop : Option ℕ

unfoldable pub is_pkt_special : ℕ → Bool
is_pkt_special c = c == pkt_sop || c == pkt_eop || c == pkt_channel || c == pkt_esc

unfoldable pub is_phy_special : ℕ → Bool
is_phy_special c = c == phy_idle || c == phy_esc

-- One round of the loop, at a trans_buf that goes on with the byte c and then rest.
unfoldable pub tx_body : TxState → ℕ → List ℕ → TxState
unfolding is_pkt_special is_phy_special
tx_body s c rest =
    if need_esc
    then record s { tb = rest; pb = pb ++ bit_xor c 0x20 ∷ []; need_esc = false }
    else if is_nil rest && is_none pb_eop
    then record s { pb = pb ++ pkt_eop ∷ []; pb_eop = some (length pb) }
    else if is_pkt_special c
    then record s { pb = pb ++ pkt_esc ∷ []; need_esc = true }
    else if is_phy_special c
    then record s { pb = pb ++ phy_esc ∷ []; need_esc = true }
    else record s { tb = rest; pb = pb ++ c ∷ [] }
  where
    open s use {pb, need_esc, pb_eop}

-- The loop; its first argument is pb_limit - pb.
unfoldable pub tx_loop : ℕ → TxState → TxState
unfolding tx_body
tx_loop zero s = s
tx_loop (suc room) s = elim s.tb [ [] ↦ s | c ∷ rest ↦ tx_loop room (tx_body s c rest) ]

-- ALIGN(n, w) for a positive w.
unfoldable pub align : ℕ → ℕ → ℕ
align n w = (n + w - 1) / w * w

-- The memmove and memset at the end: the bytes from EOP on go to the end of the aligned length.
-- (`pb_eop` is set whenever the loop has come to the end of a trans_buf that is not empty.)
unfoldable pub move_eop : List ℕ → Option ℕ → ℕ → List ℕ
move_eop pb none aligned = pb
move_eop pb (some eop) aligned =
    take eop pb ++ replicate (aligned - length pb) phy_idle ++ drop eop pb

unfoldable pub tx_pad : ℕ → TxState → Result (List ℕ)
unfolding align move_eop
tx_pad word_len s =
    let aligned = align (length s.pb) word_len in
    if word_len == 1
    then ok s.pb
    else if ltb phy_buf_size aligned
    then err enomem
    else if aligned == length s.pb
    then ok s.pb
    else ok (move_eop s.pb s.pb_eop aligned)

unfoldable pub tx_start : List ℕ → TxState
tx_start trans_buf = record {
  tb = trans_buf;
  pb = pkt_sop ∷ pkt_channel ∷ 0x0 ∷ [];
  need_esc = false;
  pb_eop = none;
}

-- The result is the bridge's phy_buf, whose length is phy_len.
unfoldable pub br_pkt_phy_tx_prepare : ℕ → List ℕ → Result (List ℕ)
unfolding tx_loop tx_pad tx_start
br_pkt_phy_tx_prepare word_len trans_buf =
    let s = tx_loop (phy_buf_size - 3) (tx_start trans_buf) in
    if not (is_nil s.tb) then err enomem else tx_pad word_len s

-- The example of the comment above the function: a register read, padded to words of four bytes.
padded_request :
    br_pkt_phy_tx_prepare 4 (0x10 ∷ 0x00 ∷ 0x00 ∷ 0x04 ∷ 0x02 ∷ 0x4b ∷ 0x7a ∷ 0x40 ∷ [])
    ≡ ok (
        0x7a ∷ 0x7c ∷ 0x00 ∷ 0x10 ∷ 0x00 ∷ 0x00 ∷ 0x04 ∷ 0x02 ∷ 0x4b ∷ 0x7d ∷ 0x5a ∷ 0x4a ∷ 0x4a
        ∷ 0x4a ∷ 0x7b ∷ 0x40 ∷ [])
unfolding br_pkt_phy_tx_prepare
padded_request = refl
