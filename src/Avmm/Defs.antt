-- ===== src/Avmm/Defs.antt =====
-- drivers/base/regmap/regmap-spi-avmm.c: the special characters and the bridge's state.
-- Below, a buffer is the list of the bytes written to it so far; the pointer `tb` or `pb` into it is the
-- end of that list, so `pb - br->phy_buf` is the list's length.
use linux_dfl_backport.Base.{ℕ, Bool, ◌+◌, ◌*◌}

abbrev pub pkt_sop : ℕ
pkt_sop = 0x7a

abbrev pub pkt_eop : ℕ
pkt_eop = 0x7b

abbrev pub pkt_channel : ℕ
pkt_channel = 0x7c

abbrev pub pkt_esc : ℕ
pkt_esc = 0x7d

abbrev pub phy_idle : ℕ
phy_idle = 0x4a

abbrev pub phy_esc : ℕ
phy_esc = 0x4d

abbrev pub trans_code_write : ℕ
trans_code_write = 0x0

abbrev pub trans_code_seq_write : ℕ
trans_code_seq_write = 0x4

abbrev pub trans_code_read : ℕ
trans_code_read = 0x10

abbrev pub trans_code_seq_read : ℕ
trans_code_seq_read = 0x14

abbrev pub val_size : ℕ
val_size = 4

abbrev pub trans_req_hd_size : ℕ
trans_req_hd_size = 8

abbrev pub trans_resp_hd_size : ℕ
trans_resp_hd_size = 4

-- TRANS_TX_MAX, with MAX_WRITE_CNT = 1.
abbrev pub trans_tx_max : ℕ
trans_tx_max = trans_req_hd_size + val_size * 1

-- TRANS_BUF_SIZE: TRANS_RX_MAX, with MAX_READ_CNT = 256, is the larger.
abbrev pub trans_buf_size : ℕ
trans_buf_size = val_size * 256

-- PHY_BUF_SIZE: ALIGN(2 * TRANS_TX_MAX + 4, 4).
abbrev pub phy_buf_size : ℕ
phy_buf_size = 28

-- struct spi_avmm_bridge, less the two buffers, which the layers hand to one another: `swap_words`
-- says whether the callback is set, to `br_swap_words_32`.
pub record Bridge : Type 0 where
  pub word_len : ℕ
  pub swap_words : Bool
