-- ===== src/Avmm/Transfer.antt =====
-- drivers/base/regmap/regmap-spi-avmm.c: the responses, do_reg_access, the regmap bus operations
-- and spi_avmm_bridge_ctx_gen. What is not in the repository comes as arguments: spi_setup,
-- spi_write and kzalloc by what they return, spi_read and jiffies by the rounds of `Poll`.
use Prim.Native.Nat.{bit_xor}
use linux_dfl_backport.Base.{
  ℕ, ◌+◌, ◌-◌, ◌*◌, ◌/◌, ◌%◌, Bool, true, false, not, ◌&&◌, ◌||◌, List, [], ◌∷◌, ltb, ◌==◌,
  if◌then◌else◌, length, Result, ok, err, efault, einval, enodev, enomem,
}
use linux_dfl_backport.Avmm.Defs.{
  trans_code_write, trans_code_seq_write, val_size, trans_resp_hd_size, Bridge,
}
use linux_dfl_backport.Avmm.Bytes.{le32_to_cpu, br_swap_words_32}
use linux_dfl_backport.Avmm.Tx.{br_trans_tx_prepare, br_pkt_phy_tx_prepare}
use linux_dfl_backport.Avmm.Rx.{
  Poll, RxResult, received, failed, waiting, br_do_rx_and_pkt_phy_parse,
}

-- The values that a read returns.
unfoldable pub br_rd_trans_rx_parse : List ℕ → ℕ → Result (List ℕ)
br_rd_trans_rx_parse trans_buf expected_count =
    if not (expected_count * val_size == length trans_buf)
    then err efault
    else ok (le32_to_cpu expected_count trans_buf)

-- The checks of struct trans_resp_header: r_code, rsvd, size.
unfoldable pub check_resp : List ℕ → ℕ → Result (List ℕ)
check_resp (r_code ∷ rsvd ∷ hi ∷ lo ∷ _) expected_count =
    let code = bit_xor r_code 0x80 in
    let val_len = hi * 256 + lo in
    if val_len == 0 || not (val_len == expected_count * val_size)
    then err efault
    else if (val_len == val_size && not (code == trans_code_write))
        || (ltb val_size val_len && not (code == trans_code_seq_write))
    then err efault
    else ok []
check_resp _ expected_count = err efault

-- A write returns no values. (The length test makes the last clause of `check_resp` unreachable.)
unfoldable pub br_wr_trans_rx_parse : List ℕ → ℕ → Result (List ℕ)
unfolding check_resp
br_wr_trans_rx_parse trans_buf expected_count =
    if not (length trans_buf == trans_resp_hd_size)
    then err efault
    else check_resp trans_buf expected_count

-- br_do_tx: the bytes that go over the wire.
unfoldable pub br_do_tx : Bridge → List ℕ → List ℕ
br_do_tx br phy_buf = if br.swap_words then br_swap_words_32 phy_buf else phy_buf

-- What a register access returns; `pending` where the given rounds are used up.
pub data Access : Type 0 where
  done : List ℕ → Access
  error : ℕ → Access
  pending : Access

abbrev pub of_result : Result (List ℕ) → Access
of_result (ok v) = done v
of_result (err e) = error e

unfoldable pub after_rx : Bool → ℕ → RxResult → Access
unfolding br_rd_trans_rx_parse br_wr_trans_rx_parse
after_rx is_read count (received d) =
    of_result (if is_read then br_rd_trans_rx_parse d count else br_wr_trans_rx_parse d count)
after_rx is_read count (failed e) = error e
after_rx is_read count waiting = pending

-- The environment of a transfer: what spi_write returns, the time at the start of the receive
-- phase and its rounds.
pub record Spi : Type 0 where
  pub write_status : List ℕ → ℕ
  pub jiffies : ℕ
  pub polls : List Poll

module _ (xfer_timeout : ℕ) where
  unfoldable pub after_tx : Bridge → Spi → Bool → ℕ → List ℕ → Access
  unfolding br_do_tx after_rx
  after_tx br spi is_read count phy_buf =
      let status = spi.write_status (br_do_tx br phy_buf) in
      if not (status == 0)
      then error status
      else after_rx is_read count
          (br_do_rx_and_pkt_phy_parse br.swap_words xfer_timeout spi.jiffies spi.polls)

  unfoldable pub do_reg_access : Bridge → Spi → Bool → ℕ → List ℕ → ℕ → Access
  unfolding after_tx
  do_reg_access br spi is_read reg value count =
      elim (br_trans_tx_prepare is_read reg value count) [
        | err e ↦ error e
        | ok trans_buf ↦ elim (br_pkt_phy_tx_prepare br.word_len trans_buf) [
          | err e ↦ error e
          | ok phy_buf ↦ after_tx br spi is_read count phy_buf
        ]
      ]

  -- val_buf is the words that it holds, and val_len its length in bytes.
  unfoldable pub regmap_spi_avmm_gather_write :
      Bridge → Spi → (reg reg_len : ℕ) → (val_buf : List ℕ) → (val_len : ℕ) → Access
  unfolding do_reg_access
  regmap_spi_avmm_gather_write br spi reg reg_len val_buf val_len =
      if not (reg_len == 4)
      then error einval
      else if not (val_len % val_size == 0)
      then error einval
      else do_reg_access br spi false reg val_buf (val_len / val_size)

  -- The data is a register address and the words behind it.
  unfoldable pub regmap_spi_avmm_write :
      Bridge → Spi → (reg : ℕ) → (val_buf : List ℕ) → (bytes : ℕ) → Access
  unfolding regmap_spi_avmm_gather_write
  regmap_spi_avmm_write br spi reg val_buf bytes =
      if ltb bytes (4 + val_size)
      then error einval
      else regmap_spi_avmm_gather_write br spi reg 4 val_buf (bytes - 4)

  unfoldable pub regmap_spi_avmm_read : Bridge → Spi → (reg reg_len val_len : ℕ) → Access
  unfolding do_reg_access
  regmap_spi_avmm_read br spi reg reg_len val_len =
      if not (reg_len == 4)
      then error einval
      else if not (val_len % val_size == 0)
      then error einval
      else do_reg_access br spi true reg [] (val_len / val_size)

-- spi_setup gives the status for a number of bits per word.
unfoldable pub spi_avmm_bridge_ctx_gen :
    (has_spi : Bool) → (ℕ → ℕ) → (allocated : Bool) → Result Bridge
spi_avmm_bridge_ctx_gen has_spi spi_setup allocated =
    if not has_spi
    then err enodev
    else if not (spi_setup 32 == 0) && not (spi_setup 8 == 0)
    then err einval
    else if not allocated
    then err enomem
    else let bits_per_word : ℕ = if spi_setup 32 == 0 then 32 else 8 in
      ok (record { word_len = bits_per_word / 8; swap_words = bits_per_word / 8 == 4 })
