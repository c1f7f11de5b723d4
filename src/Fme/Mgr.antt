-- ===== src/Fme/Mgr.antt =====
-- drivers/fpga/dfl-fme-mgr.c: the engine of partial reconfiguration as a driver of an FPGA manager.
mod Clean
mod Sent
mod Status
mod Tests
use linux_dfl_backport.Base.{
  ℕ, zero, suc, ◌+◌, ◌-◌, ◌*◌, ◌%◌, ◌^◌, Bool, true, false, not, List, [], ◌∷◌, Option, none, some,
  ◌==◌, leb, if◌then◌else◌, einval, etimedout,
}
use linux_dfl_backport.Dfl.Field.{field, bit}
use linux_dfl_backport.Fpga.Mgr.Defs.{Info, Ops}

-- EIO of include/uapi/asm-generic/errno-base.h.
abbrev pub eio : ℕ
eio = 5

-- FME_PR_CTRL, FME_PR_STS, FME_PR_DATA and FME_PR_ERR.
abbrev pub fme_pr_ctrl : ℕ
fme_pr_ctrl = 0x8

abbrev pub fme_pr_sts : ℕ
fme_pr_sts = 0x10

abbrev pub fme_pr_data : ℕ
fme_pr_data = 0x18

abbrev pub fme_pr_err : ℕ
fme_pr_err = 0x20

abbrev pub pr_wait_timeout : ℕ
pr_wait_timeout = 8000000

-- The accesses of the registers, on a state of the device: readq, writeq, readq_poll_timeout, which
-- gives the last value and whether it was waited for in vain, and udelay.
pub record Io (D : Type 0) : Type 0 where
  pub readq : (addr : ℕ) → D → ℕ × D
  pub writeq : (value addr : ℕ) → D → D
  pub readq_poll_timeout : (addr : ℕ) → (ℕ → Bool) → D → (ℕ × D) × Bool
  pub udelay : D → D

-- struct fme_mgr_priv, with the device behind ioaddr.
pub record Priv (D : Type 0) : Type 0 where
  pub dev : D
  pub pr_error : ℕ

-- The status of an error's bit.
abbrev status_bit : ℕ → (err : ℕ) → ℕ
status_bit n err = if bit n err then 2 ^ n else 0

-- FPGA_MGR_STATUS_OPERATION_ERR, _CRC_ERR, _INCOMPATIBLE_IMAGE_ERR, _IP_PROTOCOL_ERR and
-- _FIFO_OVERFLOW_ERR are the bits 0 to 4, as FME_PR_ERR_OPERATION_ERR, _CRC_ERR, _INCOMPATIBLE_BS,
-- _PROTOCOL_ERR and _FIFO_OVERFLOW are.
unfoldable pub pr_error_to_mgr_status : (err : ℕ) → ℕ
pr_error_to_mgr_status err =
    status_bit 0 err + status_bit 1 err + status_bit 2 err + status_bit 3 err + status_bit 4 err

-- The bytes of a number of at most eight, as memcpy puts them into a pr_data of 0 (little-endian).
unfoldable pub le_word : List ℕ → ℕ
le_word [] = 0
le_word (x ∷ xs) = x + 256 * le_word xs

-- pr_ctrl | BIT(n), and pr_ctrl & ~BIT(n).
abbrev pub set_bit : ℕ → ℕ → ℕ
set_bit n v = if bit n v then v else v + 2 ^ n

abbrev pub clear_bit : ℕ → ℕ → ℕ
clear_bit n v = if bit n v then v - 2 ^ n else v

-- FME_PR_CTRL_PR_RGN_ID, the bits 7 to 9, is replaced.
abbrev pub set_region : ℕ → ℕ → ℕ
set_region region_id v = v - field 7 3 v * 2 ^ 7 + region_id % 8 * 2 ^ 7

unfoldable pub fme_mgr_status : {D : Type 0} → Priv D → ℕ
unfolding pr_error_to_mgr_status
fme_mgr_status priv = pr_error_to_mgr_status priv.pr_error

module _ {D : Type 0} (io : Io D) where
  -- readq of FME_PR_CTRL, a change, and writeq of it.
  unfoldable pub ctrl_changed : (ℕ → ℕ) → D → D
  ctrl_changed change d =
      let (v, d') = io.readq fme_pr_ctrl d in io.writeq (change v) fme_pr_ctrl d'

  -- Behind the read of FME_PR_STS.
  unfoldable pub error_handled : ℕ × D → ℕ × D
  error_handled (pr_status, d) =
      if bit 16 pr_status
      then (let (pr_error, d') = io.readq fme_pr_err d in
          (pr_error, io.writeq pr_error fme_pr_err d'))
      else (0, d)

  unfoldable pub fme_mgr_pr_error_handle : D → ℕ × D
  unfolding error_handled
  fme_mgr_pr_error_handle d = error_handled (io.readq fme_pr_sts d)

  -- Behind the wait for an idle PR engine.
  unfoldable pub resource_ready : (region_id : ℕ) → (ℕ × D) × Bool → ℕ × Priv D
  unfolding fme_mgr_pr_error_handle ctrl_changed
  resource_ready region_id ((pr_status, d), true) =
      let (pr_error, d') = fme_mgr_pr_error_handle d in
      (etimedout, record { dev = d'; pr_error = pr_error })
  resource_ready region_id ((pr_status, d), false) =
      let (pr_error, d') = fme_mgr_pr_error_handle d in
      (0, record { dev = ctrl_changed (set_region region_id) d'; pr_error = pr_error })

  -- Behind the wait for the acknowledgement of the reset.
  unfoldable pub reset_acked : (region_id : ℕ) → Priv D → (ℕ × D) × Bool → ℕ × Priv D
  unfolding resource_ready ctrl_changed
  reset_acked region_id priv ((pr_ctrl, d), true) = (etimedout, record priv { dev = d })
  reset_acked region_id priv ((pr_ctrl, d), false) = resource_ready region_id (
      io.readq_poll_timeout fme_pr_sts (λ pr_status. not (bit 16 pr_status))
        (ctrl_changed (clear_bit 0) d))

  unfoldable pub fme_mgr_write_init : (flags region_id : ℕ) → Priv D → ℕ × Priv D
  unfolding reset_acked ctrl_changed
  fme_mgr_write_init flags region_id priv =
      if bit 0 flags
      then reset_acked region_id priv
          (io.readq_poll_timeout fme_pr_ctrl (bit 4) (ctrl_changed (set_bit 0) priv.dev))
      else (einval, priv)

  -- FME_PR_STS_PR_CREDIT of the status.
  unfoldable pub credit_read : D → ℕ × D
  credit_read d = let (pr_status, d') = io.readq fme_pr_sts d in (field 0 9 pr_status, d')

  -- The loop that waits for credits, with the delays that are left (PR_WAIT_TIMEOUT + 1 - delay),
  -- the credit and whether it is too low; it gives the first two, or nothing when the delays are used
  -- up.
  unfoldable pub credit_loop : (few : Bool) → (left pr_credit : ℕ) → D → Option (ℕ × ℕ) × D
  unfolding credit_read
  credit_loop false left pr_credit d = (some (left, pr_credit), d)
  credit_loop true zero pr_credit d = (none, d)
  credit_loop true (suc left) pr_credit d =
      let (credit, d') = credit_read (io.udelay d) in credit_loop (leb credit 1) left credit d'

  unfoldable pub wait_credit : (left pr_credit : ℕ) → D → Option (ℕ × ℕ) × D
  unfolding credit_loop
  wait_credit left pr_credit d = credit_loop (leb pr_credit 1) left pr_credit d

  -- A word is written behind the wait, and `k` is the rest of the loop.
  unfoldable pub word_written : (pr_data : ℕ) → (k : ℕ → ℕ → D → ℕ × D) → Option (ℕ × ℕ) × D → ℕ × D
  word_written pr_data k (none, d) = (etimedout, d)
  word_written pr_data k (some (left, pr_credit), d) =
      k left (pr_credit - 1) (io.writeq pr_data fme_pr_data d)

  -- The loop over the data: chunks of four bytes, of which the last may be shorter.
  unfoldable pub push : (buf : List ℕ) → (left pr_credit : ℕ) → D → ℕ × D
  unfolding word_written wait_credit le_word
  push [] left pr_credit d = (0, d)
  push (a ∷ []) left pr_credit d =
      word_written (le_word (a ∷ [])) (push []) (wait_credit left pr_credit d)
  push (a ∷ b ∷ []) left pr_credit d =
      word_written (le_word (a ∷ b ∷ [])) (push []) (wait_credit left pr_credit d)
  push (a ∷ b ∷ c ∷ []) left pr_credit d =
      word_written (le_word (a ∷ b ∷ c ∷ [])) (push []) (wait_credit left pr_credit d)
  push (a ∷ b ∷ c ∷ e ∷ buf) left pr_credit d =
      word_written (le_word (a ∷ b ∷ c ∷ e ∷ [])) (push buf) (wait_credit left pr_credit d)

  unfoldable pub fme_mgr_write : (buf : List ℕ) → Priv D → ℕ × Priv D
  unfolding push credit_read ctrl_changed
  fme_mgr_write buf priv =
      let (pr_credit, d) = credit_read (ctrl_changed (set_bit 12) priv.dev) in
      let (ret, d') = push buf (pr_wait_timeout + 1) pr_credit d in (ret, record priv { dev = d' })

  -- Behind the wait for the release of the PR engine.
  unfoldable pub pr_released : Priv D → (ℕ × D) × Bool → ℕ × Priv D
  unfolding fme_mgr_pr_error_handle
  pr_released priv ((pr_ctrl, d), true) = (etimedout, record priv { dev = d })
  pr_released priv ((pr_ctrl, d), false) =
      let (pr_error, d') = fme_mgr_pr_error_handle d in
      (if pr_error == 0 then 0 else eio, record { dev = d'; pr_error = pr_error })

  unfoldable pub fme_mgr_write_complete : Priv D → ℕ × Priv D
  unfolding pr_released ctrl_changed
  fme_mgr_write_complete priv = pr_released priv (
      io.readq_poll_timeout fme_pr_ctrl (λ pr_ctrl. not (bit 12 pr_ctrl))
        (ctrl_changed (set_bit 13) priv.dev))

  -- fme_mgr_ops, for the flags and the region of an image.
  unfoldable pub fme_mgr_ops : (flags region_id : ℕ) → Ops (Priv D)
  unfolding fme_mgr_write_init fme_mgr_write fme_mgr_write_complete
  fme_mgr_ops flags region_id = record {
    initial_header_size = 0;
    skip_header = false;
    parse_header = none;
    write_init = some (λ info buf priv. fme_mgr_write_init flags region_id priv);
    write = some fme_mgr_write;
    write_sg = none;
    write_complete = some (λ info priv. fme_mgr_write_complete priv);
  }
