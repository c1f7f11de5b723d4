-- ===== src/SecUpdate/Rsu.antt =====
-- drivers/fpga/intel-m10-bmc-sec-update.c: the handshakes with the card's processor (rsu_*). Each
-- gives an error of enum fw_upload_err, 0 for none.
use linux_dfl_backport.Base.{
  ℕ, zero, suc, ◌+◌, ◌%◌, ◌^◌, Bool, true, false, not, ◌||◌, Option, none, some, ◌==◌,
  if◌then◌else◌, Result, ok, err, einval,
}
use linux_dfl_backport.Dfl.Field.{bit}
use linux_dfl_backport.Avmm.Rx.{time_after}
use linux_dfl_backport.ImageLoad.Defs.{hw_error, timeout, canceled, busy, rw_error, wearout}
use linux_dfl_backport.SecUpdate.Defs.{
  FwState, Card, rsu_prog, prog_idle, prog_prepare, prog_ready, prog_rsu_done, stat_erase_fail,
  stat_wearout, host_status_mask, host_status, sys_read, sys_update_bits, rsu_status,
}

-- EIO and EAGAIN of include/uapi/asm-generic/errno-base.h.
abbrev pub eio : ℕ
eio = 5

abbrev pub eagain : ℕ
eagain = 11

-- RSU_STAT_NORMAL, _NIOS_OK, _USER_OK and _FACTORY_OK.
unfoldable pub rsu_status_ok : ℕ → Bool
rsu_status_ok status = status == 0 || status == 0x80 || status == 0x81 || status == 0x82

unfoldable pub rsu_progress_done : ℕ → Bool
rsu_progress_done progress = progress == prog_idle || progress == prog_rsu_done

-- RSU_PROG_AUTHENTICATING, _COPYING, _UPDATE_CANCEL and _PROGRAM_KEY_HASH.
unfoldable pub rsu_progress_busy : ℕ → Bool
rsu_progress_busy progress = progress == 4 || progress == 5 || progress == 6 || progress == 7

-- What m10bmc_sec_progress_status reads.
pub record Observed : Type 0 where
  pub doorbell : ℕ
  pub progress : ℕ
  pub status : ℕ

unfoldable pub rsu_start_done : Observed → Bool
unfolding rsu_progress_done
rsu_start_done o =
    if bit 0 o.doorbell
    then false
    else if o.status == stat_erase_fail || o.status == stat_wearout
    then true
    else not (rsu_progress_done o.progress)

module _ {D : Type 0} (c : Card D) (state : FwState) where
  -- M10BMC_PMCI_SDM_PR_STS, M10BMC_PMCI_CERT_PROG_STS and M10BMC_PMCI_CERT_SPEC_STS.
  unfoldable pub log_status : Result ℕ × D → D
  unfolding sys_read
  log_status (err e, d) = d
  log_status (ok status, d) =
      if status == 0x23
      then (sys_read c state 0x820 d).1
      else if status == 0x33 || status == 0x43
      then (sys_read c state 0x828 (sys_read c state 0x824 d).1).1
      else d

  unfoldable pub log_error_regs : D → D
  unfolding log_status sys_read rsu_status
  log_error_regs d = log_status (rsu_status c state (sys_read c state c.auth_result d).1)

  unfoldable pub logged : (code : ℕ) → D → ℕ × D
  unfolding log_error_regs
  logged code d = (code, log_error_regs d)

  -- Behind the read of the doorbell.
  unfoldable pub observed : (doorbell : ℕ) → Result ℕ × D → Result Observed × D
  observed doorbell (err e, d) = (err e, d)
  observed doorbell (ok status, d) =
      (ok (record { doorbell = doorbell; progress = rsu_prog doorbell; status = status }), d)

  unfoldable pub doorbell_read : Result ℕ × D → Result Observed × D
  unfolding observed rsu_status
  doorbell_read (err e, d) = (err e, d)
  doorbell_read (ok doorbell, d) = observed doorbell (rsu_status c state d)

  unfoldable pub m10bmc_sec_progress_status : D → Result Observed × D
  unfolding doorbell_read sys_read
  m10bmc_sec_progress_status d = doorbell_read (sys_read c state c.doorbell d)

  unfoldable pub idle_checked : Result ℕ × D → ℕ × D
  unfolding rsu_progress_done logged
  idle_checked (err e, d) = (rw_error, d)
  idle_checked (ok doorbell, d) =
      if rsu_progress_done (rsu_prog doorbell) then (0, d) else logged busy d

  unfoldable pub rsu_check_idle : D → ℕ × D
  unfolding idle_checked sys_read
  rsu_check_idle d = idle_checked (sys_read c state c.doorbell d)

  unfoldable pub started : Result Observed → Bool
  unfolding rsu_start_done
  started (err e) = true
  started (ok o) = rsu_start_done o

  -- What read_poll_timeout gave.
  unfoldable pub init_polled : (Result Observed × D) × Bool → ℕ × D
  unfolding logged
  init_polled ((r, d), true) = logged timeout d
  init_polled ((err e, d), false) = (rw_error, d)
  init_polled ((ok o, d), false) =
      if o.status == stat_wearout
      then (wearout, d)
      else if o.status == stat_erase_fail
      then logged hw_error d
      else (0, d)

  -- What sys_update_bits gave: on success, DRBL_RSU_REQUEST is set.
  unfoldable pub init_requested : ℕ × D → ℕ × D
  unfolding init_polled started m10bmc_sec_progress_status
  init_requested (ret, d) =
      if ret == 0
      then init_polled (c.read_poll_timeout (Result Observed) m10bmc_sec_progress_status started d)
      else (rw_error, d)

  unfoldable pub rsu_update_init : D → ℕ × D
  unfolding init_requested sys_update_bits
  rsu_update_init d = init_requested (sys_update_bits c state c.doorbell 0xf01 1 d)

  -- Behind the loop of rsu_prog_ready.
  unfoldable pub ready_tested : (doorbell : ℕ) → D → ℕ × D
  unfolding logged
  ready_tested doorbell d =
      if rsu_prog doorbell == prog_prepare
      then logged timeout d
      else if rsu_prog doorbell == prog_ready
      then (0, d)
      else logged hw_error d

  -- The loop of rsu_prog_ready, on fuel; a read of the doorbell that fails ends it.
  unfoldable pub wait_ready : (fuel : ℕ) → (poll_timeout : ℕ) → Result ℕ × D → Option (ℕ × D)
  unfolding ready_tested sys_read time_after
  wait_ready zero poll_timeout r = none
  wait_ready (suc fuel) poll_timeout (err e, d) = some (rw_error, d)
  wait_ready (suc fuel) poll_timeout (ok doorbell, d) =
      let d' = c.msleep 100 d in
      let rest = wait_ready fuel poll_timeout (sys_read c state c.doorbell d') in
      if rsu_prog doorbell == prog_prepare
      then if time_after (c.jiffies d') poll_timeout then some (ready_tested doorbell d') else rest
      else some (ready_tested doorbell d)

  unfoldable pub ready_from : (fuel : ℕ) → Result ℕ × D → Option (ℕ × D)
  unfolding wait_ready
  ready_from fuel (r, d) =
      wait_ready fuel ((c.jiffies d + c.msecs_to_jiffies 120000) % 2 ^ 64) (r, d)

  unfoldable pub rsu_prog_ready : (fuel : ℕ) → D → Option (ℕ × D)
  unfolding ready_from sys_read
  rsu_prog_ready fuel d = ready_from fuel (sys_read c state c.doorbell d)

  -- The status behind the handshake of rsu_send_data.
  unfoldable pub sent_status : Result ℕ × D → ℕ × D
  unfolding rsu_status_ok logged
  sent_status (err e, d) = (hw_error, d)
  sent_status (ok status, d) = if rsu_status_ok status then (0, d) else logged hw_error d

  unfoldable pub left_ready : Result ℕ → Bool
  left_ready (err e) = true
  left_ready (ok doorbell) = not (rsu_prog doorbell == prog_ready)

  unfoldable pub send_polled : (Result ℕ × D) × Bool → ℕ × D
  unfolding sent_status logged rsu_status
  send_polled ((r, d), true) = logged timeout d
  send_polled ((err e, d), false) = (rw_error, d)
  send_polled ((ok doorbell, d), false) = sent_status (rsu_status c state d)

  unfoldable pub send_requested : ℕ × D → ℕ × D
  unfolding send_polled left_ready
  send_requested (ret, d) =
      if ret == 0
      then send_polled (c.read_poll_timeout (Result ℕ) (c.regmap_read c.doorbell) left_ready d)
      else (rw_error, d)

  unfoldable pub rsu_send_data : D → ℕ × D
  unfolding send_requested sys_update_bits
  rsu_send_data d =
      send_requested (sys_update_bits c state c.doorbell host_status_mask (host_status 1) d)

  unfoldable pub complete_of : Result Observed → ℕ
  unfolding rsu_status_ok rsu_progress_done rsu_progress_busy
  complete_of (err e) = eio
  complete_of (ok o) =
      if rsu_status_ok o.status
      then if rsu_progress_done o.progress
        then 0
        else if rsu_progress_busy o.progress
        then eagain
        else einval
      else einval

  unfoldable pub rsu_check_complete : D → ℕ × D
  unfolding complete_of m10bmc_sec_progress_status
  rsu_check_complete d = let (r, d') = m10bmc_sec_progress_status d in (complete_of r, d')

  unfoldable pub abort_requested : ℕ × D → ℕ × D
  abort_requested (ret, d) = if ret == 0 then (canceled, d) else (rw_error, d)

  unfoldable pub cancel_from : Result ℕ × D → ℕ × D
  unfolding abort_requested sys_update_bits
  cancel_from (err e, d) = (rw_error, d)
  cancel_from (ok doorbell, d) =
      if rsu_prog doorbell == prog_ready
      then abort_requested (sys_update_bits c state c.doorbell host_status_mask (host_status 2) d)
      else (busy, d)

  unfoldable pub rsu_cancel : D → ℕ × D
  unfolding cancel_from sys_read
  rsu_cancel d = cancel_from (sys_read c state c.doorbell d)
