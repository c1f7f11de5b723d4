-- ===== src/SecUpdate/Retimer.antt =====
-- drivers/fpga/intel-m10-bmc-sec-update.c: the load of the retimers' EEPROM, and the loads of images
-- by the card.
use linux_dfl_backport.Base.{
  ℕ, ◌^◌, ◌≡◌, ap, ◌∙◌, Bool, true, false, not, ◌&&◌, ◌||◌, ◌==◌, if◌then◌else◌, Result, ok, err,
  ebusy, enodev, etimedout,
}
use linux_dfl_backport.Dfl.Field.{bit}
use linux_dfl_backport.SecUpdate.Defs.{
  FwState, Card, Sec, rsu_prog, prog_idle, prog_rsu_done, prog_pkvl_prom_done, stat_pkvl_reject,
  m10bmc_fw_state_set, sys_read, sys_update_bits,
}
use linux_dfl_backport.SecUpdate.Rsu.{eio, Observed, logged, m10bmc_sec_progress_status}

-- ECANCELED of include/uapi/asm-generic/errno.h.
abbrev pub ecanceled : ℕ
ecanceled = 125

-- DRBL_PKVL_EEPROM_LOAD_SEC, and M10BMC_PKVL_POLL_CTRL.
abbrev pub eeprom_load_sec : ℕ
eeprom_load_sec = 2 ^ 24

abbrev pub pkvl_poll_ctrl : ℕ
pkvl_poll_ctrl = 0x80

module _ {D : Type 0} (c : Card D) (state : FwState) where
  unfoldable pub retimer_idle_checked : Result ℕ × D → ℕ × D
  unfolding logged
  retimer_idle_checked (err e, d) = (eio, d)
  retimer_idle_checked (ok doorbell, d) =
      if rsu_prog doorbell == prog_idle
        || rsu_prog doorbell == prog_rsu_done
        || rsu_prog doorbell == prog_pkvl_prom_done
      then (0, d)
      else logged c state ebusy d

  unfoldable pub retimer_check_idle : D → ℕ × D
  unfolding retimer_idle_checked sys_read
  retimer_check_idle d = retimer_idle_checked (sys_read c state c.doorbell d)

  unfoldable pub load_cleared : Result ℕ → Bool
  load_cleared (err e) = true
  load_cleared (ok val) = not (bit 24 val)

  -- The code clears the bit itself where the processor has not.
  unfoldable pub trigger_polled : (Result ℕ × D) × Bool → ℕ × D
  unfolding sys_update_bits
  trigger_polled ((r, d), true) =
      (enodev, (sys_update_bits c state c.doorbell eeprom_load_sec 0 d).1)
  trigger_polled ((err e, d), false) = (e, d)
  trigger_polled ((ok val, d), false) = (0, d)

  unfoldable pub trigger_requested : ℕ × D → ℕ × D
  unfolding trigger_polled load_cleared
  trigger_requested (ret, d) =
      if ret == 0
      then trigger_polled (c.read_poll_timeout (Result ℕ) (c.regmap_read c.doorbell) load_cleared d)
      else (ret, d)

  unfoldable pub trigger_retimer_eeprom_load : D → ℕ × D
  unfolding trigger_requested sys_update_bits
  trigger_retimer_eeprom_load d =
      trigger_requested (sys_update_bits c state c.doorbell eeprom_load_sec eeprom_load_sec d)

  unfoldable pub prom_done : Result Observed → Bool
  prom_done (err e) = true
  prom_done (ok o) = o.progress == prog_pkvl_prom_done || o.status == stat_pkvl_reject

  -- What read_poll_timeout gave. Behind an error of the read, `ret` is the 0 of read_poll_timeout.
  unfoldable pub prom_polled : (Result Observed × D) × Bool → ℕ × D
  prom_polled ((r, d), true) = (etimedout, d)
  prom_polled ((err e, d), false) = (0, d)
  prom_polled ((ok o, d), false) = if o.status == stat_pkvl_reject then (ecanceled, d) else (0, d)

  unfoldable pub poll_retimer_eeprom_load_done : D → ℕ × D
  unfolding prom_polled prom_done m10bmc_sec_progress_status
  poll_retimer_eeprom_load_done d =
      prom_polled
        (c.read_poll_timeout (Result Observed) (m10bmc_sec_progress_status c state) prom_done d)

  -- M10BMC_PKVL_PRELOAD is set.
  unfoldable pub is_preloaded : ℕ → Bool
  is_preloaded val = bit 16 val && bit 24 val

  -- Of M10BMC_PKVL_UPG_STATUS_MASK, the bits of M10BMC_PKVL_UPG_STATUS_GOOD are set and no other.
  unfoldable pub is_good : ℕ → Bool
  unfolding is_preloaded
  is_good val =
      is_preloaded val
      && (bit 20 val && bit 28 val)
      && not (bit 17 val || bit 25 val || bit 18 val || bit 26 val)

  unfoldable pub preload_done : Result ℕ → Bool
  unfolding is_preloaded
  preload_done (err e) = true
  preload_done (ok val) = is_preloaded val

  unfoldable pub preload_polled : (Result ℕ × D) × Bool → ℕ × D
  unfolding is_good
  preload_polled ((r, d), true) = (etimedout, d)
  preload_polled ((err e, d), false) = (e, d)
  preload_polled ((ok val, d), false) = if is_good val then (0, d) else (eio, d)

  unfoldable pub poll_retimer_preload_done : D → ℕ × D
  unfolding preload_polled preload_done
  poll_retimer_preload_done d =
      preload_polled (c.read_poll_timeout (Result ℕ) (c.regmap_read pkvl_poll_ctrl) preload_done d)

  -- A step, and the next one where it succeeds; the label fw_state_exit is behind both.
  abbrev pub on_success : (D → ℕ × D) → ℕ × D → ℕ × D
  on_success step (ret, d) = if ret == 0 then step d else (ret, d)

  unfoldable pub retimer_steps : D → ℕ × D
  unfolding retimer_check_idle trigger_retimer_eeprom_load poll_retimer_eeprom_load_done
      poll_retimer_preload_done
  retimer_steps d = on_success poll_retimer_preload_done (
      on_success poll_retimer_eeprom_load_done
        (on_success trigger_retimer_eeprom_load (retimer_check_idle d)))

module _ {D : Type 0} (c : Card D) where
  unfoldable pub m10bmc_sec_retimer_eeprom_load : Sec D → Sec D × ℕ
  unfolding retimer_steps m10bmc_fw_state_set
  m10bmc_sec_retimer_eeprom_load s =
      let s' = m10bmc_fw_state_set c FwState.retimer_eeprom_load s in
      let (ret, d) = retimer_steps c s'.fw_state s'.dev in
      (m10bmc_fw_state_set c FwState.normal (record s' { dev = d }), ret)

  -- Where the poll of the doorbell ends by an error of the read, the error is lost: the load goes
  -- on with the next step, whose result is the result.
  retimer_error_lost :
      (s : Sec D) (e : ℕ) {d1 d2 d3 : D}
      → let state = (m10bmc_fw_state_set c FwState.retimer_eeprom_load s).fw_state in
        retimer_check_idle c state (m10bmc_fw_state_set c FwState.retimer_eeprom_load s).dev
          ≡ (0, d1)
        → trigger_retimer_eeprom_load c state d1 ≡ (0, d2)
        → c.read_poll_timeout
            (Result Observed)
            (m10bmc_sec_progress_status c state)
            (prom_done c state)
            d2
          ≡ ((err e, d3), false)
        → (m10bmc_sec_retimer_eeprom_load s).1 ≡ (poll_retimer_preload_done c state d3).0
  unfolding m10bmc_sec_retimer_eeprom_load retimer_steps
  retimer_error_lost s e {d1} {d2} {d3} idle triggered polled =
      let state = (m10bmc_fw_state_set c FwState.retimer_eeprom_load s).fw_state in
      let third = poll_retimer_preload_done c state in
      let second = poll_retimer_eeprom_load_done c state in
      let first = trigger_retimer_eeprom_load c state in
      ap
        (λ r. (on_success c state third (on_success c state second (on_success c state first r))).0)
        idle
      ∙ ap (λ r. (on_success c state third (on_success c state second r)).0) triggered
      ∙ ap (λ r. (on_success c state third r).0) (prom_lost state d2 polled)
    where
      prom_lost :
          (state : FwState) (d : D)
          → c.read_poll_timeout
              (Result Observed)
              (m10bmc_sec_progress_status c state)
              (prom_done c state)
              d
            ≡ ((err e, d3), false)
          → poll_retimer_eeprom_load_done c state d ≡ (0, d3)
      prom_lost state d h = unfold poll_retimer_eeprom_load_done in ap (prom_polled c state) h
