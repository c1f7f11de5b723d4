-- ===== src/SecUpdate/Ops.antt =====
-- drivers/fpga/intel-m10-bmc-sec-update.c: the operations of an image load (m10bmc_ops), with the
-- lock of the flash of drivers/mfd/intel-m10-bmc-pmci.c. Where the code tests the request to cancel,
-- which another thread may set, the model has an argument `cancel`.
use linux_dfl_backport.Base.{
  ℕ, zero, suc, ◌+◌, ◌-◌, ◌*◌, ◌/◌, ◌%◌, ◌^◌, Bool, true, false, List, Option, none, some, ◌==◌,
  ltb, if◌then◌else◌, Result, ok, err, einval, ebusy, take, drop,
}
use linux_dfl_backport.Avmm.Rx.{time_after}
use linux_dfl_backport.ImageLoad.Defs.{hw_error, timeout, busy, rw_error, invalid_size}
use linux_dfl_backport.SecUpdate.Defs.{
  FwState, Card, Sec, rsu_prog, prog_ready, m10bmc_fw_state_set, sys_read,
}
use linux_dfl_backport.SecUpdate.Rsu.{
  eio, eagain, logged, rsu_check_idle, rsu_update_init, rsu_prog_ready, rsu_send_data,
  rsu_check_complete, rsu_cancel,
}

-- WRITE_BLOCK_SIZE and M10BMC_STAGING_BASE.
abbrev pub write_block_size : ℕ
write_block_size = 0x4000

abbrev pub staging_base : ℕ
staging_base = 0x18000000

-- The bytes of `buf` from an offset on, `size` of them.
abbrev pub bytes_from : (buf : List ℕ) → (offset size : ℕ) → List ℕ
bytes_from buf offset size = take size (drop offset buf)

module _ {D : Type 0} (c : Card D) where
  -- The last argument is whether the flash was busy.
  unfoldable pub lock_tried : Sec D → (was_busy : Bool) → Sec D × ℕ
  lock_tried s true = (s, ebusy)
  lock_tried s false = (record s { flash_busy = true }, 0)

  unfoldable pub m10bmc_pmci_flash_lock : Sec D → Sec D × ℕ
  unfolding lock_tried
  m10bmc_pmci_flash_lock s = lock_tried s s.flash_busy

  unfoldable pub m10bmc_pmci_flash_unlock : Sec D → Sec D
  m10bmc_pmci_flash_unlock s = record s { flash_busy = false }

  -- The label unlock_flash.
  unfoldable pub unlock_flash : Sec D → Sec D
  unfolding m10bmc_pmci_flash_unlock
  unlock_flash s = if c.has_flash_bulk_ops then m10bmc_pmci_flash_unlock s else s

  -- The label fw_state_exit.
  unfoldable pub fw_state_exit : Sec D → Sec D
  unfolding m10bmc_fw_state_set unlock_flash
  fw_state_exit s = unlock_flash (m10bmc_fw_state_set c FwState.normal s)

  -- Behind rsu_prog_ready.
  unfoldable pub prepared : Sec D → (cancel : Bool) → ℕ × D → Sec D × ℕ
  unfolding fw_state_exit rsu_cancel m10bmc_fw_state_set
  prepared s cancel (ret, d) =
      let s' = record s { dev = d; cancel_request = cancel } in
      if ret == 0
      then (if cancel
          then (let (ret', d') = rsu_cancel c s.fw_state d in
              (fw_state_exit (record s' { dev = d' }), ret'))
          else (m10bmc_fw_state_set c FwState.write s', 0))
      else (fw_state_exit s', ret)

  unfoldable pub ready_waited : Sec D → (cancel : Bool) → Option (ℕ × D) → Option (Sec D × ℕ)
  unfolding prepared
  ready_waited s cancel none = none
  ready_waited s cancel (some r) = some (prepared s cancel r)

  -- Behind rsu_update_init.
  unfoldable pub initialised : (fuel : ℕ) → Sec D → (cancel : Bool) → ℕ × D → Option (Sec D × ℕ)
  unfolding ready_waited fw_state_exit rsu_prog_ready
  initialised fuel s cancel (ret, d) =
      if ret == 0
      then ready_waited (record s { dev = d }) cancel (rsu_prog_ready c s.fw_state fuel d)
      else some (fw_state_exit (record s { dev = d }), ret)

  -- Behind rsu_check_idle.
  unfoldable pub idle_checked : (fuel : ℕ) → Sec D → (cancel : Bool) → ℕ × D → Option (Sec D × ℕ)
  unfolding initialised unlock_flash m10bmc_fw_state_set rsu_update_init
  idle_checked fuel s cancel (ret, d) =
      let s' = m10bmc_fw_state_set c FwState.prepare (record s { dev = d }) in
      if ret == 0
      then initialised fuel s' cancel (rsu_update_init c s'.fw_state d)
      else some (unlock_flash (record s { dev = d }), ret)

  -- Behind lock_write.
  unfoldable pub locked : (fuel : ℕ) → (cancel : Bool) → Sec D × ℕ → Option (Sec D × ℕ)
  unfolding idle_checked rsu_check_idle
  locked fuel cancel (s, ret) =
      if ret == 0
      then idle_checked fuel s cancel (rsu_check_idle c s.fw_state s.dev)
      else some (s, busy)

  -- The flash is locked, where there are operations for it.
  unfoldable pub write_locked : Sec D → (has_flash_bulk_ops : Bool) → Sec D × ℕ
  unfolding m10bmc_pmci_flash_lock
  write_locked s true = m10bmc_pmci_flash_lock s
  write_locked s false = (s, 0)

  -- A size that is 0 or does not fit the staging area.
  unfoldable pub is_bad_size : ℕ → Bool
  is_bad_size size = if size == 0 then true else ltb c.staging_size size

  unfoldable pub m10bmc_sec_prepare :
      (fuel : ℕ) → Sec D → (size : ℕ) → (cancel : Bool) → Option (Sec D × ℕ)
  unfolding locked is_bad_size write_locked
  m10bmc_sec_prepare fuel s size cancel =
      let s' = record s { cancel_request = false } in
      if is_bad_size size
      then some (s', invalid_size)
      else locked fuel cancel (write_locked s' c.has_flash_bulk_ops)

  -- The remainder behind the last whole word, as the code takes it: the source is buf +
  -- leftover_offset.
  unfoldable pub leftover_written :
      (buf : List ℕ) → (offset leftover_offset leftover_size : ℕ) → ℕ × D → ℕ × D
  leftover_written buf offset leftover_offset leftover_size (ret, d) =
      if ret == 0
      then (if leftover_size == 0
          then (0, d)
          else c.regmap_write ((staging_base + offset + leftover_offset) % 2 ^ 32)
              (bytes_from buf leftover_offset leftover_size) d)
      else (ret, d)

  unfoldable pub m10bmc_sec_write : (buf : List ℕ) → (offset size : ℕ) → D → ℕ × D
  unfolding leftover_written
  m10bmc_sec_write buf offset size d =
      let leftover_offset = size / c.reg_stride * c.reg_stride in
      if c.has_flash_bulk_ops
      then c.flash_write buf offset size d
      else if ltb 4 c.reg_stride
      then (einval, d)
      else leftover_written buf offset leftover_offset (size - leftover_offset) (
          c.regmap_bulk_write ((staging_base + offset) % 2 ^ 32)
            (bytes_from buf offset leftover_offset) d)

  -- What m10bmc_sec_fw_write returns: the error and, in *written, the size of the block.
  unfoldable pub block_written : Sec D → (blk_size : ℕ) → ℕ × D → Sec D × ℕ × ℕ
  block_written s blk_size (ret, d) =
      if ret == 0 then (record s { dev = d }, 0, blk_size) else (record s { dev = d }, rw_error, 0)

  -- Behind the read of the doorbell.
  unfoldable pub ready_for_block :
      Sec D → (buf : List ℕ) → (offset size : ℕ) → Result ℕ × D → Sec D × ℕ × ℕ
  unfolding block_written m10bmc_sec_write logged
  ready_for_block s buf offset size (err e, d) = (record s { dev = d }, rw_error, 0)
  ready_for_block s buf offset size (ok doorbell, d) =
      let blk_size = if ltb write_block_size size then write_block_size else size in
      if rsu_prog doorbell == prog_ready
      then block_written s blk_size (m10bmc_sec_write buf offset blk_size d)
      else (let (code, d') = logged c s.fw_state hw_error d in (record s { dev = d' }, code, 0))

  unfoldable pub m10bmc_sec_fw_write :
      Sec D → (buf : List ℕ) → (offset size : ℕ) → (cancel : Bool) → Sec D × ℕ × ℕ
  unfolding ready_for_block rsu_cancel sys_read
  m10bmc_sec_fw_write s buf offset size true =
      let (code, d) = rsu_cancel c s.fw_state s.dev in (record s { dev = d }, code, 0)
  m10bmc_sec_fw_write s buf offset size false =
      ready_for_block s buf offset size (sys_read c s.fw_state c.doorbell s.dev)

  -- The last status of the loop in m10bmc_sec_poll_complete, as an upload error.
  unfoldable pub completed : FwState → (ret : ℕ) → D → ℕ × D
  unfolding logged
  completed state ret d =
      if ret == 0
      then (0, d)
      else if ret == eagain
      then logged c state timeout d
      else if ret == eio
      then (rw_error, d)
      else logged c state hw_error d

  -- Its loop, on fuel: it goes on after -EAGAIN while the time has not passed.
  unfoldable pub wait_complete : (fuel : ℕ) → FwState → (poll_timeout : ℕ) → D → Option (ℕ × D)
  unfolding rsu_check_complete time_after
  wait_complete zero state poll_timeout d = none
  wait_complete (suc fuel) state poll_timeout d =
      let (ret, d') = rsu_check_complete c state (c.msleep 1000 d) in
      let rest = wait_complete fuel state poll_timeout d' in
      if ret == eagain
      then if time_after (c.jiffies d') poll_timeout then some (completed state ret d') else rest
      else some (completed state ret d')

  unfoldable pub data_sent : (fuel : ℕ) → FwState → ℕ × D → Option (ℕ × D)
  unfolding wait_complete
  data_sent fuel state (ret, d) =
      if ret == 0
      then wait_complete fuel state ((c.jiffies d + c.msecs_to_jiffies 2400000) % 2 ^ 64) d
      else some (ret, d)

  unfoldable pub with_dev : Sec D → Option (ℕ × D) → Option (Sec D × ℕ)
  with_dev s none = none
  with_dev s (some (code, d)) = some (record s { dev = d }, code)

  unfoldable pub m10bmc_sec_poll_complete :
      (fuel : ℕ) → Sec D → (cancel : Bool) → Option (Sec D × ℕ)
  unfolding with_dev data_sent m10bmc_fw_state_set rsu_send_data rsu_cancel
  m10bmc_sec_poll_complete fuel s true = with_dev s (some (rsu_cancel c s.fw_state s.dev))
  m10bmc_sec_poll_complete fuel s false =
      let s' = m10bmc_fw_state_set c FwState.program s in
      with_dev s' (data_sent fuel s'.fw_state (rsu_send_data c s'.fw_state s.dev))

  unfoldable pub m10bmc_sec_cancel : Sec D → Sec D
  m10bmc_sec_cancel s = record s { cancel_request = true }

  unfoldable pub m10bmc_sec_cleanup : Sec D → Sec D
  unfolding fw_state_exit rsu_cancel
  m10bmc_sec_cleanup s = fw_state_exit (record s { dev = (rsu_cancel c s.fw_state s.dev).1 })
