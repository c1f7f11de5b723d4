-- ===== src/SecUpdate/Defs.antt =====
-- drivers/fpga/intel-m10-bmc-sec-update.c, with drivers/mfd/intel-m10-bmc-core.c: the state of an
-- update and the access to the card's registers.
use linux_dfl_backport.Base.{
  ℕ, ◌*◌, ◌^◌, Bool, true, false, not, ◌||◌, List, if◌then◌else◌, Result, ok, err, ebusy,
}
use linux_dfl_backport.Dfl.Field.{field}

-- enum m10bmc_fw_state.
pub data FwState : Type 0 where
  normal : FwState
  prepare : FwState
  write : FwState
  program : FwState
  retimer_eeprom_load : FwState

-- The card and the kernel's interfaces to it, over the states D of card and kernel: the driver data
-- of the card, the register map, the clock, and read_poll_timeout, which gives what it read last and
-- whether it timed out.
pub record Card (D : Type 0) : Type 1 where
  pub has_handshake_regs : Bool
  pub reg_in_ranges : ℕ → Bool
  pub doorbell : ℕ
  pub auth_result : ℕ
  pub staging_size : ℕ
  pub has_flash_bulk_ops : Bool
  pub n6000 : Bool
  pub reg_stride : ℕ
  pub regmap_read : ℕ → D → Result ℕ × D
  pub regmap_update_bits : (offset mask value : ℕ) → D → ℕ × D
  pub regmap_bulk_write : (offset : ℕ) → List ℕ → D → ℕ × D
  pub regmap_write : (offset : ℕ) → List ℕ → D → ℕ × D
  pub flash_write : List ℕ → (offset size : ℕ) → D → ℕ × D
  pub jiffies : D → ℕ
  pub msecs_to_jiffies : ℕ → ℕ
  pub msleep : ℕ → D → D
  pub read_poll_timeout : (A : Type 0) → (D → A × D) → (A → Bool) → D → (A × D) × Bool

-- struct m10bmc_sec, with bmcfw_state of the core and flash_busy of the flash.
pub record Sec (D : Type 0) : Type 0 where
  pub dev : D
  pub fw_state : FwState
  pub flash_busy : Bool
  pub cancel_request : Bool

-- include/linux/mfd/intel-m10-bmc.h: the fields of the doorbell and of the result.
abbrev pub rsu_prog : ℕ → ℕ
rsu_prog = field 4 4

abbrev pub drbl_rsu_status : ℕ → ℕ
drbl_rsu_status = field 16 8

abbrev pub prog_idle : ℕ
prog_idle = 0

abbrev pub prog_prepare : ℕ
prog_prepare = 1

abbrev pub prog_ready : ℕ
prog_ready = 3

abbrev pub prog_rsu_done : ℕ
prog_rsu_done = 8

abbrev pub prog_pkvl_prom_done : ℕ
prog_pkvl_prom_done = 9

abbrev pub stat_erase_fail : ℕ
stat_erase_fail = 7

abbrev pub stat_wearout : ℕ
stat_wearout = 8

abbrev pub stat_pkvl_reject : ℕ
stat_pkvl_reject = 5

-- DRBL_HOST_STATUS, and values of it in place.
abbrev pub host_status_mask : ℕ
host_status_mask = 0xf00

abbrev pub host_status : ℕ → ℕ
host_status v = v * 2 ^ 8

module _ {D : Type 0} (c : Card D) where
  -- The state of the firmware in which the handshake registers are away.
  unfoldable pub m10bmc_handshake_reg_unavailable : FwState → Bool
  m10bmc_handshake_reg_unavailable FwState.prepare = true
  m10bmc_handshake_reg_unavailable FwState.write = true
  m10bmc_handshake_reg_unavailable FwState.retimer_eeprom_load = true
  m10bmc_handshake_reg_unavailable _ = false

  unfoldable pub m10bmc_reg_always_available : ℕ → Bool
  m10bmc_reg_always_available offset =
      if not c.has_handshake_regs then true else not (c.reg_in_ranges offset)

  unfoldable pub m10bmc_fw_state_set : FwState → Sec D → Sec D
  m10bmc_fw_state_set new_state s =
      if c.has_handshake_regs then record s { fw_state = new_state } else s

  -- Whether a register can be accessed now.
  unfoldable pub available : FwState → ℕ → Bool
  unfolding m10bmc_reg_always_available m10bmc_handshake_reg_unavailable
  available state offset =
      m10bmc_reg_always_available offset || not (m10bmc_handshake_reg_unavailable state)

  -- A read of a system register, in the state that the firmware is said to be in.
  unfoldable pub sys_read : FwState → ℕ → D → Result ℕ × D
  unfolding available
  sys_read state offset d =
      if available state offset then c.regmap_read offset d else (err ebusy, d)

  unfoldable pub sys_update_bits : FwState → ℕ → ℕ → ℕ → D → ℕ × D
  unfolding available
  sys_update_bits state offset mask value d =
      if available state offset then c.regmap_update_bits offset mask value d else (ebusy, d)

  -- m10bmc_sec_n3000_rsu_status and m10bmc_sec_n6000_rsu_status: the same field of two registers.
  unfoldable pub status_of : Result ℕ × D → Result ℕ × D
  status_of (ok v, d) = (ok (drbl_rsu_status v), d)
  status_of (err e, d) = (err e, d)

  unfoldable pub rsu_status : FwState → D → Result ℕ × D
  unfolding status_of sys_read
  rsu_status state d = status_of (sys_read state (if c.n6000 then c.auth_result else c.doorbell) d)
