-- ===== src/Fpga/Mgr/Defs.antt =====
-- drivers/fpga/fpga-mgr.c, include/linux/fpga/fpga-mgr.h: the manager, its driver's operations and
-- their wrappers. A buffer is the list of its bytes, NULL the empty one.
use linux_dfl_backport.Base.{ℕ, Bool, List, Option, none, some, ◌==◌, if◌then◌else◌}

-- enum fpga_mgr_states.
pub data MgrState : Type 0 where
  unknown : MgrState
  power_off : MgrState
  power_up : MgrState
  reset : MgrState
  firmware_req : MgrState
  firmware_req_err : MgrState
  parse_header : MgrState
  parse_header_err : MgrState
  write_init : MgrState
  write_init_err : MgrState
  write : MgrState
  write_err : MgrState
  write_complete : MgrState
  write_complete_err : MgrState
  operating : MgrState

abbrev pub eagain : ℕ
eagain = 11

abbrev pub eopnotsupp : ℕ
eopnotsupp = 95

-- What parse_header sets of struct fpga_image_info.
pub record Info : Type 0 where
  pub header_size : ℕ
  pub data_size : ℕ

-- struct fpga_manager_ops, over the states of the driver.
pub record Ops (D : Type 0) : Type 0 where
  pub initial_header_size : ℕ
  pub skip_header : Bool
  pub parse_header : Option (Info → List ℕ → D → (ℕ × Info) × D)
  pub write_init : Option (Info → List ℕ → D → ℕ × D)
  pub write : Option (List ℕ → D → ℕ × D)
  pub write_sg : Option (List (List ℕ) → D → ℕ × D)
  pub write_complete : Option (Info → D → ℕ × D)

-- struct fpga_manager with the image information of the load.
pub record Mgr (D : Type 0) : Type 0 where
  pub state : MgrState
  pub info : Info
  pub drv : D

-- The kernel: whether krealloc gives a buffer of a size; the scatter lists, as the chunks that an
-- iterator over them gives: the chunks behind a number of bytes (sg_miter_skip), and the bytes of a
-- list from one on (sg_pcopy_to_buffer).
pub record Kernel : Type 0 where
  pub krealloc : ℕ → Bool
  pub sg_miter_skip : List (List ℕ) → ℕ → Option (List (List ℕ))
  pub sg_pcopy_to_buffer : List (List ℕ) → (len skip : ℕ) → List ℕ

module _ {D : Type 0} where
  -- Takes a result of the driver over.
  unfoldable pub returned : Mgr D → ℕ × D → Mgr D × ℕ
  returned m (ret, d) = (record m { drv = d }, ret)

  unfoldable pub parsed : Mgr D → (ℕ × Info) × D → Mgr D × ℕ
  parsed m ((ret, info), d) = (record m { drv = d; info = info }, ret)

  unfoldable pub fpga_mgr_parse_header :
      Option (Info → List ℕ → D → (ℕ × Info) × D) → Mgr D → List ℕ → Mgr D × ℕ
  unfolding parsed
  fpga_mgr_parse_header none m buf = (m, 0)
  fpga_mgr_parse_header (some op) m buf = parsed m (op m.info buf m.drv)

  unfoldable pub fpga_mgr_write_init :
      Option (Info → List ℕ → D → ℕ × D) → Mgr D → List ℕ → Mgr D × ℕ
  unfolding returned
  fpga_mgr_write_init none m buf = (m, 0)
  fpga_mgr_write_init (some op) m buf = returned m (op m.info buf m.drv)

  unfoldable pub fpga_mgr_write : Option (List ℕ → D → ℕ × D) → Mgr D → List ℕ → Mgr D × ℕ
  unfolding returned
  fpga_mgr_write none m buf = (m, eopnotsupp)
  fpga_mgr_write (some op) m buf = returned m (op buf m.drv)

  -- The operation of fpga_mgr_write_complete, if there is one.
  unfoldable pub completed : Option (Info → D → ℕ × D) → Mgr D → Mgr D × ℕ
  unfolding returned
  completed none m = (m, 0)
  completed (some op) m = returned m (op m.info m.drv)

  -- On an error, the manager is in the error's state.
  unfoldable pub or_failed : MgrState → Mgr D × ℕ → Mgr D × ℕ
  or_failed state (m, ret) = if ret == 0 then (m, 0) else (record m { state = state }, ret)

  -- Behind the operation of fpga_mgr_write_complete.
  unfoldable pub in_operation : Mgr D × ℕ → Mgr D × ℕ
  in_operation (m, ret) =
      if ret == 0
      then (record m { state = MgrState.operating }, 0)
      else (record m { state = MgrState.write_complete_err }, ret)

  unfoldable pub fpga_mgr_write_complete : Ops D → Mgr D → Mgr D × ℕ
  unfolding in_operation completed
  fpga_mgr_write_complete ops m =
      in_operation (completed ops.write_complete (record m { state = MgrState.write_complete }))
