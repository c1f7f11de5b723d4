-- ===== src/Fpga/Region.antt =====
-- drivers/fpga/fpga-region.c: fpga_region_program_fpga, with fpga_mgr_lock and fpga_mgr_unlock of
-- drivers/fpga/fpga-mgr.c. The load itself, the bridges' operations, the region's get_bridges and
-- the reference to the driver's module come as the functions of `Env`.
use linux_dfl_backport.Base.{
  ℕ, zero, suc, ◌+◌, ◌-◌, Bool, true, false, not, List, [], ◌∷◌, ◌++◌, Option, none, some, ◌==◌,
  if◌then◌else◌, ebusy, enodev,
}
use linux_dfl_backport.Fpga.Bridge.{
  Bridge, fpga_bridges_enable, fpga_bridges_disable, fpga_bridges_put,
}
pub mod Switched
pub mod Locks
pub mod Bridges
pub mod Tests

-- The region's mutex and references, the manager's ref_mutex, the region's bridge list, the bridges
-- that were taken off it, and the bridges at each call of fpga_mgr_load, the newest first.
pub record State : Type 0 where
  pub region_locked : Bool
  pub device_refs : ℕ
  pub module_refs : ℕ
  pub mgr_locked : Bool
  pub bridge_list : List Bridge
  pub freed : List Bridge
  pub loads : List (List Bridge)

-- `get_bridges` is none where the region has no such function; otherwise it gives the bridges that
-- it puts on the list, and a status.
pub record Env : Type 0 where
  pub try_module_get : Bool
  pub get_bridges : Option (List Bridge × ℕ)
  pub enable_set : ℕ → Bool → ℕ
  pub fpga_mgr_load : ℕ

-- The third argument is whether the module was there.
unfoldable pub region_got : State → (module_there : Bool) → State × ℕ
region_got st false = (record st { region_locked = false }, enodev)
region_got st true =
    (record st { device_refs = st.device_refs + 1; module_refs = st.module_refs + 1 }, 0)

-- The last argument is whether the mutex was held before.
unfoldable pub region_tried : Env → State → (locked : Bool) → State × ℕ
unfolding region_got
region_tried env st true = (st, ebusy)
region_tried env st false = region_got (record st { region_locked = true }) env.try_module_get

unfoldable pub fpga_region_get : Env → State → State × ℕ
unfolding region_tried
fpga_region_get env st = region_tried env st st.region_locked

unfoldable pub fpga_region_put : State → State
fpga_region_put st = record st {
  region_locked = false;
  device_refs = st.device_refs - 1;
  module_refs = st.module_refs - 1;
}

unfoldable pub mgr_tried : State → (locked : Bool) → State × ℕ
mgr_tried st true = (st, ebusy)
mgr_tried st false = (record st { mgr_locked = true }, 0)

unfoldable pub fpga_mgr_lock : State → State × ℕ
unfolding mgr_tried
fpga_mgr_lock st = mgr_tried st st.mgr_locked

unfoldable pub fpga_mgr_unlock : State → State
fpga_mgr_unlock st = record st { mgr_locked = false }

-- The label err_unlock_mgr, and the way out of a success.
unfoldable pub unlock_both : State → State
unfolding fpga_region_put fpga_mgr_unlock
unlock_both st = fpga_region_put (fpga_mgr_unlock st)

-- What stands at the label err_put_br; the first argument is the region's get_bridges.
unfoldable pub put_bridges : Option (List Bridge × ℕ) → State → State
unfolding fpga_bridges_put
put_bridges none st = st
put_bridges (some _) st = record st {
  bridge_list = [];
  freed = fpga_bridges_put st.bridge_list ++ st.freed;
}

unfoldable pub err_put_br : Env → State → ℕ → State × ℕ
unfolding put_bridges unlock_both
err_put_br env st status = (unlock_both (put_bridges env.get_bridges st), status)

-- What fpga_bridges_enable gave.
unfoldable pub after_enable : Env → State → List Bridge × ℕ → State × ℕ
unfolding err_put_br
after_enable env st (bs, status) =
    let st' = record st { bridge_list = bs } in
    if status == 0 then (unlock_both st', 0) else err_put_br env st' status

-- The load, and what follows it.
unfoldable pub after_load : Env → State → (status : ℕ) → State × ℕ
unfolding after_enable
after_load env st status =
    let st' = record st { loads = st.bridge_list ∷ st.loads } in
    if status == 0
    then after_enable env st' (fpga_bridges_enable env.enable_set st.bridge_list)
    else err_put_br env st' status

-- What fpga_bridges_disable gave.
unfoldable pub after_disable : Env → State → List Bridge × ℕ → State × ℕ
unfolding after_load
after_disable env st (bs, status) =
    let st' = record st { bridge_list = bs } in
    if status == 0 then after_load env st' env.fpga_mgr_load else err_put_br env st' status

-- The region's get_bridges.
unfoldable pub with_bridges : Env → State → Option (List Bridge × ℕ) → State × ℕ
unfolding after_disable
with_bridges env st none = after_disable env st (fpga_bridges_disable env.enable_set st.bridge_list)
with_bridges env st (some (bs, status)) =
    let st' = record st { bridge_list = bs ++ st.bridge_list } in
    if status == 0
    then after_disable env st' (fpga_bridges_disable env.enable_set st'.bridge_list)
    else (unlock_both st', status)

-- What fpga_mgr_lock gave.
unfoldable pub after_lock : Env → State × ℕ → State × ℕ
unfolding with_bridges
after_lock env (st, status) =
    if status == 0 then with_bridges env st env.get_bridges else (fpga_region_put st, status)

-- What fpga_region_get gave.
unfoldable pub after_get : Env → State × ℕ → State × ℕ
unfolding after_lock fpga_mgr_lock
after_get env (st, status) = if status == 0 then after_lock env (fpga_mgr_lock st) else (st, status)

unfoldable pub fpga_region_program_fpga : Env → State → State × ℕ
unfolding after_get fpga_region_get
fpga_region_program_fpga env st = after_get env (fpga_region_get env st)
