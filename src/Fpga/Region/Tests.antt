-- ===== src/Fpga/Region/Tests.antt =====
-- drivers/fpga/fpga-region.c: programming a region behind two bridges, of which one can be switched.
use linux_dfl_backport.Base.{◌≡◌, refl, true, false, [], ◌∷◌, some}
use linux_dfl_backport.Fpga.Bridge.{Bridge, fpga_bridges_disable, fpga_bridges_enable}
use linux_dfl_backport.Fpga.Region.{State, Env, fpga_region_program_fpga}
use linux_dfl_backport.Fpga.Region.Bridges.{GivesBack, program_fpga-GivesBack}
use linux_dfl_backport.Fpga.Region.Locks.{IsSafe, program_fpga-IsSafe}

abbrev freeze : Bridge
freeze = record { id = 1; switchable = true; enabled = true; held = true }

abbrev wires : Bridge
wires = record { id = 2; switchable = false; enabled = true; held = true }

abbrev idle : State
idle = record {
  region_locked = false;
  device_refs = 1;
  module_refs = 3;
  mgr_locked = false;
  bridge_list = [];
  freed = [];
  loads = [];
}

abbrev env : Env
env = record {
  try_module_get = true;
  get_bridges = some (freeze ∷ wires ∷ [], 0);
  enable_set = λ id on. 0;
  fpga_mgr_load = 0;
}

-- The load fails.
abbrev failing : Env
failing = record env { fpga_mgr_load = 110 }

program_fpga-GivesBack_example : GivesBack (1 ∷ 2 ∷ []) [] (fpga_region_program_fpga failing idle)
program_fpga-GivesBack_example =
    program_fpga-GivesBack failing (freeze ∷ wires ∷ []) refl idle refl refl refl

program_fpga-IsSafe_example : IsSafe idle (fpga_region_program_fpga env idle)
program_fpga-IsSafe_example = program_fpga-IsSafe env idle

-- The load sees the first bridge disabled; both bridges stay on the list.
program_run :
    let (st, status) = fpga_region_program_fpga env idle in
    (status ≡ 0)
    × (st.bridge_list ≡ freeze ∷ wires ∷ [])
    × (st.loads ≡ (record freeze { enabled = false } ∷ wires ∷ []) ∷ [])
unfolding fpga_region_program_fpga fpga_bridges_disable fpga_bridges_enable
program_run = (refl, refl, refl)

-- A load that fails: the bridges are given back, and the first stays disabled.
load_fails :
    let (st, status) = fpga_region_program_fpga failing idle in
    (status ≡ 110)
    × (st.bridge_list ≡ [])
    × (st.freed
        ≡ record freeze { enabled = false; held = false } ∷ record wires { held = false } ∷ [])
unfolding fpga_region_program_fpga fpga_bridges_disable fpga_bridges_enable
load_fails = (refl, refl, refl)
