-- ===== src/Fpga/Bridge.antt =====
-- drivers/fpga/fpga-bridge.c: the bridges of a region, in the order of its list.
use linux_dfl_backport.Base.{ℕ, Bool, true, false, List, [], ◌∷◌, ◌==◌, if◌then◌else◌}

-- struct fpga_bridge: whether it has an enable_set operation, whether transactions are enabled, and
-- whether its exclusive reference is held.
pub record Bridge : Type 0 where
  pub id : ℕ
  pub switchable : Bool
  pub enabled : Bool
  pub held : Bool

module _ (enable_set : ℕ → Bool → ℕ) where
  -- What the operation returned; a success sets the bridge.
  unfoldable pub switched : Bridge → Bool → (status : ℕ) → Bridge × ℕ
  switched b on status = if status == 0 then (record b { enabled = on }, 0) else (b, status)

  -- fpga_bridge_enable and fpga_bridge_disable; the third argument is whether the bridge has the
  -- operation.
  unfoldable pub set_if : Bridge → Bool → Bool → Bridge × ℕ
  unfolding switched
  set_if b on false = (b, 0)
  set_if b on true = switched b on (enable_set b.id on)

  unfoldable pub fpga_bridge_enable : Bridge → Bridge × ℕ
  unfolding set_if
  fpga_bridge_enable b = set_if b true b.switchable

  unfoldable pub fpga_bridge_disable : Bridge → Bridge × ℕ
  unfolding set_if
  fpga_bridge_disable b = set_if b false b.switchable

-- A walk over a list of bridges that stops at the first error.
unfoldable pub each : (Bridge → Bridge × ℕ) → List Bridge → List Bridge × ℕ
each f [] = ([], 0)
each f (b ∷ bs) =
    let (b', status) = f b in
    let (bs', status') = each f bs in if status == 0 then (b' ∷ bs', status') else (b' ∷ bs, status)

module _ (enable_set : ℕ → Bool → ℕ) where
  unfoldable pub fpga_bridges_enable : List Bridge → List Bridge × ℕ
  unfolding each fpga_bridge_enable
  fpga_bridges_enable = each (fpga_bridge_enable enable_set)

  unfoldable pub fpga_bridges_disable : List Bridge → List Bridge × ℕ
  unfolding each fpga_bridge_disable
  fpga_bridges_disable = each (fpga_bridge_disable enable_set)

-- fpga_bridges_put takes each bridge off the list and gives its reference back: the bridges that
-- leave, and the list.
unfoldable pub fpga_bridge_put : Bridge → Bridge
fpga_bridge_put b = record b { held = false }

unfoldable pub fpga_bridges_put : List Bridge → List Bridge
unfolding fpga_bridge_put
fpga_bridges_put [] = []
fpga_bridges_put (b ∷ bs) = fpga_bridge_put b ∷ fpga_bridges_put bs
