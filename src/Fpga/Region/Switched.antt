-- ===== src/Fpga/Region/Switched.antt =====
-- drivers/fpga/fpga-bridge.c: the bridges behind a walk that enables or disables them.
use linux_dfl_backport.Base.{
  ℕ, ◌≡◌, refl, Bool, true, false, List, [], ◌∷◌, ◌==◌, arith, All, Bool-cases, ==_iff, inl, inr,
}
use linux_dfl_backport.Fpga.Bridge.{
  Bridge, switched, set_if, fpga_bridge_enable, fpga_bridge_disable, each, fpga_bridges_enable,
  fpga_bridges_disable,
}

-- A bridge that can be switched is on or off as given.
abbrev pub IsSwitched : Bool → Bridge → Type 0
IsSwitched on b = b.switchable ≡ true → b.enabled ≡ on

set_if-IsSwitched :
    (enable_set : ℕ → Bool → ℕ) (b : Bridge) (on there : Bool)
    → b.switchable ≡ there
    → (set_if enable_set b on there).1 ≡ 0
    → IsSwitched on (set_if enable_set b on there).0
unfolding set_if switched
set_if-IsSwitched enable_set b on false e h s = cc
set_if-IsSwitched enable_set b on true e h s = ground (arith, h)

each-All :
    (P : Bridge → Type 0) (f : Bridge → Bridge × ℕ)
    → ((b : Bridge) → (f b).1 ≡ 0 → P (f b).0)
    → (bs : List Bridge) → (each f bs).1 ≡ 0
    → All P (each f bs).0
unfolding each
each-All P f h [] e = tt
each-All P f h (b ∷ bs) e = elim (Bool-cases ((f b).1 == 0)) [
  | inl z ↦ rw z (h b ((==_iff (f b).1 0).0 z), each-All P f h bs (rw z at e))
  | inr z ↦ absurd (ground (arith, z, e))
]

pub bridges_disable-IsSwitched :
    (enable_set : ℕ → Bool → ℕ) (bs : List Bridge)
    → (fpga_bridges_disable enable_set bs).1 ≡ 0
    → All (IsSwitched false) (fpga_bridges_disable enable_set bs).0
unfolding fpga_bridges_disable fpga_bridge_disable
bridges_disable-IsSwitched enable_set bs h =
    each-All (IsSwitched false) (fpga_bridge_disable enable_set)
      (λ b e. set_if-IsSwitched enable_set b false b.switchable refl e) bs h

pub bridges_enable-IsSwitched :
    (enable_set : ℕ → Bool → ℕ) (bs : List Bridge)
    → (fpga_bridges_enable enable_set bs).1 ≡ 0
    → All (IsSwitched true) (fpga_bridges_enable enable_set bs).0
unfolding fpga_bridges_enable fpga_bridge_enable
bridges_enable-IsSwitched enable_set bs h =
    each-All (IsSwitched true) (fpga_bridge_enable enable_set)
      (λ b e. set_if-IsSwitched enable_set b true b.switchable refl e) bs h
