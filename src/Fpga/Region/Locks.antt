-- ===== src/Fpga/Region/Locks.antt =====
-- drivers/fpga/fpga-region.c: locks, references and loads of fpga_region_program_fpga.
use linux_dfl_backport.Base.{
  ℕ, ◌+◌, ◌≡◌, ◌≢◌, refl, sym, ap, Bool, true, false, List, ◌∷◌, ◌++◌, Option, none, some, ◌==◌,
  arith, All, Bool-cases, ==_iff, ◌⊎◌, inl, inr,
}
use linux_dfl_backport.Fpga.Bridge.{Bridge, fpga_bridges_enable}
use linux_dfl_backport.Fpga.Region.{
  State, Env, region_got, region_tried, fpga_region_get, fpga_region_put, mgr_tried, fpga_mgr_lock,
  fpga_mgr_unlock, unlock_both, put_bridges, err_put_br, after_enable, after_load, after_disable,
  with_bridges, after_lock, after_get, fpga_region_program_fpga,
}
use linux_dfl_backport.Fpga.Region.Switched.{
  IsSwitched, bridges_disable-IsSwitched, bridges_enable-IsSwitched,
}

-- No load was made, or one with every bridge of the list disabled.
abbrev pub SafeLoads : State → List (List Bridge) → Type 0
SafeLoads st ls =
    (ls ≡ st.loads) ⊎ ((bs : List Bridge) × All (IsSwitched false) bs × (ls ≡ bs ∷ st.loads))

-- A call that started in st: it holds no lock or reference that st did not, has loaded behind
-- disabled bridges at most, and has the bridges enabled if it succeeded.
pub record IsSafe (st : State) (r : State × ℕ) : Type 0 where
  pub region_locked : r.0.region_locked ≡ st.region_locked
  pub device_refs : r.0.device_refs ≡ st.device_refs
  pub module_refs : r.0.module_refs ≡ st.module_refs
  pub mgr_locked : r.0.mgr_locked ≡ st.mgr_locked
  pub loads : SafeLoads st r.0.loads
  pub opened :
      r.1 ≡ 0
      → All (IsSwitched true) r.0.bridge_list × ((bs : List Bridge) × (r.0.loads ≡ bs ∷ st.loads))

-- Inside a call that started in st: both locks are taken.
record Inside (st st1 : State) : Type 0 where
  region_free : st.region_locked ≡ false
  mgr_free : st.mgr_locked ≡ false
  device_refs : st1.device_refs ≡ st.device_refs + 1
  module_refs : st1.module_refs ≡ st.module_refs + 1
  loads : SafeLoads st st1.loads

-- The way out of a call.
unlocked-IsSafe :
    (st s : State) (status : ℕ)
    → Inside st s
    → (status ≡ 0
        → All (IsSwitched true) s.bridge_list × ((bs : List Bridge) × (s.loads ≡ bs ∷ st.loads)))
    → IsSafe st (unlock_both s, status)
unfolding unlock_both fpga_region_put fpga_mgr_unlock
unlocked-IsSafe st s status i o = record {
  region_locked = sym i.region_free;
  device_refs = omega (arith, i.device_refs);
  module_refs = omega (arith, i.module_refs);
  mgr_locked = sym i.mgr_free;
  loads = i.loads;
  opened = o;
}

put_bridges-Inside :
    (st s : State) (o : Option (List Bridge × ℕ)) → Inside st s → Inside st (put_bridges o s)
unfolding put_bridges
put_bridges-Inside st s none i = i
put_bridges-Inside st s (some g) i = record {
  region_free = i.region_free;
  mgr_free = i.mgr_free;
  device_refs = i.device_refs;
  module_refs = i.module_refs;
  loads = i.loads;
}

failed-IsSafe :
    (env : Env) (st s : State) (status : ℕ)
    → Inside st s
    → status ≢ 0
    → IsSafe st (err_put_br env s status)
unfolding err_put_br
failed-IsSafe env st s status i ne =
    unlocked-IsSafe st (put_bridges env.get_bridges s) status
      (put_bridges-Inside st s env.get_bridges i) (λ e. absurd (ne e))

-- Another bridge list.
listed : (st s : State) (bs : List Bridge) → Inside st s → Inside st (record s { bridge_list = bs })
listed st s bs i = record {
  region_free = i.region_free;
  mgr_free = i.mgr_free;
  device_refs = i.device_refs;
  module_refs = i.module_refs;
  loads = i.loads;
}

not_zero : (n : ℕ) → (n == 0) ≡ false → n ≢ 0
not_zero n h e = ground (arith, h, e)

after_enable-IsSafe :
    (env : Env) (st s : State) (r : List Bridge × ℕ)
    → Inside st s
    → ((bs : List Bridge) × (s.loads ≡ bs ∷ st.loads))
    → (r.1 ≡ 0 → All (IsSwitched true) r.0)
    → IsSafe st (after_enable env s r)
unfolding after_enable
after_enable-IsSafe env st s (bs, status) i l on = elim (Bool-cases (status == 0)) [
  | inl z ↦ rw z (
      unlocked-IsSafe st (record s { bridge_list = bs }) 0 (listed st s bs i)
        (λ e. (on ((==_iff status 0).0 z), l)))
  | inr z ↦ rw z (
      failed-IsSafe env st (record s { bridge_list = bs }) status (listed st s bs i)
        (not_zero status z))
]

after_load-IsSafe :
    (env : Env) (st s : State) (status : ℕ)
    → Inside st s
    → s.loads ≡ st.loads
    → All (IsSwitched false) s.bridge_list
    → IsSafe st (after_load env s status)
unfolding after_load
after_load-IsSafe env st s status i l off =
    let s' = record s { loads = s.bridge_list ∷ s.loads } in
    let q : s'.loads ≡ s.bridge_list ∷ st.loads = ap (◌∷◌ s.bridge_list) l in
    let i' : Inside st s' = record {
      region_free = i.region_free;
      mgr_free = i.mgr_free;
      device_refs = i.device_refs;
      module_refs = i.module_refs;
      loads = inr (s.bridge_list, off, q);
    } in
    elim (Bool-cases (status == 0)) [
      | inl z ↦ rw z (
          after_enable-IsSafe env st s' (fpga_bridges_enable env.enable_set s.bridge_list) i'
            (s.bridge_list, q) (bridges_enable-IsSwitched env.enable_set s.bridge_list))
      | inr z ↦ rw z (failed-IsSafe env st s' status i' (not_zero status z))
    ]

after_disable-IsSafe :
    (env : Env) (st s : State) (r : List Bridge × ℕ)
    → Inside st s
    → s.loads ≡ st.loads
    → (r.1 ≡ 0 → All (IsSwitched false) r.0)
    → IsSafe st (after_disable env s r)
unfolding after_disable
after_disable-IsSafe env st s (bs, status) i l off =
    let s' = record s { bridge_list = bs } in
    elim (Bool-cases (status == 0)) [
      | inl z ↦ rw z (
          after_load-IsSafe env st s' env.fpga_mgr_load (listed st s bs i) l
            (off ((==_iff status 0).0 z)))
      | inr z ↦ rw z (failed-IsSafe env st s' status (listed st s bs i) (not_zero status z))
    ]

with_bridges-IsSafe :
    (env : Env) (st s : State) (o : Option (List Bridge × ℕ))
    → Inside st s
    → s.loads ≡ st.loads
    → IsSafe st (with_bridges env s o)
unfolding with_bridges
with_bridges-IsSafe env st s none i l =
    after_disable-IsSafe env st s _ i l (bridges_disable-IsSwitched env.enable_set s.bridge_list)
with_bridges-IsSafe env st s (some (bs, status)) i l =
    let s' = record s { bridge_list = bs ++ s.bridge_list } in
    elim (Bool-cases (status == 0)) [
      | inl z ↦ rw z (
          after_disable-IsSafe env st s' _ (listed st s (bs ++ s.bridge_list) i) l
            (bridges_disable-IsSwitched env.enable_set (bs ++ s.bridge_list)))
      | inr z ↦ rw z (
          unlocked-IsSafe st s' status (listed st s (bs ++ s.bridge_list) i)
            (λ e. absurd (not_zero status z e)))
    ]

-- The region is taken, and the manager tried.
abbrev taken : State → State
taken st = record st {
  region_locked = true;
  device_refs = st.device_refs + 1;
  module_refs = st.module_refs + 1;
}

after_lock-IsSafe :
    (env : Env) (st : State) (locked : Bool)
    → st.region_locked ≡ false
    → st.mgr_locked ≡ locked
    → IsSafe st (after_lock env (mgr_tried (taken st) locked))
unfolding after_lock mgr_tried fpga_region_put
after_lock-IsSafe env st true free busy = record {
  region_locked = sym free;
  device_refs = omega arith;
  module_refs = omega arith;
  mgr_locked = refl;
  loads = inl refl;
  opened = λ e. absurd (omega arith);
}
after_lock-IsSafe env st false free mgr_free =
    with_bridges-IsSafe env st (record (taken st) { mgr_locked = true }) env.get_bridges
      (record {
        region_free = free;
        mgr_free = mgr_free;
        device_refs = refl;
        module_refs = refl;
        loads = inl refl;
      })
      refl

after_get-IsSafe :
    (env : Env) (st : State) (there : Bool)
    → st.region_locked ≡ false
    → IsSafe st (after_get env (region_got (record st { region_locked = true }) there))
unfolding after_get region_got fpga_mgr_lock
after_get-IsSafe env st false free = record {
  region_locked = sym free;
  device_refs = refl;
  module_refs = refl;
  mgr_locked = refl;
  loads = inl refl;
  opened = λ e. absurd (omega arith);
}
after_get-IsSafe env st true free = after_lock-IsSafe env st st.mgr_locked free refl

tried-IsSafe :
    (env : Env) (st : State) (locked : Bool)
    → st.region_locked ≡ locked
    → IsSafe st (after_get env (region_tried env st locked))
unfolding after_get region_tried
tried-IsSafe env st true busy = record {
  region_locked = refl;
  device_refs = refl;
  module_refs = refl;
  mgr_locked = refl;
  loads = inl refl;
  opened = λ e. absurd (omega arith);
}
tried-IsSafe env st false free = after_get-IsSafe env st env.try_module_get free

-- Whatever fails on the way, fpga_region_program_fpga leaves the region's mutex and references and
-- the manager's lock as they were, loads at most once and only when every bridge that can be
-- switched is disabled, and on success has loaded and every such bridge is enabled.
pub program_fpga-IsSafe : (env : Env) (st : State) → IsSafe st (fpga_region_program_fpga env st)
unfolding fpga_region_program_fpga fpga_region_get
program_fpga-IsSafe env st = tried-IsSafe env st st.region_locked refl
