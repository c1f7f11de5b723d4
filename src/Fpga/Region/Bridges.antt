-- ===== src/Fpga/Region/Bridges.antt =====
-- drivers/fpga/fpga-region.c: the bridges behind a failure of fpga_region_program_fpga.
use linux_dfl_backport.Base.{
  ◌≢◌, arith, ℕ, ◌+◌, ◌≡◌, refl, sym, ap, subst, ◌∙◌, Bool, true, false, List, [], ◌∷◌, ◌++◌, some,
  ◌==◌, All, Bool-cases, ◌⊎◌, inl, inr, map,
}
use linux_dfl_backport.Fpga.Bridge.{
  Bridge, switched, set_if, each, fpga_bridge_enable, fpga_bridge_disable, fpga_bridges_enable,
  fpga_bridges_disable, fpga_bridge_put, fpga_bridges_put,
}
use linux_dfl_backport.Fpga.Region.{
  State, Env, region_got, region_tried, fpga_region_get, fpga_region_put, mgr_tried, fpga_mgr_lock,
  fpga_mgr_unlock, unlock_both, put_bridges, err_put_br, after_enable, after_load, after_disable,
  with_bridges, after_lock, after_get, fpga_region_program_fpga,
}

-- The bridges of a list, told apart by their numbers.
abbrev pub ids : List Bridge → List ℕ
ids = map (λ b. b.id)

ids-append : (xs ys : List Bridge) → ids (xs ++ ys) ≡ ids xs ++ ids ys
ids-append [] ys = refl
ids-append (x ∷ xs) ys = ap (◌∷◌ x.id) (ids-append xs ys)

-- A switch keeps the bridge, on every path.
set_if-id :
    (enable_set : ℕ → Bool → ℕ) (b : Bridge) (on there : Bool)
    → (set_if enable_set b on there).0.id ≡ b.id
unfolding set_if switched
set_if-id enable_set b on false = refl
set_if-id enable_set b on true = elim (Bool-cases (enable_set b.id on == 0)) [
  | inl z ↦ rw z refl
  | inr z ↦ rw z refl
]

ids-each :
    (f : Bridge → Bridge × ℕ) (bs : List Bridge)
    → ((b : Bridge) → (f b).0.id ≡ b.id)
    → ids (each f bs).0 ≡ ids bs
unfolding each
ids-each f [] same = refl
ids-each f (b ∷ bs) same = elim (Bool-cases ((f b).1 == 0)) [
  | inl z ↦ rw z (λ i. same b i ∷ ids-each f bs same i)
  | inr z ↦ rw z (ap (λ i. i ∷ ids bs) (same b))
]

ids-disable :
    (enable_set : ℕ → Bool → ℕ) (bs : List Bridge)
    → ids (fpga_bridges_disable enable_set bs).0 ≡ ids bs
unfolding fpga_bridges_disable fpga_bridge_disable
ids-disable enable_set bs = ids-each _ bs (λ b. set_if-id enable_set b false b.switchable)

ids-enable :
    (enable_set : ℕ → Bool → ℕ) (bs : List Bridge)
    → ids (fpga_bridges_enable enable_set bs).0 ≡ ids bs
unfolding fpga_bridges_enable fpga_bridge_enable
ids-enable enable_set bs = ids-each _ bs (λ b. set_if-id enable_set b true b.switchable)

ids-put : (bs : List Bridge) → ids (fpga_bridges_put bs) ≡ ids bs
unfolding fpga_bridges_put fpga_bridge_put
ids-put [] = refl
ids-put (b ∷ bs) = ap (◌∷◌ b.id) (ids-put bs)

put-All : (bs : List Bridge) → All (λ b. b.held ≡ false) (fpga_bridges_put bs)
unfolding fpga_bridges_put fpga_bridge_put
put-All [] = tt
put-All (b ∷ bs) = (refl, put-All bs)

-- A success with the bridges with these numbers on the list and none given back, or an error, an
-- empty list and those bridges given back, in their order and in front of those that were before.
abbrev pub GivesBack : List ℕ → List Bridge → State × ℕ → Type 0
GivesBack n before (st, status) =
    ((status ≡ 0) × (ids st.bridge_list ≡ n) × (st.freed ≡ before))
    ⊎ ((status ≢ 0)
        × (st.bridge_list ≡ [])
        × (gone : List Bridge) × All (λ b. b.held ≡ false) gone
        × (ids gone ≡ n)
        × (st.freed ≡ gone ++ before))

module _ (env : Env) (bs : List Bridge) (has : env.get_bridges ≡ some (bs, 0)) where
  failed-GivesBack :
      (st : State) (status : ℕ)
      → status ≢ 0
      → GivesBack (ids st.bridge_list) st.freed (err_put_br env st status)
  unfolding err_put_br unlock_both fpga_region_put fpga_mgr_unlock put_bridges
  failed-GivesBack st status fails =
      let back = fpga_bridges_put st.bridge_list in
      inr (
        fails,
        ap (λ o. (put_bridges o st).bridge_list) has,
        back,
        put-All st.bridge_list,
        ids-put st.bridge_list,
        ap (λ o. (put_bridges o st).freed) has,
      )

  after_enable-GivesBack :
      (st : State) (n : List ℕ) (r : List Bridge × ℕ)
      → ids r.0 ≡ n
      → GivesBack n st.freed (after_enable env st r)
  unfolding after_enable
  after_enable-GivesBack st n (l, status) h = elim (Bool-cases (status == 0)) [
    | inl z ↦ rw z (inl (refl, h, refl))
    | inr z ↦ rw z (
        subst (λ k. GivesBack k st.freed (err_put_br env (record st { bridge_list = l }) status)) h
          (failed-GivesBack (record st { bridge_list = l }) status (λ q. ground (arith, z, q))))
  ]

  after_load-GivesBack :
      (st : State) (n : List ℕ) (status : ℕ)
      → ids st.bridge_list ≡ n
      → GivesBack n st.freed (after_load env st status)
  unfolding after_load
  after_load-GivesBack st n status h =
      let st' = record st { loads = st.bridge_list ∷ st.loads } in
      elim (Bool-cases (status == 0)) [
        | inl z ↦ rw z (
            after_enable-GivesBack st' n (fpga_bridges_enable env.enable_set st.bridge_list)
              (ids-enable env.enable_set st.bridge_list ∙ h))
        | inr z ↦ rw z (
            subst (λ k. GivesBack k st.freed (err_put_br env st' status)) h
              (failed-GivesBack st' status (λ q. ground (arith, z, q))))
      ]

  after_disable-GivesBack :
      (st : State) (n : List ℕ) (r : List Bridge × ℕ)
      → ids r.0 ≡ n
      → GivesBack n st.freed (after_disable env st r)
  unfolding after_disable
  after_disable-GivesBack st n (l, status) h =
      let st' = record st { bridge_list = l } in
      elim (Bool-cases (status == 0)) [
        | inl z ↦ rw z (after_load-GivesBack st' n env.fpga_mgr_load h)
        | inr z ↦ rw z (
            subst (λ k. GivesBack k st.freed (err_put_br env st' status)) h
              (failed-GivesBack st' status (λ q. ground (arith, z, q))))
      ]

  with_bridges-GivesBack :
      (st : State)
      → GivesBack (ids bs ++ ids st.bridge_list) st.freed (with_bridges env st env.get_bridges)
  unfolding with_bridges
  with_bridges-GivesBack st =
      subst (λ o. GivesBack (ids bs ++ ids st.bridge_list) st.freed (with_bridges env st o))
        (sym has)
        (after_disable-GivesBack (record st { bridge_list = bs ++ st.bridge_list }) _
          (fpga_bridges_disable env.enable_set (bs ++ st.bridge_list))
          (ids-disable env.enable_set (bs ++ st.bridge_list) ∙ ids-append bs st.bridge_list))

  -- Both locks are free, and the module is there.
  abbrev inside : State → State
  inside st = record st {
    region_locked = true;
    device_refs = st.device_refs + 1;
    module_refs = st.module_refs + 1;
    mgr_locked = true;
  }

  program_fpga-inside :
      (st : State)
      → st.region_locked ≡ false
      → st.mgr_locked ≡ false
      → env.try_module_get ≡ true
      → fpga_region_program_fpga env st ≡ with_bridges env (inside st) env.get_bridges
  unfolding fpga_region_program_fpga fpga_region_get after_get fpga_mgr_lock region_tried region_got
      mgr_tried after_lock
  program_fpga-inside st free mgr_free there =
      let locked = record st { region_locked = true } in
      let taken = record locked {
        device_refs = st.device_refs + 1;
        module_refs = st.module_refs + 1;
      } in
      ap (λ l. after_get env (region_tried env st l)) free
      ∙ ap (λ m. after_get env (region_got locked m)) there
      ∙ ap (λ l. after_lock env (mgr_tried taken l)) mgr_free

  -- Where the region and the manager are free, the module is there and get_bridges succeeds,
  -- fpga_region_program_fpga returns 0 with every bridge, those of get_bridges before those that
  -- were there, on the list and none given back, or an error with the list empty and every one of
  -- them given back, by its number and in order.
  pub program_fpga-GivesBack :
      (st : State)
      → st.region_locked ≡ false
      → st.mgr_locked ≡ false
      → env.try_module_get ≡ true
      → GivesBack (ids bs ++ ids st.bridge_list) st.freed (fpga_region_program_fpga env st)
  program_fpga-GivesBack st free mgr_free there =
      rw (program_fpga-inside st free mgr_free there) (with_bridges-GivesBack (inside st))
