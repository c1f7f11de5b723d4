-- ===== src/SecUpdate/Outcomes.antt =====
-- drivers/fpga/intel-m10-bmc-sec-update.c: the flash lock and the state of the firmware behind each
-- operation.
use linux_dfl_backport.Base.{
  ℕ, ◌≤◌, ◌<◌, ◌≡◌, ◌≢◌, refl, sym, ap, subst, ◌∙◌, ◌⊎◌, inl, inr, Bool, true, false, Option, none,
  some, ◌==◌, arith, Bool-cases, if◌then◌else◌, Result, ok, err, IfSome,
}
use linux_dfl_backport.SecUpdate.Defs.{FwState, Card, Sec, m10bmc_fw_state_set, sys_read}
use linux_dfl_backport.SecUpdate.Rsu.{
  rsu_check_idle, rsu_prog_ready, rsu_cancel, cancel_from, abort_requested,
}
use linux_dfl_backport.SecUpdate.Ops.{
  lock_tried, write_locked, m10bmc_pmci_flash_lock, m10bmc_pmci_flash_unlock, unlock_flash,
  fw_state_exit, prepared, ready_waited, initialised, idle_checked, locked, is_bad_size,
  m10bmc_sec_prepare,
}

module _ {D : Type 0} (c : Card D) where
  -- What m10bmc_fw_state_set leaves of a state of the firmware.
  abbrev pub said : FwState → FwState → FwState
  said new_state old_state = if c.has_handshake_regs then new_state else old_state

  -- The flash is held, if there is one.
  abbrev pub taken : Bool → Bool
  taken was_busy = if c.has_flash_bulk_ops then true else was_busy

  pub fields_set :
      (state : FwState) (s : Sec D)
      → ((m10bmc_fw_state_set c state s).fw_state ≡ said state s.fw_state)
        × ((m10bmc_fw_state_set c state s).flash_busy ≡ s.flash_busy)
  unfolding m10bmc_fw_state_set
  fields_set state s = elim (Bool-cases c.has_handshake_regs) [
    | inl e ↦ rw e (refl, refl)
    | inr e ↦ rw e (refl, refl)
  ]

  -- The flash behind unlock_flash.
  abbrev pub given_back : Bool → Bool
  given_back held = if c.has_flash_bulk_ops then false else held

  pub fields_exit :
      (s : Sec D)
      → ((fw_state_exit c s).fw_state ≡ said FwState.normal s.fw_state)
        × ((fw_state_exit c s).flash_busy ≡ given_back s.flash_busy)
  unfolding fw_state_exit unlock_flash m10bmc_pmci_flash_unlock m10bmc_fw_state_set
  fields_exit s = elim (Bool-cases c.has_flash_bulk_ops) [
    | inl e ↦ elim (Bool-cases c.has_handshake_regs) [
      | inl h ↦ rw (e, h) (refl, refl)
      | inr h ↦ rw (e, h) (refl, refl)
    ]
    | inr e ↦ elim (Bool-cases c.has_handshake_regs) [
      | inl h ↦ rw (e, h) (refl, refl)
      | inr h ↦ rw (e, h) (refl, refl)
    ]
  ]

  cancel_from-ne-zero : (state : FwState) (r : Result ℕ × D) → (cancel_from c state r).0 ≢ 0
  unfolding cancel_from abort_requested
  cancel_from-ne-zero state (ok doorbell, d) = ground arith
  cancel_from-ne-zero state (err e, d) = ground arith

  unlocked :
      (s : Sec D)
      → ((unlock_flash c s).flash_busy ≡ given_back s.flash_busy)
        × ((unlock_flash c s).fw_state ≡ s.fw_state)
  unfolding unlock_flash m10bmc_pmci_flash_unlock
  unlocked s = elim (Bool-cases c.has_flash_bulk_ops) [
    | inl e ↦ rw e (refl, refl)
    | inr e ↦ rw e (refl, refl)
  ]

  -- rsu_cancel never says that there was no error.
  pub rsu_cancel-ne-zero : (state : FwState) (d : D) → (rsu_cancel c state d).0 ≢ 0
  unfolding rsu_cancel
  rsu_cancel-ne-zero state d = cancel_from-ne-zero state (sys_read c state c.doorbell d)

  -- Inside the update that starts at s: the lock is held, and the state of the firmware is only set.
  record IsInside (s t : Sec D) : Type 0 where
    held : t.flash_busy ≡ taken s.flash_busy
    back : given_back t.flash_busy ≡ s.flash_busy
    state : (x : FwState) → said x t.fw_state ≡ said x s.fw_state

  -- A success keeps the lock and says that data are written; a failure gives the lock back.
  abbrev pub PrepareOutcome : Sec D → Sec D × ℕ → Type 0
  PrepareOutcome s (t, code) =
      ((code ≡ 0)
        × (t.flash_busy ≡ taken s.flash_busy)
        × (given_back t.flash_busy ≡ s.flash_busy)
        × (t.fw_state ≡ said FwState.write s.fw_state))
      ⊎ ((code ≢ 0)
          × (t.flash_busy ≡ s.flash_busy)
          × ((t.fw_state ≡ s.fw_state) ⊎ (t.fw_state ≡ said FwState.normal s.fw_state)))

  exit-PrepareOutcome :
      (s t : Sec D) (code : ℕ)
      → IsInside s t
      → code ≢ 0
      → PrepareOutcome s (fw_state_exit c t, code)
  exit-PrepareOutcome s t code i bad =
      let (state, flash) = fields_exit t in
      inr (bad, flash ∙ i.back, inr (state ∙ i.state FwState.normal))

  -- Only the card changes.
  IsInside-dev :
      (s t : Sec D) (d : D) (cancel : Bool)
      → IsInside s t
      → IsInside s (record t { dev = d; cancel_request = cancel })
  IsInside-dev s t d cancel i = record { held = i.held; back = i.back; state = i.state }

  not_zero : (n : ℕ) → (n == 0) ≡ false → n ≢ 0
  not_zero n e = ground arith

  prepared-PrepareOutcome :
      (s t : Sec D) (cancel : Bool) (r : ℕ × D)
      → IsInside s t
      → PrepareOutcome s (prepared c t cancel r)
  unfolding prepared
  prepared-PrepareOutcome s t true (ret, d) i = elim (Bool-cases (ret == 0)) [
    | inl z ↦ rw z (
        exit-PrepareOutcome s _ _ (IsInside-dev s t (rsu_cancel c t.fw_state d).1 true i)
          (rsu_cancel-ne-zero t.fw_state d))
    | inr z ↦ rw z (exit-PrepareOutcome s _ ret (IsInside-dev s t d true i) (not_zero ret z))
  ]
  prepared-PrepareOutcome s t false (ret, d) i = elim (Bool-cases (ret == 0)) [
    | inl z ↦ rw z (
        let t' = record t { dev = d; cancel_request = false } in
        let (state, flash) = fields_set FwState.write t' in
        inl (refl, flash ∙ i.held, ap given_back flash ∙ i.back, state ∙ i.state FwState.write))
    | inr z ↦ rw z (exit-PrepareOutcome s _ ret (IsInside-dev s t d false i) (not_zero ret z))
  ]

  -- What is so of every result.
  any : {P : Type 0} (o : Option (Sec D × ℕ)) → P → IfSome (λ r. r.1 ≡ 0 → P) o
  any none p = tt
  any (some r) p = λ z. p

  ready_waited-PrepareOutcome :
      (s t : Sec D) (cancel : Bool) (o : Option (ℕ × D))
      → IsInside s t
      → IfSome (PrepareOutcome s) (ready_waited c t cancel o)
  unfolding ready_waited
  ready_waited-PrepareOutcome s t cancel none i = tt
  ready_waited-PrepareOutcome s t cancel (some r) i = prepared-PrepareOutcome s t cancel r i

  initialised-PrepareOutcome :
      (fuel : ℕ) (s t : Sec D) (cancel : Bool) (r : ℕ × D)
      → IsInside s t
      → IfSome (PrepareOutcome s) (initialised c fuel t cancel r)
  unfolding initialised
  initialised-PrepareOutcome fuel s t cancel (ret, d) i =
      let i' = IsInside-dev s t d t.cancel_request i in
      elim (Bool-cases (ret == 0)) [
        | inl z ↦
            rw z (ready_waited-PrepareOutcome s _ cancel (rsu_prog_ready c t.fw_state fuel d) i')
        | inr z ↦ rw z (exit-PrepareOutcome s _ ret i' (not_zero ret z))
      ]

  pub said_twice : (x y z : FwState) → said x (said y z) ≡ said x z
  said_twice x y z = elim (Bool-cases c.has_handshake_regs) [
    | inl e ↦ rw e refl
    | inr e ↦ rw e refl
  ]

  -- The lock is held, and nothing else is done.
  idle_checked-PrepareOutcome :
      (fuel : ℕ) (s t : Sec D) (cancel : Bool) (r : ℕ × D)
      → IsInside s t
      → t.fw_state ≡ s.fw_state
      → IfSome (PrepareOutcome s) (idle_checked c fuel t cancel r)
  unfolding idle_checked
  idle_checked-PrepareOutcome fuel s t cancel (ret, d) i same =
      let t' = record t { dev = d } in
      let (state, flash) = fields_set FwState.prepare t' in
      let i' : IsInside s (m10bmc_fw_state_set c FwState.prepare t') = record {
        held = flash ∙ i.held;
        back = ap given_back flash ∙ i.back;
        state = λ x. ap (said x) state ∙ said_twice x FwState.prepare t.fw_state ∙ i.state x;
      } in
      elim (Bool-cases (ret == 0)) [
        | inl z ↦ rw z (initialised-PrepareOutcome fuel s _ cancel _ i')
        | inr z ↦ rw z (
            let (flash', state') = unlocked t' in
            inr (not_zero ret z, flash' ∙ i.back, inl (state' ∙ same)))
      ]

  -- A flash that was busy is left alone; another is held from now on.
  tried-PrepareOutcome :
      (fuel : ℕ) (s : Sec D) (cancel was_busy : Bool)
      → c.has_flash_bulk_ops ≡ true
      → s.flash_busy ≡ was_busy
      → IfSome (PrepareOutcome s) (locked c fuel cancel (lock_tried c s was_busy))
  unfolding locked lock_tried
  tried-PrepareOutcome fuel s cancel true e b = inr (λ z. absurd (omega arith), refl, inl refl)
  tried-PrepareOutcome fuel s cancel false e b =
      idle_checked-PrepareOutcome fuel s (record s { flash_busy = true }) cancel
        (rsu_check_idle c s.fw_state s.dev)
        (record {
          held = sym (ap (λ h. if h then true else s.flash_busy) e);
          back = ap (λ h. if h then false else true) e ∙ sym b;
          state = λ x. refl;
        })
        refl

  -- The last argument is whether there are operations for the flash.
  write_locked-PrepareOutcome :
      (fuel : ℕ) (s : Sec D) (cancel was_busy has_ops : Bool)
      → c.has_flash_bulk_ops ≡ has_ops
      → s.flash_busy ≡ was_busy
      → IfSome (PrepareOutcome s) (locked c fuel cancel (write_locked c s has_ops))
  unfolding locked write_locked m10bmc_pmci_flash_lock
  write_locked-PrepareOutcome fuel s cancel was_busy false e b =
      idle_checked-PrepareOutcome fuel s s cancel (rsu_check_idle c s.fw_state s.dev)
        (record {
          held = sym (ap (λ h. if h then true else s.flash_busy) e);
          back = ap (λ h. if h then false else s.flash_busy) e;
          state = λ x. refl;
        })
        refl
  write_locked-PrepareOutcome fuel s cancel was_busy true e b =
      subst (λ w. IfSome (PrepareOutcome s) (locked c fuel cancel (lock_tried c s w))) (sym b)
        (tried-PrepareOutcome fuel s cancel was_busy e b)

  prepare-IfSome :
      (fuel : ℕ) (s : Sec D) (size : ℕ) (cancel : Bool)
      → IfSome (PrepareOutcome s) (m10bmc_sec_prepare c fuel s size cancel)
  unfolding m10bmc_sec_prepare
  prepare-IfSome fuel s size cancel = elim (Bool-cases (is_bad_size c size)) [
    | inl bad ↦ rw bad (inr (λ z. absurd (omega arith), refl, inl refl))
    | inr good ↦ rw good (
        write_locked-PrepareOutcome fuel (record s { cancel_request = false }) cancel s.flash_busy
          c.has_flash_bulk_ops refl refl)
  ]

  good_size : (size : ℕ) → is_bad_size c size ≡ false → (0 < size) × (size ≤ c.staging_size)
  unfolding is_bad_size
  good_size size = ground arith

  prepare-size :
      (fuel : ℕ) (s : Sec D) (size : ℕ) (cancel : Bool)
      → IfSome
          (λ r. r.1 ≡ 0 → (0 < size) × (size ≤ c.staging_size))
          (m10bmc_sec_prepare c fuel s size cancel)
  unfolding m10bmc_sec_prepare
  prepare-size fuel s size cancel = elim (Bool-cases (is_bad_size c size)) [
    | inl bad ↦ rw bad (λ z. absurd (omega arith))
    | inr good ↦ rw good (any _ (good_size size good))
  ]

  -- M10bmc_sec_prepare, where it returns, succeeds with the flash taken and the card's state at the
  -- write, for a size that is not 0 and fits the staging area, or fails with the flash as it was
  -- and the state as it was or normal.
  pub prepare-outcome :
      (fuel : ℕ) (s : Sec D) (size : ℕ) (cancel : Bool) {r : Sec D × ℕ}
      → m10bmc_sec_prepare c fuel s size cancel ≡ some r
      → PrepareOutcome s r × (r.1 ≡ 0 → (0 < size) × (size ≤ c.staging_size))
  prepare-outcome fuel s size cancel e = (
    subst (IfSome (PrepareOutcome s)) e (prepare-IfSome fuel s size cancel),
    subst (IfSome (λ r. r.1 ≡ 0 → (0 < size) × (size ≤ c.staging_size))) e
        (prepare-size fuel s size cancel),
  )
