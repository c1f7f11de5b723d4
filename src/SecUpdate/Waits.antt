-- ===== src/SecUpdate/Waits.antt =====
-- drivers/fpga/intel-m10-bmc-sec-update.c: the waits for the card end when their time has passed.
use linux_dfl_backport.Base.{
  ℕ, zero, suc, ◌+◌, ◌%◌, ◌^◌, ◌≤◌, ◌<◌, ◌≡◌, refl, inl, inr, Bool, true, false, Option, none, some,
  ◌==◌, arith, Bool-cases, if◌then◌else◌, Result, ok, err, HasResult,
}
use linux_dfl_backport.Avmm.Rx.{time_after}
use linux_dfl_backport.SecUpdate.Defs.{
  FwState, Card, Sec, m10bmc_fw_state_set, rsu_prog, prog_prepare, available, sys_read, status_of,
  rsu_status,
}
use linux_dfl_backport.SecUpdate.Rsu.{
  eagain, observed, doorbell_read, m10bmc_sec_progress_status, rsu_check_complete, rsu_send_data,
  rsu_check_idle, rsu_update_init, wait_ready, rsu_prog_ready, ready_from,
}
use linux_dfl_backport.SecUpdate.Ops.{
  wait_complete, data_sent, with_dev, m10bmc_sec_poll_complete, ready_waited, initialised,
  idle_checked, locked, is_bad_size, write_locked, m10bmc_sec_prepare,
}

-- The clock of the kernel: while a time has not passed, a sleep brings it nearer, also behind the read
-- of a register, and a read alone does not take it away; at most `bound` sleeps are left to any time.
pub record Clock {D : Type 0} (c : Card D) : Type 0 where
  pub left : (time : ℕ) → D → ℕ
  pub bound : ℕ
  pub left_bounded : (time : ℕ) (d : D) → left time d ≤ bound
  pub slept :
      (time ms : ℕ) (d : D)
      → time_after (c.jiffies d) time ≡ false
      → left time (c.msleep ms d) < left time d
  pub read_slept :
      (time ms offset : ℕ) (d : D)
      → time_after (c.jiffies d) time ≡ false
      → left time (c.msleep ms (c.regmap_read offset d).1) < left time d
  pub read : (time offset : ℕ) (d : D) → left time (c.regmap_read offset d).1 ≤ left time d
  pub expired : (time : ℕ) (d : D) → left time d ≡ 0 → time_after (c.jiffies d) time ≡ true

module _ {D : Type 0} (c : Card D) (clock : Clock c) where
  sys_read-left :
      (state : FwState) (time offset : ℕ) (d : D)
      → clock.left time (sys_read c state offset d).1 ≤ clock.left time d
  unfolding sys_read
  sys_read-left state time offset d = elim (Bool-cases (available c state offset)) [
    | inl e ↦ rw e (clock.read time offset d)
    | inr e ↦ rw e (omega arith)
  ]

  status_of-same : (r : Result ℕ × D) → (status_of c r).1 ≡ r.1
  unfolding status_of
  status_of-same (ok v, d) = refl
  status_of-same (err e, d) = refl

  rsu_status-left :
      (state : FwState) (time : ℕ) (d : D)
      → clock.left time (rsu_status c state d).1 ≤ clock.left time d
  unfolding rsu_status
  rsu_status-left state time d =
      let offset = if c.n6000 then c.auth_result else c.doorbell in
      rw (status_of-same (sys_read c state offset d)) (sys_read-left state time offset d)

  observed-same :
      (state : FwState) (doorbell : ℕ) (r : Result ℕ × D) → (observed c state doorbell r).1 ≡ r.1
  unfolding observed
  observed-same state doorbell (ok v, d) = refl
  observed-same state doorbell (err e, d) = refl

  doorbell_read-left :
      (state : FwState) (time : ℕ) (r : Result ℕ × D)
      → clock.left time (doorbell_read c state r).1 ≤ clock.left time r.1
  unfolding doorbell_read
  doorbell_read-left state time (err e, d) = omega arith
  doorbell_read-left state time (ok doorbell, d) =
      rw (observed-same state doorbell (rsu_status c state d)) (rsu_status-left state time d)

  check-left :
      (state : FwState) (time : ℕ) (d : D)
      → clock.left time (rsu_check_complete c state d).1 ≤ clock.left time d
  unfolding rsu_check_complete m10bmc_sec_progress_status
  check-left state time d = omega (
    arith,
    doorbell_read-left state time (sys_read c state c.doorbell d),
    sys_read-left state time c.doorbell d,
  )

  wait_complete-ends :
      (fuel : ℕ) (state : FwState) (time : ℕ) (d : D)
      → clock.left time (c.msleep 1000 d) < fuel
      → HasResult (wait_complete c fuel state time d)
  unfolding wait_complete
  wait_complete-ends zero state time d h = absurd (omega arith)
  wait_complete-ends (suc fuel) state time d h =
      let d' = (rsu_check_complete c state (c.msleep 1000 d)).1 in
      elim (Bool-cases ((rsu_check_complete c state (c.msleep 1000 d)).0 == eagain)) [
        | inl a ↦ elim (Bool-cases (time_after (c.jiffies d') time)) [
          | inl t ↦ rw (a, t) (_, refl)
          | inr t ↦
              rw (a, t)
                (wait_complete-ends fuel state time d' (
                  omega
                    (arith, clock.slept time 1000 d' t, check-left state time (c.msleep 1000 d))))
        ]
        | inr a ↦ rw a (_, refl)
      ]

  slept_again :
      (state : FwState) (time : ℕ) (d : D)
      → time_after (c.jiffies d) time ≡ false
      → clock.left time (c.msleep 100 (sys_read c state c.doorbell d).1) < clock.left time d
  unfolding sys_read
  slept_again state time d t = elim (Bool-cases (available c state c.doorbell)) [
    | inl e ↦ rw e (clock.read_slept time 100 c.doorbell d t)
    | inr e ↦ rw e (clock.slept time 100 d t)
  ]

  wait_ready-ends :
      (fuel : ℕ) (state : FwState) (time : ℕ) (r : Result ℕ × D)
      → clock.left time (c.msleep 100 r.1) < fuel
      → HasResult (wait_ready c state fuel time r)
  unfolding wait_ready
  wait_ready-ends zero state time r h = absurd (omega arith)
  wait_ready-ends (suc fuel) state time (err e, d) h = (_, refl)
  wait_ready-ends (suc fuel) state time (ok doorbell, d) h =
      let d' = c.msleep 100 d in
      elim (Bool-cases (rsu_prog doorbell == prog_prepare)) [
        | inl p ↦ elim (Bool-cases (time_after (c.jiffies d') time)) [
          | inl t ↦ rw (p, t) (_, refl)
          | inr t ↦
              rw (p, t)
                (wait_ready-ends fuel state time (sys_read c state c.doorbell d')
                  (omega (arith, slept_again state time d' t)))
        ]
        | inr p ↦ rw p (_, refl)
      ]

  with_dev-HasResult : (s : Sec D) (o : Option (ℕ × D)) → HasResult o → HasResult (with_dev c s o)
  unfolding with_dev
  with_dev-HasResult s none h = cc
  with_dev-HasResult s (some (code, d)) h = (_, refl)

  data_sent-ends :
      (fuel : ℕ) (state : FwState) (r : ℕ × D)
      → clock.bound < fuel
      → HasResult (data_sent c fuel state r)
  unfolding data_sent
  data_sent-ends fuel state (ret, d) h =
      let time = (c.jiffies d + c.msecs_to_jiffies 2400000) % 2 ^ 64 in
      elim (Bool-cases (ret == 0)) [
        | inl z ↦ rw z (
            wait_complete-ends fuel state time d
              (omega (arith, clock.left_bounded time (c.msleep 1000 d))))
        | inr z ↦ rw z (_, refl)
      ]

  poll_complete_ends :
      (fuel : ℕ) (s : Sec D) (cancel : Bool)
      → clock.bound < fuel
      → HasResult (m10bmc_sec_poll_complete c fuel s cancel)
  unfolding m10bmc_sec_poll_complete
  poll_complete_ends fuel s true h = with_dev-HasResult s _ (_, refl)
  poll_complete_ends fuel s false h =
      let s' = m10bmc_fw_state_set c FwState.program s in
      with_dev-HasResult s' _
        (data_sent-ends fuel s'.fw_state (rsu_send_data c s'.fw_state s.dev) h)

  prog_ready-ends :
      (fuel : ℕ) (state : FwState) (d : D)
      → clock.bound < fuel
      → HasResult (rsu_prog_ready c state fuel d)
  unfolding rsu_prog_ready ready_from
  prog_ready-ends fuel state d h =
      let r = sys_read c state c.doorbell d in
      let time = (c.jiffies r.1 + c.msecs_to_jiffies 120000) % 2 ^ 64 in
      wait_ready-ends fuel state time r (omega (arith, clock.left_bounded time (c.msleep 100 r.1)))

  ready_waited-HasResult :
      (s : Sec D) (cancel : Bool) (o : Option (ℕ × D))
      → HasResult o
      → HasResult (ready_waited c s cancel o)
  unfolding ready_waited
  ready_waited-HasResult s cancel none h = cc
  ready_waited-HasResult s cancel (some r) h = (_, refl)

  initialised-ends :
      (fuel : ℕ) (s : Sec D) (cancel : Bool) (r : ℕ × D)
      → clock.bound < fuel
      → HasResult (initialised c fuel s cancel r)
  unfolding initialised
  initialised-ends fuel s cancel (ret, d) h = elim (Bool-cases (ret == 0)) [
    | inl z ↦ rw z (
        ready_waited-HasResult (record s { dev = d }) cancel _
          (prog_ready-ends fuel s.fw_state d h))
    | inr z ↦ rw z (_, refl)
  ]

  idle_checked-ends :
      (fuel : ℕ) (s : Sec D) (cancel : Bool) (r : ℕ × D)
      → clock.bound < fuel
      → HasResult (idle_checked c fuel s cancel r)
  unfolding idle_checked
  idle_checked-ends fuel s cancel (ret, d) h =
      let s' = m10bmc_fw_state_set c FwState.prepare (record s { dev = d }) in
      elim (Bool-cases (ret == 0)) [
        | inl z ↦ rw z (initialised-ends fuel s' cancel (rsu_update_init c s'.fw_state d) h)
        | inr z ↦ rw z (_, refl)
      ]

  locked-ends :
      (fuel : ℕ) (cancel : Bool) (r : Sec D × ℕ)
      → clock.bound < fuel
      → HasResult (locked c fuel cancel r)
  unfolding locked
  locked-ends fuel cancel (s, ret) h = elim (Bool-cases (ret == 0)) [
    | inl z ↦ rw z (idle_checked-ends fuel s cancel (rsu_check_idle c s.fw_state s.dev) h)
    | inr z ↦ rw z (_, refl)
  ]

  prepare_ends :
      (fuel : ℕ) (s : Sec D) (size : ℕ) (cancel : Bool)
      → clock.bound < fuel
      → HasResult (m10bmc_sec_prepare c fuel s size cancel)
  unfolding m10bmc_sec_prepare
  prepare_ends fuel s size cancel h = elim (Bool-cases (is_bad_size c size)) [
    | inl bad ↦ rw bad (_, refl)
    | inr good ↦ rw good (
        locked-ends fuel cancel
          (write_locked c (record s { cancel_request = false }) c.has_flash_bulk_ops) h)
  ]

  -- M10bmc_sec_prepare and m10bmc_sec_poll_complete return within more rounds of their waits than
  -- the clock lets sleeps pass before any time, if each sleep brings an unreached time nearer and a
  -- read alone does not take it away.
  pub update_waits_end :
      (fuel : ℕ) (s : Sec D) (size : ℕ) (cancel : Bool)
      → clock.bound < fuel
      → HasResult (m10bmc_sec_prepare c fuel s size cancel)
        × HasResult (m10bmc_sec_poll_complete c fuel s cancel)
  update_waits_end fuel s size cancel h =
      (prepare_ends fuel s size cancel h, poll_complete_ends fuel s cancel h)
