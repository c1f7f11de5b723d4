-- ===== src/SecUpdate/Complete.antt =====
-- drivers/fpga/intel-m10-bmc-sec-update.c: what a success of m10bmc_sec_poll_complete means.
use linux_dfl_backport.Base.{
  ℕ, zero, suc, ◌≡◌, refl, ap, subst, inl, inr, Bool, true, false, Option, none, some, ◌==◌, arith,
  Bool-cases, ==_iff, Result, ok, err,
}
use linux_dfl_backport.Avmm.Rx.{time_after}
use linux_dfl_backport.SecUpdate.Defs.{FwState, Card, Sec, m10bmc_fw_state_set}
use linux_dfl_backport.SecUpdate.Rsu.{
  eagain, eio, Observed, rsu_status_ok, rsu_progress_done, m10bmc_sec_progress_status, complete_of,
  rsu_check_complete, rsu_send_data, logged,
}
use linux_dfl_backport.SecUpdate.Ops.{
  completed, wait_complete, data_sent, with_dev, m10bmc_sec_poll_complete,
}
use linux_dfl_backport.SecUpdate.Outcomes.{rsu_cancel-ne-zero}

module _ {D : Type 0} (c : Card D) where
  -- The card said last, in the state d, that the update is done and well.
  pub record SaidDone (state : FwState) (d : D) : Type 0 where
    pub before : D
    pub observation : Observed
    pub read : m10bmc_sec_progress_status c state before ≡ (ok observation, d)
    pub status_ok : rsu_status_ok observation.status ≡ true
    pub progress_done : rsu_progress_done observation.progress ≡ true

  complete_of-zero :
      (state : FwState) (r : Result Observed)
      → complete_of c state r ≡ 0
      → (o : Observed) × (r ≡ ok o)
        × (rsu_status_ok o.status ≡ true)
        × (rsu_progress_done o.progress ≡ true)
  unfolding complete_of
  complete_of-zero state (err e) z = absurd (omega arith)
  complete_of-zero state (ok o) z = elim (Bool-cases (rsu_status_ok o.status)) [
    | inl s ↦ elim (Bool-cases (rsu_progress_done o.progress)) [
      | inl p ↦ (o, refl, s, p)
      | inr p ↦ absurd (ground arith)
    ]
    | inr s ↦ absurd (ground arith)
  ]

  check-SaidDone :
      (state : FwState) (d : D)
      → (rsu_check_complete c state d).0 ≡ 0
      → SaidDone state (rsu_check_complete c state d).1
  unfolding rsu_check_complete
  check-SaidDone state d z =
      let (o, e, s, p) = complete_of-zero state (m10bmc_sec_progress_status c state d).0 z in
      record {
        before = d;
        observation = o;
        read = ap (λ x. (x, (m10bmc_sec_progress_status c state d).1)) e;
        status_ok = s;
        progress_done = p;
      }

  -- Of a result, if there is one that is a success.
  abbrev IfDone : FwState → Option (ℕ × D) → Type 0
  IfDone state none = Unit {0}
  IfDone state (some (code, d)) = code ≡ 0 → SaidDone state d

  completed-IfDone :
      (state : FwState) (ret : ℕ) (d : D)
      → (ret ≡ 0 → SaidDone state d)
      → IfDone state (some (completed c state ret d))
  unfolding completed logged
  completed-IfDone state ret d h = elim (Bool-cases (ret == 0)) [
    | inl z ↦ rw z (λ e. h ((==_iff ret 0).0 z))
    | inr z ↦ elim (Bool-cases (ret == eagain)) [
      | inl a ↦ rw (z, a) (λ e. absurd (omega arith))
      | inr a ↦ elim (Bool-cases (ret == eio)) [
        | inl i ↦ rw (z, a, i) (λ e. absurd (omega arith))
        | inr i ↦ rw (z, a, i) (λ e. absurd (omega arith))
      ]
    ]
  ]

  wait_complete-IfDone :
      (fuel : ℕ) (state : FwState) (poll_timeout : ℕ) (d : D)
      → IfDone state (wait_complete c fuel state poll_timeout d)
  unfolding wait_complete
  wait_complete-IfDone zero state poll_timeout d = tt
  wait_complete-IfDone (suc fuel) state poll_timeout d =
      let r = rsu_check_complete c state (c.msleep 1000 d) in
      let last = completed-IfDone state r.0 r.1 (check-SaidDone state (c.msleep 1000 d)) in
      elim (Bool-cases (r.0 == eagain)) [
        | inl a ↦ elim (Bool-cases (time_after (c.jiffies r.1) poll_timeout)) [
          | inl t ↦ rw (a, t) last
          | inr t ↦ rw (a, t) (wait_complete-IfDone fuel state poll_timeout r.1)
        ]
        | inr a ↦ rw a last
      ]

  data_sent-IfDone :
      (fuel : ℕ) (state : FwState) (r : ℕ × D) → IfDone state (data_sent c fuel state r)
  unfolding data_sent
  data_sent-IfDone fuel state (ret, d) = elim (Bool-cases (ret == 0)) [
    | inl z ↦ rw z (wait_complete-IfDone fuel state _ d)
    | inr z ↦ rw z (λ e. absurd (ground arith))
  ]

  abbrev IfSaid : (FwState) → Option (Sec D × ℕ) → Type 0
  IfSaid state none = Unit {0}
  IfSaid state (some (t, code)) = code ≡ 0 → SaidDone state t.dev

  with_dev-IfSaid :
      (state : FwState) (s : Sec D) (o : Option (ℕ × D))
      → IfDone state o
      → IfSaid state (with_dev c s o)
  unfolding with_dev
  with_dev-IfSaid state s none h = tt
  with_dev-IfSaid state s (some (code, d)) h = h

  poll-IfSaid :
      (fuel : ℕ) (s : Sec D) (cancel : Bool)
      → IfSaid
          (m10bmc_fw_state_set c FwState.program s).fw_state
          (m10bmc_sec_poll_complete c fuel s cancel)
  unfolding m10bmc_sec_poll_complete with_dev
  poll-IfSaid fuel s true = λ z. absurd (rsu_cancel-ne-zero c s.fw_state s.dev z)
  poll-IfSaid fuel s false =
      let s' = m10bmc_fw_state_set c FwState.program s in
      with_dev-IfSaid s'.fw_state s' _
        (data_sent-IfDone fuel s'.fw_state (rsu_send_data c s'.fw_state s.dev))

  -- M10bmc_sec_poll_complete succeeds only on the card's word: its last read of the doorbell and
  -- the status was without an error, with a good status and a progress that is done.
  pub poll_complete-SaidDone :
      (fuel : ℕ) (s : Sec D) (cancel : Bool) {t : Sec D}
      → m10bmc_sec_poll_complete c fuel s cancel ≡ some (t, 0)
      → SaidDone (m10bmc_fw_state_set c FwState.program s).fw_state t.dev
  poll_complete-SaidDone fuel s cancel e =
      subst (IfSaid (m10bmc_fw_state_set c FwState.program s).fw_state) e
        (poll-IfSaid fuel s cancel) refl
