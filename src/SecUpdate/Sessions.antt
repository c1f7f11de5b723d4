-- ===== src/SecUpdate/Sessions.antt =====
-- drivers/fpga/intel-m10-bmc-sec-update.c: a whole update, from m10bmc_sec_prepare to
-- m10bmc_sec_cleanup, and the operations as those of drivers/fpga/fpga-image-load.c.
use linux_dfl_backport.Base.{
  ℕ, ◌+◌, ◌*◌, ◌≤◌, ◌≡◌, ◌≢◌, refl, ap, subst, ◌∙◌, ◌⊎◌, inl, inr, Bool, true, false, List, Option,
  none, some, ◌==◌, ltb, arith, Bool-cases, if◌then◌else◌, Result, ok, err,
}
use linux_dfl_backport.ImageLoad.Worker.{Answers}
use linux_dfl_backport.ImageLoad.Defs.{Upload}
use linux_dfl_backport.ImageLoad.Ends.{run, announced, upload_ends}
use linux_dfl_backport.ImageLoad.Steps.{Quiet, Reach, WritesWithin}
use linux_dfl_backport.SecUpdate.Defs.{
  FwState, Card, Sec, rsu_prog, prog_ready, m10bmc_fw_state_set, sys_read,
}
use linux_dfl_backport.SecUpdate.Rsu.{logged, rsu_cancel, rsu_send_data}
use linux_dfl_backport.SecUpdate.Ops.{
  write_block_size, block_written, ready_for_block, m10bmc_sec_write, m10bmc_sec_fw_write, with_dev,
  data_sent, m10bmc_sec_prepare, m10bmc_sec_poll_complete, m10bmc_sec_cancel, m10bmc_sec_cleanup,
}
use linux_dfl_backport.SecUpdate.Outcomes.{
  said, taken, given_back, prepare-outcome, fields_exit, fields_set, said_twice, rsu_cancel-ne-zero,
}

module _ {D : Type 0} (c : Card D) where
  -- What can run between m10bmc_sec_prepare and m10bmc_sec_cleanup.
  pub data During (s : Sec D) : Sec D → Type 0 where
    begun : During s s
    writes :
        {t : Sec D} (buf : List ℕ) (offset size : ℕ) (cancel : Bool)
        → During s t
        → During s (m10bmc_sec_fw_write c t buf offset size cancel).0
    cancels : {t : Sec D} → During s t → During s (m10bmc_sec_cancel c t)
    polls :
        {t u : Sec D} {code : ℕ} (fuel : ℕ) (cancel : Bool)
        → During s t
        → m10bmc_sec_poll_complete c fuel t cancel ≡ some (u, code)
        → During s u

  written-flash :
      (s : Sec D) (n : ℕ) (r : ℕ × D)
      → ((block_written c s n r).0.flash_busy ≡ s.flash_busy)
        × ((block_written c s n r).0.fw_state ≡ s.fw_state)
  unfolding block_written
  written-flash s n (ret, d) = elim (Bool-cases (ret == 0)) [
    | inl z ↦ rw z (refl, refl)
    | inr z ↦ rw z (refl, refl)
  ]

  block-flash :
      (s : Sec D) (buf : List ℕ) (offset size : ℕ) (r : Result ℕ × D)
      → ((ready_for_block c s buf offset size r).0.flash_busy ≡ s.flash_busy)
        × ((ready_for_block c s buf offset size r).0.fw_state ≡ s.fw_state)
  unfolding ready_for_block
  block-flash s buf offset size (err e, d) = (refl, refl)
  block-flash s buf offset size (ok doorbell, d) =
      elim (Bool-cases (rsu_prog doorbell == prog_ready)) [
        | inl z ↦ rw z (written-flash s _ (m10bmc_sec_write c buf offset _ d))
        | inr z ↦ rw z (refl, refl)
      ]

  fw_write-flash :
      (s : Sec D) (buf : List ℕ) (offset size : ℕ) (cancel : Bool)
      → ((m10bmc_sec_fw_write c s buf offset size cancel).0.flash_busy ≡ s.flash_busy)
        × ((m10bmc_sec_fw_write c s buf offset size cancel).0.fw_state ≡ s.fw_state)
  unfolding m10bmc_sec_fw_write
  fw_write-flash s buf offset size true = (refl, refl)
  fw_write-flash s buf offset size false =
      block-flash s buf offset size (sys_read c s.fw_state c.doorbell s.dev)

  -- The flash and, up to what is said last, the state of the firmware of the results.
  abbrev Stays : Sec D → Option (Sec D × ℕ) → Type 0
  Stays s none = Unit {0}
  Stays s (some r) =
      (r.0.flash_busy ≡ s.flash_busy)
      × ((x : FwState) → said c x r.0.fw_state ≡ said c x s.fw_state)

  with_dev-Stays : (s : Sec D) (o : Option (ℕ × D)) → Stays s (with_dev c s o)
  unfolding with_dev
  with_dev-Stays s none = tt
  with_dev-Stays s (some (code, d)) = (refl, λ x. refl)

  said_program :
      (s : Sec D) (x : FwState)
      → said c x (m10bmc_fw_state_set c FwState.program s).fw_state ≡ said c x s.fw_state
  unfolding m10bmc_fw_state_set
  said_program s x = elim (Bool-cases c.has_handshake_regs) [
    | inl e ↦ rw e refl
    | inr e ↦ rw e refl
  ]

  moved-Stays :
      (s t : Sec D) (o : Option (Sec D × ℕ))
      → t.flash_busy ≡ s.flash_busy
      → ((x : FwState) → said c x t.fw_state ≡ said c x s.fw_state)
      → Stays t o
      → Stays s o
  moved-Stays s t none f g h = tt
  moved-Stays s t (some r) f g h = (h.0 ∙ f, λ x. h.1 x ∙ g x)

  poll-Stays :
      (fuel : ℕ) (s : Sec D) (cancel : Bool) → Stays s (m10bmc_sec_poll_complete c fuel s cancel)
  unfolding m10bmc_sec_poll_complete
  poll-Stays fuel s true = with_dev-Stays s (some (rsu_cancel c s.fw_state s.dev))
  poll-Stays fuel s false =
      let s' = m10bmc_fw_state_set c FwState.program s in
      moved-Stays s s' _ (fields_set c FwState.program s).1 (said_program s)
        (with_dev-Stays s' (data_sent c fuel s'.fw_state (rsu_send_data c s'.fw_state s.dev)))

  During-Stays :
      {s t : Sec D}
      → During s t
      → (t.flash_busy ≡ s.flash_busy) × ((x : FwState) → said c x t.fw_state ≡ said c x s.fw_state)
  unfolding m10bmc_sec_cancel
  During-Stays begun = (refl, λ x. refl)
  During-Stays (writes {t} buf offset size cancel h) =
      let (f, g) = During-Stays h in
      let (f', g') = fw_write-flash t buf offset size cancel in
      (f' ∙ f, λ x. ap (said c x) g' ∙ g x)
  During-Stays (cancels h) = During-Stays h
  During-Stays {s} (polls {t} {u} {code} fuel cancel h e) =
      let (f, g) = During-Stays h in
      let st : Stays t (some (u, code)) = subst (Stays t) e (poll-Stays fuel t cancel) in
      (st.0 ∙ f, λ x. st.1 x ∙ g x)

  -- Behind a prepare that succeeded, the flash stays taken through any blocks, cancels and
  -- completions, and the cleanup gives it back and says that the firmware is back in its normal
  -- state, where the card's state is tracked.
  pub update_gives_back :
      (fuel : ℕ) (s : Sec D) (size : ℕ) (cancel : Bool) {t u : Sec D}
      → m10bmc_sec_prepare c fuel s size cancel ≡ some (t, 0)
      → During t u
      → (u.flash_busy ≡ taken c s.flash_busy)
        × ((m10bmc_sec_cleanup c u).flash_busy ≡ s.flash_busy)
        × ((m10bmc_sec_cleanup c u).fw_state ≡ said c FwState.normal s.fw_state)
  unfolding m10bmc_sec_cleanup
  update_gives_back fuel s size cancel {t} {u} e h =
      let (f, g) = During-Stays h in
      let u' = record u { dev = (rsu_cancel c u.fw_state u.dev).1 } in
      let (state, flash) = fields_exit c u' in
      elim (prepare-outcome c fuel s size cancel e).0 [
        | inl (z, held, back, entered) ↦ (
          f ∙ held,
          flash ∙ ap (given_back c) f ∙ back,
          state
              ∙ g FwState.normal
              ∙ ap (said c FwState.normal) entered
              ∙ said_twice c FwState.normal FwState.write s.fw_state,
        )
        | inr (bad, same, r) ↦ absurd (bad refl)
      ]

  -- The answers that fw_upload_main gets of these operations.
  abbrev pub answers :
      Sec D → (buf : List ℕ) → (cancel : Bool) → (prepare poll_complete : ℕ) → Answers
  answers s buf cancel prepare poll_complete = record {
    prepare = prepare;
    write = λ offset size.
        let (t, code, written) = m10bmc_sec_fw_write c s buf offset size cancel in (code, written);
    poll_complete = poll_complete;
  }

  -- What a write of a block reports: on success, the size of the block, of at most 16 KB.
  abbrev pub BlockOutcome : ℕ → Sec D × ℕ × ℕ → Type 0
  BlockOutcome size (t, code, written) =
      ((code ≡ 0) × (written ≡ (if ltb write_block_size size then write_block_size else size)))
      ⊎ ((code ≢ 0) × (written ≡ 0))

  block_written-BlockOutcome :
      (s : Sec D) (size : ℕ) (r : ℕ × D)
      → let blk_size = if ltb write_block_size size then write_block_size else size in
        BlockOutcome size (block_written c s blk_size r)
  unfolding block_written
  block_written-BlockOutcome s size (ret, d) = elim (Bool-cases (ret == 0)) [
    | inl z ↦ rw z (inl (refl, refl))
    | inr z ↦ rw z (inr (λ e. absurd (omega arith), refl))
  ]

  ready_for_block-BlockOutcome :
      (s : Sec D) (buf : List ℕ) (offset size : ℕ) (r : Result ℕ × D)
      → BlockOutcome size (ready_for_block c s buf offset size r)
  unfolding ready_for_block logged
  ready_for_block-BlockOutcome s buf offset size (err e, d) = inr (λ z. absurd (omega arith), refl)
  ready_for_block-BlockOutcome s buf offset size (ok doorbell, d) =
      elim (Bool-cases (rsu_prog doorbell == prog_ready)) [
        | inl z ↦ rw z (block_written-BlockOutcome s size _)
        | inr z ↦ rw z (inr (λ e. absurd (omega arith), refl))
      ]

  pub fw_write-BlockOutcome :
      (s : Sec D) (buf : List ℕ) (offset size : ℕ) (cancel : Bool)
      → BlockOutcome size (m10bmc_sec_fw_write c s buf offset size cancel)
  unfolding m10bmc_sec_fw_write
  fw_write-BlockOutcome s buf offset size true = inr (rsu_cancel-ne-zero c s.fw_state s.dev, refl)
  fw_write-BlockOutcome s buf offset size false =
      ready_for_block-BlockOutcome s buf offset size (sys_read c s.fw_state c.doorbell s.dev)

  block-le : (size : ℕ) (r : Sec D × ℕ × ℕ) → BlockOutcome size r → r.2 ≤ size
  block-le size r (inl (z, e)) = ground arith
  block-le size r (inr (z, e)) = omega arith

  pub answers-WritesWithin :
      (s : Sec D) (buf : List ℕ) (cancel : Bool) (prepare poll_complete : ℕ)
      → WritesWithin (answers s buf cancel prepare poll_complete)
  answers-WritesWithin s buf cancel prepare poll_complete offset size =
      block-le size (m10bmc_sec_fw_write c s buf offset size cancel)
        (fw_write-BlockOutcome s buf offset size cancel)

  -- An upload by these operations ends: what fw_upload_main runs is the update of the card.
  pub secure_upload_ends :
      {cleanup : Bool} {u : Upload} (s : Sec D) (buf : List ℕ) (cancel : Bool) (prepare poll : ℕ)
      → Reach cleanup u
      → let v = run (2 * u.remaining_size + 9) (answers s buf cancel prepare poll) u in
        Quiet v × (v.signals ≡ announced u)
  secure_upload_ends s buf cancel prepare poll r =
      upload_ends (answers s buf cancel prepare poll) r
        (answers-WritesWithin s buf cancel prepare poll)
