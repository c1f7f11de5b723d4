-- ===== src/Fme/Mgr/Clean.antt =====
-- drivers/fpga/dfl-fme-mgr.c under drivers/fpga/fpga-mgr.c: the errors behind a load.
use linux_dfl_backport.Base.{
  ℕ, ◌≡◌, refl, sym, ap, subst, ◌∙◌, Bool, true, false, not, List, [], ◌∷◌, Option, none, some,
  ◌==◌, arith, Bool-cases, ==_iff, ◌⊎◌, inl, inr, Result, ok, err, IfSome,
}
use linux_dfl_backport.Dfl.Field.{bit}
use linux_dfl_backport.Fpga.Mgr.Defs.{
  MgrState, Ops, Mgr, Kernel, completed, in_operation, fpga_mgr_write_complete, fpga_mgr_write,
  returned,
}
use linux_dfl_backport.Fpga.Mgr.Prepare.{
  fpga_mgr_prepare_sg, fpga_mgr_write_init_buf, fpga_mgr_parse_header_mapped,
}
use linux_dfl_backport.Fpga.Mgr.Load.{
  sg_written, data_of, write_ended, sg_prepared, fpga_mgr_buf_load_sg, mapped_prepared,
  mapped_parsed, fpga_mgr_buf_load_mapped, fpga_mgr_buf_load, with_firmware, fpga_mgr_firmware_load,
  load_from, fpga_mgr_load,
}
use linux_dfl_backport.Fpga.Mgr.Outcome.{FirmwareFails}
use linux_dfl_backport.Fme.Mgr.{
  Io, Priv, fme_pr_ctrl, fme_pr_sts, fme_pr_err, set_bit, ctrl_changed, error_handled, pr_released,
  fme_mgr_pr_error_handle, fme_mgr_write_complete, fme_mgr_status, fme_mgr_ops,
  pr_error_to_mgr_status,
}

failed : {A : Type 0} (ret : ℕ) → (ret == 0) ≡ false → ret ≡ 0 → A
failed ret e z = absurd (ground arith)

-- FME_PR_CTRL_PR_START is not set.
abbrev pub is_released : ℕ → Bool
is_released pr_ctrl = not (bit 12 pr_ctrl)

-- From d to d', the engine shows that there is no error: its status has no error flagged, or the
-- error register reads 0, and 0 is written back.
abbrev pub ShownClean : {D : Type 0} → Io D → D → D → Type 0
ShownClean io d d' =
    let sts = io.readq fme_pr_sts d in
    let err = io.readq fme_pr_err sts.1 in
    ((bit 16 sts.0 ≡ false) × (d' ≡ sts.1))
    ⊎ ((bit 16 sts.0 ≡ true) × (err.0 ≡ 0) × (d' ≡ io.writeq 0 fme_pr_err err.1))

-- The last that the driver did: it set FME_PR_CTRL_PR_COMPLETE, waited until the engine had cleared
-- the start bit, and was shown that there is no error; it keeps none.
pub record EndsClean {D : Type 0} (io : Io D) (priv : Priv D) : Type 0 where
  pub completed_from : D
  pub last_ctrl : ℕ
  pub freed_at : D
  pub polled :
      io.readq_poll_timeout fme_pr_ctrl is_released (ctrl_changed io (set_bit 13) completed_from)
      ≡ ((last_ctrl, freed_at), false)
  pub shown : ShownClean io freed_at priv.dev
  pub none_kept : priv.pr_error ≡ 0

module _ {D : Type 0} (io : Io D) (flags region_id : ℕ) where
  abbrev ops : Ops (Priv D)
  ops = fme_mgr_ops io flags region_id

  -- A success is the engine's word.
  abbrev Clean : Mgr (Priv D) × ℕ → Type 0
  Clean (m, ret) = ret ≡ 0 → EndsClean io m.drv

  handled-ShownClean :
      (d : D) (sts : ℕ × D)
      → io.readq fme_pr_sts d ≡ sts
      → (error_handled io sts).0 ≡ 0
      → ShownClean io d (error_handled io sts).1
  unfolding error_handled
  handled-ShownClean d (status, d1) e = elim (Bool-cases (bit 16 status)) [
    | inl busy ↦ rw busy (λ z. inr (
      ap (λ r. bit 16 r.0) e ∙ busy,
      ap (λ r. (io.readq fme_pr_err r.1).0) e ∙ z,
      ap (λ v. io.writeq v fme_pr_err (io.readq fme_pr_err d1).1) z
          ∙ ap (λ r. io.writeq 0 fme_pr_err (io.readq fme_pr_err r.1).1) (sym e),
    ))
    | inr idle ↦ rw idle (λ z. inl (ap (λ r. bit 16 r.0) e ∙ idle, ap (λ r. r.1) (sym e)))
  ]

  released-EndsClean :
      (priv : Priv D) (before : D) (r : (ℕ × D) × Bool)
      → io.readq_poll_timeout fme_pr_ctrl is_released (ctrl_changed io (set_bit 13) before) ≡ r
      → (pr_released io priv r).0 ≡ 0
      → EndsClean io (pr_released io priv r).1
  unfolding pr_released fme_mgr_pr_error_handle
  released-EndsClean priv before ((v, d), true) polled = λ z. absurd (omega arith)
  released-EndsClean priv before ((v, d), false) polled =
      let pr_error = (error_handled io (io.readq fme_pr_sts d)).0 in
      elim (Bool-cases (pr_error == 0)) [
        | inl e ↦ λ z.
            let none_kept : pr_error ≡ 0 = (==_iff pr_error 0).0 e in
            record {
              completed_from = before;
              last_ctrl = v;
              freed_at = d;
              polled = polled;
              shown = handled-ShownClean d (io.readq fme_pr_sts d) refl none_kept;
              none_kept = none_kept;
            }
        | inr e ↦ rw e (λ z. absurd (omega arith))
      ]

  in_operation-Clean : (r : Mgr (Priv D) × ℕ) → Clean r → Clean (in_operation r)
  unfolding in_operation
  in_operation-Clean (m, ret) h = elim (Bool-cases (ret == 0)) [
    | inl z ↦ rw z (λ e. h ((==_iff ret 0).0 z))
    | inr z ↦ rw z (λ q. failed ret z q)
  ]

  write_complete-Clean : (m : Mgr (Priv D)) → Clean (fpga_mgr_write_complete ops m)
  unfolding fpga_mgr_write_complete completed returned fme_mgr_ops fme_mgr_write_complete
  write_complete-Clean m =
      let r =
        io.readq_poll_timeout fme_pr_ctrl is_released (ctrl_changed io (set_bit 13) m.drv.dev) in
      let done : Mgr (Priv D) × ℕ = (
        record m { state = MgrState.write_complete; drv = (pr_released io m.drv r).1 },
        (pr_released io m.drv r).0,
      ) in
      in_operation-Clean done (released-EndsClean m.drv m.drv.dev r refl)

  write_ended-Clean : (r : Mgr (Priv D) × ℕ) → Clean (write_ended ops r)
  unfolding write_ended
  write_ended-Clean (m, ret) = elim (Bool-cases (ret == 0)) [
    | inl z ↦ rw z (write_complete-Clean m)
    | inr z ↦ rw z (λ q. failed ret z q)
  ]

  sg_prepared-Clean :
      (k : Kernel) (chunks : List (List ℕ)) (o : Option (Mgr (Priv D) × ℕ))
      → IfSome Clean (sg_prepared ops k chunks o)
  unfolding sg_prepared
  sg_prepared-Clean k chunks none = tt
  sg_prepared-Clean k chunks (some (m, ret)) = elim (Bool-cases (ret == 0)) [
    | inl z ↦ rw z (
        write_ended-Clean
          (sg_written ops ops.write_sg k chunks (record m { state = MgrState.write })))
    | inr z ↦ rw z (λ q. failed ret z q)
  ]

  mapped_prepared-Clean : (buf : List ℕ) (r : Mgr (Priv D) × ℕ) → Clean (mapped_prepared ops buf r)
  unfolding mapped_prepared
  mapped_prepared-Clean buf (m, ret) = elim (Bool-cases (ret == 0)) [
    | inl z ↦ rw z (
        write_ended-Clean
          (fpga_mgr_write ops.write (record m { state = MgrState.write }) (data_of ops m.info buf)))
    | inr z ↦ rw z (λ q. failed ret z q)
  ]

  mapped_parsed-Clean : (buf : List ℕ) (r : Mgr (Priv D) × ℕ) → Clean (mapped_parsed ops buf r)
  unfolding mapped_parsed
  mapped_parsed-Clean buf (m, ret) = elim (Bool-cases (ret == 0)) [
    | inl z ↦ rw z (mapped_prepared-Clean buf (fpga_mgr_write_init_buf ops m buf))
    | inr z ↦ rw z (λ q. failed ret z q)
  ]

  module _ (k : Kernel) (pages : List ℕ → Result (List (List ℕ))) where
    buf_load-Clean :
        (fuel : ℕ) (m : Mgr (Priv D)) (buf : List ℕ)
        → IfSome Clean (fpga_mgr_buf_load ops fuel k pages m buf)
    unfolding fpga_mgr_buf_load fpga_mgr_buf_load_mapped fme_mgr_ops
    buf_load-Clean fuel m buf = mapped_parsed-Clean buf (fpga_mgr_parse_header_mapped ops m buf)

    with_firmware-Clean :
        (fuel : ℕ) (m : Mgr (Priv D)) (r : Result (List ℕ))
        → FirmwareFails (some r)
        → IfSome Clean (with_firmware ops fuel k pages m r)
    unfolding with_firmware
    with_firmware-Clean fuel m (ok fw) h = buf_load-Clean fuel m fw
    with_firmware-Clean fuel m (err e) h = λ z. absurd (h z)

    load_from-Clean :
        (fuel : ℕ) (m : Mgr (Priv D)) (sgt : Option (List (List ℕ))) (buf : List ℕ)
        (firmware : Option (Result (List ℕ)))
        → FirmwareFails firmware
        → IfSome Clean (load_from ops fuel k pages m sgt buf firmware)
    unfolding load_from fpga_mgr_buf_load_sg fpga_mgr_firmware_load
    load_from-Clean fuel m (some chunks) buf firmware h =
        sg_prepared-Clean k chunks (fpga_mgr_prepare_sg ops fuel k m chunks)
    load_from-Clean fuel m none (b ∷ bs) firmware h = buf_load-Clean fuel m (b ∷ bs)
    load_from-Clean fuel m none [] (some r) h =
        with_firmware-Clean fuel (record m { state = MgrState.firmware_req }) r h
    load_from-Clean fuel m none [] none h = λ z. absurd (omega arith)

    -- A load by the FPGA manager over the engine of partial reconfiguration succeeds, from any
    -- source, only if the completion bit was set, the poll behind it saw the start bit cleared, and
    -- the status read next flagged no error or the error register behind it read 0; the error kept
    -- is then 0 and so is the manager's status; an error of the firmware's request is not 0.
    pub load-status :
        (fuel : ℕ) (m : Mgr (Priv D)) (sgt : Option (List (List ℕ))) (buf : List ℕ)
        (firmware : Option (Result (List ℕ))) {t : Mgr (Priv D)}
        → FirmwareFails firmware
        → fpga_mgr_load ops fuel k pages m sgt buf firmware ≡ some (t, 0)
        → EndsClean io t.drv × (fme_mgr_status t.drv ≡ 0)
    unfolding fpga_mgr_load fme_mgr_status
    load-status fuel m sgt buf firmware {t} h e =
        let clean = subst (IfSome Clean) e (
          load_from-Clean fuel
            (record m { info = record m.info { header_size = ops.initial_header_size } }) sgt buf
            firmware h) in
        let ends = clean refl in
        (ends, ap pr_error_to_mgr_status ends.none_kept ∙ (unfold pr_error_to_mgr_status in refl))
