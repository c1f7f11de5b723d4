-- ===== src/ImageLoad/Races.antt =====
-- drivers/fpga/fpga-image-load.c: what goes wrong where a write does not wait for the worker.
use linux_dfl_backport.Base.{
  ℕ, ◌+◌, ◌<◌, ◌≡◌, refl, inl, inr, Bool, true, false, ◌∷◌, none, ◌==◌, arith, Bool-cases, ok,
}
use linux_dfl_backport.ImageLoad.Defs.{loop, putting, Access, Upload}
use linux_dfl_backport.ImageLoad.Worker.{
  Answers, next_block, given, put_finished, work_at, fw_upload_main,
}
use linux_dfl_backport.ImageLoad.Calls.{WriteCall, with_ctx, with_buf, fpga_image_load_ioctl_write}

module _ (c : WriteCall) (u : Upload) (ctx : ℕ) (there : c.eventfd_ctx_fdget ≡ ok ctx) where
  abbrev Accepted : Upload × ℕ → Type 0
  Accepted (v, status) = status ≡ 0 → v ≡ (with_ctx u c.size (ok ctx)).0

  buf-Accepted : (vzalloc : Bool) → Accepted (with_buf c u vzalloc)
  unfolding with_buf
  buf-Accepted false = λ e. absurd (omega arith)
  buf-Accepted true = elim (Bool-cases c.image_copied) [
    | inl e ↦ rw (e, there) (λ z. refl)
    | inr e ↦ rw e (λ z. absurd (omega arith))
  ]

  -- A write that succeeds starts the upload of some bytes, whatever the worker is doing.
  write-Accepted :
      (fpga_image_load_ioctl_write c u).1 ≡ 0
      → (0 < c.size) × ((fpga_image_load_ioctl_write c u).0 ≡ (with_ctx u c.size (ok ctx)).0)
  unfolding fpga_image_load_ioctl_write
  write-Accepted = elim (Bool-cases c.args_copied) [
    | inl e1 ↦ elim (Bool-cases (c.flags == 0)) [
      | inl e2 ↦ elim (Bool-cases (c.size == 0)) [
        | inl e3 ↦ rw (e1, e2, e3) (λ z. absurd (omega arith))
        | inr e3 ↦ elim (Bool-cases c.evtfd_negative) [
          | inl e4 ↦ rw (e1, e2, e3, e4) (λ z. absurd (omega arith))
          | inr e4 ↦ rw (e1, e2, e3, e4) (λ z. (ground arith, buf-Accepted c.vzalloc z))
        ]
      ]
      | inr e2 ↦ rw (e1, e2) (λ z. absurd (omega arith))
    ]
    | inr e1 ↦ rw e1 (λ z. absurd (omega arith))
  ]

  -- A write that is accepted while the worker stands between two blocks makes its next write
  -- operation get a range that ends behind the new buffer.
  pub write_overruns :
      (a : Answers) (offset : ℕ)
      → u.pc ≡ loop offset
      → 0 < offset
      → (fpga_image_load_ioctl_write c u).1 ≡ 0
      → (x : Access) × ((fw_upload_main a (fpga_image_load_ioctl_write c u).0).accesses
          ≡ x ∷ u.accesses)
        × (x.capacity < x.offset + x.size)
  unfolding fw_upload_main work_at next_block given with_ctx
  write_overruns a offset at pos accepted =
      let (sized, v) = write-Accepted accepted in
      let x : Access = record { offset = offset; size = c.size; capacity = c.size } in
      elim (Bool-cases (c.size == 0)) [
        | inl z ↦ absurd (ground arith)
        | inr z ↦ (x, rw (v, at, z) refl, omega arith)
      ]

  -- A write that succeeds while the worker is about to give the eventfd back loses its own: it
  -- stays queued without one, and the count of references is that of before, so that the first
  -- reference is never given back.
  write_loses_eventfd :
      (a : Answers)
      → u.pc ≡ putting
      → (fpga_image_load_ioctl_write c u).1 ≡ 0
      → let v = fw_upload_main a (fpga_image_load_ioctl_write c u).0 in
        (v.queued ≡ true) × (v.finished ≡ none) × (v.ctxs ≡ u.ctxs)
  unfolding fw_upload_main work_at put_finished with_ctx
  write_loses_eventfd a at accepted =
      let (sized, v) = write-Accepted accepted in rw (v, at) (refl, refl, omega arith)
