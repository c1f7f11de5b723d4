-- ===== src/Fpga/Mgr/Outcome.antt =====
-- drivers/fpga/fpga-mgr.c: the manager's state behind a load.
use linux_dfl_backport.Base.{
  ℕ, ◌≡◌, ◌≢◌, refl, ◌⊎◌, inl, inr, true, List, [], ◌∷◌, Option, none, some, ◌==◌, is_none, arith,
  Bool-cases, length, Result, ok, err, IfSome,
}
use linux_dfl_backport.Fpga.Mgr.Defs.{
  MgrState, Ops, Mgr, Kernel, fpga_mgr_parse_header, or_failed, completed, in_operation,
  fpga_mgr_write, fpga_mgr_write_complete,
}
use linux_dfl_backport.Fpga.Mgr.Prepare.{
  outruns, fpga_mgr_parse_header_mapped, fpga_mgr_write_init_buf, fpga_mgr_prepare_sg,
}
use linux_dfl_backport.Fpga.Mgr.Load.{
  sg_written, data_of, write_ended, sg_prepared, fpga_mgr_buf_load_sg, mapped_prepared,
  mapped_parsed, fpga_mgr_buf_load_mapped, with_pages, fpga_mgr_buf_load, with_firmware,
  fpga_mgr_firmware_load, load_from, fpga_mgr_load,
}
use linux_dfl_backport.Fpga.Mgr.Prepared.{
  is_error, not_zero, Prepared, or_failed-Prepared, init-Prepared, prepare_sg-Prepared,
}

-- An error pointer is not 0.
abbrev pub IsFailure : {A : Type 0} → Result A → Type 0
IsFailure (ok a) = Unit {0}
IsFailure (err e) = e ≢ 0

-- The answer to the request of the firmware file, if one is named.
abbrev pub FirmwareFails : Option (Result (List ℕ)) → Type 0
FirmwareFails none = Unit {0}
FirmwareFails (some r) = IsFailure r

module _ {D : Type 0} where
  -- A load that has called the driver.
  abbrev Loaded : Mgr D × ℕ → Type 0
  Loaded (m, ret) =
      ((ret ≡ 0) × (m.state ≡ MgrState.operating)) ⊎ ((ret ≢ 0) × (is_error m.state ≡ true))

  -- What fpga_mgr_load leaves: operation, or an error that the state shows, or one before the driver
  -- is called; the state is then as before, or says that firmware was asked for.
  abbrev pub LoadOutcome : Mgr D → Mgr D × ℕ → Type 0
  LoadOutcome m (t, ret) =
      ((ret ≡ 0) × (t.state ≡ MgrState.operating))
      ⊎ ((ret ≢ 0) × (is_error t.state ≡ true))
      ⊎ ((ret ≢ 0) × (t.drv ≡ m.drv) × ((t.state ≡ m.state) ⊎ (t.state ≡ MgrState.firmware_req)))

  in_operation-Loaded : (r : Mgr D × ℕ) → Loaded (in_operation r)
  unfolding in_operation
  in_operation-Loaded (m, ret) = elim (Bool-cases (ret == 0)) [
    | inl z ↦ rw z (inl (refl, refl))
    | inr z ↦ rw z (inr (not_zero ret z, refl))
  ]

  write_ended-Loaded : (ops : Ops D) (r : Mgr D × ℕ) → Loaded (write_ended ops r)
  unfolding write_ended fpga_mgr_write_complete
  write_ended-Loaded ops (m, ret) = elim (Bool-cases (ret == 0)) [
    | inl z ↦ rw z (
        in_operation-Loaded
          (completed ops.write_complete (record m { state = MgrState.write_complete })))
    | inr z ↦ rw z (inr (not_zero ret z, refl))
  ]

module _ {D : Type 0} (ops : Ops D) (k : Kernel) where
  sg_prepared-Loaded :
      (chunks : List (List ℕ)) (o : Option (Mgr D × ℕ))
      → IfSome Prepared o
      → IfSome Loaded (sg_prepared ops k chunks o)
  unfolding sg_prepared
  sg_prepared-Loaded chunks none h = tt
  sg_prepared-Loaded chunks (some (m, ret)) h = elim (Bool-cases (ret == 0)) [
    | inl z ↦ rw z (
        write_ended-Loaded ops
          (sg_written ops ops.write_sg k chunks (record m { state = MgrState.write })))
    | inr z ↦ rw z (inr (not_zero ret z, h (not_zero ret z)))
  ]

  buf_load_sg-Loaded :
      (fuel : ℕ) (m : Mgr D) (chunks : List (List ℕ))
      → IfSome Loaded (fpga_mgr_buf_load_sg ops fuel k m chunks)
  unfolding fpga_mgr_buf_load_sg
  buf_load_sg-Loaded fuel m chunks =
      sg_prepared-Loaded chunks (fpga_mgr_prepare_sg ops fuel k m chunks)
        (prepare_sg-Prepared ops k fuel m chunks)

  mapped_prepared-Loaded :
      (buf : List ℕ) (r : Mgr D × ℕ) → Prepared r → Loaded (mapped_prepared ops buf r)
  unfolding mapped_prepared
  mapped_prepared-Loaded buf (m, ret) h = elim (Bool-cases (ret == 0)) [
    | inl z ↦ rw z (
        write_ended-Loaded ops
          (fpga_mgr_write ops.write (record m { state = MgrState.write }) (data_of ops m.info buf)))
    | inr z ↦ rw z (inr (not_zero ret z, h (not_zero ret z)))
  ]

  mapped_parsed-Loaded :
      (buf : List ℕ) (r : Mgr D × ℕ) → Prepared r → Loaded (mapped_parsed ops buf r)
  unfolding mapped_parsed
  mapped_parsed-Loaded buf (m, ret) h = elim (Bool-cases (ret == 0)) [
    | inl z ↦
        rw z (
          mapped_prepared-Loaded buf (fpga_mgr_write_init_buf ops m buf)
            (init-Prepared ops k m buf))
    | inr z ↦ rw z (inr (not_zero ret z, h (not_zero ret z)))
  ]

  buf_load_mapped-Loaded : (m : Mgr D) (buf : List ℕ) → Loaded (fpga_mgr_buf_load_mapped ops m buf)
  unfolding fpga_mgr_buf_load_mapped fpga_mgr_parse_header_mapped
  buf_load_mapped-Loaded m buf =
      let parsed =
        outruns ops (length buf) (
          fpga_mgr_parse_header ops.parse_header (record m { state = MgrState.parse_header })
            buf) in
      mapped_parsed-Loaded buf (or_failed MgrState.parse_header_err parsed)
        (or_failed-Prepared MgrState.parse_header_err parsed refl)

  widen : (m : Mgr D) (o : Option (Mgr D × ℕ)) → IfSome Loaded o → IfSome (LoadOutcome m) o
  widen m none h = tt
  widen m (some r) (inl h) = inl h
  widen m (some r) (inr h) = inr (inl h)

  module _ (pages : List ℕ → Result (List (List ℕ)))
      (pages_fail : (buf : List ℕ) → IsFailure (pages buf)) where
    with_pages-LoadOutcome :
        (fuel : ℕ) (m0 m : Mgr D) (r : Result (List (List ℕ)))
        → IsFailure r
        → m.drv ≡ m0.drv
        → (m.state ≡ m0.state) ⊎ (m.state ≡ MgrState.firmware_req)
        → IfSome (LoadOutcome m0) (with_pages ops fuel k m r)
    unfolding with_pages
    with_pages-LoadOutcome fuel m0 m (err e) bad same at = inr (inr (bad, same, at))
    with_pages-LoadOutcome fuel m0 m (ok chunks) bad same at =
        widen m0 (fpga_mgr_buf_load_sg ops fuel k m chunks) (buf_load_sg-Loaded fuel m chunks)

    buf_load-LoadOutcome :
        (fuel : ℕ) (m0 m : Mgr D) (buf : List ℕ)
        → m.drv ≡ m0.drv
        → (m.state ≡ m0.state) ⊎ (m.state ≡ MgrState.firmware_req)
        → IfSome (LoadOutcome m0) (fpga_mgr_buf_load ops fuel k pages m buf)
    unfolding fpga_mgr_buf_load
    buf_load-LoadOutcome fuel m0 m buf same at = elim (Bool-cases (is_none ops.write)) [
      | inl e ↦ rw e (with_pages-LoadOutcome fuel m0 m (pages buf) (pages_fail buf) same at)
      | inr e ↦
          rw e (widen m0 (some (fpga_mgr_buf_load_mapped ops m buf)) (buf_load_mapped-Loaded m buf))
    ]

    with_firmware-LoadOutcome :
        (fuel : ℕ) (m : Mgr D) (r : Result (List ℕ))
        → IsFailure r
        → IfSome
            (LoadOutcome m)
            (with_firmware ops fuel k pages (record m { state = MgrState.firmware_req }) r)
    unfolding with_firmware
    with_firmware-LoadOutcome fuel m (err e) bad = inr (inl (bad, refl))
    with_firmware-LoadOutcome fuel m (ok fw) bad =
        buf_load-LoadOutcome fuel m (record m { state = MgrState.firmware_req }) fw refl (inr refl)

    load_from-LoadOutcome :
        (fuel : ℕ) (m : Mgr D) (sgt : Option (List (List ℕ))) (buf : List ℕ)
        (firmware : Option (Result (List ℕ)))
        → FirmwareFails firmware
        → IfSome (LoadOutcome m) (load_from ops fuel k pages m sgt buf firmware)
    unfolding load_from fpga_mgr_firmware_load
    load_from-LoadOutcome fuel m (some chunks) buf firmware f =
        widen m (fpga_mgr_buf_load_sg ops fuel k m chunks) (buf_load_sg-Loaded fuel m chunks)
    load_from-LoadOutcome fuel m none (b ∷ bs) firmware f =
        buf_load-LoadOutcome fuel m m (b ∷ bs) refl (inl refl)
    load_from-LoadOutcome fuel m none [] (some r) f = with_firmware-LoadOutcome fuel m r f
    load_from-LoadOutcome fuel m none [] none f =
        inr (inr (λ z. absurd (omega arith), refl, inl refl))

    -- Whatever fpga_mgr_load returns, it is 0 with the manager in operation, or an error that the
    -- manager's state shows, or an error before the driver is called with the state as before or at
    -- the request of firmware, if the errors of the kernel's page table and of the firmware's
    -- request are not 0.
    pub load-LoadOutcome :
        (fuel : ℕ) (m : Mgr D) (sgt : Option (List (List ℕ))) (buf : List ℕ)
        (firmware : Option (Result (List ℕ)))
        → FirmwareFails firmware
        → IfSome (LoadOutcome m) (fpga_mgr_load ops fuel k pages m sgt buf firmware)
    unfolding fpga_mgr_load
    load-LoadOutcome fuel m sgt buf firmware f =
        load_from-LoadOutcome fuel
          (record m { info = record m.info { header_size = ops.initial_header_size } }) sgt buf
          firmware f
