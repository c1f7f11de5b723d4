-- ===== src/Fpga/Mgr/Prepared.antt =====
-- drivers/fpga/fpga-mgr.c: the manager's state behind the preparation of a load.
use linux_dfl_backport.Base.{
  ℕ, zero, suc, ◌-◌, ◌≡◌, ◌≢◌, refl, inl, inr, Bool, true, false, List, [], ◌∷◌, ◌++◌, Option, none,
  some, ◌==◌, leb, ◌&&◌, is_none, arith, Bool-cases, length, Result, ok, err, IfSome,
}
use linux_dfl_backport.Fpga.Mgr.Defs.{
  MgrState, eagain, Ops, Mgr, Kernel, fpga_mgr_parse_header, or_failed,
}
use linux_dfl_backport.Fpga.Mgr.Prepare.{
  first_parsed, unless_again, fpga_mgr_parse_header_sg_first, header_failed,
  fpga_mgr_parse_header_sg, init_called, fpga_mgr_write_init_buf, with_header, first_tried,
  fpga_mgr_prepare_sg,
}

-- The error states.
abbrev pub is_error : MgrState → Bool
is_error MgrState.firmware_req_err = true
is_error MgrState.parse_header_err = true
is_error MgrState.write_init_err = true
is_error MgrState.write_err = true
is_error MgrState.write_complete_err = true
is_error _ = false

pub not_zero : (n : ℕ) → (n == 0) ≡ false → n ≢ 0
not_zero n e = ground arith

module _ {D : Type 0} where
  -- A preparation: a failure is shown by an error state.
  abbrev pub Prepared : Mgr D × ℕ → Type 0
  Prepared (m, ret) = ret ≢ 0 → is_error m.state ≡ true

  pub or_failed-Prepared :
      (state : MgrState) (r : Mgr D × ℕ) → is_error state ≡ true → Prepared (or_failed state r)
  unfolding or_failed
  or_failed-Prepared state (m, ret) e = elim (Bool-cases (ret == 0)) [
    | inl z ↦ rw z (λ ne. absurd (ne refl))
    | inr z ↦ rw z (λ ne. e)
  ]

module _ {D : Type 0} (ops : Ops D) (k : Kernel) where
  abbrev HeaderParsed : Mgr D × Result (List ℕ) → Type 0
  HeaderParsed (m, ok buf) = Unit {0}
  HeaderParsed (m, err e) = (e ≢ 0) × (is_error m.state ≡ true)

  parse_header_sg-HeaderParsed :
      (fuel : ℕ) (m : Mgr D) (chunks : List (List ℕ)) (buf : List ℕ)
      → IfSome HeaderParsed (fpga_mgr_parse_header_sg ops fuel k m chunks buf)
  unfolding fpga_mgr_parse_header_sg header_failed
  parse_header_sg-HeaderParsed zero m chunks buf = tt
  parse_header_sg-HeaderParsed (suc fuel) m chunks buf =
      let got = k.sg_pcopy_to_buffer chunks (m.info.header_size - length buf) (length buf) in
      let r = fpga_mgr_parse_header ops.parse_header m (buf ++ got) in
      elim (Bool-cases (leb m.info.header_size (length buf))) [
        | inl e1 ↦ rw e1 (λ z. absurd (omega arith), refl)
        | inr e1 ↦ elim (Bool-cases (k.krealloc m.info.header_size)) [
          | inl e2 ↦ elim (Bool-cases (length got == m.info.header_size - length buf)) [
            | inl e3 ↦ elim (Bool-cases (r.1 == eagain)) [
              | inl e4 ↦
                  rw (e1, e2, e3, e4) (parse_header_sg-HeaderParsed fuel r.0 chunks (buf ++ got))
              | inr e4 ↦ elim (Bool-cases (r.1 == 0)) [
                | inl e5 ↦ rw (e1, e2, e3, e4, e5) tt
                | inr e5 ↦ rw (e1, e2, e3, e4, e5) (not_zero r.1 e5, refl)
              ]
            ]
            | inr e3 ↦ rw (e1, e2, e3) (λ z. absurd (omega arith), refl)
          ]
          | inr e2 ↦ rw (e1, e2) (λ z. absurd (omega arith), refl)
        ]
      ]

  pub init-Prepared : (m : Mgr D) (buf : List ℕ) → Prepared (fpga_mgr_write_init_buf ops m buf)
  unfolding fpga_mgr_write_init_buf
  init-Prepared m buf =
      or_failed-Prepared MgrState.write_init_err
        (init_called ops (record m { state = MgrState.write_init }) buf) refl

  with_header-Prepared :
      (o : Option (Mgr D × Result (List ℕ)))
      → IfSome HeaderParsed o
      → IfSome Prepared (with_header ops o)
  unfolding with_header
  with_header-Prepared none h = tt
  with_header-Prepared (some (m, ok buf)) h = init-Prepared m buf
  with_header-Prepared (some (m, err e)) h = λ ne. h.1

  -- Of the first chunk: -EAGAIN asks for more, and any other error is shown.
  abbrev FirstTried : Mgr D × ℕ → Type 0
  FirstTried (m, ret) = ret ≢ 0 → ret ≢ eagain → is_error m.state ≡ true

  unless_again-FirstTried : (r : Mgr D × ℕ) → FirstTried (unless_again ops r)
  unfolding unless_again
  unless_again-FirstTried (m, ret) = elim (Bool-cases (ret == eagain)) [
    | inl e ↦ rw e (λ ne again. absurd (ground arith))
    | inr e ↦ rw e (λ ne again. or_failed-Prepared MgrState.parse_header_err (m, ret) refl ne)
  ]

  first_tried-Prepared :
      (fuel : ℕ) (chunks : List (List ℕ)) (r : Mgr D × ℕ)
      → FirstTried r
      → IfSome Prepared (first_tried ops fuel k chunks r)
  unfolding first_tried
  first_tried-Prepared fuel [] (m, ret) h =
      let copied =
        with_header-Prepared (fpga_mgr_parse_header_sg ops fuel k m [] [])
          (parse_header_sg-HeaderParsed fuel m [] []) in
      elim (Bool-cases (ret == 0)) [
        | inl z ↦ rw z copied
        | inr z ↦ elim (Bool-cases (ret == eagain)) [
          | inl a ↦ rw (z, a) copied
          | inr a ↦ rw (z, a) (λ ne. h ne (ground arith))
        ]
      ]
  first_tried-Prepared fuel (chunk ∷ chunks) (m, ret) h =
      let copied =
        with_header-Prepared (fpga_mgr_parse_header_sg ops fuel k m (chunk ∷ chunks) [])
          (parse_header_sg-HeaderParsed fuel m (chunk ∷ chunks) []) in
      elim (Bool-cases (ret == 0)) [
        | inl z ↦ rw z (init-Prepared m chunk)
        | inr z ↦ elim (Bool-cases (ret == eagain)) [
          | inl a ↦ rw (z, a) copied
          | inr a ↦ rw (z, a) (λ ne. h ne (ground arith))
        ]
      ]

  pub prepare_sg-Prepared :
      (fuel : ℕ) (m : Mgr D) (chunks : List (List ℕ))
      → IfSome Prepared (fpga_mgr_prepare_sg ops fuel k m chunks)
  unfolding fpga_mgr_prepare_sg fpga_mgr_parse_header_sg_first
  prepare_sg-Prepared fuel m chunks =
      elim (Bool-cases ((ops.initial_header_size == 0) && is_none ops.parse_header)) [
        | inl e ↦ rw e (init-Prepared m [])
        | inr e ↦ rw e (
            let first = first_parsed ops (record m { state = MgrState.parse_header }) chunks in
            first_tried-Prepared fuel chunks (unless_again ops first)
              (unless_again-FirstTried first))
      ]
