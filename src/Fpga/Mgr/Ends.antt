-- ===== src/Fpga/Mgr/Ends.antt =====
-- drivers/fpga/fpga-mgr.c: the loop of fpga_mgr_parse_header_sg ends, since the header that the
-- driver asks for has to grow and to lie in the image.
use linux_dfl_backport.Base.{
  ℕ, zero, suc, ◌-◌, ◌≤◌, ◌<◌, ◌≡◌, refl, sym, subst, inl, inr, List, [], ◌∷◌, ◌++◌, Option, none,
  some, ◌==◌, leb, ◌&&◌, is_none, arith, Bool-cases, ==_iff, length, take, drop, flatten,
  length-append, length-take_le, length-drop, Result, ok, err, HasResult,
}
use linux_dfl_backport.Fpga.Mgr.Defs.{MgrState, eagain, Ops, Mgr, Kernel, fpga_mgr_parse_header}
use linux_dfl_backport.Fpga.Mgr.Prepare.{
  header_failed, fpga_mgr_parse_header_sg_first, fpga_mgr_parse_header_sg, with_header, first_tried,
  fpga_mgr_prepare_sg,
}
use linux_dfl_backport.Fpga.Mgr.Load.{
  sg_prepared, fpga_mgr_buf_load_sg, with_pages, fpga_mgr_buf_load, with_firmware,
  fpga_mgr_firmware_load, load_from, fpga_mgr_load,
}

-- sg_pcopy_to_buffer copies the bytes of the list from one on, as many as there are.
abbrev pub Copies : Kernel → Type 0
Copies k =
    (chunks : List (List ℕ)) (len skip : ℕ)
    → k.sg_pcopy_to_buffer chunks len skip ≡ take len (drop skip (flatten chunks))

-- The pages of a buffer hold the buffer.
abbrev pub HoldBuffers : (List ℕ → Result (List (List ℕ))) → Type 0
HoldBuffers pages =
    (buf : List ℕ) (chunks : List (List ℕ)) → pages buf ≡ ok chunks → flatten chunks ≡ buf

-- The size of the image that is loaded.
abbrev pub image_size : Option (List (List ℕ)) → List ℕ → Option (Result (List ℕ)) → ℕ
image_size (some chunks) buf firmware = length (flatten chunks)
image_size none (b ∷ bs) firmware = length (b ∷ bs)
image_size none [] (some (ok fw)) = length fw
image_size none [] _ = 0

module _ {D : Type 0} (ops : Ops D) (k : Kernel) (copies : Copies k) where
  copied-le :
      (chunks : List (List ℕ)) (len skip : ℕ)
      → length (k.sg_pcopy_to_buffer chunks len skip) ≤ length (flatten chunks) - skip
  copied-le chunks len skip = rw (copies chunks len skip) (
      omega (
        arith,
        length-take_le {0} len (drop skip (flatten chunks)),
        length-drop {0} skip (flatten chunks),
      ))

  parse_header_sg-ends :
      (fuel : ℕ) (m : Mgr D) (chunks : List (List ℕ)) (buf : List ℕ)
      → length (flatten chunks) - length buf < fuel
      → HasResult (fpga_mgr_parse_header_sg ops fuel k m chunks buf)
  unfolding fpga_mgr_parse_header_sg header_failed
  parse_header_sg-ends zero m chunks buf h = absurd (omega arith)
  parse_header_sg-ends (suc fuel) m chunks buf h =
      let wanted = m.info.header_size - length buf in
      let got = k.sg_pcopy_to_buffer chunks wanted (length buf) in
      let r = fpga_mgr_parse_header ops.parse_header m (buf ++ got) in
      elim (Bool-cases (leb m.info.header_size (length buf))) [
        | inl e1 ↦ rw e1 (_, refl)
        | inr e1 ↦ elim (Bool-cases (k.krealloc m.info.header_size)) [
          | inl e2 ↦ elim (Bool-cases (length got == wanted)) [
            | inl e3 ↦ elim (Bool-cases (r.1 == eagain)) [
              | inl e4 ↦
                  let grown : length buf < m.info.header_size = ground arith in
                  let full : length got ≡ wanted = (==_iff (length got) wanted).0 e3 in
                  rw (e1, e2, e3, e4)
                    (parse_header_sg-ends fuel r.0 chunks (buf ++ got) (
                      omega
                        (arith, length-append {0} buf got, copied-le chunks wanted (length buf))))
              | inr e4 ↦ elim (Bool-cases (r.1 == 0)) [
                | inl e5 ↦ rw (e1, e2, e3, e4, e5) (_, refl)
                | inr e5 ↦ rw (e1, e2, e3, e4, e5) (_, refl)
              ]
            ]
            | inr e3 ↦ rw (e1, e2, e3) (_, refl)
          ]
          | inr e2 ↦ rw (e1, e2) (_, refl)
        ]
      ]

  with_header-HasResult :
      (o : Option (Mgr D × Result (List ℕ))) → HasResult o → HasResult (with_header ops o)
  unfolding with_header
  with_header-HasResult none h = cc
  with_header-HasResult (some (m, ok buf)) h = (_, refl)
  with_header-HasResult (some (m, err e)) h = (_, refl)

  first_tried-ends :
      (fuel : ℕ) (chunks : List (List ℕ)) (r : Mgr D × ℕ)
      → length (flatten chunks) < fuel
      → HasResult (first_tried ops fuel k chunks r)
  unfolding first_tried
  first_tried-ends fuel [] (m, ret) h =
      let copied =
        with_header-HasResult (fpga_mgr_parse_header_sg ops fuel k m [] [])
          (parse_header_sg-ends fuel m [] [] (omega arith)) in
      elim (Bool-cases (ret == 0)) [
        | inl z ↦ rw z copied
        | inr z ↦ elim (Bool-cases (ret == eagain)) [
          | inl a ↦ rw (z, a) copied
          | inr a ↦ rw (z, a) (_, refl)
        ]
      ]
  first_tried-ends fuel (chunk ∷ chunks) (m, ret) h =
      let copied =
        with_header-HasResult (fpga_mgr_parse_header_sg ops fuel k m (chunk ∷ chunks) [])
          (parse_header_sg-ends fuel m (chunk ∷ chunks) [] (omega arith)) in
      elim (Bool-cases (ret == 0)) [
        | inl z ↦ rw z (_, refl)
        | inr z ↦ elim (Bool-cases (ret == eagain)) [
          | inl a ↦ rw (z, a) copied
          | inr a ↦ rw (z, a) (_, refl)
        ]
      ]

  prepare_sg-ends :
      (fuel : ℕ) (m : Mgr D) (chunks : List (List ℕ))
      → length (flatten chunks) < fuel
      → HasResult (fpga_mgr_prepare_sg ops fuel k m chunks)
  unfolding fpga_mgr_prepare_sg
  prepare_sg-ends fuel m chunks h =
      elim (Bool-cases ((ops.initial_header_size == 0) && is_none ops.parse_header)) [
        | inl e ↦ rw e (_, refl)
        | inr e ↦
            rw e (first_tried-ends fuel chunks (fpga_mgr_parse_header_sg_first ops m chunks) h)
      ]

  sg_prepared-HasResult :
      (chunks : List (List ℕ)) (o : Option (Mgr D × ℕ))
      → HasResult o
      → HasResult (sg_prepared ops k chunks o)
  unfolding sg_prepared
  sg_prepared-HasResult chunks none h = cc
  sg_prepared-HasResult chunks (some (m, ret)) h = elim (Bool-cases (ret == 0)) [
    | inl z ↦ rw z (_, refl)
    | inr z ↦ rw z (_, refl)
  ]

  buf_load_sg-ends :
      (fuel : ℕ) (m : Mgr D) (chunks : List (List ℕ))
      → length (flatten chunks) < fuel
      → HasResult (fpga_mgr_buf_load_sg ops fuel k m chunks)
  unfolding fpga_mgr_buf_load_sg
  buf_load_sg-ends fuel m chunks h =
      sg_prepared-HasResult chunks (fpga_mgr_prepare_sg ops fuel k m chunks)
        (prepare_sg-ends fuel m chunks h)

  module _ (pages : List ℕ → Result (List (List ℕ))) (hold : HoldBuffers pages) where
    with_pages-ends :
        (fuel : ℕ) (m : Mgr D) (buf : List ℕ) (r : Result (List (List ℕ)))
        → pages buf ≡ r
        → length buf < fuel
        → HasResult (with_pages ops fuel k m r)
    unfolding with_pages
    with_pages-ends fuel m buf (err e) q h = (_, refl)
    with_pages-ends fuel m buf (ok chunks) q h =
        buf_load_sg-ends fuel m chunks (subst (λ l. length l < fuel) (sym (hold buf chunks q)) h)

    buf_load-ends :
        (fuel : ℕ) (m : Mgr D) (buf : List ℕ)
        → length buf < fuel
        → HasResult (fpga_mgr_buf_load ops fuel k pages m buf)
    unfolding fpga_mgr_buf_load
    buf_load-ends fuel m buf h = elim (Bool-cases (is_none ops.write)) [
      | inl e ↦ rw e (with_pages-ends fuel m buf (pages buf) refl h)
      | inr e ↦ rw e (_, refl)
    ]

    load_from-ends :
        (fuel : ℕ) (m : Mgr D) (sgt : Option (List (List ℕ))) (buf : List ℕ)
        (firmware : Option (Result (List ℕ)))
        → image_size sgt buf firmware < fuel
        → HasResult (load_from ops fuel k pages m sgt buf firmware)
    unfolding load_from fpga_mgr_firmware_load with_firmware
    load_from-ends fuel m (some chunks) buf firmware h = buf_load_sg-ends fuel m chunks h
    load_from-ends fuel m none (b ∷ bs) firmware h = buf_load-ends fuel m (b ∷ bs) h
    load_from-ends fuel m none [] (some (ok fw)) h =
        buf_load-ends fuel (record m { state = MgrState.firmware_req }) fw h
    load_from-ends fuel m none [] (some (err e)) h = (_, refl)
    load_from-ends fuel m none [] none h = (_, refl)

    -- Fpga_mgr_load returns within more rounds of its header loop than the image has bytes, if the
    -- kernel copies out of scatter lists what is there and the pages of a buffer hold the buffer.
    pub load_ends :
        (fuel : ℕ) (m : Mgr D) (sgt : Option (List (List ℕ))) (buf : List ℕ)
        (firmware : Option (Result (List ℕ)))
        → image_size sgt buf firmware < fuel
        → HasResult (fpga_mgr_load ops fuel k pages m sgt buf firmware)
    unfolding fpga_mgr_load
    load_ends fuel m sgt buf firmware h =
        load_from-ends fuel
          (record m { info = record m.info { header_size = ops.initial_header_size } }) sgt buf
          firmware h
