-- ===== src/Fpga/Mgr/Prepare.antt =====
-- drivers/fpga/fpga-mgr.c: the header of an image and the preparation of the driver.
use linux_dfl_backport.Base.{
  ℕ, zero, suc, ◌+◌, ◌-◌, ◌%◌, ◌^◌, List, [], ◌∷◌, ◌++◌, Option, none, some, ◌==◌, ltb, leb, ◌&&◌,
  is_none, if◌then◌else◌, length, einval, efault, enomem, Result, ok, err,
}
use linux_dfl_backport.Fpga.Mgr.Defs.{
  MgrState, eagain, Ops, Mgr, Kernel, fpga_mgr_parse_header, fpga_mgr_write_init, or_failed,
}

module _ {D : Type 0} (ops : Ops D) where
  -- A header and data that outrun the image are an error; the sum is one of size_t.
  unfoldable pub outruns : (count : ℕ) → Mgr D × ℕ → Mgr D × ℕ
  outruns count (m, ret) =
      if ltb count ((m.info.header_size + m.info.data_size) % 2 ^ 64) then (m, einval) else (m, ret)

  unfoldable pub fpga_mgr_parse_header_mapped : Mgr D → (buf : List ℕ) → Mgr D × ℕ
  unfolding or_failed outruns fpga_mgr_parse_header
  fpga_mgr_parse_header_mapped m buf = or_failed MgrState.parse_header_err (
      outruns (length buf)
        (fpga_mgr_parse_header ops.parse_header (record m { state = MgrState.parse_header }) buf))

  -- The first chunk, if it holds the header.
  unfoldable pub first_parsed : Mgr D → List (List ℕ) → Mgr D × ℕ
  unfolding fpga_mgr_parse_header
  first_parsed m [] = (m, eagain)
  first_parsed m (chunk ∷ chunks) =
      if leb m.info.header_size (length chunk)
      then fpga_mgr_parse_header ops.parse_header m chunk
      else (m, eagain)

  unfoldable pub unless_again : Mgr D × ℕ → Mgr D × ℕ
  unfolding or_failed
  unless_again (m, ret) =
      if ret == eagain then (m, ret) else or_failed MgrState.parse_header_err (m, ret)

  unfoldable pub fpga_mgr_parse_header_sg_first : Mgr D → List (List ℕ) → Mgr D × ℕ
  unfolding unless_again first_parsed
  fpga_mgr_parse_header_sg_first m chunks =
      unless_again (first_parsed (record m { state = MgrState.parse_header }) chunks)

  -- What fpga_mgr_parse_header_sg returns: the copy of the header, or an error pointer.
  unfoldable pub header_failed : Mgr D → (ret : ℕ) → Option (Mgr D × Result (List ℕ))
  header_failed m ret = some (record m { state = MgrState.parse_header_err }, err ret)

  -- The loop of fpga_mgr_parse_header_sg, on fuel, with the copy so far.
  unfoldable pub fpga_mgr_parse_header_sg :
      (fuel : ℕ)
      → Kernel
      → Mgr D
      → List (List ℕ)
      → (buf : List ℕ) → Option (Mgr D × Result (List ℕ))
  unfolding header_failed fpga_mgr_parse_header
  fpga_mgr_parse_header_sg zero k m chunks buf = none
  fpga_mgr_parse_header_sg (suc fuel) k m chunks buf =
      let wanted = m.info.header_size - length buf in
      let got = k.sg_pcopy_to_buffer chunks wanted (length buf) in
      let (m', ret) = fpga_mgr_parse_header ops.parse_header m (buf ++ got) in
      let rest = fpga_mgr_parse_header_sg fuel k m' chunks (buf ++ got) in
      if leb m.info.header_size (length buf)
      then header_failed m efault
      else if k.krealloc m.info.header_size
      then (if length got == wanted
          then (if ret == eagain
              then rest
              else if ret == 0
              then some (m', ok (buf ++ got))
              else header_failed m' ret)
          else header_failed m efault)
      else header_failed m enomem

  unfoldable pub init_called : Mgr D → (buf : List ℕ) → Mgr D × ℕ
  unfolding fpga_mgr_write_init
  init_called m buf =
      if ltb (length buf) m.info.header_size
      then (m, einval)
      else if m.info.header_size == 0
      then fpga_mgr_write_init ops.write_init m []
      else fpga_mgr_write_init ops.write_init m buf

  unfoldable pub fpga_mgr_write_init_buf : Mgr D → (buf : List ℕ) → Mgr D × ℕ
  unfolding init_called or_failed
  fpga_mgr_write_init_buf m buf =
      or_failed MgrState.write_init_err (init_called (record m { state = MgrState.write_init }) buf)

  -- Behind fpga_mgr_parse_header_sg.
  unfoldable pub with_header : Option (Mgr D × Result (List ℕ)) → Option (Mgr D × ℕ)
  unfolding fpga_mgr_write_init_buf
  with_header none = none
  with_header (some (m, err e)) = some (m, e)
  with_header (some (m, ok buf)) = some (fpga_mgr_write_init_buf m buf)

  -- Behind fpga_mgr_parse_header_sg_first.
  unfoldable pub first_tried : (fuel : ℕ) → Kernel → List (List ℕ) → Mgr D × ℕ → Option (Mgr D × ℕ)
  unfolding with_header fpga_mgr_write_init_buf
  first_tried fuel k [] (m, ret) =
      let copied = with_header (fpga_mgr_parse_header_sg fuel k m [] []) in
      if ret == 0 then copied else if ret == eagain then copied else some (m, ret)
  first_tried fuel k (chunk ∷ chunks) (m, ret) =
      let copied = with_header (fpga_mgr_parse_header_sg fuel k m (chunk ∷ chunks) []) in
      if ret == 0
      then some (fpga_mgr_write_init_buf m chunk)
      else if ret == eagain
      then copied
      else some (m, ret)

  unfoldable pub fpga_mgr_prepare_sg :
      (fuel : ℕ) → Kernel → Mgr D → List (List ℕ) → Option (Mgr D × ℕ)
  unfolding first_tried fpga_mgr_write_init_buf fpga_mgr_parse_header_sg_first
  fpga_mgr_prepare_sg fuel k m chunks =
      if (ops.initial_header_size == 0) && is_none ops.parse_header
      then some (fpga_mgr_write_init_buf m [])
      else first_tried fuel k chunks (fpga_mgr_parse_header_sg_first m chunks)
