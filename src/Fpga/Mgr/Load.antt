-- ===== src/Fpga/Mgr/Load.antt =====
-- drivers/fpga/fpga-mgr.c: the writing of the image, and fpga_mgr_load with its three sources.
use linux_dfl_backport.Base.{
  ℕ, ◌+◌, ◌-◌, not, List, [], ◌∷◌, Option, none, some, ◌==◌, ltb, leb, ◌&&◌, is_none, if◌then◌else◌,
  length, take, drop, einval, Result, ok, err,
}
use linux_dfl_backport.Fpga.Mgr.Defs.{
  MgrState, Info, Ops, Mgr, Kernel, fpga_mgr_write, fpga_mgr_write_complete, returned,
}
use linux_dfl_backport.Fpga.Mgr.Prepare.{
  fpga_mgr_prepare_sg, fpga_mgr_parse_header_mapped, fpga_mgr_write_init_buf,
}

-- The bytes of a chunk that are written: all, or what the data still lack.
unfoldable pub chunk_length : (data_size count size : ℕ) → ℕ
chunk_length data_size count size =
    if data_size == 0
    then size
    else if ltb size (data_size - count)
    then size
    else data_size - count

module _ {D : Type 0} (ops : Ops D) where
  -- The loop of fpga_mgr_buf_load_sg over the chunks.
  unfoldable pub write_chunks : (data_size count : ℕ) → List (List ℕ) → Mgr D → Mgr D × ℕ
  unfolding fpga_mgr_write
  write_chunks data_size count [] m = (m, 0)
  write_chunks data_size count (chunk ∷ chunks) m =
      let size = chunk_length data_size count (length chunk) in
      let (m', ret) = fpga_mgr_write ops.write m (take size chunk) in
      let rest = write_chunks data_size (count + size) chunks m' in
      if ret == 0
      then if not (data_size == 0) && leb data_size (count + size) then (m', 0) else rest
      else (m', ret)

  -- The chunks behind the header; none where the list ends within it.
  unfoldable pub data_chunks : Kernel → List (List ℕ) → (header_size : ℕ) → Option (List (List ℕ))
  data_chunks k chunks header_size =
      if ops.skip_header then k.sg_miter_skip chunks header_size else some chunks

  unfoldable pub chunks_written : Mgr D → Option (List (List ℕ)) → Mgr D × ℕ
  unfolding write_chunks
  chunks_written m none = (m, einval)
  chunks_written m (some chunks) = write_chunks m.info.data_size 0 chunks m

  -- The driver's write_sg, or the loop.
  unfoldable pub sg_written :
      Option (List (List ℕ) → D → ℕ × D) → Kernel → List (List ℕ) → Mgr D → Mgr D × ℕ
  unfolding returned chunks_written data_chunks
  sg_written (some op) k chunks m = returned m (op chunks m.drv)
  sg_written none k chunks m = chunks_written m (data_chunks k chunks m.info.header_size)

  -- The label out, and the completion.
  unfoldable pub write_ended : Mgr D × ℕ → Mgr D × ℕ
  unfolding fpga_mgr_write_complete
  write_ended (m, ret) =
      if ret == 0
      then fpga_mgr_write_complete ops m
      else (record m { state = MgrState.write_err }, ret)

  unfoldable pub sg_prepared : Kernel → List (List ℕ) → Option (Mgr D × ℕ) → Option (Mgr D × ℕ)
  unfolding write_ended sg_written
  sg_prepared k chunks none = none
  sg_prepared k chunks (some (m, ret)) =
      if ret == 0
      then some
          (write_ended (sg_written ops.write_sg k chunks (record m { state = MgrState.write })))
      else some (m, ret)

  unfoldable pub fpga_mgr_buf_load_sg :
      (fuel : ℕ) → Kernel → Mgr D → List (List ℕ) → Option (Mgr D × ℕ)
  unfolding sg_prepared fpga_mgr_prepare_sg
  fpga_mgr_buf_load_sg fuel k m chunks =
      sg_prepared k chunks (fpga_mgr_prepare_sg ops fuel k m chunks)

  -- The part of a buffer that is written.
  unfoldable pub data_of : Info → (buf : List ℕ) → List ℕ
  data_of info buf =
      let from = if ops.skip_header then drop info.header_size buf else buf in
      if info.data_size == 0 then from else take info.data_size from

  unfoldable pub mapped_prepared : (buf : List ℕ) → Mgr D × ℕ → Mgr D × ℕ
  unfolding write_ended data_of fpga_mgr_write
  mapped_prepared buf (m, ret) =
      if ret == 0
      then write_ended
          (fpga_mgr_write ops.write (record m { state = MgrState.write }) (data_of m.info buf))
      else (m, ret)

  unfoldable pub mapped_parsed : (buf : List ℕ) → Mgr D × ℕ → Mgr D × ℕ
  unfolding mapped_prepared fpga_mgr_write_init_buf
  mapped_parsed buf (m, ret) =
      if ret == 0 then mapped_prepared buf (fpga_mgr_write_init_buf ops m buf) else (m, ret)

  unfoldable pub fpga_mgr_buf_load_mapped : Mgr D → (buf : List ℕ) → Mgr D × ℕ
  unfolding mapped_parsed fpga_mgr_parse_header_mapped
  fpga_mgr_buf_load_mapped m buf = mapped_parsed buf (fpga_mgr_parse_header_mapped ops m buf)

  -- fpga_mgr_buf_load for a driver without `write`: the buffer's pages as a scatter list.
  unfoldable pub with_pages :
      (fuel : ℕ) → Kernel → Mgr D → Result (List (List ℕ)) → Option (Mgr D × ℕ)
  unfolding fpga_mgr_buf_load_sg
  with_pages fuel k m (err e) = some (m, e)
  with_pages fuel k m (ok chunks) = fpga_mgr_buf_load_sg fuel k m chunks

  -- `pages` is what becomes of the pages of a buffer: kmalloc_array, the lookup of each page and
  -- sg_alloc_table_from_pages.
  unfoldable pub fpga_mgr_buf_load :
      (fuel : ℕ)
      → Kernel
      → (pages : List ℕ → Result (List (List ℕ))) → Mgr D
      → (buf : List ℕ) → Option (Mgr D × ℕ)
  unfolding with_pages fpga_mgr_buf_load_mapped
  fpga_mgr_buf_load fuel k pages m buf =
      if is_none ops.write
      then with_pages fuel k m (pages buf)
      else some (fpga_mgr_buf_load_mapped m buf)

  unfoldable pub with_firmware :
      (fuel : ℕ)
      → Kernel
      → (pages : List ℕ → Result (List (List ℕ))) → Mgr D
      → Result (List ℕ)
      → Option (Mgr D × ℕ)
  unfolding fpga_mgr_buf_load
  with_firmware fuel k pages m (err e) = some (record m { state = MgrState.firmware_req_err }, e)
  with_firmware fuel k pages m (ok fw) = fpga_mgr_buf_load fuel k pages m fw

  unfoldable pub fpga_mgr_firmware_load :
      (fuel : ℕ)
      → Kernel
      → (pages : List ℕ → Result (List (List ℕ))) → Mgr D
      → (request_firmware : Result (List ℕ)) → Option (Mgr D × ℕ)
  unfolding with_firmware
  fpga_mgr_firmware_load fuel k pages m request_firmware =
      with_firmware fuel k pages (record m { state = MgrState.firmware_req }) request_firmware

  -- The sources of an image, of which the first that is there is taken.
  unfoldable pub load_from :
      (fuel : ℕ)
      → Kernel
      → (pages : List ℕ → Result (List (List ℕ))) → Mgr D
      → (sgt : Option (List (List ℕ))) → (buf : List ℕ)
      → (request_firmware : Option (Result (List ℕ))) → Option (Mgr D × ℕ)
  unfolding fpga_mgr_buf_load_sg fpga_mgr_buf_load fpga_mgr_firmware_load
  load_from fuel k pages m (some chunks) buf firmware = fpga_mgr_buf_load_sg fuel k m chunks
  load_from fuel k pages m none (b ∷ bs) firmware = fpga_mgr_buf_load fuel k pages m (b ∷ bs)
  load_from fuel k pages m none [] (some r) = fpga_mgr_firmware_load fuel k pages m r
  load_from fuel k pages m none [] none = some (m, einval)

  unfoldable pub fpga_mgr_load :
      (fuel : ℕ)
      → Kernel
      → (pages : List ℕ → Result (List (List ℕ))) → Mgr D
      → (sgt : Option (List (List ℕ))) → (buf : List ℕ)
      → (request_firmware : Option (Result (List ℕ))) → Option (Mgr D × ℕ)
  unfolding load_from
  fpga_mgr_load fuel k pages m sgt buf firmware =
      load_from fuel k pages
        (record m { info = record m.info { header_size = ops.initial_header_size } }) sgt buf
        firmware
