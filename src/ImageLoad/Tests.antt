-- ===== src/ImageLoad/Tests.antt =====
-- drivers/fpga/fpga-image-load.c: an upload of ten bytes in blocks of at most four.
use linux_dfl_backport.Base.{
  ◌+◌, ◌*◌, ◌<◌, ◌≡◌, refl, true, false, [], ◌∷◌, some, arith, ltb, if◌then◌else◌, ok,
}
use linux_dfl_backport.ImageLoad.Defs.{loop, Access, Upload, registered}
use linux_dfl_backport.ImageLoad.Worker.{Answers, fw_upload_main}
use linux_dfl_backport.ImageLoad.Calls.{
  WriteCall, write, fpga_image_load_ioctl, fpga_image_load_ioctl_write,
}
use linux_dfl_backport.ImageLoad.Steps.{Quiet, Reach, start, later, calls, works, WritesWithin}
use linux_dfl_backport.ImageLoad.Safety.{IsSafe, reach-IsSafe}
use linux_dfl_backport.ImageLoad.Ends.{run, announced, upload_ends}
use linux_dfl_backport.ImageLoad.Races.{write_overruns}

-- Blocks of at most four bytes.
abbrev blocks : Answers
blocks = record {
  prepare = 0;
  write = λ offset size. (0, if ltb size 4 then size else 4);
  poll_complete = 0;
}

blocks-WritesWithin : WritesWithin blocks
blocks-WritesWithin offset size = ground arith

abbrev ten_bytes : WriteCall
ten_bytes = record {
  args_copied = true;
  flags = 0;
  size = 10;
  evtfd_negative = false;
  vzalloc = true;
  image_copied = true;
  eventfd_ctx_fdget = ok 7;
}

abbrev asked : Upload
asked = (fpga_image_load_ioctl (write ten_bytes) (registered true)).0

asked-Reach : Reach true asked
asked-Reach = later start (calls (write ten_bytes) ((refl, refl), omega arith) refl)

reach-IsSafe_example : IsSafe (fw_upload_main blocks asked)
reach-IsSafe_example = reach-IsSafe (later asked-Reach (works blocks blocks-WritesWithin refl))

upload_ends_example :
    let v = run (2 * asked.remaining_size + 9) blocks asked in
    Quiet v × (v.signals ≡ announced asked)
upload_ends_example = upload_ends blocks asked-Reach blocks-WritesWithin

upload_run :
    let v = run 29 blocks asked in
    (v.err_code ≡ 0) × (v.remaining_size ≡ 0) × (v.signals ≡ some 7 ∷ []) × (v.cleanups ≡ 1)
unfolding run fw_upload_main fpga_image_load_ioctl
upload_run = (refl, refl, refl, refl)

-- The first block is written.
abbrev underway : Upload
underway = run 5 blocks asked

underway_pc : underway.pc ≡ loop 4
unfolding run fw_upload_main fpga_image_load_ioctl
underway_pc = refl

accepted : (u : Upload) → (fpga_image_load_ioctl_write ten_bytes u).1 ≡ 0
unfolding fpga_image_load_ioctl_write
accepted u = refl

write_overruns_example :
    (x : Access) × ((fw_upload_main blocks
        (fpga_image_load_ioctl_write ten_bytes underway).0).accesses
      ≡ x ∷ underway.accesses)
    × (x.capacity < x.offset + x.size)
write_overruns_example =
    write_overruns ten_bytes underway 7 refl blocks 4 underway_pc (omega arith) (accepted underway)
