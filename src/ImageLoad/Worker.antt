-- ===== src/ImageLoad/Worker.antt =====
-- drivers/fpga/fpga-image-load.c: fw_upload_main, cut where another thread can come between.
use linux_dfl_backport.Base.{
  ℕ, ◌+◌, ◌-◌, ◌%◌, ◌^◌, Bool, true, false, ◌∷◌, none, ◌==◌, if◌then◌else◌,
}
use linux_dfl_backport.ImageLoad.Defs.{
  Progress, rw_error, Pc, off, entered, in_prepare, loop, in_write, in_poll, done, putdev_exit,
  completing, putting, Upload, capacity, held,
}

-- What the operations of the device return: `write` its error and the size that it wrote.
pub record Answers : Type 0 where
  pub prepare : ℕ
  pub write : (offset : ℕ) → (size : ℕ) → ℕ × ℕ
  pub poll_complete : ℕ

unfoldable pub fw_upload_update_progress : Upload → Progress → Upload
fw_upload_update_progress u new_progress = record u { progress = new_progress }

unfoldable pub fw_upload_set_error : Upload → ℕ → Upload
fw_upload_set_error u code = record u { err_progress = u.progress; err_code = code }

unfoldable pub fw_upload_prog_complete : Upload → Upload
fw_upload_prog_complete u = record u { progress = Progress.idle; signals = u.finished ∷ u.signals }

-- An operation is called with the buffer from an offset on.
unfoldable pub given : Upload → (offset : ℕ) → Upload
given u offset = record u {
  accesses =
      (record { offset = offset; size = u.remaining_size; capacity = capacity u.data_size })
      ∷ u.accesses;
}

unfoldable pub prepared : Upload → (ret : ℕ) → Upload
unfolding fw_upload_update_progress fw_upload_set_error
prepared u ret =
    if ret == 0
    then (let u' = fw_upload_update_progress u Progress.transferring in
        record u' { prepares = u.prepares + 1; pc = loop 0 })
    else (let u' = fw_upload_set_error u ret in record u' { pc = putdev_exit })

-- The head of the transfer loop.
unfoldable pub next_block : Upload → (offset : ℕ) → Upload
unfolding given fw_upload_update_progress
next_block u offset =
    if u.remaining_size == 0
    then (let u' = fw_upload_update_progress u Progress.programming in record u' { pc = in_poll })
    else (let u' = given u offset in record u' { pc = in_write offset u.remaining_size })

-- What the write operation returned: an error and what it wrote.
unfoldable pub written_block : Upload → (offset : ℕ) → ℕ × ℕ → Upload
unfolding fw_upload_set_error
written_block u offset (ret, written) =
    if ret == 0
    then (if written == 0
        then (let u' = fw_upload_set_error u rw_error in record u' { pc = done })
        else record u {
          remaining_size = (u.remaining_size + 2 ^ 32 - written) % 2 ^ 32;
          pc = loop ((offset + written) % 2 ^ 32);
        })
    else (let u' = fw_upload_set_error u ret in record u' { pc = done })

unfoldable pub polled : Upload → (ret : ℕ) → Upload
unfolding fw_upload_set_error
polled u ret =
    if ret == 0
    then record u { pc = done }
    else (let u' = fw_upload_set_error u ret in record u' { pc = done })

unfoldable pub cleaned : Upload → (has_cleanup : Bool) → Upload
cleaned u true = record u { cleanups = u.cleanups + 1; pc = putdev_exit }
cleaned u false = record u { pc = putdev_exit }

-- put_device and vfree of the data.
unfoldable pub freed : Upload → Upload
freed u = record u {
  devs = u.devs - 1;
  bufs = u.bufs - held u.data_size;
  data_size = none;
  pc = completing;
}

-- eventfd_ctx_put of what fwlp->finished is then.
unfoldable pub put_finished : Upload → Upload
put_finished u = record u { ctxs = u.ctxs - held u.finished; finished = none; pc = off }

-- The work queue runs a work that waits.
unfoldable pub started : Upload → (queued : Bool) → Upload
started u true = record u { queued = false; pc = entered }
started u false = u

-- One step of the worker from a place. From `entered`, the reads of data and remaining_size, which
-- stand behind the locked update of the progress, are taken in its step.
unfoldable pub work_at : Answers → Upload → Pc → Upload
unfolding started given fw_upload_update_progress prepared next_block written_block polled cleaned
    freed fw_upload_prog_complete put_finished
work_at a u off = started u u.queued
work_at a u entered =
    let u' = given (fw_upload_update_progress u Progress.preparing) 0 in
    record u' { pc = in_prepare }
work_at a u in_prepare = prepared u a.prepare
work_at a u (loop offset) = next_block u offset
work_at a u (in_write offset size) = written_block u offset (a.write offset size)
work_at a u in_poll = polled u a.poll_complete
work_at a u done = cleaned u u.has_cleanup
work_at a u putdev_exit = freed u
work_at a u completing = let u' = fw_upload_prog_complete u in record u' { pc = putting }
work_at a u putting = put_finished u

unfoldable pub fw_upload_main : Answers → Upload → Upload
unfolding work_at
fw_upload_main a u = work_at a u u.pc
