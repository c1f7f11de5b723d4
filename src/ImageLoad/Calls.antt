-- ===== src/ImageLoad/Calls.antt =====
-- drivers/fpga/fpga-image-load.c: open, release and the ioctls, each under the upload's lock.
use linux_dfl_backport.Base.{
  ℕ, ◌+◌, Bool, true, false, none, some, ◌==◌, ltb, if◌then◌else◌, Result, ok, err, efault, einval,
  enomem, ebusy, enodev,
}
use linux_dfl_backport.ImageLoad.Defs.{
  Progress, idle, receiving, preparing, transferring, programming, err_max, Upload,
}

-- ENOTTY of include/uapi/asm-generic/errno-base.h.
abbrev pub enotty : ℕ
enotty = 25

-- struct fpga_image_write as the call gets it: whether it could be copied, its fields, whether
-- vzalloc gives a buffer, whether the image could be copied, and what eventfd_ctx_fdget returns.
pub record WriteCall : Type 0 where
  pub args_copied : Bool
  pub flags : ℕ
  pub size : ℕ
  pub evtfd_negative : Bool
  pub vzalloc : Bool
  pub image_copied : Bool
  pub eventfd_ctx_fdget : Result ℕ

-- The image is in the buffer, and the eventfd looked up.
unfoldable pub with_ctx : Upload → (size : ℕ) → Result ℕ → Upload × ℕ
with_ctx u size (err e) = (record u { finished = none }, e)
with_ctx u size (ok ctx) = (
  record u {
    finished = some ctx;
    ctxs = u.ctxs + 1;
    devs = u.devs + 1;
    progress = receiving;
    err_code = 0;
    remaining_size = size;
    data_size = some size;
    bufs = u.bufs + 1;
    queued = true;
  },
  0,
)

-- From vzalloc on.
unfoldable pub with_buf : WriteCall → Upload → (vzalloc : Bool) → Upload × ℕ
unfolding with_ctx
with_buf c u false = (u, enomem)
with_buf c u true = if c.image_copied then with_ctx u c.size c.eventfd_ctx_fdget else (u, efault)

unfoldable pub fpga_image_load_ioctl_write : WriteCall → Upload → Upload × ℕ
unfolding with_buf
fpga_image_load_ioctl_write c u =
    if c.args_copied
    then (if c.flags == 0
        then (if c.size == 0
            then (u, einval)
            else if c.evtfd_negative
            then (u, einval)
            else with_buf c u c.vzalloc)
        else (u, einval))
    else (u, efault)

-- fw_upload_progress: the code of the user interface, FPGA_IMAGE_PROG_*.
unfoldable pub fw_upload_progress : Progress → ℕ
fw_upload_progress idle = 0
fw_upload_progress receiving = 1
fw_upload_progress preparing = 2
fw_upload_progress transferring = 3
fw_upload_progress programming = 4

-- fw_upload_error: FPGA_IMAGE_ERR_* has the numbers of enum fw_upload_err.
unfoldable pub fw_upload_error : ℕ → ℕ
fw_upload_error code = if ltb code err_max then code else err_max

-- struct fpga_image_status.
pub record Status : Type 0 where
  pub remaining_size : ℕ
  pub progress : ℕ
  pub err_progress : ℕ
  pub err_code : ℕ

unfoldable pub fpga_image_load_ioctl_status : Upload → (copied : Bool) → Result Status
unfolding fw_upload_progress fw_upload_error
fpga_image_load_ioctl_status u true = ok (record {
  remaining_size = u.remaining_size;
  progress = fw_upload_progress u.progress;
  err_progress = fw_upload_progress u.err_progress;
  err_code = fw_upload_error u.err_code;
})
fpga_image_load_ioctl_status u false = err efault

-- The operation `cancel` of the device is called, unless the upload is idle.
unfoldable pub cancelled : Upload → Progress → Upload × ℕ
cancelled u idle = (u, enodev)
cancelled u _ = (record u { cancels = u.cancels + 1 }, 0)

unfoldable pub fpga_image_load_ioctl_cancel : Upload → Upload × ℕ
unfolding cancelled
fpga_image_load_ioctl_cancel u = cancelled u u.progress

-- The commands of fpga_image_load_ioctl: FPGA_IMAGE_LOAD_WRITE, _STATUS, _CANCEL, and others.
pub data Command : Type 0 where
  write : WriteCall → Command
  status : (copied : Bool) → Command
  cancel : Command
  unknown : Command

-- The status of a call, without the values that it copies to the user.
abbrev pub status_code {ℓ} : {A : Type ℓ} → Result A → ℕ
status_code (ok a) = 0
status_code (err e) = e

unfoldable pub fpga_image_load_ioctl : Command → Upload → Upload × ℕ
unfolding fpga_image_load_ioctl_write fpga_image_load_ioctl_status fpga_image_load_ioctl_cancel
fpga_image_load_ioctl (write c) u = fpga_image_load_ioctl_write c u
fpga_image_load_ioctl (status copied) u = (u, status_code (fpga_image_load_ioctl_status u copied))
fpga_image_load_ioctl cancel u = fpga_image_load_ioctl_cancel u
fpga_image_load_ioctl unknown u = (u, enotty)

-- atomic_cmpxchg of the flag.
unfoldable pub opened_from : Upload → (opened : Bool) → Upload × ℕ
opened_from u true = (u, ebusy)
opened_from u false = (record u { opened = true }, 0)

unfoldable pub fpga_image_load_open : Upload → Upload × ℕ
unfolding opened_from
fpga_image_load_open u = opened_from u u.opened

-- fpga_image_load_release up to flush_work, and whether flush_work is called.
unfoldable pub release_from : Upload → Progress → Upload × Bool
release_from u idle = (record u { opened = false }, false)
release_from u _ = (record u { cancels = u.cancels + 1 }, true)

unfoldable pub fpga_image_load_release : Upload → Upload × Bool
unfolding release_from
fpga_image_load_release u = release_from u u.progress

-- What it does behind flush_work.
unfoldable pub close_exit : Upload → Upload
close_exit u = record u { opened = false }
