-- ===== src/ImageLoad/Defs.antt =====
-- drivers/fpga/fpga-image-load.c: the state of an upload (struct fw_upload_priv), with the places
-- of its worker and a ledger of what is out.
use linux_dfl_backport.Base.{ℕ, ◌≤◌, ◌+◌, Bool, List, [], Option, none, some}

-- enum fw_upload_prog.
pub data Progress : Type 0 where
  idle : Progress
  receiving : Progress
  preparing : Progress
  transferring : Progress
  programming : Progress

-- enum fw_upload_err; 0 is FW_UPLOAD_ERR_NONE.
abbrev pub hw_error : ℕ
hw_error = 1

abbrev pub timeout : ℕ
timeout = 2

abbrev pub canceled : ℕ
canceled = 3

abbrev pub busy : ℕ
busy = 4

abbrev pub invalid_size : ℕ
invalid_size = 5

abbrev pub rw_error : ℕ
rw_error = 6

abbrev pub wearout : ℕ
wearout = 7

abbrev pub err_max : ℕ
err_max = 8

-- Where the worker stands in fw_upload_main, with its local variables: `off` is not running.
pub data Pc : Type 0 where
  off : Pc
  entered : Pc
  in_prepare : Pc
  loop : (offset : ℕ) → Pc
  in_write : (offset : ℕ) → (size : ℕ) → Pc
  in_poll : Pc
  done : Pc
  putdev_exit : Pc
  completing : Pc
  putting : Pc

-- What an operation of the device was given of a buffer: where it may read, and the buffer's size.
pub record Access : Type 0 where
  pub offset : ℕ
  pub size : ℕ
  pub capacity : ℕ

abbrev pub InBounds : Access → Type 0
InBounds a = a.offset + a.size ≤ a.capacity

-- `data` is the size of the buffer that fwlp->data points at, `finished` the eventfd of
-- fwlp->finished. `queued` is whether the work waits for the worker. The ledger counts the buffers,
-- the references to eventfds and to the parent device that are out, the calls of prepare that
-- succeeded, of cleanup and of cancel, what the operations were given, and the eventfds that were
-- signalled, the newest first.
pub record Upload : Type 0 where
  pub progress : Progress
  pub err_progress : Progress
  pub err_code : ℕ
  pub remaining_size : ℕ
  pub data_size : Option ℕ
  pub finished : Option ℕ
  pub opened : Bool
  pub has_cleanup : Bool
  pub queued : Bool
  pub pc : Pc
  pub bufs : ℕ
  pub ctxs : ℕ
  pub devs : ℕ
  pub prepares : ℕ
  pub cleanups : ℕ
  pub cancels : ℕ
  pub accesses : List Access
  pub signals : List (Option ℕ)

-- The bytes behind a pointer to a buffer, none behind NULL.
abbrev pub capacity : Option ℕ → ℕ
capacity none = 0
capacity (some n) = n

-- 1 for what is there, 0 for NULL.
abbrev pub held : Option ℕ → ℕ
held none = 0
held (some n) = 1

-- What fpga_image_load_register sets up.
abbrev pub registered : Bool → Upload
registered cleanup = record {
  progress = Progress.idle;
  err_progress = Progress.idle;
  err_code = 0;
  remaining_size = 0;
  data_size = none;
  finished = none;
  opened = Bool.false;
  has_cleanup = cleanup;
  queued = Bool.false;
  pc = Pc.off;
  bufs = 0;
  ctxs = 0;
  devs = 0;
  prepares = 0;
  cleanups = 0;
  cancels = 0;
  accesses = [];
  signals = [];
}
