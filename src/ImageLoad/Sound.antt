-- ===== src/ImageLoad/Sound.antt =====
-- drivers/fpga/fpga-image-load.c: what no order of steps can break, where the user waits for the
-- worker before the next write.
use linux_dfl_backport.Base.{
  ℕ, ◌+◌, ◌≤◌, ◌≡◌, inl, inr, refl, Bool, true, false, ◌==◌, arith, All, Bool-cases,
}
use linux_dfl_backport.ImageLoad.Defs.{
  Pc, off, entered, in_prepare, loop, in_write, in_poll, done, putdev_exit, completing, putting,
  InBounds, Upload, held,
}
use linux_dfl_backport.ImageLoad.Worker.{
  Answers, next_block, started, work_at, fw_upload_main, fw_upload_prog_complete,
}
use linux_dfl_backport.ImageLoad.Invariant.{Place, At, work_at-At}

-- The call of cleanup that is still to come at a place of the worker.
abbrev pub owed : Pc → ℕ
owed (loop _) = 1
owed (in_write _ _) = 1
owed in_poll = 1
owed done = 1
owed _ = 0

pub record IsSound (u : Upload) : Type 0 where
  pub at : At u
  pub in_bounds : All InBounds u.accesses
  pub signalled : All (λ s. held s ≡ 1) u.signals
  pub cleanup_owed : u.has_cleanup ≡ true → u.prepares ≡ u.cleanups + owed u.pc

started-fields :
    (u : Upload) (b : Bool)
    → ((started u b).accesses ≡ u.accesses) × ((started u b).signals ≡ u.signals)
unfolding started
started-fields u true = (refl, refl)
started-fields u false = (refl, refl)

started-owed :
    (u : Upload) (b : Bool)
    → u.pc ≡ off
    → (u.has_cleanup ≡ true → u.prepares ≡ u.cleanups + 0)
    → (started u b).has_cleanup ≡ true
    → (started u b).prepares ≡ (started u b).cleanups + owed (started u b).pc
unfolding started
started-owed u true at h e = h e
started-owed u false at h e = rw at (h e)

next_block-InBounds :
    (u : Upload) (offset : ℕ)
    → Place (loop offset) false u
    → All InBounds u.accesses
    → All InBounds (next_block u offset).accesses
unfolding next_block
next_block-InBounds u offset h l = elim (Bool-cases (u.remaining_size == 0)) [
  | inl z ↦ rw z l
  | inr z ↦ rw z (omega arith, l)
]

module _ (a : Answers) (u : Upload) where
  work_at-InBounds :
      (p : Pc) (b : Bool)
      → Place p b u
      → All InBounds u.accesses
      → All InBounds (work_at a u p).accesses
  unfolding work_at
  work_at-InBounds off b h l = rw (started-fields u u.queued).0 l
  work_at-InBounds entered false h l = (omega arith, l)
  work_at-InBounds entered true h l = elim h [ ]
  work_at-InBounds in_prepare b h l = ground arith
  work_at-InBounds (loop offset) false h l = next_block-InBounds u offset h l
  work_at-InBounds (loop offset) true h l = elim h [ ]
  work_at-InBounds (in_write offset size) b h l = ground arith
  work_at-InBounds in_poll b h l = ground arith
  work_at-InBounds done b h l = ground arith
  work_at-InBounds putdev_exit b h l = l
  work_at-InBounds completing b h l = l
  work_at-InBounds putting b h l = l

  work_at-signalled :
      (p : Pc) (b : Bool)
      → Place p b u
      → All (λ s. held s ≡ 1) u.signals
      → All (λ s. held s ≡ 1) (work_at a u p).signals
  unfolding work_at fw_upload_prog_complete
  work_at-signalled off b h l = rw (started-fields u u.queued).1 l
  work_at-signalled entered b h l = l
  work_at-signalled in_prepare b h l = ground arith
  work_at-signalled (loop offset) b h l = ground arith
  work_at-signalled (in_write offset size) b h l = ground arith
  work_at-signalled in_poll b h l = ground arith
  work_at-signalled done b h l = ground arith
  work_at-signalled putdev_exit b h l = l
  work_at-signalled completing false h l = (h.2, l)
  work_at-signalled completing true h l = elim h [ ]
  work_at-signalled putting b h l = l

  work_at-cleanup_owed :
      (p : Pc)
      → u.pc ≡ p
      → (u.has_cleanup ≡ true → u.prepares ≡ u.cleanups + owed p)
      → (work_at a u p).has_cleanup ≡ true
      → (work_at a u p).prepares ≡ (work_at a u p).cleanups + owed (work_at a u p).pc
  unfolding work_at
  work_at-cleanup_owed off at h e = started-owed u u.queued at h e
  work_at-cleanup_owed entered at h e = ground (arith, h e)
  work_at-cleanup_owed in_prepare at h e = ground (arith, h)
  work_at-cleanup_owed (loop offset) at h e = ground arith
  work_at-cleanup_owed (in_write offset size) at h e = ground arith
  work_at-cleanup_owed in_poll at h e = ground arith
  work_at-cleanup_owed done at h e = ground arith
  work_at-cleanup_owed putdev_exit at h e = h e
  work_at-cleanup_owed completing at h e = h e
  work_at-cleanup_owed putting at h e = h e

pub work-IsSound :
    (a : Answers)
    → ((offset size : ℕ) → (a.write offset size).1 ≤ size)
    → (u : Upload) → IsSound u
    → IsSound (fw_upload_main a u)
unfolding fw_upload_main
work-IsSound a within u s = record {
  at = work_at-At a within u u.pc u.queued refl refl s.at;
  in_bounds = work_at-InBounds a u u.pc u.queued s.at s.in_bounds;
  signalled = work_at-signalled a u u.pc u.queued s.at s.signalled;
  cleanup_owed = work_at-cleanup_owed a u u.pc refl s.cleanup_owed;
}
