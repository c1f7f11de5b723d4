-- ===== src/ImageLoad/Safety.antt =====
-- drivers/fpga/fpga-image-load.c: no order of the steps of worker and user breaks the upload, where
-- the user waits for the worker before the next write.
use linux_dfl_backport.Base.{
  ℕ, ◌+◌, ◌^◌, ◌<◌, ◌≡◌, inl, inr, refl, subst, ap, ◌∙◌, Bool, true, false, arith, All,
}
use linux_dfl_backport.ImageLoad.Defs.{
  Progress, idle, receiving, preparing, transferring, programming, off, InBounds, Upload, held,
}
use linux_dfl_backport.ImageLoad.Calls.{
  WriteCall, Command, write, status, cancel, unknown, fpga_image_load_ioctl_write, cancelled,
  fpga_image_load_ioctl_cancel, fpga_image_load_ioctl, opened_from, fpga_image_load_open,
  release_from, fpga_image_load_release, close_exit,
}
use linux_dfl_backport.ImageLoad.Steps.{
  Quiet, Waits, Step, works, calls, opens, releases, flushed, Reach, start, later,
}
use linux_dfl_backport.ImageLoad.Invariant.{Place, At}
use linux_dfl_backport.ImageLoad.Sound.{owed, IsSound, work-IsSound}
use linux_dfl_backport.ImageLoad.Kept.{write-cases, Keeps-IsSound, marked-At, ctx-Keeps, ctx-At}

write-IsSound :
    (c : WriteCall) (u : Upload)
    → Quiet u
    → c.size < 2 ^ 32
    → IsSound u
    → IsSound (fpga_image_load_ioctl_write c u).0
write-IsSound c u quiet small s = elim (write-cases c u) [
  | inl e ↦ rw e s
  | inr e ↦ rw e (
      Keeps-IsSound u _ (ctx-Keeps u c.size c.eventfd_ctx_fdget)
        (ctx-At u c.size c.eventfd_ctx_fdget quiet small s.at) s)
]

-- A change of `opened` and `cancels` alone.
marked-IsSound :
    (u : Upload) (opened : Bool) (cancels : ℕ)
    → IsSound u
    → IsSound (record u { opened = opened; cancels = cancels })
marked-IsSound u opened cancels s = record {
  at = marked-At u opened cancels u.pc u.queued s.at;
  in_bounds = s.in_bounds;
  signalled = s.signalled;
  cleanup_owed = s.cleanup_owed;
}

cancelled-IsSound : (u : Upload) (p : Progress) → IsSound u → IsSound (cancelled u p).0
unfolding cancelled
cancelled-IsSound u idle s = s
cancelled-IsSound u receiving s = marked-IsSound u u.opened _ s
cancelled-IsSound u preparing s = marked-IsSound u u.opened _ s
cancelled-IsSound u transferring s = marked-IsSound u u.opened _ s
cancelled-IsSound u programming s = marked-IsSound u u.opened _ s

release-IsSound : (u : Upload) (p : Progress) → IsSound u → IsSound (release_from u p).0
unfolding release_from
release-IsSound u idle s = marked-IsSound u _ u.cancels s
release-IsSound u receiving s = marked-IsSound u u.opened _ s
release-IsSound u preparing s = marked-IsSound u u.opened _ s
release-IsSound u transferring s = marked-IsSound u u.opened _ s
release-IsSound u programming s = marked-IsSound u u.opened _ s

open-IsSound : (u : Upload) (b : Bool) → IsSound u → IsSound (opened_from u b).0
unfolding opened_from
open-IsSound u true s = s
open-IsSound u false s = marked-IsSound u true u.cancels s

ioctl-IsSound :
    (c : Command) (u : Upload) → Waits u c → IsSound u → IsSound (fpga_image_load_ioctl c u).0
unfolding fpga_image_load_ioctl fpga_image_load_ioctl_cancel
ioctl-IsSound (write c) u w s = write-IsSound c u w.0 w.1 s
ioctl-IsSound (status copied) u w s = s
ioctl-IsSound cancel u w s = cancelled-IsSound u u.progress s
ioctl-IsSound unknown u w s = s

Step-IsSound : {u v : Upload} → Step u v → IsSound u → IsSound v
unfolding fpga_image_load_open fpga_image_load_release close_exit
Step-IsSound {u} (works a within e) s = rw e (work-IsSound a within u s)
Step-IsSound {u} (calls c w e) s = rw e (ioctl-IsSound c u w s)
Step-IsSound {u} (opens e) s = rw e (open-IsSound u u.opened s)
Step-IsSound {u} (releases e) s = rw e (release-IsSound u u.progress s)
Step-IsSound {u} (flushed q e) s = rw e (marked-IsSound u false u.cancels s)

Reach-IsSound : {cleanup : Bool} {u : Upload} → Reach cleanup u → IsSound u
Reach-IsSound start = record {
  at = (refl, refl, refl, refl, refl, λ e. refl);
  in_bounds = tt;
  signalled = tt;
  cleanup_owed = λ e. refl;
}
Reach-IsSound (later r st) = Step-IsSound st (Reach-IsSound r)

pub Reach-At : {cleanup : Bool} {u : Upload} → Reach cleanup u → At u
Reach-At r = (Reach-IsSound r).at

-- What the steps keep, as far as it can be seen from outside. A quiet upload is idle and holds no
-- buffer, no eventfd and no device.
pub record IsSafe (u : Upload) : Type 0 where
  pub in_bounds : All InBounds u.accesses
  pub signalled : All (λ s. held s ≡ 1) u.signals
  pub idle_if_quiet : Quiet u → u.progress ≡ idle
  pub nothing_held : Quiet u → (u.bufs ≡ 0) × (u.ctxs ≡ 0) × (u.devs ≡ 0) × (held u.data_size ≡ 0)
  pub all_written : Quiet u → u.err_code ≡ 0 → u.remaining_size ≡ 0
  pub cleaned_up : Quiet u → u.has_cleanup ≡ true → u.prepares ≡ u.cleanups

Quiet-Place : (u : Upload) → Quiet u → At u → Place off false u
Quiet-Place u (pc, queued) at =
    subst (λ b. Place off b u) queued (subst (λ p. Place p u.queued u) pc at)

-- In every state that a user process which starts a write only behind the worker's end, and a
-- device whose write operation never says that it wrote more than it was given, can reach, in any
-- interleaving of the worker's steps with the calls: what the device's operations were given lies
-- in the buffer, every signal went to an eventfd, and a quiet upload is idle, holds no buffer,
-- eventfd or device, has written all if there was no error, and has had a cleanup for each
-- successful prepare if there is a cleanup.
pub reach-IsSafe : {cleanup : Bool} {u : Upload} → Reach cleanup u → IsSafe u
reach-IsSafe {u} r =
    let s = Reach-IsSound r in
    record {
      in_bounds = s.in_bounds;
      signalled = s.signalled;
      idle_if_quiet = λ q. (Quiet-Place u q s.at).0;
      nothing_held = λ q. let (p, d, b, c, v, e) = Quiet-Place u q s.at in (b, c, v, d);
      all_written = λ q e. (Quiet-Place u q s.at).5 e;
      cleaned_up = λ q e. s.cleanup_owed e ∙ ap (λ p. u.cleanups + owed p) q.0 ∙ omega arith;
    }
