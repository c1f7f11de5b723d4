-- ===== src/ImageLoad/Kept.antt =====
-- drivers/fpga/fpga-image-load.c: what a call of the user process keeps.
use linux_dfl_backport.Base.{
  ℕ, ◌^◌, ◌<◌, ◌≡◌, ◌⊎◌, inl, inr, refl, subst, sym, ◌∙◌, Bool, true, false, ◌==◌, arith,
  Bool-cases, Result, ok, err,
}
use linux_dfl_backport.ImageLoad.Defs.{
  Pc, off, entered, in_prepare, loop, in_write, in_poll, done, putdev_exit, completing, putting,
  Upload,
}
use linux_dfl_backport.ImageLoad.Calls.{WriteCall, with_ctx, with_buf, fpga_image_load_ioctl_write}
use linux_dfl_backport.ImageLoad.Steps.{Quiet}
use linux_dfl_backport.ImageLoad.Invariant.{Place, At}
use linux_dfl_backport.ImageLoad.Sound.{IsSound}

-- What no call of the user changes.
pub record Keeps (u v : Upload) : Type 0 where
  pub pc : v.pc ≡ u.pc
  pub accesses : v.accesses ≡ u.accesses
  pub signals : v.signals ≡ u.signals
  pub has_cleanup : v.has_cleanup ≡ u.has_cleanup
  pub prepares : v.prepares ≡ u.prepares
  pub cleanups : v.cleanups ≡ u.cleanups

keeps : (u : Upload) → Keeps u u
keeps u = record {
  pc = refl;
  accesses = refl;
  signals = refl;
  has_cleanup = refl;
  prepares = refl;
  cleanups = refl;
}

pub Keeps-IsSound : (u v : Upload) → Keeps u v → At v → IsSound u → IsSound v
Keeps-IsSound u v k at s = record {
  at = at;
  in_bounds = rw k.accesses s.in_bounds;
  signalled = rw k.signals s.signalled;
  cleanup_owed = λ e. rw (k.prepares, k.cleanups, k.pc) (s.cleanup_owed (sym k.has_cleanup ∙ e));
}

pub marked-At :
    (u : Upload) (opened : Bool) (cancels : ℕ) (p : Pc) (b : Bool)
    → Place p b u
    → Place p b (record u { opened = opened; cancels = cancels })
marked-At u opened cancels off false h = h
marked-At u opened cancels off true h = h
marked-At u opened cancels entered false h = h
marked-At u opened cancels entered true h = elim h [ ]
marked-At u opened cancels in_prepare false h = h
marked-At u opened cancels in_prepare true h = elim h [ ]
marked-At u opened cancels (loop offset) false h = h
marked-At u opened cancels (loop offset) true h = elim h [ ]
marked-At u opened cancels (in_write offset size) false h = h
marked-At u opened cancels (in_write offset size) true h = elim h [ ]
marked-At u opened cancels in_poll false h = h
marked-At u opened cancels in_poll true h = elim h [ ]
marked-At u opened cancels done false h = h
marked-At u opened cancels done true h = elim h [ ]
marked-At u opened cancels putdev_exit false h = h
marked-At u opened cancels putdev_exit true h = elim h [ ]
marked-At u opened cancels completing false h = h
marked-At u opened cancels completing true h = elim h [ ]
marked-At u opened cancels putting false h = h
marked-At u opened cancels putting true h = elim h [ ]

module _ (c : WriteCall) (u : Upload) where
  -- The upload behind a write: as before, or what the look up of the eventfd makes of it.
  abbrev pub Outcome : Upload → Type 0
  Outcome v = (v ≡ u) ⊎ (v ≡ (with_ctx u c.size c.eventfd_ctx_fdget).0)

  buf-cases : (there : Bool) → Outcome (with_buf c u there).0
  unfolding with_buf
  buf-cases false = inl refl
  buf-cases true = elim (Bool-cases c.image_copied) [
    | inl e ↦ rw e (inr refl)
    | inr e ↦ rw e (inl refl)
  ]

  pub write-cases : Outcome (fpga_image_load_ioctl_write c u).0
  unfolding fpga_image_load_ioctl_write
  write-cases = elim (Bool-cases c.args_copied) [
    | inl e1 ↦ elim (Bool-cases (c.flags == 0)) [
      | inl e2 ↦ elim (Bool-cases (c.size == 0)) [
        | inl e3 ↦ rw (e1, e2, e3) (inl refl)
        | inr e3 ↦ elim (Bool-cases c.evtfd_negative) [
          | inl e4 ↦ rw (e1, e2, e3, e4) (inl refl)
          | inr e4 ↦ rw (e1, e2, e3, e4) (buf-cases c.vzalloc)
        ]
      ]
      | inr e2 ↦ rw (e1, e2) (inl refl)
    ]
    | inr e1 ↦ rw e1 (inl refl)
  ]

pub ctx-Keeps : (u : Upload) (size : ℕ) (r : Result ℕ) → Keeps u (with_ctx u size r).0
unfolding with_ctx
ctx-Keeps u size (ok ctx) = record {
  pc = refl;
  accesses = refl;
  signals = refl;
  has_cleanup = refl;
  prepares = refl;
  cleanups = refl;
}
ctx-Keeps u size (err e) = record {
  pc = refl;
  accesses = refl;
  signals = refl;
  has_cleanup = refl;
  prepares = refl;
  cleanups = refl;
}

pub ctx-At :
    (u : Upload) (size : ℕ) (r : Result ℕ)
    → Quiet u
    → size < 2 ^ 32
    → At u
    → At (with_ctx u size r).0
unfolding with_ctx
ctx-At u size (ok ctx) (pc, queued) small at =
    let h : Place off false u =
      subst (λ b. Place off b u) queued (subst (λ p. Place p u.queued u) pc at) in
    rw pc (refl, (refl, refl, small, omega arith, omega arith, omega arith), refl, refl)
ctx-At u size (err e) (pc, queued) small at =
    let h : Place off false u =
      subst (λ b. Place off b u) queued (subst (λ p. Place p u.queued u) pc at) in
    rw (pc, queued) h
