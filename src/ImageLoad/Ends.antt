-- ===== src/ImageLoad/Ends.antt =====
-- drivers/fpga/fpga-image-load.c: an upload that was accepted ends, whatever the device answers.
use linux_dfl_backport.Base.{
  ℕ, zero, suc, ◌+◌, ◌*◌, ◌≤◌, ◌<◌, ◌≡◌, refl, sym, ap, ◌∙◌, ◌⊎◌, inl, inr, Bool, true, false, List,
  ◌∷◌, Option, ◌==◌, arith, Bool-cases,
}
use linux_dfl_backport.ImageLoad.Defs.{
  Pc, off, entered, in_prepare, loop, in_write, in_poll, done, putdev_exit, completing, putting,
  Upload,
}
use linux_dfl_backport.ImageLoad.Worker.{
  Answers, prepared, next_block, written_block, polled, cleaned, started, freed,
  fw_upload_prog_complete, put_finished, work_at, fw_upload_main,
}
use linux_dfl_backport.ImageLoad.Steps.{Quiet, Reach, WritesWithin}
use linux_dfl_backport.ImageLoad.Invariant.{Place, At, work_at-At}
use linux_dfl_backport.ImageLoad.Safety.{Reach-At}

-- The worker alone, with the same answers of the device at every step.
unfoldable pub run : ℕ → Answers → Upload → Upload
run zero a u = u
run (suc n) a u = run n a (fw_upload_main a u)

-- The steps that are left at most; the second argument is whether a work waits.
abbrev pub left_at : Pc → Bool → (remaining_size : ℕ) → ℕ
left_at off true r = 2 * r + 9
left_at off false r = 0
left_at entered _ r = 2 * r + 8
left_at in_prepare _ r = 2 * r + 7
left_at (loop _) _ r = 2 * r + 6
left_at (in_write _ _) _ r = 2 * r + 5
left_at in_poll _ r = 5
left_at done _ r = 4
left_at putdev_exit _ r = 3
left_at completing _ r = 2
left_at putting _ r = 1

abbrev pub left : Upload → ℕ
left u = left_at u.pc u.queued u.remaining_size

-- The eventfds that will have been signalled when the worker is done.
abbrev pub announced_at : Pc → Bool → Option ℕ → List (Option ℕ) → List (Option ℕ)
announced_at off false f l = l
announced_at putting _ f l = l
announced_at _ _ f l = f ∷ l

abbrev pub announced : Upload → List (Option ℕ)
announced u = announced_at u.pc u.queued u.finished u.signals

-- A step goes on: it takes one of the steps left, and keeps what will have been signalled.
abbrev GoesOn : Upload → ℕ → List (Option ℕ) → Type 0
GoesOn v n l = (left v < n) × (announced v ≡ l)

prepared-GoesOn :
    (u : Upload) (ret : ℕ)
    → u.queued ≡ false
    → Place in_prepare false u
    → GoesOn (prepared u ret) (2 * u.remaining_size + 7) (u.finished ∷ u.signals)
unfolding prepared
prepared-GoesOn u ret q h = elim (Bool-cases (ret == 0)) [
  | inl z ↦ rw z (omega arith, refl)
  | inr z ↦ rw z (omega arith, refl)
]

next_block-GoesOn :
    (u : Upload) (offset : ℕ)
    → GoesOn (next_block u offset) (2 * u.remaining_size + 6) (u.finished ∷ u.signals)
unfolding next_block
next_block-GoesOn u offset = elim (Bool-cases (u.remaining_size == 0)) [
  | inl z ↦ rw z (omega arith, refl)
  | inr z ↦ rw z (omega arith, refl)
]

written_block-GoesOn :
    (u : Upload) (offset size ret written : ℕ)
    → written ≤ size
    → Place (in_write offset size) false u
    → GoesOn
        (written_block u offset (ret, written))
        (2 * u.remaining_size + 5)
        (u.finished ∷ u.signals)
unfolding written_block
written_block-GoesOn u offset size ret written le h = elim (Bool-cases (ret == 0)) [
  | inl z ↦ elim (Bool-cases (written == 0)) [
    | inl w ↦ rw (z, w) (omega arith, refl)
    | inr w ↦ rw (z, w) (ground arith, refl)
  ]
  | inr z ↦ rw z (omega arith, refl)
]

polled-GoesOn : (u : Upload) (ret : ℕ) → GoesOn (polled u ret) 5 (u.finished ∷ u.signals)
unfolding polled
polled-GoesOn u ret = elim (Bool-cases (ret == 0)) [
  | inl z ↦ rw z (omega arith, refl)
  | inr z ↦ rw z (omega arith, refl)
]

cleaned-GoesOn : (u : Upload) (c : Bool) → GoesOn (cleaned u c) 4 (u.finished ∷ u.signals)
unfolding cleaned
cleaned-GoesOn u true = (omega arith, refl)
cleaned-GoesOn u false = (omega arith, refl)

module _ (a : Answers) (within : WritesWithin a) where
  work_at-GoesOn :
      (u : Upload) (p : Pc) (b : Bool)
      → u.queued ≡ b
      → Place p b u
      → ((p ≡ off) × (b ≡ false))
        ⊎ GoesOn
            (work_at a u p)
            (left_at p b u.remaining_size)
            (announced_at p b u.finished u.signals)
  unfolding work_at freed fw_upload_prog_complete put_finished
  work_at-GoesOn u off false q h = inl (refl, refl)
  work_at-GoesOn u off true q h = rw (q, started) (inr (omega arith, refl))
  work_at-GoesOn u entered false q h = inr (omega arith, refl)
  work_at-GoesOn u entered true q h = elim h [ ]
  work_at-GoesOn u in_prepare false q h = inr (prepared-GoesOn u a.prepare q h)
  work_at-GoesOn u in_prepare true q h = elim h [ ]
  work_at-GoesOn u (loop offset) false q h = inr (next_block-GoesOn u offset)
  work_at-GoesOn u (loop offset) true q h = elim h [ ]
  work_at-GoesOn u (in_write offset size) false q h = inr (
      written_block-GoesOn u offset size (a.write offset size).0 (a.write offset size).1
        (within offset size) h)
  work_at-GoesOn u (in_write offset size) true q h = elim h [ ]
  work_at-GoesOn u in_poll false q h = inr (polled-GoesOn u a.poll_complete)
  work_at-GoesOn u in_poll true q h = elim h [ ]
  work_at-GoesOn u done false q h = inr (cleaned-GoesOn u u.has_cleanup)
  work_at-GoesOn u done true q h = elim h [ ]
  work_at-GoesOn u putdev_exit false q h = inr (omega arith, refl)
  work_at-GoesOn u putdev_exit true q h = elim h [ ]
  work_at-GoesOn u completing false q h = inr (omega arith, refl)
  work_at-GoesOn u completing true q h = elim h [ ]
  work_at-GoesOn u putting false q h = rw q (inr (omega arith, refl))
  work_at-GoesOn u putting true q h = elim h [ ]

  Quiet-stays : (u : Upload) → Quiet u → fw_upload_main a u ≡ u
  unfolding fw_upload_main work_at started
  Quiet-stays u (pc, queued) = ap (work_at a u) pc ∙ ap (started u) queued

  run-Quiet : (n : ℕ) (u : Upload) → Quiet u → run n a u ≡ u
  unfolding run
  run-Quiet zero u q = refl
  run-Quiet (suc n) u q = ap (run n a) (Quiet-stays u q) ∙ run-Quiet n u q

  Quiet-announced : (u : Upload) → Quiet u → announced u ≡ u.signals
  Quiet-announced u (pc, queued) =
      ap (λ p. announced_at p u.queued u.finished u.signals) pc
      ∙ ap (λ b. announced_at off b u.finished u.signals) queued

  no_steps_left :
      (u : Upload) (p : Pc) (b : Bool) → left_at p b u.remaining_size ≤ 0 → (p ≡ off) × (b ≡ false)
  no_steps_left u off false h = (refl, refl)
  no_steps_left u off true h = absurd (omega arith)
  no_steps_left u entered b h = absurd (omega arith)
  no_steps_left u in_prepare b h = absurd (omega arith)
  no_steps_left u (loop offset) b h = absurd (omega arith)
  no_steps_left u (in_write offset size) b h = absurd (omega arith)
  no_steps_left u in_poll b h = absurd (omega arith)
  no_steps_left u done b h = absurd (omega arith)
  no_steps_left u putdev_exit b h = absurd (omega arith)
  no_steps_left u completing b h = absurd (omega arith)
  no_steps_left u putting b h = absurd (omega arith)

  run-ends :
      (n : ℕ) (u : Upload)
      → At u
      → left u ≤ n
      → Quiet (run n a u) × ((run n a u).signals ≡ announced u)
  unfolding run fw_upload_main
  run-ends zero u at le =
      let quiet = no_steps_left u u.pc u.queued le in (quiet, sym (Quiet-announced u quiet))
  run-ends (suc n) u at le = elim (work_at-GoesOn u u.pc u.queued refl at) [
    | inl quiet ↦ rw (run-Quiet (suc n) u quiet) (quiet, sym (Quiet-announced u quiet))
    | inr (lt, same) ↦
        let (q, s) =
          run-ends n (fw_upload_main a u) (work_at-At a within u u.pc u.queued refl refl at)
            (omega arith) in
        (q, s ∙ same)
  ]

left-le : (p : Pc) (b : Bool) (r : ℕ) → left_at p b r ≤ 2 * r + 9
left-le off false r = omega arith
left-le off true r = omega arith
left-le entered b r = omega arith
left-le in_prepare b r = omega arith
left-le (loop offset) b r = omega arith
left-le (in_write offset size) b r = omega arith
left-le in_poll b r = omega arith
left-le done b r = omega arith
left-le putdev_exit b r = omega arith
left-le completing b r = omega arith
left-le putting b r = omega arith

-- From every reachable state the worker, left alone, is done within twice the bytes that remain and
-- nine more steps, and has then signalled the eventfd that waited, if a work ran, and no other; the
-- write operation does not say that it wrote more than it was given.
pub upload_ends :
    {cleanup : Bool} {u : Upload} (a : Answers)
    → Reach cleanup u
    → WritesWithin a
    → let v = run (2 * u.remaining_size + 9) a u in Quiet v × (v.signals ≡ announced u)
upload_ends {u} a r within =
    run-ends a within _ u (Reach-At r) (left-le u.pc u.queued u.remaining_size)
