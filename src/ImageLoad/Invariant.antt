-- ===== src/ImageLoad/Invariant.antt =====
-- drivers/fpga/fpga-image-load.c: what the upload holds at each place of its worker, where the user
-- waits for the worker before the next write.
use linux_dfl_backport.Base.{
  ℕ, ◌+◌, ◌^◌, ◌≤◌, ◌<◌, ◌≡◌, ◌≢◌, inl, inr, refl, Bool, true, false, ◌==◌, arith, Bool-cases,
}
use linux_dfl_backport.ImageLoad.Defs.{
  idle, receiving, preparing, transferring, programming, Pc, off, entered, in_prepare, loop,
  in_write, in_poll, done, putdev_exit, completing, putting, Upload, capacity, held,
}
use linux_dfl_backport.ImageLoad.Worker.{
  Answers, prepared, next_block, written_block, polled, cleaned, started, freed,
  fw_upload_prog_complete, put_finished, work_at,
}

-- The user's buffer, the eventfd and the parent device are held, each once.
abbrev pub Holds : Upload → Type 0
Holds u =
    (held u.data_size ≡ 1)
    × (held u.finished ≡ 1)
    × (capacity u.data_size < 2 ^ 32)
    × (u.bufs ≡ 1)
    × (u.ctxs ≡ 1)
    × (u.devs ≡ 1)

-- Without an error, all bytes have been written.
abbrev pub Ended : Upload → Type 0
Ended u = u.err_code ≡ 0 → u.remaining_size ≡ 0

-- What holds at a place of the worker; the second argument is whether a work waits.
abbrev pub Place : Pc → Bool → Upload → Type 0
Place off false u =
    (u.progress ≡ idle)
    × (held u.data_size ≡ 0)
    × (u.bufs ≡ 0)
    × (u.ctxs ≡ 0)
    × (u.devs ≡ 0)
    × Ended u
Place off true u =
    (u.progress ≡ receiving)
    × Holds u
    × (u.err_code ≡ 0)
    × (u.remaining_size ≡ capacity u.data_size)
Place _ true u = ⊥
Place entered false u =
    (u.progress ≡ receiving)
    × Holds u
    × (u.err_code ≡ 0)
    × (u.remaining_size ≡ capacity u.data_size)
Place in_prepare false u =
    (u.progress ≡ preparing)
    × Holds u
    × (u.err_code ≡ 0)
    × (u.remaining_size ≡ capacity u.data_size)
Place (loop offset) false u =
    (u.progress ≡ transferring)
    × Holds u
    × (u.err_code ≡ 0)
    × (offset + u.remaining_size ≡ capacity u.data_size)
Place (in_write offset size) false u =
    (u.progress ≡ transferring)
    × Holds u
    × (u.err_code ≡ 0)
    × (offset + u.remaining_size ≡ capacity u.data_size)
    × (size ≡ u.remaining_size)
    × (0 < size)
Place in_poll false u =
    (u.progress ≡ programming) × Holds u × (u.err_code ≡ 0) × (u.remaining_size ≡ 0)
Place done false u = (u.progress ≢ idle) × Holds u × Ended u
Place putdev_exit false u = (u.progress ≢ idle) × Holds u × Ended u
Place completing false u =
    (u.progress ≢ idle)
    × (held u.data_size ≡ 0)
    × (held u.finished ≡ 1)
    × (u.bufs ≡ 0)
    × (u.ctxs ≡ 1)
    × (u.devs ≡ 0)
    × Ended u
Place putting false u =
    (u.progress ≡ idle)
    × (held u.data_size ≡ 0)
    × (held u.finished ≡ 1)
    × (u.bufs ≡ 0)
    × (u.ctxs ≡ 1)
    × (u.devs ≡ 0)
    × Ended u

abbrev pub At : Upload → Type 0
At u = Place u.pc u.queued u

-- A place at which an error was set: the error is not 0.
failed : (ret : ℕ) {A : Type 0} → ret == 0 ≡ false → ret ≡ 0 → A
failed ret z e = absurd (ground arith)

prepared-At :
    (u : Upload) (ret : ℕ) → u.queued ≡ false → Place in_prepare false u → At (prepared u ret)
unfolding prepared
prepared-At u ret q h = elim (Bool-cases (ret == 0)) [
  | inl z ↦ rw (z, q) (ground arith)
  | inr z ↦ rw (z, q) (λ e. cc, h.1, failed ret z)
]

next_block-At :
    (u : Upload) (offset : ℕ)
    → u.queued ≡ false
    → Place (loop offset) false u
    → At (next_block u offset)
unfolding next_block
next_block-At u offset q h = elim (Bool-cases (u.remaining_size == 0)) [
  | inl z ↦ rw (z, q) (ground arith)
  | inr z ↦ rw (z, q) (ground arith)
]

written_block-At :
    (u : Upload) (offset size ret written : ℕ)
    → written ≤ size
    → u.queued ≡ false
    → Place (in_write offset size) false u
    → At (written_block u offset (ret, written))
unfolding written_block
written_block-At u offset size ret written le q h = elim (Bool-cases (ret == 0)) [
  | inl z ↦ elim (Bool-cases (written == 0)) [
    | inl w ↦ rw (z, w, q) (λ e. cc, h.1, λ e. absurd (omega arith))
    | inr w ↦ rw (z, w, q) (ground arith)
  ]
  | inr z ↦ rw (z, q) (λ e. cc, h.1, failed ret z)
]

polled-At : (u : Upload) (ret : ℕ) → u.queued ≡ false → Place in_poll false u → At (polled u ret)
unfolding polled
polled-At u ret q h = elim (Bool-cases (ret == 0)) [
  | inl z ↦ rw (z, q) (λ e. cc, h.1, λ e. h.3)
  | inr z ↦ rw (z, q) (λ e. cc, h.1, failed ret z)
]

cleaned-At : (u : Upload) (c : Bool) → u.queued ≡ false → Place done false u → At (cleaned u c)
unfolding cleaned
cleaned-At u true q h = rw q h
cleaned-At u false q h = rw q h

freed-At : (u : Upload) → Place putdev_exit false u → Place completing false (freed u)
unfolding freed
freed-At u h = (h.0, refl, h.1.1, omega arith, h.1.4, omega arith, h.2)

completed-At :
    (u : Upload) → Place completing false u → Place putting false (fw_upload_prog_complete u)
unfolding fw_upload_prog_complete
completed-At u h = (refl, h.1, h.2, h.3, h.4, h.5, h.6)

put-At : (u : Upload) → Place putting false u → Place off false (put_finished u)
unfolding put_finished
put-At u h = (h.0, h.1, h.3, omega arith, h.5, h.6)

-- A step of the worker from a place leads to what holds at the next.
pub work_at-At :
    (a : Answers)
    → ((offset size : ℕ) → (a.write offset size).1 ≤ size)
    → (u : Upload) (p : Pc) (b : Bool) → u.pc ≡ p
    → u.queued ≡ b
    → Place p b u
    → At (work_at a u p)
unfolding work_at
work_at-At a within u off false at q h = rw (q, started, at, q) h
work_at-At a within u off true at q h = rw (q, started) h
work_at-At a within u entered false at q h = rw q (ground arith)
work_at-At a within u in_prepare false at q h = prepared-At u a.prepare q h
work_at-At a within u (loop offset) false at q h = next_block-At u offset q h
work_at-At a within u (in_write offset size) false at q h =
    written_block-At u offset size (a.write offset size).0 (a.write offset size).1
      (within offset size) q h
work_at-At a within u in_poll false at q h = polled-At u a.poll_complete q h
work_at-At a within u done false at q h = cleaned-At u u.has_cleanup q h
work_at-At a within u entered true at q h = elim h [ ]
work_at-At a within u in_prepare true at q h = elim h [ ]
work_at-At a within u (loop offset) true at q h = elim h [ ]
work_at-At a within u (in_write offset size) true at q h = elim h [ ]
work_at-At a within u in_poll true at q h = elim h [ ]
work_at-At a within u done true at q h = elim h [ ]
work_at-At a within u putdev_exit true at q h = elim h [ ]
work_at-At a within u completing true at q h = elim h [ ]
work_at-At a within u putting true at q h = elim h [ ]
work_at-At a within u putdev_exit false at q h = rw q (freed-At u h)
work_at-At a within u completing false at q h = rw q (completed-At u h)
work_at-At a within u putting false at q h = rw q (put-At u h)
