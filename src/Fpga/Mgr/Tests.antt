-- ===== src/Fpga/Mgr/Tests.antt =====
-- drivers/fpga/fpga-mgr.c: the load of an image of eight bytes: a header of three, which the driver
-- asks for when it has seen two, and four bytes of data.
use linux_dfl_backport.Base.{
  ℕ, ◌≡◌, refl, sym, ap, ◌∙◌, true, inl, inr, List, [], ◌∷◌, ◌++◌, Option, none, some, ltb, leb,
  if◌then◌else◌, length, take, drop, flatten, arith, Bool-cases, Result, err, HasResult, IfSome,
}
use mathlib.Core.List.{append-nil}
use linux_dfl_backport.Fpga.Mgr.Defs.{MgrState, eagain, Ops, Mgr, Kernel, fpga_mgr_write}
use linux_dfl_backport.Fpga.Mgr.Prepare.{fpga_mgr_parse_header_sg}
use linux_dfl_backport.Fpga.Mgr.Load.{sg_written, data_of, data_chunks, fpga_mgr_load, chunk_length}
use linux_dfl_backport.Fpga.Mgr.Outcome.{LoadOutcome, load-LoadOutcome}
use linux_dfl_backport.Fpga.Mgr.Ends.{Copies, load_ends}
use linux_dfl_backport.Fpga.Mgr.Written.{Skips, Wrote, sg_written-mapped}

-- The driver's state is the bytes that it got.
abbrev add_bytes : List ℕ → List ℕ → ℕ × List ℕ
add_bytes bytes d = (0, d ++ bytes)

abbrev ops : Ops (List ℕ)
ops = record {
  initial_header_size = 2;
  skip_header = true;
  parse_header = some (λ info buf d.
      if ltb (length buf) 3
      then ((eagain, record { header_size = 3; data_size = 0 }), d)
      else ((0, record { header_size = 3; data_size = 4 }), d));
  write_init = none;
  write = some add_bytes;
  write_sg = none;
  write_complete = none;
}

abbrev joined : List (List ℕ) → ℕ → Option (List (List ℕ))
joined chunks n =
    if leb n (length (flatten chunks)) then some (drop n (flatten chunks) ∷ []) else none

abbrev kernel : Kernel
kernel = record {
  krealloc = λ size. true;
  sg_miter_skip = joined;
  sg_pcopy_to_buffer = λ chunks len skip. take len (drop skip (flatten chunks));
}

kernel-Copies : Copies kernel
kernel-Copies chunks len skip = refl

kernel-Skips : Skips kernel
kernel-Skips chunks rest n h = elim (Bool-cases (leb n (length (flatten chunks)))) [
  | inl e ↦
      let q : drop n (flatten chunks) ∷ [] ≡ rest = ground (arith, h, e) in
      ap flatten (sym q) ∙ append-nil (drop n (flatten chunks))
  | inr e ↦ absurd (ground (arith, h, e))
]

abbrev image : List (List ℕ)
image = (1 ∷ 2 ∷ []) ∷ (3 ∷ 4 ∷ 5 ∷ []) ∷ (6 ∷ 7 ∷ 8 ∷ []) ∷ []

abbrev start : Mgr (List ℕ)
start = record {
  state = MgrState.unknown;
  info = record { header_size = 0; data_size = 0 };
  drv = [];
}

-- No buffer is turned into pages.
abbrev no_pages : List ℕ → Result (List (List ℕ))
no_pages buf = err 12

load-LoadOutcome_example :
    IfSome (LoadOutcome start) (fpga_mgr_load ops 9 kernel no_pages start (some image) [] none)
load-LoadOutcome_example =
    load-LoadOutcome ops kernel no_pages (λ buf e. absurd (omega arith)) 9 start (some image) []
      none tt

load_ends_example : HasResult (fpga_mgr_load ops 9 kernel no_pages start (some image) [] none)
load_ends_example =
    load_ends ops kernel kernel-Copies no_pages (λ buf chunks e. absurd (cc)) 9 start (some image)
      [] none (omega arith)

load_run :
    fpga_mgr_load ops 9 kernel no_pages start (some image) [] none
    ≡ some (
      record {
        state = MgrState.operating;
        info = record { header_size = 3; data_size = 4 };
        drv = 4 ∷ 5 ∷ 6 ∷ 7 ∷ [];
      },
      0,
    )
unfolding fpga_mgr_load chunk_length fpga_mgr_parse_header_sg
load_run = refl

-- Behind the preparation.
abbrev ready : Mgr (List ℕ)
ready = record start { info = record { header_size = 3; data_size = 4 } }

sg_written-mapped_example :
    Wrote
      (λ d. d)
      ready
      (data_of ops ready.info (flatten image))
      (sg_written ops none kernel image ready)
    × Wrote
        (λ d. d)
        ready
        (data_of ops ready.info (flatten image))
        (fpga_mgr_write ops.write ready (data_of ops ready.info (flatten image)))
unfolding data_chunks
sg_written-mapped_example =
    sg_written-mapped ops add_bytes (λ d. d) refl (λ bytes d. (refl, refl)) kernel image
      ((4 ∷ 5 ∷ 6 ∷ 7 ∷ 8 ∷ []) ∷ []) ready kernel-Skips refl
