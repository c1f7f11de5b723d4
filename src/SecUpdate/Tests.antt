-- ===== src/SecUpdate/Tests.antt =====
-- drivers/fpga/intel-m10-bmc-sec-update.c: an update of an N3000 card, over SPI, whose answers are
-- given.
use linux_dfl_backport.Base.{
  ℕ, suc, ◌+◌, ◌-◌, ◌%◌, ◌^◌, ◌≤◌, ◌<◌, ◌≡◌, refl, Bool, true, false, List, [], ◌∷◌, some, arith,
  Bool-cases, if◌then◌else◌, inl, inr, ok, HasResult,
}
use linux_dfl_backport.Avmm.Rx.{time_after}
use linux_dfl_backport.SecUpdate.Defs.{FwState, Card, Sec, m10bmc_fw_state_set}
use linux_dfl_backport.SecUpdate.Ops.{
  m10bmc_sec_prepare, m10bmc_sec_fw_write, m10bmc_sec_poll_complete, m10bmc_sec_cleanup, completed,
}
use linux_dfl_backport.SecUpdate.Outcomes.{PrepareOutcome, prepare-outcome, taken, said}
use linux_dfl_backport.SecUpdate.Sessions.{begun, writes, update_gives_back}
use linux_dfl_backport.SecUpdate.Complete.{SaidDone, poll_complete-SaidDone}
use linux_dfl_backport.SecUpdate.Waits.{Clock, update_waits_end}

-- The doorbells that are read next, the time, and what was written to the staging area.
record World : Type 0 where
  doorbells : List ℕ
  time : ℕ
  staged : List (ℕ × List ℕ)

abbrev next : List ℕ → ℕ
next [] = 0
next (v ∷ vs) = v

abbrev others : List ℕ → List ℕ
others [] = []
others (v ∷ vs) = vs

-- read_poll_timeout, which reads once here.
abbrev poll_once : (A : Type 0) → (World → A × World) → (A → Bool) → World → (A × World) × Bool
poll_once A op cond w = let (a, w') = op w in ((a, w'), if cond a then false else true)

abbrev card : Card World
card = record {
  has_handshake_regs = true;
  reg_in_ranges = λ offset. false;
  doorbell = 0x400;
  auth_result = 0x404;
  staging_size = 0x3800000;
  has_flash_bulk_ops = false;
  n6000 = false;
  reg_stride = 4;
  regmap_read = λ offset w. (ok (next w.doorbells), record w { doorbells = others w.doorbells });
  regmap_update_bits = λ offset mask value w. (0, w);
  regmap_bulk_write = λ offset bytes w. (0, record w { staged = (offset, bytes) ∷ w.staged });
  regmap_write = λ offset bytes w. (0, record w { staged = (offset, bytes) ∷ w.staged });
  flash_write = λ buf offset size w. (0, w);
  jiffies = λ w. w.time % 2 ^ 64;
  msecs_to_jiffies = λ ms. ms;
  msleep = λ ms w. record w { time = w.time + 1 };
  read_poll_timeout = poll_once;
}

abbrev start : Sec World
start = record {
  dev = record { doorbells = 0 ∷ 0x30 ∷ 0x30 ∷ 0x30 ∷ 0x30 ∷ []; time = 0; staged = [] };
  fw_state = FwState.normal;
  flash_busy = false;
  cancel_request = false;
}

-- Idle at first, ready at once.
abbrev prepared : Sec World
prepared = record {
  dev = record { doorbells = 0x30 ∷ []; time = 0; staged = [] };
  fw_state = FwState.write;
  flash_busy = false;
  cancel_request = false;
}

prepare_run : m10bmc_sec_prepare card 3 start 6 false ≡ some (prepared, 0)
unfolding m10bmc_sec_prepare
prepare_run = refl

prepare-outcome_example :
    PrepareOutcome card start (prepared, 0) × (◌≡◌ {A = ℕ} 0 0 → (0 < 6) × (6 ≤ card.staging_size))
prepare-outcome_example = prepare-outcome card 3 start 6 false prepare_run

-- The image is written in one block.
abbrev image : List ℕ
image = 1 ∷ 2 ∷ 3 ∷ 4 ∷ 5 ∷ 6 ∷ []

abbrev filled : Sec World
filled = (m10bmc_sec_fw_write card prepared image 0 6 false).0

update_gives_back_example :
    (filled.flash_busy ≡ taken card start.flash_busy)
    × ((m10bmc_sec_cleanup card filled).flash_busy ≡ start.flash_busy)
    × ((m10bmc_sec_cleanup card filled).fw_state ≡ said card FwState.normal start.fw_state)
update_gives_back_example =
    update_gives_back card 3 start 6 false prepare_run (writes image 0 6 false begun)

write_run : filled.dev.staged ≡ (0x18000004, 5 ∷ 6 ∷ []) ∷ (0x18000000, 1 ∷ 2 ∷ 3 ∷ 4 ∷ []) ∷ []
unfolding m10bmc_sec_fw_write
write_run = refl

-- The processor authenticates the image, and is done a second later.
abbrev sent : Sec World
sent = record prepared {
  dev = record { doorbells = 0x40 ∷ 0 ∷ 0x80 ∷ 0 ∷ []; time = 0; staged = [] };
}

abbrev complete : Sec World
complete = record sent {
  dev = record { doorbells = []; time = 1; staged = [] };
  fw_state = FwState.program;
}

poll_run : m10bmc_sec_poll_complete card 2 sent false ≡ some (complete, 0)
unfolding m10bmc_sec_poll_complete completed
poll_run = refl

poll_complete-SaidDone_example :
    SaidDone card (m10bmc_fw_state_set card FwState.program sent).fw_state complete.dev
poll_complete-SaidDone_example = poll_complete-SaidDone card 2 sent false poll_run

-- The time that is left, where the time may be reached or not.
left_to : Bool → ℕ → ℕ → ℕ
left_to true time now = 0
left_to false time now = suc ((time + 2 ^ 64 - now) % 2 ^ 64)

left_to-le : (b : Bool) (time now : ℕ) → left_to b time now ≤ 2 ^ 64
unfolding left_to
left_to-le true time now = omega arith
left_to-le false time now = omega arith

-- The distance to a time that has not passed.
not_after : (now time : ℕ) → time_after now time ≡ false → (time + 2 ^ 64 - now) % 2 ^ 64 < 2 ^ 63
unfolding time_after
not_after now time h = ground arith

left_to-lt :
    (time t : ℕ)
    → time_after (t % 2 ^ 64) time ≡ false
    → left_to (time_after ((t + 1) % 2 ^ 64) time) time ((t + 1) % 2 ^ 64)
      < left_to (time_after (t % 2 ^ 64) time) time (t % 2 ^ 64)
unfolding left_to
left_to-lt time t h = elim (Bool-cases (time_after ((t + 1) % 2 ^ 64) time)) [
  | inl a ↦ rw (a, h) (omega arith)
  | inr a ↦
      rw (a, h) (omega (arith, not_after ((t + 1) % 2 ^ 64) time a, not_after (t % 2 ^ 64) time h))
]

left_to-zero : (b : Bool) (time now : ℕ) → left_to b time now ≡ 0 → b ≡ true
unfolding left_to
left_to-zero true time now h = refl
left_to-zero false time now h = absurd (omega arith)

abbrev clock : Clock card
clock = record {
  left = λ time w. left_to (time_after (w.time % 2 ^ 64) time) time (w.time % 2 ^ 64);
  bound = 2 ^ 64;
  left_bounded = λ time w. left_to-le _ time _;
  slept = λ time ms w h. left_to-lt time w.time h;
  read_slept = λ time ms offset w h. left_to-lt time w.time h;
  read = λ time offset w. omega arith;
  expired = λ time w h. left_to-zero _ time _ h;
}

update_waits_end_example :
    HasResult (m10bmc_sec_prepare card (2 ^ 64 + 1) start 6 false)
    × HasResult (m10bmc_sec_poll_complete card (2 ^ 64 + 1) start false)
update_waits_end_example = update_waits_end card clock (2 ^ 64 + 1) start 6 false (omega arith)
