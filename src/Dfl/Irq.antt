-- ===== src/Dfl/Irq.antt =====
-- drivers/fpga/dfl.c: binding eventfds to the interrupts of a sub feature (do_set_irq_trigger,
-- dfl_fpga_set_irq_triggers, dfl_feature_ioctl_set_irq), with a ledger of what is out.
use linux_dfl_backport.Base.{
  ℕ, zero, suc, ◌+◌, ◌-◌, ◌%◌, ◌^◌, Bool, true, false, not, ◌||◌, List, [], ◌∷◌, Option, none, some,
  ltb, ◌==◌, if◌then◌else◌, Result, ok, err, enoent, enomem, efault, einval, take, replicate,
}
pub mod Bind
pub mod Balance
pub mod Single
pub mod Effect
pub mod Tests

-- The pointer `name` of a context: NULL, an allocated name, or one that was freed and stays behind.
pub data Name : Type 0 where
  null live freed : Name

-- struct dfl_feature_irq_ctx; a trigger is the number of an eventfd context.
pub record IrqCtx : Type 0 where
  pub irq : ℕ
  pub name : Name
  pub trigger : Option ℕ

-- Names that are allocated, references to eventfds, and interrupt handlers that are installed.
pub record Ledger : Type 0 where
  pub names : ℕ
  pub refs : ℕ
  pub handlers : ℕ

-- The array irq_ctx is a function of the index.
pub record State : Type 0 where
  pub irq_ctx : ℕ → IrqCtx
  pub ledger : Ledger

-- The kernel's functions: whether the name is allocated for an index, the eventfd of a file
-- descriptor, and the status of installing a handler for an interrupt and a trigger.
pub record Env : Type 0 where
  pub kasprintf : ℕ → Bool
  pub eventfd_ctx_fdget : ℕ → Result ℕ
  pub request_irq : ℕ → ℕ → ℕ

unfoldable pub set_ctx : (ℕ → IrqCtx) → ℕ → IrqCtx → ℕ → IrqCtx
set_ctx ctx idx c j = if j == idx then c else ctx j

-- The first part of do_set_irq_trigger; the last argument is the trigger that is set.
unfoldable pub released : State → ℕ → Option ℕ → State
released st idx none = st
released st idx (some t) = record {
  irq_ctx = set_ctx st.irq_ctx idx (record (st.irq_ctx idx) { name = freed; trigger = none });
  ledger = record {
    names = st.ledger.names - 1;
    refs = st.ledger.refs - 1;
    handlers = st.ledger.handlers - 1;
  };
}

unfoldable pub release : State → ℕ → State
unfolding released
release st idx = released st idx (st.irq_ctx idx).trigger

-- The label free_name.
unfoldable pub free_name : State → ℕ → State
free_name st idx = record {
  irq_ctx = set_ctx st.irq_ctx idx (record (st.irq_ctx idx) { name = freed });
  ledger = record (st.ledger) { names = st.ledger.names - 1 };
}

-- The name is allocated.
abbrev pub named : State → ℕ → State
named st idx = record {
  irq_ctx = set_ctx st.irq_ctx idx (record (st.irq_ctx idx) { name = live });
  ledger = record (st.ledger) { names = st.ledger.names + 1 };
}

-- eventfd_ctx_fdget takes a reference.
abbrev pub taken : State → State
taken st = record st { ledger = record (st.ledger) { refs = st.ledger.refs + 1 } }

-- eventfd_ctx_put gives it back.
unfoldable pub put_trigger : State → State
put_trigger st = record st { ledger = record (st.ledger) { refs = st.ledger.refs - 1 } }

-- The trigger is set, and its handler installed.
abbrev pub bound : State → ℕ → ℕ → State
bound st idx trigger = record {
  irq_ctx = set_ctx st.irq_ctx idx (record (st.irq_ctx idx) { trigger = some trigger });
  ledger = record (st.ledger) { handlers = st.ledger.handlers + 1 };
}

-- What request_irq returned.
unfoldable pub requested : State → ℕ → ℕ → (status : ℕ) → State × ℕ
unfolding free_name put_trigger
requested st idx trigger status =
    if status == 0 then (bound st idx trigger, 0) else (free_name (put_trigger st) idx, status)

-- What eventfd_ctx_fdget returned.
unfoldable pub got_trigger : Env → State → ℕ → Result ℕ → State × ℕ
unfolding requested
got_trigger env st idx (err e) = (free_name st idx, e)
got_trigger env st idx (ok trigger) =
    requested (taken st) idx trigger (env.request_irq (st.irq_ctx idx).irq trigger)

-- From kasprintf on.
unfoldable pub bind : Env → State → ℕ → (fd : ℕ) → State × ℕ
unfolding got_trigger
bind env st idx fd =
    if not (env.kasprintf idx)
    then (
      record st { irq_ctx = set_ctx st.irq_ctx idx (record (st.irq_ctx idx) { name = null }) },
      enomem,
    )
    else got_trigger env (named st idx) idx (env.eventfd_ctx_fdget fd)

-- A negative fd is `none`. The result is the status, 0 or an error number.
unfoldable pub do_set_irq_trigger : Env → State → ℕ → Option ℕ → State × ℕ
unfolding release bind
do_set_irq_trigger env st idx none = (release st idx, 0)
do_set_irq_trigger env st idx (some fd) = bind env (release st idx) idx fd

-- The loop `while (i--)`.
unfoldable pub rollback : Env → State → (start i : ℕ) → State
unfolding do_set_irq_trigger
rollback env st start zero = st
rollback env st start (suc i) = rollback env (do_set_irq_trigger env st (start + i) none).0 start i

-- The loop of dfl_fpga_set_irq_triggers, at index i, with the descriptors that are left.
unfoldable pub set_from : Env → State → (start i : ℕ) → List (Option ℕ) → State × ℕ
unfolding rollback
set_from env st start i [] = (st, 0)
set_from env st start i (fd ∷ fds) =
    let r = do_set_irq_trigger env st (start + i) fd in
    let rest = set_from env r.0 start (i + 1) fds in
    if r.1 == 0 then rest else (rollback env r.0 start i, r.1)

-- `none` is the NULL pointer.
unfoldable pub fds_of : ℕ → Option (List (Option ℕ)) → List (Option ℕ)
fds_of count none = replicate count none
fds_of count (some fds) = take count fds

-- The sums are of unsigned ints.
unfoldable pub dfl_fpga_set_irq_triggers :
    Env → State → (nr_irqs start count : ℕ) → Option (List (Option ℕ)) → State × ℕ
unfolding set_from fds_of
dfl_fpga_set_irq_triggers env st nr_irqs start count fds =
    if ltb ((start + count) % 2 ^ 32) start
    then (st, einval)
    else if ltb nr_irqs ((start + count) % 2 ^ 32)
    then (st, einval)
    else set_from env st start 0 (fds_of count fds)

-- What memdup_user gave.
unfoldable pub with_fds :
    Env → State → (nr_irqs start count : ℕ) → Result (List (Option ℕ)) → State × ℕ
unfolding dfl_fpga_set_irq_triggers
with_fds env st nr_irqs start count (err e) = (st, e)
with_fds env st nr_irqs start count (ok fds) =
    dfl_fpga_set_irq_triggers env st nr_irqs start count (some fds)

-- `hdr` is the header that copy_from_user copies, start and count, if it does; `fds` what
-- memdup_user returns.
unfoldable pub dfl_feature_ioctl_set_irq :
    Env → State → (nr_irqs : ℕ) → Option (ℕ × ℕ) → Result (List (Option ℕ)) → State × ℕ
unfolding with_fds
dfl_feature_ioctl_set_irq env st nr_irqs none fds =
    if nr_irqs == 0 then (st, enoent) else (st, efault)
dfl_feature_ioctl_set_irq env st nr_irqs (some (start, count)) fds =
    if nr_irqs == 0
    then (st, enoent)
    else if count == 0
        || (ltb nr_irqs ((start + count) % 2 ^ 32) || ltb ((start + count) % 2 ^ 32) start)
    then (st, einval)
    else with_fds env st nr_irqs start count fds
