-- ===== src/Dfl/Irq/Tests.antt =====
-- drivers/fpga/dfl.c: runs of the interrupt triggers on a sub feature with three interrupts.
use linux_dfl_backport.Base.{
  ◌+◌, ◌≤◌, ◌<◌, ◌≡◌, ◌≢◌, refl, true, [], ◌∷◌, none, some, arith, ok, err, ◌⊎◌, einval,
  if◌then◌else◌, ◌==◌,
}
use linux_dfl_backport.Dfl.Irq.{
  null, live, State, Env, set_ctx, fds_of, dfl_fpga_set_irq_triggers, dfl_feature_ioctl_set_irq,
}
use linux_dfl_backport.Dfl.Irq.Balance.{set_triggers-IsBalanced}
use linux_dfl_backport.Dfl.Irq.Bind.{IsBalanced, count_bound, one_if}
use linux_dfl_backport.Dfl.Irq.Effect.{AllSet, Undone, set_triggers_outcome}
use linux_dfl_backport.Dfl.Irq.Single.{HasErrors}

-- Descriptor 9 is no eventfd; the handler of interrupt 42 cannot be installed.
abbrev env : Env
env = record {
  kasprintf = λ idx. true;
  eventfd_ctx_fdget = λ fd. if fd == 9 then err 9 else ok (fd + 100);
  request_irq = λ irq trigger. if irq == 42 then 16 else 0;
}

abbrev one_bound : State
one_bound = record {
  irq_ctx = λ i.
      if i == 0
      then record { irq = 40; name = live; trigger = some 107 }
      else record { irq = 40 + i; name = null; trigger = none };
  ledger = record { names = 1; refs = 1; handlers = 1 };
}

one_bound-IsBalanced : IsBalanced 3 one_bound
unfolding count_bound one_if
one_bound-IsBalanced = record { names = refl; refs = refl; handlers = refl }

has_errors : HasErrors env
has_errors fd e h = ground arith

set_triggers-IsBalanced_example :
    IsBalanced 3
      (dfl_fpga_set_irq_triggers env one_bound 3 0 3 (some (some 5 ∷ some 6 ∷ some 7 ∷ []))).0
set_triggers-IsBalanced_example =
    set_triggers-IsBalanced env one_bound 3 0 3 (some (some 5 ∷ some 6 ∷ some 7 ∷ [])) (omega arith)
      (omega arith) one_bound-IsBalanced

set_triggers_outcome_example :
    let (st', status) =
      dfl_fpga_set_irq_triggers env one_bound 3 0 3 (some (some 5 ∷ some 6 ∷ some 7 ∷ [])) in
    ((status ≡ 0)
      × (3 ≤ 3)
      × AllSet env one_bound st' 0 (fds_of 3 (some (some 5 ∷ some 6 ∷ some 7 ∷ []))))
    ⊎ ((status ≡ einval) × (st' ≡ one_bound) × (3 < 3))
    ⊎ ((status ≢ 0) × (3 ≤ 3) × Undone one_bound st' 0 3)
set_triggers_outcome_example =
    set_triggers_outcome env has_errors one_bound 3 0 3 (some (some 5 ∷ some 6 ∷ some 7 ∷ []))
      (omega arith) (omega arith) (omega arith)

-- Interrupt 42 is refused: its status is the result, and the three contexts are unbound.
refused_run :
    let (st', status) =
      dfl_feature_ioctl_set_irq env one_bound 3
        (some (0, 3))
        (ok (some 5 ∷ some 6 ∷ some 7 ∷ [])) in
    (status ≡ 16)
    × ((st'.irq_ctx 0).trigger ≡ none)
    × ((st'.irq_ctx 1).trigger ≡ none)
    × (st'.ledger.refs ≡ 0)
unfolding dfl_feature_ioctl_set_irq set_ctx
refused_run = (refl, refl, refl, refl)
