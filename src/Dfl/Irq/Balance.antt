-- ===== src/Dfl/Irq/Balance.antt =====
-- drivers/fpga/dfl.c: the ledger of the interrupt triggers beside the contexts that are bound.
use linux_dfl_backport.Base.{
  ℕ, zero, suc, ◌+◌, ◌%◌, ◌^◌, ◌≤◌, ◌<◌, ◌≡◌, ◌≢◌, refl, List, [], ◌∷◌, Option, none, some, arith,
  ltb, ◌==◌, take, length, length-replicate, Bool-cases, ==_iff, inl, inr,
}
use linux_dfl_backport.Dfl.Irq.{
  State, Env, do_set_irq_trigger, rollback, set_from, fds_of, dfl_fpga_set_irq_triggers,
}
use linux_dfl_backport.Dfl.Irq.Bind.{IsBalanced, do_set-IsBalanced}

rollback-IsBalanced :
    (n : ℕ) (env : Env) (st : State) (start i : ℕ)
    → start + i ≤ n
    → IsBalanced n st
    → IsBalanced n (rollback env st start i)
unfolding rollback
rollback-IsBalanced n env st start zero h b = b
rollback-IsBalanced n env st start (suc i) h b =
    rollback-IsBalanced n env (do_set_irq_trigger env st (start + i) none).0 start i (omega arith)
      (do_set-IsBalanced n env st (start + i) none (omega arith) b)

-- One round of the loop.
pub set_from-ok :
    (env : Env) (st : State) (start i : ℕ) (fd : Option ℕ) (fds : List (Option ℕ))
    → (do_set_irq_trigger env st (start + i) fd).1 ≡ 0
    → set_from env st start i (fd ∷ fds)
      ≡ set_from env (do_set_irq_trigger env st (start + i) fd).0 start (i + 1) fds
unfolding set_from
set_from-ok env st start i fd fds e = rw ((==_iff _ 0).1 e) refl

pub set_from-failed :
    (env : Env) (st : State) (start i : ℕ) (fd : Option ℕ) (fds : List (Option ℕ))
    → (do_set_irq_trigger env st (start + i) fd).1 ≢ 0
    → set_from env st start i (fd ∷ fds) ≡ (
      rollback env (do_set_irq_trigger env st (start + i) fd).0 start i,
      (do_set_irq_trigger env st (start + i) fd).1,
    )
unfolding set_from
set_from-failed env st start i fd fds ne =
    elim (Bool-cases ((do_set_irq_trigger env st (start + i) fd).1 == 0)) [
      | inl e ↦ absurd (ne ((==_iff _ 0).0 e))
      | inr e ↦ rw e refl
    ]

set_from-IsBalanced :
    (n : ℕ) (env : Env) (st : State) (start i : ℕ) (fds : List (Option ℕ))
    → start + i + length fds ≤ n
    → IsBalanced n st
    → IsBalanced n (set_from env st start i fds).0
set_from-IsBalanced n env st start i [] h b = unfold set_from in b
set_from-IsBalanced n env st start i (fd ∷ fds) h b =
    let r = do_set_irq_trigger env st (start + i) fd in
    let b' = do_set-IsBalanced n env st (start + i) fd (omega arith) b in
    elim (Bool-cases (r.1 == 0)) [
      | inl e ↦
          rw (set_from-ok env st start i fd fds ((==_iff r.1 0).0 e))
            (set_from-IsBalanced n env r.0 start (i + 1) fds (omega arith) b')
      | inr e ↦
          rw (set_from-failed env st start i fd fds (λ q. ground (arith, e, q)))
            (rollback-IsBalanced n env r.0 start i (omega arith) b')
    ]

length-take : {A : Type 0} (n : ℕ) (xs : List A) → length (take n xs) ≤ n
length-take zero xs = omega arith
length-take (suc n) [] = omega arith
length-take (suc n) (x ∷ xs) = omega (arith, length-take n xs)

pub length-fds_of : (count : ℕ) (fds : Option (List (Option ℕ))) → length (fds_of count fds) ≤ count
unfolding fds_of
length-fds_of count none = omega (arith, length-replicate {A = Option ℕ} count none)
length-fds_of count (some fds) = length-take count fds

-- Dfl_fpga_set_irq_triggers keeps one name, one eventfd reference and one handler out for each
-- bound context, on every path, for 32-bit arguments.
pub set_triggers-IsBalanced :
    (env : Env) (st : State) (nr_irqs start count : ℕ) (fds : Option (List (Option ℕ)))
    → start < 2 ^ 32
    → count < 2 ^ 32
    → IsBalanced nr_irqs st
    → IsBalanced nr_irqs (dfl_fpga_set_irq_triggers env st nr_irqs start count fds).0
unfolding dfl_fpga_set_irq_triggers
set_triggers-IsBalanced env st nr_irqs start count fds hs hc b =
    elim (Bool-cases (ltb ((start + count) % 2 ^ 32) start)) [
      | inl e ↦ rw e b
      | inr e ↦ elim (Bool-cases (ltb nr_irqs ((start + count) % 2 ^ 32))) [
        | inl f ↦ rw (e, f) b
        | inr f ↦
            rw (e, f)
              (set_from-IsBalanced nr_irqs env st start 0 (fds_of count fds)
                (ground (arith, e, f, length-fds_of count fds)) b)
      ]
    ]
