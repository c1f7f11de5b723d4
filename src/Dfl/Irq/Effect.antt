-- ===== src/Dfl/Irq/Effect.antt =====
-- drivers/fpga/dfl.c: the contexts after dfl_fpga_set_irq_triggers.
use linux_dfl_backport.Base.{
  ℕ, zero, suc, ◌+◌, ◌%◌, ◌^◌, ◌≤◌, ◌<◌, ◌≡◌, ◌≢◌, refl, sym, ap, ◌∙◌, subst, List, [], ◌∷◌, Option,
  none, some, arith, ltb, ◌==◌, length, get_elem?, Bool-cases, ==_iff, ◌⊎◌, inl, inr, einval,
}
use linux_dfl_backport.Dfl.Irq.{
  State, Env, do_set_irq_trigger, set_from, fds_of, dfl_fpga_set_irq_triggers,
}
use linux_dfl_backport.Dfl.Irq.Balance.{length-fds_of, set_from-ok, set_from-failed}
use linux_dfl_backport.Dfl.Irq.Single.{
  trigger_at, do_set-other, Serves, HasErrors, do_set-Leaves, rollback-other, rollback-trigger,
}

-- All descriptors are served, and no other context is touched.
pub record AllSet (env : Env) (st st' : State) (first : ℕ) (fds : List (Option ℕ)) : Type 0 where
  pub served :
      (k : ℕ) (fd : Option ℕ)
      → get_elem? fds k ≡ some fd
      → Serves env fd (trigger_at st' (first + k))
  pub others : (j : ℕ) → (j < first) ⊎ (first + length fds ≤ j) → st'.irq_ctx j ≡ st.irq_ctx j

-- The contexts from start to the one that failed are unbound, and no other is touched.
pub record Undone (st st' : State) (start count : ℕ) : Type 0 where
  pub failed : ℕ
  pub within : failed < count
  pub unbound : (j : ℕ) → start ≤ j → j ≤ start + failed → trigger_at st' j ≡ none
  pub others : (j : ℕ) → (j < start) ⊎ (start + failed < j) → st'.irq_ctx j ≡ st.irq_ctx j

abbrev Outcome : Env → State → (start i : ℕ) → List (Option ℕ) → State × ℕ → Type 0
Outcome env st start i fds (st', status) =
    ((status ≡ 0) × AllSet env st st' (start + i) fds)
    ⊎ ((status ≢ 0) × (u : Undone st st' start (i + length fds)) × (i ≤ u.failed))

AllSet-cons :
    (env : Env) (st st1 st' : State) (first : ℕ) (fd : Option ℕ) (fds : List (Option ℕ))
    → Serves env fd (trigger_at st1 first)
    → ((j : ℕ) → j ≢ first → st1.irq_ctx j ≡ st.irq_ctx j)
    → AllSet env st1 st' (first + 1) fds
    → AllSet env st st' first (fd ∷ fds)
AllSet-cons env st st1 st' first fd fds s same a = record { served = served; others = others }
  where
    served :
        (k : ℕ) (fd' : Option ℕ)
        → get_elem? (fd ∷ fds) k ≡ some fd'
        → Serves env fd' (trigger_at st' (first + k))
    served zero fd' e =
        let q : fd ≡ fd' = cc e in
        let t : trigger_at st1 first ≡ trigger_at st' (first + 0) = sym (
          ap (trigger_at st') (omega arith)
          ∙ ap (λ c. c.trigger) (a.others first (inl (omega arith)))) in
        subst (Serves env fd') t (subst (λ f. Serves env f (trigger_at st1 first)) q s)
    served (suc k) fd' e =
        subst (λ j. Serves env fd' (trigger_at st' j)) (omega arith) (a.served k fd' e)

    others : (j : ℕ) → (j < first) ⊎ (first + length (fd ∷ fds) ≤ j) → st'.irq_ctx j ≡ st.irq_ctx j
    others j h = a.others j (ground arith) ∙ same j (λ q. ground arith)

module _ (env : Env) (errors : HasErrors env) where
  set_from-Outcome :
      (st : State) (start i : ℕ) (fds : List (Option ℕ))
      → Outcome env st start i fds (set_from env st start i fds)
  set_from-Outcome st start i [] =
      unfold set_from in inl (refl, record { served = λ k fd e. cc; others = λ j h. refl })
  set_from-Outcome st start i (fd ∷ fds) =
      let r = do_set_irq_trigger env st (start + i) fd in
      elim (do_set-Leaves env st (start + i) fd errors) [
        | inr (ne, free) ↦ rw (set_from-failed env st start i fd fds ne) (
            inr (
              ne,
              record {
                failed = i;
                within = omega arith;
                unbound = λ j lo hi. elim (Bool-cases (j == start + i)) [
                  | inl e ↦
                      let q : j ≡ start + i = (==_iff j (start + i)).0 e in
                      ap (λ c. c.trigger)
                        (rollback-other env r.0 start i j (inr (omega (arith, q))))
                      ∙ ap (trigger_at r.0) q
                      ∙ free
                  | inr e ↦ rollback-trigger env r.0 start i j lo (ground (arith, e))
                ];
                others = λ j h.
                    rollback-other env r.0 start i j (ground arith)
                    ∙ do_set-other (start + i) j (λ q. ground arith) env st fd;
              },
              omega arith,
            ))
        | inl (e, s) ↦
            rw (set_from-ok env st start i fd fds e)
              (elim (set_from-Outcome r.0 start (i + 1) fds) [
                | inl (z, a) ↦ inl (
                  z,
                  AllSet-cons env st r.0 _ (start + i) fd fds s
                      (λ j ne. do_set-other (start + i) j ne env st fd)
                      (subst (λ f. AllSet env r.0 (set_from env r.0 start (i + 1) fds).0 f fds)
                        (omega arith) a),
                )
                | inr (z, u, le) ↦ inr (
                  z,
                  record {
                    failed = u.failed;
                    within = omega (arith, u.within);
                    unbound = u.unbound;
                    others = λ j h.
                        u.others j h
                        ∙ do_set-other (start + i) j (λ q. ground (arith, le)) env st fd;
                  },
                  omega (arith, le),
                )
              ])
      ]

  -- Dfl_fpga_set_irq_triggers binds or unbinds every context as its descriptor asks and touches no
  -- other, or returns -EINVAL and changes nothing where the contexts exceed nr_irqs, or fails and
  -- leaves the contexts from start to the one that failed unbound and no other touched; error
  -- pointers are not 0 and the arguments are 32-bit numbers.
  pub set_triggers_outcome :
      (st : State) (nr_irqs start count : ℕ) (fds : Option (List (Option ℕ)))
      → nr_irqs < 2 ^ 32
      → start < 2 ^ 32
      → count < 2 ^ 32
      → let (st', status) = dfl_fpga_set_irq_triggers env st nr_irqs start count fds in
        ((status ≡ 0) × (start + count ≤ nr_irqs) × AllSet env st st' start (fds_of count fds))
        ⊎ ((status ≡ einval) × (st' ≡ st) × (nr_irqs < start + count))
        ⊎ ((status ≢ 0) × (start + count ≤ nr_irqs) × Undone st st' start count)
  unfolding dfl_fpga_set_irq_triggers
  set_triggers_outcome st nr_irqs start count fds hn hs hc =
      elim (Bool-cases (ltb ((start + count) % 2 ^ 32) start)) [
        | inl e ↦ rw e (inr (inl (refl, refl, ground (arith, e))))
        | inr e ↦ elim (Bool-cases (ltb nr_irqs ((start + count) % 2 ^ 32))) [
          | inl f ↦ rw (e, f) (inr (inl (refl, refl, ground (arith, e, f))))
          | inr f ↦
              let fits : start + count ≤ nr_irqs = ground (arith, e, f) in
              rw (e, f)
                (elim (set_from-Outcome st start 0 (fds_of count fds)) [
                  | inl (z, a) ↦ inl (
                    z,
                    fits,
                    subst
                        (λ f.
                          AllSet env st (set_from env st start 0 (fds_of count fds)).0 f
                            (fds_of count fds))
                        (omega arith) a,
                  )
                  | inr (z, u, _) ↦ inr (
                      inr (
                        z,
                        fits,
                        record {
                          failed = u.failed;
                          within = omega (arith, u.within, length-fds_of count fds);
                          unbound = u.unbound;
                          others = u.others;
                        },
                      ))
                ])
        ]
      ]
