-- ===== src/Dfl/Irq/Single.antt =====
-- drivers/fpga/dfl.c: what do_set_irq_trigger and the rollback do to one context and to the others.
use linux_dfl_backport.Base.{
  ℕ, zero, suc, ◌+◌, ◌≤◌, ◌<◌, ◌≡◌, ◌≢◌, refl, ap, ◌∙◌, Option, none, some, arith, ◌==◌, Result, ok,
  err, Bool-cases, Option-cases, ==_iff, ◌⊎◌, inl, inr,
}
use linux_dfl_backport.Dfl.Irq.{
  live, freed, null, State, Env, released, release, free_name, named, taken, put_trigger, requested,
  got_trigger, bind, do_set_irq_trigger, rollback,
}
use linux_dfl_backport.Dfl.Irq.Bind.{set_ctx-same, set_ctx-other, release-trigger}

abbrev pub trigger_at : State → ℕ → Option ℕ
trigger_at st j = (st.irq_ctx j).trigger

-- A context whose index is another's is as before.
module _ (i j : ℕ) (h : j ≢ i) where
  release-other : (st : State) → (release st i).irq_ctx j ≡ st.irq_ctx j
  unfolding release released
  release-other st = elim (Option-cases (st.irq_ctx i).trigger) [
    | inl e ↦ rw e refl
    | inr (t, e) ↦ rw e (set_ctx-other st.irq_ctx i j _ h)
  ]

  requested-other :
      (st : State) (t status : ℕ) → (requested st i t status).0.irq_ctx j ≡ st.irq_ctx j
  unfolding requested free_name put_trigger
  requested-other st t status = elim (Bool-cases (status == 0)) [
    | inl e ↦ rw e (set_ctx-other st.irq_ctx i j _ h)
    | inr e ↦ rw e (set_ctx-other st.irq_ctx i j _ h)
  ]

  got_trigger-other :
      (env : Env) (st : State) (r : Result ℕ) → (got_trigger env st i r).0.irq_ctx j ≡ st.irq_ctx j
  unfolding got_trigger free_name
  got_trigger-other env st (err e) = set_ctx-other st.irq_ctx i j _ h
  got_trigger-other env st (ok t) = requested-other (taken st) t _

  bind-other : (env : Env) (st : State) (fd : ℕ) → (bind env st i fd).0.irq_ctx j ≡ st.irq_ctx j
  unfolding bind
  bind-other env st fd = elim (Bool-cases (env.kasprintf i)) [
    | inl a ↦ rw a (
        got_trigger-other env (named st i) (env.eventfd_ctx_fdget fd)
        ∙ set_ctx-other st.irq_ctx i j _ h)
    | inr a ↦ rw a (set_ctx-other st.irq_ctx i j _ h)
  ]

  pub do_set-other :
      (env : Env) (st : State) (fd : Option ℕ)
      → (do_set_irq_trigger env st i fd).0.irq_ctx j ≡ st.irq_ctx j
  unfolding do_set_irq_trigger
  do_set-other env st none = release-other st
  do_set-other env st (some fd) = bind-other env (release st i) fd ∙ release-other st

-- What a descriptor asks of a context: a negative one that it is unbound, another that it is
-- bound to the descriptor's eventfd.
abbrev pub Serves : Env → Option ℕ → Option ℕ → Type 0
Serves env none o = o ≡ none
Serves env (some fd) o = (t : ℕ) × (env.eventfd_ctx_fdget fd ≡ ok t) × (o ≡ some t)

-- An error pointer is not 0.
abbrev pub HasErrors : Env → Type 0
HasErrors env = (fd e : ℕ) → env.eventfd_ctx_fdget fd ≡ err e → e ≢ 0

-- What a call leaves of its context: as asked if it returns 0, unbound otherwise.
abbrev Leaves : Env → Option ℕ → State × ℕ → ℕ → Type 0
Leaves env fd (st, status) i =
    ((status ≡ 0) × Serves env fd (trigger_at st i)) ⊎ ((status ≢ 0) × (trigger_at st i ≡ none))

requested-Leaves :
    (env : Env) (st : State) (i fd t status : ℕ)
    → trigger_at st i ≡ none
    → env.eventfd_ctx_fdget fd ≡ ok t
    → Leaves env (some fd) (requested st i t status) i
unfolding requested free_name put_trigger
requested-Leaves env st i fd t status free e = elim (Bool-cases (status == 0)) [
  | inl z ↦ rw z (
      inl (
        refl,
        (
          t,
          e,
          ap (λ c. c.trigger)
              (set_ctx-same st.irq_ctx i (record (st.irq_ctx i) { trigger = some t })),
        ),
      ))
  | inr z ↦ rw z (
      inr (
        λ q. ground (arith, z, q),
        ap (λ c. c.trigger) (set_ctx-same st.irq_ctx i (record (st.irq_ctx i) { name = freed }))
            ∙ free,
      ))
]

got_trigger-Leaves :
    (env : Env) (st : State) (i fd : ℕ) (r : Result ℕ)
    → HasErrors env
    → trigger_at st i ≡ none
    → env.eventfd_ctx_fdget fd ≡ r
    → Leaves env (some fd) (got_trigger env st i r) i
unfolding got_trigger free_name
got_trigger-Leaves env st i fd (err e) h free q = inr (
  h fd e q,
  ap (λ c. c.trigger) (set_ctx-same st.irq_ctx i (record (st.irq_ctx i) { name = freed })) ∙ free,
)
got_trigger-Leaves env st i fd (ok t) h free q = requested-Leaves env (taken st) i fd t _ free q

pub do_set-Leaves :
    (env : Env) (st : State) (i : ℕ) (fd : Option ℕ)
    → HasErrors env
    → Leaves env fd (do_set_irq_trigger env st i fd) i
unfolding do_set_irq_trigger bind
do_set-Leaves env st i none h = inl (refl, release-trigger st i)
do_set-Leaves env st i (some fd) h =
    let s = release st i in
    let free = release-trigger st i in
    elim (Bool-cases (env.kasprintf i)) [
      | inl a ↦ rw a (
          got_trigger-Leaves env (named s i) i fd _ h
            (ap (λ c. c.trigger) (set_ctx-same s.irq_ctx i (record (s.irq_ctx i) { name = live }))
              ∙ free)
            refl)
      | inr a ↦ rw a (
          inr (
            λ q. omega arith,
            ap (λ c. c.trigger) (set_ctx-same s.irq_ctx i (record (s.irq_ctx i) { name = null }))
                ∙ free,
          ))
    ]

pub rollback-other :
    (env : Env) (st : State) (start i j : ℕ)
    → (j < start) ⊎ (start + i ≤ j)
    → (rollback env st start i).irq_ctx j ≡ st.irq_ctx j
unfolding rollback
rollback-other env st start zero j h = refl
rollback-other env st start (suc i) j h =
    rollback-other env (do_set_irq_trigger env st (start + i) none).0 start i j (ground arith)
    ∙ do_set-other (start + i) j (λ q. ground arith) env st none

pub rollback-trigger :
    (env : Env) (st : State) (start i j : ℕ)
    → start ≤ j
    → j < start + i
    → trigger_at (rollback env st start i) j ≡ none
unfolding rollback
rollback-trigger env st start zero j h k = absurd (omega arith)
rollback-trigger env st start (suc i) j h k =
    let s = (do_set_irq_trigger env st (start + i) none).0 in
    elim (Bool-cases (j == start + i)) [
      | inl e ↦
          let q : j ≡ start + i = (==_iff j (start + i)).0 e in
          ap (λ c. c.trigger) (rollback-other env s start i j (inr (omega (arith, q))))
          ∙ ap (trigger_at s) q
          ∙ (unfold do_set_irq_trigger in release-trigger st (start + i))
      | inr e ↦ rollback-trigger env s start i j h (ground (arith, e))
    ]
