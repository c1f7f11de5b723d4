-- ===== src/Dfl/Irq/Bind.antt =====
-- drivers/fpga/dfl.c: what do_set_irq_trigger has out for a context.
use linux_dfl_backport.Base.{
  ℕ, zero, suc, ◌+◌, ◌≤◌, ◌<◌, ◌≡◌, ◌≢◌, refl, sym, ap, Option, none, some, arith, ◌==◌, Result, ok,
  err, Bool-cases, ==_iff, inl, inr,
}
use linux_dfl_backport.Dfl.Irq.{
  live, freed, null, IrqCtx, State, Env, set_ctx, released, release, free_name, named, taken,
  put_trigger, bound, requested, got_trigger, bind, do_set_irq_trigger,
}

-- 1 for a bound context, 0 for one that is not.
unfoldable pub one_if : Option ℕ → ℕ
one_if none = 0
one_if (some t) = 1

-- How many of the first n contexts are bound.
unfoldable pub count_bound : ℕ → (ℕ → IrqCtx) → ℕ
count_bound zero ctx = 0
count_bound (suc n) ctx = one_if (ctx n).trigger + count_bound n ctx

pub set_ctx-same : (ctx : ℕ → IrqCtx) (i : ℕ) (c : IrqCtx) → set_ctx ctx i c i ≡ c
unfolding set_ctx
set_ctx-same ctx i c = rw ((==_iff i i).1 refl)

pub set_ctx-other : (ctx : ℕ → IrqCtx) (i j : ℕ) (c : IrqCtx) → j ≢ i → set_ctx ctx i c j ≡ ctx j
unfolding set_ctx
set_ctx-other ctx i j c h = ground arith

count_bound-beyond :
    (n i : ℕ) (ctx : ℕ → IrqCtx) (c : IrqCtx)
    → n ≤ i
    → count_bound n (set_ctx ctx i c) ≡ count_bound n ctx
unfolding count_bound
count_bound-beyond zero i ctx c h = refl
count_bound-beyond (suc n) i ctx c h =
    rw (set_ctx-other ctx i n c (omega arith), count_bound-beyond n i ctx c (omega arith)) refl

count_bound-set :
    (n i : ℕ) (ctx : ℕ → IrqCtx) (c : IrqCtx)
    → i < n
    → count_bound n (set_ctx ctx i c) + one_if (ctx i).trigger
      ≡ count_bound n ctx + one_if c.trigger
unfolding count_bound
count_bound-set zero i ctx c h = absurd (omega arith)
count_bound-set (suc n) i ctx c h = elim (Bool-cases (n == i)) [
  | inl e ↦
      let q : n ≡ i = (==_iff n i).0 e in
      rw (sym q, set_ctx-same ctx n c, count_bound-beyond n n ctx c (omega arith)) (omega arith)
  | inr e ↦
      let ne : n ≢ i = λ q. ground (arith, e, q) in
      rw (set_ctx-other ctx i n c ne) (omega (arith, count_bound-set n i ctx c (omega (arith, ne))))
]

pub record IsBalanced (n : ℕ) (st : State) : Type 0 where
  pub names : st.ledger.names ≡ count_bound n st.irq_ctx
  pub refs : st.ledger.refs ≡ count_bound n st.irq_ctx
  pub handlers : st.ledger.handlers ≡ count_bound n st.irq_ctx

released-trigger :
    (st : State) (i : ℕ) (o : Option ℕ)
    → (st.irq_ctx i).trigger ≡ o
    → ((released st i o).irq_ctx i).trigger ≡ none
unfolding released
released-trigger st i none e = e
released-trigger st i (some t) e = rw (set_ctx-same st.irq_ctx i _) refl

-- A released context is not bound.
pub release-trigger : (st : State) (i : ℕ) → ((release st i).irq_ctx i).trigger ≡ none
unfolding release
release-trigger st i = released-trigger st i _ refl

released-IsBalanced :
    (n : ℕ) (st : State) (i : ℕ) (o : Option ℕ)
    → i < n
    → (st.irq_ctx i).trigger ≡ o
    → IsBalanced n st
    → IsBalanced n (released st i o)
unfolding released one_if
released-IsBalanced n st i none h e b = b
released-IsBalanced n st i (some t) h e b =
    let c =
      count_bound-set n i st.irq_ctx (record (st.irq_ctx i) { name = freed; trigger = none }) h in
    let q : one_if (st.irq_ctx i).trigger ≡ 1 = ap one_if e in
    record {
      names = omega (arith, b.names, c, q);
      refs = omega (arith, b.refs, c, q);
      handlers = omega (arith, b.handlers, c, q);
    }

pub release-IsBalanced :
    (n : ℕ) (st : State) (i : ℕ) → i < n → IsBalanced n st → IsBalanced n (release st i)
unfolding release
release-IsBalanced n st i h b = released-IsBalanced n st i _ h refl b

-- The name is there, and nothing else yet.
pub record IsNamed (n : ℕ) (st : State) (i : ℕ) : Type 0 where
  pub free : (st.irq_ctx i).trigger ≡ none
  pub names : st.ledger.names ≡ count_bound n st.irq_ctx + 1
  pub refs : st.ledger.refs ≡ count_bound n st.irq_ctx
  pub handlers : st.ledger.handlers ≡ count_bound n st.irq_ctx

named-IsNamed :
    (n : ℕ) (st : State) (i : ℕ)
    → i < n
    → (st.irq_ctx i).trigger ≡ none
    → IsBalanced n st
    → IsNamed n (named st i) i
named-IsNamed n st i h e b =
    let c = count_bound-set n i st.irq_ctx (record (st.irq_ctx i) { name = live }) h in
    record {
      free = rw (set_ctx-same st.irq_ctx i (record (st.irq_ctx i) { name = live })) e;
      names = omega (arith, b.names, c);
      refs = omega (arith, b.refs, c);
      handlers = omega (arith, b.handlers, c);
    }

free_name-IsBalanced :
    (n : ℕ) (st : State) (i : ℕ) → i < n → IsNamed n st i → IsBalanced n (free_name st i)
unfolding free_name
free_name-IsBalanced n st i h b =
    let c = count_bound-set n i st.irq_ctx (record (st.irq_ctx i) { name = freed }) h in
    record {
      names = omega (arith, b.names, c);
      refs = omega (arith, b.refs, c);
      handlers = omega (arith, b.handlers, c);
    }

bound-IsBalanced :
    (n : ℕ) (st : State) (i t : ℕ) → i < n → IsNamed n st i → IsBalanced n (bound (taken st) i t)
unfolding one_if
bound-IsBalanced n st i t h b =
    let c = count_bound-set n i st.irq_ctx (record (st.irq_ctx i) { trigger = some t }) h in
    let q : one_if (st.irq_ctx i).trigger ≡ 0 = ap one_if b.free in
    record {
      names = omega (arith, b.names, c, q);
      refs = omega (arith, b.refs, c, q);
      handlers = omega (arith, b.handlers, c, q);
    }

requested-IsBalanced :
    (n : ℕ) (st : State) (i t status : ℕ)
    → i < n
    → IsNamed n st i
    → IsBalanced n (requested (taken st) i t status).0
unfolding requested put_trigger
requested-IsBalanced n st i t status h b = elim (Bool-cases (status == 0)) [
  | inl e ↦ rw e (bound-IsBalanced n st i t h b)
  | inr e ↦ rw e (
      free_name-IsBalanced n (put_trigger (taken st)) i h (record {
        free = b.free;
        names = b.names;
        refs = omega (arith, b.refs);
        handlers = b.handlers;
      }))
]

got_trigger-IsBalanced :
    (n : ℕ) (env : Env) (st : State) (i : ℕ) (r : Result ℕ)
    → i < n
    → IsNamed n st i
    → IsBalanced n (got_trigger env st i r).0
unfolding got_trigger
got_trigger-IsBalanced n env st i (err e) h b = free_name-IsBalanced n st i h b
got_trigger-IsBalanced n env st i (ok t) h b = requested-IsBalanced n st i t _ h b

bind-IsBalanced :
    (n : ℕ) (env : Env) (st : State) (i fd : ℕ)
    → i < n
    → (st.irq_ctx i).trigger ≡ none
    → IsBalanced n st
    → IsBalanced n (bind env st i fd).0
unfolding bind
bind-IsBalanced n env st i fd h e b = elim (Bool-cases (env.kasprintf i)) [
  | inl a ↦ rw a (got_trigger-IsBalanced n env (named st i) i _ h (named-IsNamed n st i h e b))
  | inr a ↦
      let c = count_bound-set n i st.irq_ctx (record (st.irq_ctx i) { name = null }) h in
      rw a (record {
        names = omega (arith, b.names, c);
        refs = omega (arith, b.refs, c);
        handlers = omega (arith, b.handlers, c);
      })
]

pub do_set-IsBalanced :
    (n : ℕ) (env : Env) (st : State) (i : ℕ) (fd : Option ℕ)
    → i < n
    → IsBalanced n st
    → IsBalanced n (do_set_irq_trigger env st i fd).0
unfolding do_set_irq_trigger
do_set-IsBalanced n env st i none h b = release-IsBalanced n st i h b
do_set-IsBalanced n env st i (some fd) h b =
    bind-IsBalanced n env (release st i) i fd h (release-trigger st i)
      (release-IsBalanced n st i h b)
