-- ===== src/Dfl/Feature/Irqs.antt =====
-- drivers/fpga/dfl.c: the interrupts that parse_feature_irqs accepts.
use linux_dfl_backport.Base.{
  ℕ, zero, suc, ◌+◌, ◌%◌, ◌^◌, ◌≤◌, ◌<◌, ◌≡◌, ap, ◌∙◌, subst, true, List, arith, ltb, ◌==◌, ok,
  Bool-cases, inl, inr,
}
use linux_dfl_backport.Dfl.Feature.{
  Binfo, Env, vectors, is_irq, are_irqs, check_irqs, parse_feature_irqs,
}

-- Every interrupt of the feature is one of the device's, and its entry in the table is valid.
abbrev pub HasIrqs : Env → ℕ × ℕ → Type 0
HasIrqs env (base, n) =
    (base + n ≤ env.nr_irqs)
    × ((i : ℕ) → i < n → is_irq env.max_irqs (env.irq_table (base + i)) ≡ true)

first_or_later :
    (env : Env) (a left k : ℕ)
    → k < suc left
    → is_irq env.max_irqs (env.irq_table a) ≡ true
    → ((j : ℕ) → j < left → is_irq env.max_irqs (env.irq_table (a + suc j)) ≡ true)
    → is_irq env.max_irqs (env.irq_table (a + k)) ≡ true
first_or_later env a left zero lt e rest =
    subst (λ b. is_irq env.max_irqs (env.irq_table b) ≡ true) (omega arith) e
first_or_later env a left (suc j) lt e rest = rest j (omega arith)

are_irqs_sound :
    (env : Env) (ibase i left : ℕ)
    → ibase + i + left < 2 ^ 32
    → are_irqs env ibase i left ≡ true
    → (k : ℕ) → k < left
    → is_irq env.max_irqs (env.irq_table (ibase + i + k)) ≡ true
unfolding are_irqs
are_irqs_sound env ibase i zero small h k lt = absurd (omega arith)
are_irqs_sound env ibase i (suc left) small h k lt =
    let wrap : (ibase + i) % 2 ^ 32 ≡ ibase + i = omega arith in
    elim (Bool-cases (is_irq env.max_irqs (env.irq_table (ibase + i)))) [
      | inr e ↦ absurd (cc (rw (wrap, e) at h))
      | inl e ↦
          let rest = are_irqs_sound env ibase (i + 1) left (omega arith) (rw (wrap, e) at h) in
          first_or_later env (ibase + i) left k lt e (λ j l.
            subst (λ a. is_irq env.max_irqs (env.irq_table a) ≡ true) (omega arith) (rest j l))
    ]

check_irqs-HasIrqs :
    (env : Env) (v r : ℕ × ℕ) → v.0 + v.1 < 2 ^ 32 → check_irqs env v ≡ ok r → HasIrqs env r
unfolding check_irqs
check_irqs-HasIrqs env (ibase, n) r small h = elim (Bool-cases (n == 0)) [
  | inl z ↦
      let q : (0, 0) ≡ r = cc (rw z at h) in
      subst (HasIrqs env) q (omega arith, λ i l. absurd (omega arith))
  | inr z ↦ elim (Bool-cases (ltb env.nr_irqs ((ibase + n) % 2 ^ 32))) [
    | inl b ↦ absurd (cc (rw (z, b) at h))
    | inr b ↦ elim (Bool-cases (are_irqs env ibase 0 n)) [
      | inr a ↦ absurd (cc (rw (z, b, a) at h))
      | inl a ↦
          let q : (ibase, n) ≡ r = cc (rw (z, b, a) at h) in
          subst (HasIrqs env) q (
            ground (arith, b),
            λ i l.
                subst (λ c. is_irq env.max_irqs (env.irq_table c) ≡ true) (omega arith)
                  (are_irqs_sound env ibase 0 n (omega arith) a i l),
          )
    ]
  ]
]

-- The interrupts that parse_feature_irqs accepts are all below the device's nr_irqs and have valid
-- entries in the table, if the sum of the first vector and their number does not wrap.
pub parse_irqs-HasIrqs :
    (env : Env) (binfo : Binfo) (ofst version fid : ℕ) (params : List ℕ) (r : ℕ × ℕ)
    → (let (ibase, n) = vectors env binfo.type (binfo.start + ofst) version fid params in
        ibase + n < 2 ^ 32)
    → parse_feature_irqs env binfo ofst version fid params ≡ ok r
    → HasIrqs env r
unfolding parse_feature_irqs
parse_irqs-HasIrqs env binfo ofst version fid params r small h =
    check_irqs-HasIrqs env (vectors env binfo.type (binfo.start + ofst) version fid params) r small
      h

-- Where the first vector and the number of vectors, both 32-bit numbers, have a sum of 2^32 or more
-- that wraps to at most nr_irqs, parse_feature_irqs accepts them if the entries that it reads pass
-- for interrupts.
irqs_wrap :
    (env : Env) (binfo : Binfo) (ofst version fid : ℕ) (params : List ℕ) (ibase n : ℕ)
    → vectors env binfo.type (binfo.start + ofst) version fid params ≡ (ibase, n)
    → 0 < n
    → n < 2 ^ 32
    → ibase < 2 ^ 32
    → 2 ^ 32 ≤ ibase + n
    → ibase + n ≤ 2 ^ 32 + env.nr_irqs
    → are_irqs env ibase 0 n ≡ true
    → parse_feature_irqs env binfo ofst version fid params ≡ ok (ibase, n)
unfolding parse_feature_irqs check_irqs
irqs_wrap env binfo ofst version fid params ibase n v p hn hi wraps fits table =
    ap (check_irqs env) v ∙ ground (arith, table)
