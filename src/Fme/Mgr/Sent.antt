-- ===== src/Fme/Mgr/Sent.antt =====
-- drivers/fpga/dfl-fme-mgr.c: what fme_mgr_write sends.
use linux_dfl_backport.Base.{
  ℕ, zero, suc, ◌+◌, ◌-◌, ◌/◌, ◌≤◌, ◌<◌, ◌≡◌, refl, sym, ap, ◌∙◌, subst, ◌⊎◌, inl, inr, Bool, true,
  false, List, [], ◌∷◌, ◌++◌, Option, none, some, leb, arith, length, take, drop, etimedout,
}
use mathlib.Core.List.{append-nil, append_assoc}
use linux_dfl_backport.Dfl.Field.{field}
use linux_dfl_backport.Fme.Mgr.{
  Io, Priv, fme_pr_ctrl, fme_pr_sts, fme_pr_data, pr_wait_timeout, le_word, set_bit, ctrl_changed,
  credit_read, credit_loop, wait_credit, word_written, push, fme_mgr_write,
}

-- The words of so many rounds of four bytes, of which the last may be short of bytes.
abbrev pub data_words : (n : ℕ) → List ℕ → List ℕ
data_words zero buf = []
data_words (suc n) buf = le_word (take 4 buf) ∷ data_words n (drop 4 buf)

-- The engine as the driver sees it: the words that it got, the free entries of its queue, and how
-- often it got a word with one entry or none free. Only the data register adds words, and takes an
-- entry for each; a read of the status shows no more entries than there are, and time takes none.
pub record Engine {D : Type 0} (io : Io D) : Type 0 where
  pub got : D → List ℕ
  pub credits : D → ℕ
  pub overruns : D → ℕ
  pub data_got : (v : ℕ) (d : D) → got (io.writeq v fme_pr_data d) ≡ got d ++ v ∷ []
  pub data_credits : (v : ℕ) (d : D) → credits d ≤ credits (io.writeq v fme_pr_data d) + 1
  pub data_overruns :
      (v : ℕ) (d : D) → 1 < credits d → overruns (io.writeq v fme_pr_data d) ≡ overruns d
  pub ctrl_kept :
      (v : ℕ) (d : D)
      → (got (io.writeq v fme_pr_ctrl d) ≡ got d)
        × (overruns (io.writeq v fme_pr_ctrl d) ≡ overruns d)
  pub read_kept :
      (addr : ℕ) (d : D)
      → (got (io.readq addr d).1 ≡ got d) × (overruns (io.readq addr d).1 ≡ overruns d)
  pub delay_kept : (d : D) → (got (io.udelay d) ≡ got d) × (overruns (io.udelay d) ≡ overruns d)
  pub status_credits :
      (d : D) → field 0 9 (io.readq fme_pr_sts d).0 ≤ credits (io.readq fme_pr_sts d).1

-- All the words went out and the result is 0, or some did and the wait for the next was in vain; no
-- entry was missing.
abbrev pub IsSent : {D : Type 0} {io : Io D} → Engine io → D → List ℕ → ℕ × D → Type 0
IsSent e d words (ret, d') =
    (e.overruns d' ≡ e.overruns d)
    × (((ret ≡ 0) × (e.got d' ≡ e.got d ++ words))
        ⊎ ((ret ≡ etimedout)
            × (sent rest : List ℕ) × (w : ℕ) × (words ≡ sent ++ w ∷ rest)
            × (e.got d' ≡ e.got d ++ sent)))

module _ {D : Type 0} {io : Io D} (e : Engine io) where
  -- Nothing is sent while the driver waits, and what it waited for is there.
  abbrev Waited : D → Option (ℕ × ℕ) × D → Type 0
  Waited d (none, d') = (e.got d' ≡ e.got d) × (e.overruns d' ≡ e.overruns d)
  Waited d (some (left, pr_credit), d') =
      (e.got d' ≡ e.got d)
      × (e.overruns d' ≡ e.overruns d)
      × (1 < pr_credit)
      × (pr_credit ≤ e.credits d')

  Waited-after :
      (d d' : D) (r : Option (ℕ × ℕ) × D)
      → (e.got d' ≡ e.got d) × (e.overruns d' ≡ e.overruns d)
      → Waited d' r
      → Waited d r
  Waited-after d d' (none, d'') (g, o) (g', o') = (g' ∙ g, o' ∙ o)
  Waited-after d d' (some x, d'') (g, o) (g', o', h, k) = (g' ∙ g, o' ∙ o, h, k)

  credit_read-kept :
      (d : D)
      → (e.got (credit_read io d).1 ≡ e.got d)
        × (e.overruns (credit_read io d).1 ≡ e.overruns d)
        × ((credit_read io d).0 ≤ e.credits (credit_read io d).1)
  unfolding credit_read
  credit_read-kept d = let (g, o) = e.read_kept fme_pr_sts d in (g, o, e.status_credits d)

  credit_loop-Waited :
      (few : Bool) (left pr_credit : ℕ) (d : D)
      → leb pr_credit 1 ≡ few
      → pr_credit ≤ e.credits d
      → Waited d (credit_loop io few left pr_credit d)
  unfolding credit_loop
  credit_loop-Waited false left pr_credit d many h = (refl, refl, ground arith, h)
  credit_loop-Waited true zero pr_credit d few h = (refl, refl)
  credit_loop-Waited true (suc left) pr_credit d few h =
      let r = credit_read io (io.udelay d) in
      let (g, o) = e.delay_kept d in
      let (g', o', h') = credit_read-kept (io.udelay d) in
      Waited-after d r.1 _ (g' ∙ g, o' ∙ o) (credit_loop-Waited (leb r.0 1) left r.0 r.1 refl h')

  wait_credit-Waited :
      (left pr_credit : ℕ) (d : D)
      → pr_credit ≤ e.credits d
      → Waited d (wait_credit io left pr_credit d)
  unfolding wait_credit
  wait_credit-Waited left pr_credit d h =
      credit_loop-Waited (leb pr_credit 1) left pr_credit d refl h

  word_written-IsSent :
      (d : D) (pr_data : ℕ) (words : List ℕ) (k : ℕ → ℕ → D → ℕ × D) (r : Option (ℕ × ℕ) × D)
      → Waited d r
      → ((left pr_credit : ℕ) (d' : D)
          → pr_credit ≤ e.credits d'
          → IsSent e d' words (k left pr_credit d'))
      → IsSent e d (pr_data ∷ words) (word_written io pr_data k r)
  unfolding word_written
  word_written-IsSent d pr_data words k (none, d') (g, o) rest =
      (o, inr (refl, [], words, pr_data, refl, g ∙ sym (append-nil (e.got d))))
  word_written-IsSent d pr_data words k (some (left, pr_credit), d') (g, o, many, there) rest =
      let d'' = io.writeq pr_data fme_pr_data d' in
      let c = e.data_credits pr_data d' in
      let (o', s) = rest left (pr_credit - 1) d'' (omega arith) in
      let got : e.got d'' ≡ e.got d ++ pr_data ∷ [] =
        e.data_got pr_data d' ∙ ap (λ l. l ++ pr_data ∷ []) g in
      let behind = λ (l : List ℕ). ap (λ x. x ++ l) got ∙ append_assoc (e.got d) (pr_data ∷ []) l in
      (
        o' ∙ e.data_overruns pr_data d' (omega arith) ∙ o,
        elim s [
          | inl (z, all) ↦ inl (z, all ∙ behind words)
          | inr (t, sent, left_out, w, parts, some_got) ↦
              inr (t, pr_data ∷ sent, left_out, w, ap (◌∷◌ pr_data) parts, some_got ∙ behind sent)
        ],
      )

  push-IsSent :
      (buf : List ℕ) (left pr_credit : ℕ) (d : D)
      → pr_credit ≤ e.credits d
      → IsSent e d (data_words ((length buf + 3) / 4) buf) (push io buf left pr_credit d)
  unfolding push
  push-IsSent [] left pr_credit d h = (refl, inl (refl, sym (append-nil (e.got d))))
  push-IsSent (a ∷ []) left pr_credit d h =
      word_written-IsSent d (le_word (a ∷ [])) [] (push io []) _
        (wait_credit-Waited left pr_credit d h) (push-IsSent [])
  push-IsSent (a ∷ b ∷ []) left pr_credit d h =
      word_written-IsSent d (le_word (a ∷ b ∷ [])) [] (push io []) _
        (wait_credit-Waited left pr_credit d h) (push-IsSent [])
  push-IsSent (a ∷ b ∷ c ∷ []) left pr_credit d h =
      word_written-IsSent d (le_word (a ∷ b ∷ c ∷ [])) [] (push io []) _
        (wait_credit-Waited left pr_credit d h) (push-IsSent [])
  push-IsSent (a ∷ b ∷ c ∷ x ∷ buf) left pr_credit d h =
      let n : (length (a ∷ b ∷ c ∷ x ∷ buf) + 3) / 4 ≡ suc ((length buf + 3) / 4) = omega arith in
      subst
        (λ (m : ℕ).
          IsSent e d (data_words m (a ∷ b ∷ c ∷ x ∷ buf))
            (push io (a ∷ b ∷ c ∷ x ∷ buf) left pr_credit d))
        (sym n)
        (word_written-IsSent d (le_word (a ∷ b ∷ c ∷ x ∷ []))
          (data_words ((length buf + 3) / 4) buf) (push io buf) _
          (wait_credit-Waited left pr_credit d h) (push-IsSent buf))

  -- On an engine whose queue gives up an entry only for a word, and whose status shows no more free
  -- entries than there are, fme_mgr_write never writes a word with fewer than two entries free, and
  -- sends the buffer as little-endian words of four bytes in order, all of them with the result 0,
  -- or those before the first that it waited for in vain with -ETIMEDOUT.
  pub write-IsSent :
      (buf : List ℕ) (priv : Priv D)
      → let (ret, priv') = fme_mgr_write io buf priv in
        IsSent e priv.dev (data_words ((length buf + 3) / 4) buf) (ret, priv'.dev)
  unfolding fme_mgr_write ctrl_changed
  write-IsSent buf priv =
      let r = io.readq fme_pr_ctrl priv.dev in
      let d1 = ctrl_changed io (set_bit 12) priv.dev in
      let (g1, o1) = e.read_kept fme_pr_ctrl priv.dev in
      let (g2, o2) = e.ctrl_kept (set_bit 12 r.0) r.1 in
      let (g3, o3, h) = credit_read-kept d1 in
      let (o, s) =
        push-IsSent buf (pr_wait_timeout + 1) (credit_read io d1).0 (credit_read io d1).1 h in
      let g : e.got (credit_read io d1).1 ≡ e.got priv.dev = g3 ∙ g2 ∙ g1 in
      (
        o ∙ o3 ∙ o2 ∙ o1,
        elim s [
          | inl (z, all) ↦ inl (z, all ∙ ap (λ l. l ++ data_words ((length buf + 3) / 4) buf) g)
          | inr (t, sent, rest, w, parts, some_got) ↦
              inr (t, sent, rest, w, parts, some_got ∙ ap (λ l. l ++ sent) g)
        ],
      )
