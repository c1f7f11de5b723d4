-- ===== src/Avmm/Limits.antt =====
-- drivers/base/regmap/regmap-spi-avmm.c: the limits of the receive side, in space and in time.
use linux_dfl_backport.Base.{
  ◌∙◌, ◌==◌, ap, ℕ, ◌+◌, ◌≤◌, ◌≡◌, refl, Bool, true, false, inl, inr, List, [], ◌∷◌, ◌++◌, arith,
  if◌then◌else◌, length, length-append, All, some, subst, ◌%◌, ◌^◌, etimedout, Bool-cases, tests,
}
use linux_dfl_backport.Avmm.Defs.{trans_buf_size, phy_idle, pkt_eop}
use linux_dfl_backport.Avmm.Bytes.{length-br_swap_words_32}
use linux_dfl_backport.Avmm.Frame.{IsSpecial}
use linux_dfl_backport.Avmm.Rx.{
  RxState, RxWord, rest, Poll, RxResult, received, failed, waiting, RxRound, stop, again, has_room,
  rx_start, rx_word, rx_after, rx_round, rx_loop, br_do_rx_and_pkt_phy_parse, time_after,
}
use linux_dfl_backport.Avmm.Parse.{rx_byte-plain, rx_byte-eop}
use linux_dfl_backport.Avmm.Stream.{mid, rx_byte-idle}
use linux_dfl_backport.Avmm.Wire.{delivered}
use linux_dfl_backport.Avmm.Lengths.{
  WordWithin, rx_word-dropped, rx_word-more, rx_word-complete, rx_word-within, need-le,
}

module _ (swap : Bool) (xfer_timeout : ℕ) where
  -- A result of the loop is within the buffer's size and two bytes, for words of four bytes.
  abbrev ResultWithin : RxResult → Type 0
  ResultWithin (received d) = length d ≤ trans_buf_size + 2
  ResultWithin (failed e) = Unit
  ResultWithin waiting = Unit

  abbrev RoundWithin : RxRound → Type 0
  RoundWithin (stop r) = ResultWithin r
  RoundWithin (again s t l) = Unit

  rx_after-within :
      (t : ℕ) (l : Bool) (p : Poll) (w : RxWord)
      → WordWithin w (trans_buf_size + 2)
      → RoundWithin (rx_after swap xfer_timeout t l p w)
  unfolding rx_after
  rx_after-within t l p (rest s true) h = tt
  rx_after-within t true p (rest s false) h = tt
  rx_after-within t false p (rest s false) h = tt
  rx_after-within t l p (RxWord.complete d) h = h
  rx_after-within t l p (RxWord.fault e) h = tt

  rx_round-within :
      (s : RxState) (t : ℕ) (l : Bool) (p : Poll)
      → length p.word ≤ 4
      → RoundWithin (rx_round swap xfer_timeout s t l p)
  unfolding rx_round
  rx_round-within s t l p h = elim (Bool-cases (has_room s)) [
    | inr full ↦ rw full tt
    | inl room ↦ elim (Bool-cases (p.status == 0)) [
      | inr bad ↦ rw (room, bad) tt
      | inl good ↦
          rw (room, good)
            (rx_after-within t l p _ (
              rx_word-within (delivered swap p) s false (trans_buf_size + 2)
                (omega (arith, delivered-within swap p, h))
                (need-le s (length (delivered swap p)) (omega (arith, delivered-within swap p, h))
                  (omega (tests, room)))))
    ]
  ]
    where
      delivered-within : (b : Bool) (p : Poll) → length (delivered b p) ≡ length p.word
      delivered-within true p = length-br_swap_words_32 p.word
      delivered-within false p = refl

  rx_loop-within :
      (ps : List Poll) (s : RxState) (t : ℕ) (l : Bool)
      → All (λ p. length p.word ≤ 4) ps
      → ResultWithin (rx_loop swap xfer_timeout s t l ps)
  unfolding rx_loop
  rx_loop-within [] s t l h = elim (Bool-cases (has_room s)) [
    | inl room ↦ rw room tt
    | inr full ↦ rw full tt
  ]
  rx_loop-within (p ∷ ps) s t l h =
      go (rx_round swap xfer_timeout s t l p) (rx_round-within s t l p h.0)
        (λ s' t' l'. rx_loop-within ps s' t' l' h.1)
    where
      go :
          (r : RxRound)
          → RoundWithin r
          → ((s' : RxState) (t' : ℕ) (l' : Bool)
              → ResultWithin (rx_loop swap xfer_timeout s' t' l' ps))
          → ResultWithin
              (elim r [ stop r' ↦ r' | again s' t' l' ↦ rx_loop swap xfer_timeout s' t' l' ps ])
      go (stop r') k ih = k
      go (again s' t' l') k ih = ih s' t' l'

  -- Whatever the slave sends in words of at most four bytes, a received packet is at most two bytes
  -- longer than trans_buf.
  pub received-le :
      (jiffies : ℕ) (ps : List Poll) (d : List ℕ)
      → All (λ p. length p.word ≤ 4) ps
      → br_do_rx_and_pkt_phy_parse swap xfer_timeout jiffies ps ≡ received d
      → length d ≤ trans_buf_size + 2
  unfolding br_do_rx_and_pkt_phy_parse
  received-le jiffies ps d h e =
      subst ResultWithin e (rx_loop-within ps rx_start ((jiffies + xfer_timeout) % 2 ^ 64) false h)

  -- A word of idle bytes alone.
  abbrev pub IsIdle : Poll → Type 0
  IsIdle p = (p.status ≡ 0) × All (λ b. b ≡ phy_idle) (delivered swap p)

  rx_word-idle :
      (w : List ℕ) (s : RxState) → All (λ b. b ≡ phy_idle) w → rx_word s false w ≡ rest s false
  unfolding rx_word
  rx_word-idle [] s h = refl
  rx_word-idle (b ∷ w) s h =
      rw h.0 (rx_word-dropped s false phy_idle w (rx_byte-idle s) ∙ rx_word-idle w s h.1)

  rx_round-idle :
      (s : RxState) (t : ℕ) (l : Bool) (p : Poll)
      → has_room s ≡ true
      → IsIdle p
      → rx_round swap xfer_timeout s t l p
        ≡ (if l then stop (failed etimedout) else again s t (time_after p.jiffies t))
  unfolding rx_round rx_after
  rx_round-idle s t l p room h = ground (arith, rx_word-idle (delivered swap p) s h.1)

  rx_loop-again :
      (s s' : RxState) (t t' : ℕ) (l l' : Bool) (p : Poll) (ps : List Poll)
      → rx_round swap xfer_timeout s t l p ≡ again s' t' l'
      → rx_loop swap xfer_timeout s t l (p ∷ ps) ≡ rx_loop swap xfer_timeout s' t' l' ps
  unfolding rx_loop
  rx_loop-again s s' t t' l l' p ps e = rw (e, rx_loop)

  rx_loop-stop :
      (s : RxState) (t : ℕ) (l : Bool) (p : Poll) (ps : List Poll) (r : RxResult)
      → rx_round swap xfer_timeout s t l p ≡ stop r
      → rx_loop swap xfer_timeout s t l (p ∷ ps) ≡ r
  unfolding rx_loop
  rx_loop-stop s t l p ps r e = rw (e, rx_loop)

  rx_loop-nil :
      (s : RxState) (t : ℕ) (l : Bool)
      → has_room s ≡ true
      → rx_loop swap xfer_timeout s t l [] ≡ waiting
  unfolding rx_loop
  rx_loop-nil s t l room = rw room

  -- A slave that sends only idle words is given up with -ETIMEDOUT in the round behind the first
  -- one that ends after the deadline, and not before.
  pub silent_times_out :
      (early : List Poll) (p q : Poll) (later : List Poll) (s : RxState) (t : ℕ)
      → has_room s ≡ true
      → All (λ e. IsIdle e × (time_after e.jiffies t ≡ false)) early
      → IsIdle p
      → time_after p.jiffies t ≡ true
      → IsIdle q
      → (rx_loop swap xfer_timeout s t false (early ++ p ∷ []) ≡ waiting)
        × (rx_loop swap xfer_timeout s t false (early ++ p ∷ q ∷ later) ≡ failed etimedout)
  silent_times_out [] p q later s t room he hp late hq =
      let first : rx_round swap xfer_timeout s t false p ≡ again s t true =
        rx_round-idle s t false p room hp ∙ ap (again s t) late in
      (
        rx_loop-again s s t t false true p [] first ∙ rx_loop-nil s t true room,
        rx_loop-again s s t t false true p (q ∷ later) first
            ∙ rx_loop-stop s t true q later _ (rx_round-idle s t true q room hq),
      )
  silent_times_out (e ∷ early) p q later s t room he hp late hq =
      let first : rx_round swap xfer_timeout s t false e ≡ again s t false =
        rx_round-idle s t false e room he.0.0 ∙ ap (again s t) he.0.1 in
      let ih = silent_times_out early p q later s t room he.1 hp late hq in
      (
        rx_loop-again s s t t false false e _ first ∙ ih.0,
        rx_loop-again s s t t false false e _ first ∙ ih.1,
      )

-- From the last free byte of trans_buf, a word of two ordinary bytes, EOP and an ordinary byte
-- completes a packet that is two bytes longer than the buffer.
overrun :
    (t : List ℕ) (a b c : ℕ)
    → length t + 1 ≡ trans_buf_size
    → IsSpecial a false
    → IsSpecial b false
    → IsSpecial c false
    → (d : List ℕ) × (rx_word
          (record { tb = some t; eop_found = false; channel_found = false; esc_found = false })
          false
          (a ∷ b ∷ pkt_eop ∷ c ∷ [])
        ≡ RxWord.complete d)
      × (length d ≡ trans_buf_size + 2)
overrun t a b c h ha hb hc =
    let t1 = t ++ a ∷ [] in
    let t2 = t1 ++ b ∷ [] in
    (
      t2 ++ c ∷ [],
      rx_word-more (mid t false false false) (mid t1 false false false) false a _
            (rx_byte-plain t false a ha)
          ∙ rx_word-more (mid t1 false false false) (mid t2 false false false) true b _
              (rx_byte-plain t1 false b hb)
          ∙ rx_word-more (mid t2 false false false) (mid t2 true false false) true pkt_eop _
              (rx_byte-eop t2)
          ∙ rx_word-complete (mid t2 true false false) true c [] _ (rx_byte-plain t2 true c hc),
      omega (arith, length-append t2 (c ∷ []), length-append t1 (b ∷ []), length-append t (a ∷ [])),
    )
