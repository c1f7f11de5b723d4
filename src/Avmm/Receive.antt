-- ===== src/Avmm/Receive.antt =====
-- drivers/base/regmap/regmap-spi-avmm.c: the receive loop and the stream that its words make up.
use linux_dfl_backport.Base.{
  ℕ, ◌+◌, ◌*◌, ◌%◌, ◌^◌, ◌≤◌, ◌<◌, ◌≡◌, ◌≢◌, refl, sym, ap, subst, ◌∙◌, Bool, true, false, not,
  List, [], ◌∷◌, ◌++◌, arith, All, ltb, is_none, length, map, flatten,
}
use linux_dfl_backport.Avmm.Defs.{pkt_sop, trans_buf_size}
use linux_dfl_backport.Avmm.Timing.{
  any, any-swap, is_busy, Timely, time_after-ltb, WordBusy, rx_word-WordBusy,
}
use linux_dfl_backport.Avmm.Prepare.{packet}
use linux_dfl_backport.Avmm.Parse.{Parses-packet, Parses-junk, strip_idle, Parses-strip_idle}
use linux_dfl_backport.Avmm.Rx.{
  RxState, RxStep, dropped, more, RxWord, rest, Poll, received, RxRound, stop, again, rx_after,
  rx_round, rx_start, rx_byte, rx_word, has_room, rx_loop, br_do_rx_and_pkt_phy_parse,
}
use linux_dfl_backport.Avmm.Wire.{delivered, stream, on_wire, IsWhole, stream-on_wire}
use linux_dfl_backport.Avmm.Stream.{Parses, Completes}

-- A word leads to the end of the packet, or to a state from which the rest of the stream does.
abbrev Reads : RxWord → List ℕ → List ℕ → Type 0
Reads (rest s v) bs d = (has_room s ≡ true) × Parses s bs d
Reads (RxWord.complete d') bs d = d' ≡ d
Reads (RxWord.fault e) bs d = ⊥

rx_word-Reads :
    (s : RxState) (v : Bool) (w bs d : List ℕ)
    → has_room s ≡ true
    → Parses s (w ++ bs) d
    → Reads (rx_word s v w) bs d
unfolding rx_word
rx_word-Reads s v [] bs d h k = (h, k)
rx_word-Reads s v (b ∷ w) bs d h k =
    (elim (rx_byte s b)
        as (λ r.
          Completes r s (λ s'. Parses s' (w ++ bs) d) d
          → Reads
              (elim r [
                | dropped ↦ rx_word s v w
                | more s' ↦ rx_word s' true w
                | RxStep.complete d' ↦ RxWord.complete d'
                | RxStep.fault e ↦ RxWord.fault e
              ])
              bs d) [
                | dropped ↦ rx_word-Reads s v w bs d h
                | more s' ↦ λ c. rx_word-Reads s' true w bs d c.0 c.1
                | RxStep.complete d' ↦ λ c. c
                | RxStep.fault e ↦ λ c. c
              ])
      k

any-delivered : (f : ℕ → Bool) (swap : Bool) (p : Poll) → any f (delivered swap p) ≡ any f p.word
any-delivered f true p = any-swap f p.word
any-delivered f false p = refl

-- A round in which spi_read succeeds, not later than the deadline.
abbrev pub InTime : ℕ → ℕ → Poll → Type 0
InTime start xfer_timeout p =
    (p.status ≡ 0) × (start ≤ p.jiffies) × (p.jiffies ≤ start + xfer_timeout)

-- What a timely word leaves of the condition, for the next word.
abbrev TimelyRest : (x : ℕ) → (started late : Bool) → (t : ℕ) → Poll → List Poll → Bool → Type 0
TimelyRest x started late t p ps true = Timely x true false (p.jiffies + x) ps
TimelyRest x started late t p ps false = (late ≡ false) × Timely x started (ltb t p.jiffies) t ps

InTime-Timely :
    (x start : ℕ) (ps : List Poll) (started : Bool) (t : ℕ)
    → start + 2 * x < 2 ^ 63
    → All (InTime start x) ps
    → start + x ≤ t
    → Timely x started false t ps
InTime-Timely x start [] started t small h lo = tt
InTime-Timely x start (p ∷ ps) started t small h lo = (
  h.0.0,
  omega arith,
  on_busy (any (is_busy started) p.word)
      (InTime-Timely x start ps true (p.jiffies + x) small h.1 (omega arith))
      (InTime-Timely x start ps started t small h.1 lo),
)
  where
    on_busy :
        (b : Bool)
        → Timely x true false (p.jiffies + x) ps
        → Timely x started false t ps
        → TimelyRest x started false t p ps b
    on_busy true busy quiet = busy
    on_busy false busy quiet =
        let e : ltb t p.jiffies ≡ false = ground (arith, h.0) in (refl, rw e quiet)

module _ (swap : Bool) (x : ℕ) where
  -- A round returns the packet, or leads to a round from which the rest of the stream is read.
  abbrev GoesOn : RxRound → List Poll → List ℕ → Type 0
  GoesOn (stop r) ps d = r ≡ received d
  GoesOn (again s t l) ps d =
      (started : Bool) × (is_none s.tb ≡ not started)
      × Timely x started l t ps
      × (t < 2 ^ 63)
      × (has_room s ≡ true)
      × Parses s (stream swap ps) d

  rx_after-GoesOn :
      (w : RxWord) (started late busy : Bool) (t : ℕ) (p : Poll) (ps : List Poll) (d : List ℕ)
      → p.jiffies + x < 2 ^ 63
      → t < 2 ^ 63
      → TimelyRest x started late t p ps busy
      → WordBusy started false busy w
      → Reads w (stream swap ps) d
      → GoesOn (rx_after swap x t late p w) ps d
  unfolding rx_after
  rx_after-GoesOn (rest s true) started late true t p ps d small tm h b r =
      let e : (p.jiffies + x) % 2 ^ 64 ≡ p.jiffies + x = omega arith in
      (true, ground (arith, b), rw e h, omega arith, r.0, r.1)
  rx_after-GoesOn (rest s true) started late false t p ps d small tm h b r = cc
  rx_after-GoesOn (rest s false) started late true t p ps d small tm h b r = cc
  rx_after-GoesOn (rest s false) started late false t p ps d small tm h b r =
      let e = time_after-ltb p.jiffies t (omega arith) tm in
      rw h.0 (started, ground (arith, b), rw e h.1, tm, r.0, r.1)
  rx_after-GoesOn (RxWord.complete d') started late busy t p ps d small tm h b r = ap received r
  rx_after-GoesOn (RxWord.fault e) started late busy t p ps d small tm h b r = absurd r

  rx_round-after :
      (s : RxState) (t : ℕ) (late : Bool) (p : Poll)
      → has_room s ≡ true
      → p.status ≡ 0
      → rx_round swap x s t late p ≡ rx_after swap x t late p (rx_word s false (delivered swap p))
  unfolding rx_round
  rx_round-after s t late p room st = ground arith

  rx_loop-received :
      (ps : List Poll) (s : RxState) (started late : Bool) (t : ℕ) (d : List ℕ)
      → is_none s.tb ≡ not started
      → Timely x started late t ps
      → t < 2 ^ 63
      → has_room s ≡ true
      → Parses s (stream swap ps) d
      → rx_loop swap x s t late ps ≡ received d
  unfolding rx_loop stream
  rx_loop-received [] s started late t d n h tm room k = absurd k
  rx_loop-received (p ∷ ps) s started late t d n h tm room k =
      go (rx_round swap x s t late p)
        (λ s' t' l' (started', n', h', tm', room', k').
          rx_loop-received ps s' started' l' t' d n' h' tm' room' k')
        (rw (rx_round-after s t late p room h.0) (
          rx_after-GoesOn (rx_word s false (delivered swap p)) started late
            (any (is_busy started) p.word) t p ps d h.1 tm h.2
            (subst (λ b. WordBusy started false b (rx_word s false (delivered swap p)))
              (any-delivered (is_busy started) swap p)
              (rx_word-WordBusy (delivered swap p) started s false n))
            (rx_word-Reads s false (delivered swap p) (stream swap ps) d room k)))
    where
      go :
          (r : RxRound)
          → ((s' : RxState) (t' : ℕ) (l' : Bool)
              → GoesOn (again s' t' l') ps d
              → rx_loop swap x s' t' l' ps ≡ received d)
          → GoesOn r ps d
          → elim r [ stop r' ↦ r' | again s' t' l' ↦ rx_loop swap x s' t' l' ps ] ≡ received d
      go (stop r') ih g = g
      go (again s' t' l') ih g = ih s' t' l' g

  Timely-received :
      (start : ℕ) (ps : List Poll) (d : List ℕ)
      → start + x < 2 ^ 63
      → Timely x false false (start + x) ps
      → Parses rx_start (stream swap ps) d
      → br_do_rx_and_pkt_phy_parse swap x start ps ≡ received d
  unfolding br_do_rx_and_pkt_phy_parse
  Timely-received start ps d small h k =
      let e : (start + x) % 2 ^ 64 ≡ start + x = omega arith in
      rw e (
        rx_loop-received ps rx_start false false (start + x) d (unfold rx_start in refl) h small
          (unfold rx_start in refl) k)

  -- The same for words of which none is later than a timeout behind the start.
  pub soon-received :
      (start : ℕ) (ps : List Poll) (d : List ℕ)
      → start + 2 * x < 2 ^ 63
      → All (InTime start x) ps
      → Parses rx_start (stream swap ps) d
      → br_do_rx_and_pkt_phy_parse swap x start ps ≡ received d
  soon-received start ps d small h k =
      Timely-received start ps d (omega arith)
        (InTime-Timely x start ps false (start + x) small h (omega arith)) k

-- A packet whose data is a byte and fewer than TRANS_BUF_SIZE more is received, if the bytes on the
-- wire, the idle ones left out, are any bytes but SOP, the packet, and whatever follows, and every
-- spi_read succeeds in time: the first word with the SOP, and behind it each word with a byte that
-- is not idle, moves the deadline to a timeout behind itself, and only such a word may follow one
-- that came behind the deadline; the words of a bridge that swaps are whole, and no deadline
-- reaches 2^63.
pub parse-received :
    (swap : Bool) (x start : ℕ) (ps : List Poll) (c : ℕ) (r junk trailing : List ℕ)
    → length r < trans_buf_size
    → start + x < 2 ^ 63
    → Timely x false false (start + x) ps
    → All (IsWhole swap) ps
    → All (λ b. b ≢ pkt_sop) junk
    → strip_idle (flatten (map (on_wire swap) ps)) ≡ junk ++ (packet c r 0 ++ trailing)
    → br_do_rx_and_pkt_phy_parse swap x start ps ≡ received (c ∷ r)
parse-received swap x start ps c r junk trailing short small timely whole no_sop carried =
    Timely-received swap x start ps (c ∷ r) small timely (
      Parses-strip_idle rx_start (stream swap ps) (c ∷ r) (
        subst (λ bs. Parses rx_start bs (c ∷ r))
          (sym (ap strip_idle (stream-on_wire swap ps whole) ∙ carried))
          (Parses-junk junk _ (c ∷ r) no_sop (Parses-packet c r 0 trailing short))))
