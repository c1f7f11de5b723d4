-- ===== src/Avmm/Timing.antt =====
-- drivers/base/regmap/regmap-spi-avmm.c: which words of the slave move the receive loop's deadline.
use linux_dfl_backport.Base.{
  ℕ, ◌+◌, ◌^◌, ◌<◌, ◌≡◌, refl, ap, ◌∙◌, Bool, true, false, not, ◌||◌, List, [], ◌∷◌, arith, ltb,
  ◌==◌, is_none,
}
use linux_dfl_backport.Avmm.Defs.{phy_idle, pkt_sop}
use linux_dfl_backport.Avmm.Bytes.{br_swap_words_32}
use linux_dfl_backport.Avmm.Rx.{
  RxState, RxStep, dropped, more, RxWord, rest, Poll, rx_byte, rx_word, time_after,
}

-- Whether some byte of a word passes a test.
abbrev pub any : (ℕ → Bool) → List ℕ → Bool
any f [] = false
any f (b ∷ bs) = f b || any f bs

any-reversed : (a b c d e : Bool) → (d || (c || (b || (a || e)))) ≡ (a || (b || (c || (d || e))))
any-reversed a b c d e = ground arith

-- The order of the bytes in a word does not matter for that.
pub any-swap : (f : ℕ → Bool) (w : List ℕ) → any f (br_swap_words_32 w) ≡ any f w
unfolding br_swap_words_32
any-swap f (a ∷ b ∷ c ∷ d ∷ w) =
    ap (λ r. f d || (f c || (f b || (f a || r)))) (any-swap f w)
    ∙ any-reversed (f a) (f b) (f c) (f d) (any f w)
any-swap f [] = refl
any-swap f (a ∷ []) = refl
any-swap f (a ∷ b ∷ []) = refl
any-swap f (a ∷ b ∷ c ∷ []) = refl

-- A byte that shows that the slave answers: SOP, and behind it any byte that is not idle.
abbrev pub is_busy : (started : Bool) → ℕ → Bool
is_busy true b = not (b == phy_idle)
is_busy false b = b == pkt_sop

-- Words that arrive in time, from a deadline on. `started` says whether SOP came, `late` whether the
-- last word came behind the deadline. A word with a busy byte moves the deadline to a timeout behind
-- itself, and it may be one word late; any other must not follow a late one.
abbrev pub Timely : (xfer_timeout : ℕ) → (started late : Bool) → (deadline : ℕ) → List Poll → Type 0
Timely x started late t [] = Unit
Timely x started late t (p ∷ ps) =
    (p.status ≡ 0) × (p.jiffies + x < 2 ^ 63) × elim (any (is_busy started) p.word) [
      | true ↦ Timely x true false (p.jiffies + x) ps
      | false ↦ (late ≡ false) × Timely x started (ltb t p.jiffies) t ps
    ]

pub time_after-ltb : (a b : ℕ) → a < 2 ^ 63 → b < 2 ^ 63 → time_after a b ≡ ltb b a
unfolding time_after
time_after-ltb a b h k = ground arith

-- A byte that is dropped is not busy, and one that is not dropped is; SOP sets `tb`.
abbrev ByteBusy : Bool → ℕ → RxStep → Type 0
ByteBusy started b dropped = is_busy started b ≡ false
ByteBusy started b (more s') = (is_busy started b ≡ true) × (is_none s'.tb ≡ false)
ByteBusy started b (RxStep.complete d) = Unit
ByteBusy started b (RxStep.fault e) = Unit

rx_byte-ByteBusy :
    (started : Bool) (s : RxState) (b : ℕ)
    → is_none s.tb ≡ not started
    → ByteBusy started b (rx_byte s b)
unfolding rx_byte
rx_byte-ByteBusy true s b h = ground arith
rx_byte-ByteBusy false s b h = ground arith

-- A word is valid if it was before or has a busy byte, and `tb` is set by then.
abbrev pub WordBusy : (started v any_busy : Bool) → RxWord → Type 0
WordBusy started v any_busy (rest s' v') =
    (v' ≡ (v || any_busy)) × (is_none s'.tb ≡ not (started || any_busy))
WordBusy started v any_busy (RxWord.complete d) = Unit
WordBusy started v any_busy (RxWord.fault e) = Unit

busy_then :
    (started v b x y : Bool) (r : RxWord)
    → b ≡ true
    → WordBusy true true x r
    → WordBusy started v (b || y) r
busy_then started v b x y (rest s' v') e h = ground (arith, h)
busy_then started v b x y (RxWord.complete d) e h = tt
busy_then started v b x y (RxWord.fault c) e h = tt

-- What the words behind a byte lead to, on every step that it may be.
behind_byte :
    (started : Bool) (s : RxState) (v : Bool) (b : ℕ) (w : List ℕ) (r : RxStep)
    → is_none s.tb ≡ not started
    → ((started' : Bool) (s' : RxState) (v' : Bool)
        → is_none s'.tb ≡ not started'
        → WordBusy started' v' (any (is_busy started') w) (rx_word s' v' w))
    → ByteBusy started b r
    → WordBusy started v (is_busy started b || any (is_busy started) w) (elim r [
      | dropped ↦ rx_word s v w
      | more s' ↦ rx_word s' true w
      | RxStep.complete d' ↦ RxWord.complete d'
      | RxStep.fault e ↦ RxWord.fault e
    ])
behind_byte started s v b w dropped h ih k = rw k (ih started s v h)
behind_byte started s v b w (more s') h ih k =
    busy_then started v (is_busy started b) (any (is_busy true) w) (any (is_busy started) w) _ k.0
      (ih true s' true k.1)
behind_byte started s v b w (RxStep.complete d) h ih k = tt
behind_byte started s v b w (RxStep.fault e) h ih k = tt

pub rx_word-WordBusy :
    (w : List ℕ) (started : Bool) (s : RxState) (v : Bool)
    → is_none s.tb ≡ not started
    → WordBusy started v (any (is_busy started) w) (rx_word s v w)
unfolding rx_word
rx_word-WordBusy [] started s v h = ground arith
rx_word-WordBusy (b ∷ w) started s v h =
    behind_byte started s v b w (rx_byte s b) h (rx_word-WordBusy w)
      (rx_byte-ByteBusy started s b h)
