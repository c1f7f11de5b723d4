-- ===== src/Avmm/Lengths.antt =====
-- drivers/base/regmap/regmap-spi-avmm.c: by how much a word lengthens the received packet.
use Prim.Native.Nat.{bit_xor}
use linux_dfl_backport.Base.{
  ℕ, zero, suc, ◌+◌, ◌≤◌, ◌<◌, ◌≡◌, Bool, true, List, [], ◌∷◌, arith, if◌then◌else◌, length,
  length-append,
}
use linux_dfl_backport.Avmm.Defs.{trans_buf_size}
use linux_dfl_backport.Avmm.Rx.{
  RxState, RxStep, dropped, more, RxWord, rest, bytes_of, rx_byte, rx_word,
}

-- What a word that completes a packet may lengthen it to, with k bytes of it left: behind EOP one more
-- byte completes it, and before that, EOP itself is one of those k and is not recorded.
abbrev pub need : RxState → ℕ → ℕ
need s zero = 0
need s (suc k) = if s.eop_found then length (bytes_of s.tb) + 1 else length (bytes_of s.tb) + k

-- With k bytes left behind a byte, what it leads to stays within n.
abbrev StepWithin : RxState → ℕ → ℕ → RxStep → Type 0
StepWithin s k n dropped = need s k ≤ n
StepWithin s k n (more s') = need s' k ≤ n
StepWithin s k n (RxStep.complete d) = length d ≤ n
StepWithin s k n (RxStep.fault e) = Unit

-- A packet that is completed is no longer than n.
abbrev pub WordWithin : RxWord → ℕ → Type 0
WordWithin (rest s v) n = Unit
WordWithin (RxWord.complete d) n = length d ≤ n
WordWithin (RxWord.fault e) n = Unit

rx_byte-within :
    (s : RxState) (b k n : ℕ) → k ≤ n → need s (suc k) ≤ n → StepWithin s k n (rx_byte s b)
unfolding rx_byte
rx_byte-within s b zero n small h =
    ground (arith, length-append (bytes_of s.tb) ((if s.esc_found then bit_xor b 0x20 else b) ∷ []))
rx_byte-within s b (suc k) n small h =
    ground (arith, length-append (bytes_of s.tb) ((if s.esc_found then bit_xor b 0x20 else b) ∷ []))

pub rx_word-dropped :
    (s : RxState) (v : Bool) (b : ℕ) (w : List ℕ)
    → rx_byte s b ≡ dropped
    → rx_word s v (b ∷ w) ≡ rx_word s v w
unfolding rx_word
rx_word-dropped s v b w e = rw (e, rx_word)

pub rx_word-more :
    (s s' : RxState) (v : Bool) (b : ℕ) (w : List ℕ)
    → rx_byte s b ≡ more s'
    → rx_word s v (b ∷ w) ≡ rx_word s' true w
unfolding rx_word
rx_word-more s s' v b w e = rw (e, rx_word)

pub rx_word-complete :
    (s : RxState) (v : Bool) (b : ℕ) (w d : List ℕ)
    → rx_byte s b ≡ RxStep.complete d
    → rx_word s v (b ∷ w) ≡ RxWord.complete d
unfolding rx_word
rx_word-complete s v b w d e = rw (e, rx_word)

pub rx_word-within :
    (w : List ℕ) (s : RxState) (v : Bool) (n : ℕ)
    → length w ≤ n
    → need s (length w) ≤ n
    → WordWithin (rx_word s v w) n
unfolding rx_word
rx_word-within [] s v n small h = tt
rx_word-within (b ∷ w) s v n small h =
    go (rx_byte s b) (rx_byte-within s b (length w) n (omega arith) h)
      (λ s' v'. rx_word-within w s' v' n (omega arith))
  where
    go :
        (r : RxStep)
        → StepWithin s (length w) n r
        → ((s' : RxState) (v' : Bool) → need s' (length w) ≤ n → WordWithin (rx_word s' v' w) n)
        → WordWithin
            (elim r [
              | dropped ↦ rx_word s v w
              | more s' ↦ rx_word s' true w
              | RxStep.complete d' ↦ RxWord.complete d'
              | RxStep.fault e ↦ RxWord.fault e
            ])
            n
    go dropped k ih = ih s v k
    go (more s') k ih = ih s' true k
    go (RxStep.complete d') k ih = k
    go (RxStep.fault e) k ih = tt

-- A word of at most four bytes, on a buffer that is not full.
pub need-le :
    (s : RxState) (k : ℕ)
    → k ≤ 4
    → length (bytes_of s.tb) < trans_buf_size
    → need s k ≤ trans_buf_size + 2
need-le s zero h room = omega arith
need-le s (suc k) h room = ground arith
