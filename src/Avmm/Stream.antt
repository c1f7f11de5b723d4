-- ===== src/Avmm/Stream.antt =====
-- drivers/base/regmap/regmap-spi-avmm.c: the parser of the receive side over a stream of bytes.
use linux_dfl_backport.Base.{
  ℕ, ◌<◌, ◌≡◌, ◌≢◌, ◌⊎◌, inl, inr, Bool, true, some, List, [], ◌∷◌, arith, lt→ltb, length,
}
use linux_dfl_backport.Avmm.Defs.{
  pkt_sop, pkt_eop, pkt_channel, pkt_esc, phy_idle, phy_esc, trans_buf_size,
}
use linux_dfl_backport.Avmm.Tx.{is_pkt_special, is_phy_special}
use linux_dfl_backport.Avmm.Frame.{IsSpecial}
use linux_dfl_backport.Avmm.Rx.{
  RxState, RxStep, dropped, more, rx_start, rx_byte, bytes_of, has_room,
}

-- What the answer to a byte must be for the packet d to be completed, if P is what the rest of the
-- stream needs; trans_buf does not fill up.
abbrev pub Completes : RxStep → RxState → (RxState → Type 0) → List ℕ → Type 0
Completes dropped s P d = P s
Completes (more s') s P d = (has_room s' ≡ true) × P s'
Completes (RxStep.complete d') s P d = d' ≡ d
Completes (RxStep.fault e) s P d = ⊥

-- From a state, a stream of bytes completes the packet d.
abbrev pub Parses : RxState → List ℕ → List ℕ → Type 0
Parses s [] d = ⊥
Parses s (b ∷ bs) d = Completes (rx_byte s b) s (λ s'. Parses s' bs d) d

pub Completes-map :
    (r : RxStep) (s : RxState) (P Q : RxState → Type 0) (d : List ℕ)
    → ((s' : RxState) → P s' → Q s')
    → Completes r s P d
    → Completes r s Q d
Completes-map dropped s P Q d f h = f s h
Completes-map (more s') s P Q d f h = (h.0, f s' h.1)
Completes-map (RxStep.complete d') s P Q d f h = h
Completes-map (RxStep.fault e) s P Q d f h = h

pub Parses-step :
    (s s' : RxState) (b : ℕ) (bs d : List ℕ)
    → rx_byte s b ≡ more s'
    → length (bytes_of s'.tb) < trans_buf_size
    → Parses s' bs d
    → Parses s (b ∷ bs) d
Parses-step s s' b bs d e h k = rw (e, Parses) (lt→ltb _ _ h, k)

pub Parses-drop :
    (s : RxState) (b : ℕ) (bs d : List ℕ)
    → rx_byte s b ≡ dropped
    → Parses s bs d
    → Parses s (b ∷ bs) d
Parses-drop s b bs d e k = rw (e, Parses) k

pub Parses-complete :
    (s : RxState) (b : ℕ) (bs d d' : List ℕ)
    → rx_byte s b ≡ RxStep.complete d'
    → d' ≡ d
    → Parses s (b ∷ bs) d
Parses-complete s b bs d d' e k = rw (e, Parses) k

abbrev pub mid : List ℕ → Bool → Bool → Bool → RxState
mid t e ch esc = record { tb = some t; eop_found = e; channel_found = ch; esc_found = esc }

pub rx_byte-idle : (s : RxState) → rx_byte s phy_idle ≡ dropped
unfolding rx_byte
rx_byte-idle s = ground arith

pub rx_byte-junk : (b : ℕ) → b ≢ pkt_sop → rx_byte rx_start b ≡ dropped
unfolding rx_byte rx_start
rx_byte-junk b h = ground arith

special_cases :
    (c : ℕ)
    → IsSpecial c true
    → (c ≡ pkt_sop)
      ⊎ (c ≡ pkt_eop)
      ⊎ (c ≡ pkt_channel)
      ⊎ (c ≡ pkt_esc)
      ⊎ (c ≡ phy_idle)
      ⊎ (c ≡ phy_esc)
unfolding is_pkt_special is_phy_special
special_cases c h = ground arith

-- What holds of the six special characters holds of each special byte.
pub special_elim :
    (P : ℕ → Type 0)
    → P pkt_sop
    → P pkt_eop
    → P pkt_channel
    → P pkt_esc
    → P phy_idle
    → P phy_esc
    → (c : ℕ) → IsSpecial c true
    → P c
special_elim P a b d e f g c h = elim (special_cases c h) [
  | inl p ↦ rw p a
  | inr (inl p) ↦ rw p b
  | inr (inr (inl p)) ↦ rw p d
  | inr (inr (inr (inl p))) ↦ rw p e
  | inr (inr (inr (inr (inl p)))) ↦ rw p f
  | inr (inr (inr (inr (inr p)))) ↦ rw p g
]
