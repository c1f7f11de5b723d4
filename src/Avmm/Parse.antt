-- ===== src/Avmm/Parse.antt =====
-- drivers/base/regmap/regmap-spi-avmm.c: the streams that complete a packet in the parser of
-- br_do_rx_and_pkt_phy_parse.
use Prim.Native.Nat.{bit_xor}
use mathlib.Core.List.{append_assoc}
use linux_dfl_backport.Base.{
  ℕ, zero, suc, ◌+◌, ◌<◌, ◌≡◌, ◌≢◌, refl, ap, ◌∙◌, subst, ◌⊎◌, inl, inr, Bool, true, false, List,
  [], ◌∷◌, ◌++◌, arith, ◌==◌, if◌then◌else◌, length, length-append, replicate, All, Bool-cases,
  ==_iff,
}
use linux_dfl_backport.Avmm.Defs.{
  pkt_sop, pkt_eop, pkt_channel, pkt_esc, phy_idle, phy_esc, trans_buf_size,
}
use linux_dfl_backport.Avmm.Tx.{is_pkt_special, is_phy_special}
use linux_dfl_backport.Avmm.Frame.{escape, IsSpecial}
use linux_dfl_backport.Avmm.Prepare.{before_eop, final, packet}
use linux_dfl_backport.Avmm.Rx.{RxState, RxStep, more, rx_start, rx_byte}
use linux_dfl_backport.Avmm.Stream.{
  Parses, Completes-map, Parses-step, Parses-drop, Parses-complete, mid, rx_byte-idle, rx_byte-junk,
  special_elim,
}

-- The parser's answer to a payload byte c, once it is unescaped.
abbrev pub accepted : List ℕ → Bool → ℕ → RxStep
accepted t e c =
    if e then RxStep.complete (t ++ c ∷ []) else more (mid (t ++ c ∷ []) false false false)

pub rx_byte-plain :
    (t : List ℕ) (e : Bool) (c : ℕ)
    → IsSpecial c false
    → rx_byte (mid t e false false) c ≡ accepted t e c
unfolding rx_byte is_pkt_special is_phy_special
rx_byte-plain t true c h = ground arith
rx_byte-plain t false c h = ground arith

rx_byte-escaped :
    (t : List ℕ) (e : Bool) (c : ℕ)
    → IsSpecial c true
    → rx_byte (mid t e false true) (bit_xor c 0x20) ≡ accepted t e c
unfolding rx_byte
rx_byte-escaped t true =
    special_elim (λ c. rx_byte (mid t true false true) (bit_xor c 0x20) ≡ accepted t true c) refl
      refl refl refl refl refl
rx_byte-escaped t false =
    special_elim (λ c. rx_byte (mid t false false true) (bit_xor c 0x20) ≡ accepted t false c) refl
      refl refl refl refl refl

-- What is left to show behind a payload byte c.
abbrev Goes : List ℕ → Bool → ℕ → List ℕ → List ℕ → Type 0
Goes t true c bs d = t ++ c ∷ [] ≡ d
Goes t false c bs d =
    (length (t ++ c ∷ []) < trans_buf_size) × Parses (mid (t ++ c ∷ []) false false false) bs d

Goes-accepted :
    (s : RxState) (b : ℕ) (t : List ℕ) (e : Bool) (c : ℕ) (bs d : List ℕ)
    → rx_byte s b ≡ accepted t e c
    → Goes t e c bs d
    → Parses s (b ∷ bs) d
Goes-accepted s b t true c bs d h k = Parses-complete s b bs d _ h k
Goes-accepted s b t false c bs d h k = Parses-step s _ b bs d h k.0 k.1

escape_forms :
    (c : ℕ)
    → (IsSpecial c true × (escape c ≡ pkt_esc ∷ bit_xor c 0x20 ∷ []))
      ⊎ (IsSpecial c true × (escape c ≡ phy_esc ∷ bit_xor c 0x20 ∷ []))
      ⊎ (IsSpecial c false × (escape c ≡ c ∷ []))
unfolding escape
escape_forms c = ground arith

rx_byte-esc :
    (t : List ℕ) (e : Bool)
    → (rx_byte (mid t e false false) pkt_esc ≡ more (mid t e false true))
      × (rx_byte (mid t e false false) phy_esc ≡ more (mid t e false true))
unfolding rx_byte
rx_byte-esc t e = (refl, refl)

-- The escaped form of a byte is read back as that byte.
Parses-escape :
    (t : List ℕ) (e : Bool) (c : ℕ) (bs d : List ℕ)
    → length t < trans_buf_size
    → Goes t e c bs d
    → Parses (mid t e false false) (escape c ++ bs) d
Parses-escape t e c bs d h k = elim (escape_forms c) [
  | inl (s, f) ↦ rw f (
      Parses-step _ (mid t e false true) _ (bit_xor c 0x20 ∷ bs) d (rx_byte-esc t e).0 h
        (Goes-accepted _ _ t e c bs d (rx_byte-escaped t e c s) k))
  | inr (inl (s, f)) ↦ rw f (
      Parses-step _ (mid t e false true) _ (bit_xor c 0x20 ∷ bs) d (rx_byte-esc t e).1 h
        (Goes-accepted _ _ t e c bs d (rx_byte-escaped t e c s) k))
  | inr (inr (s, f)) ↦ rw f (Goes-accepted _ _ t e c bs d (rx_byte-plain t e c s) k)
]

Parses-idle :
    (n : ℕ) (s : RxState) (bs d : List ℕ) → Parses s bs d → Parses s (replicate n phy_idle ++ bs) d
Parses-idle zero s bs d h = h
Parses-idle (suc n) s bs d h = Parses-drop s _ _ d (rx_byte-idle s) (Parses-idle n s bs d h)

pub rx_byte-eop :
    (t : List ℕ) → rx_byte (mid t false false false) pkt_eop ≡ more (mid t true false false)
unfolding rx_byte
rx_byte-eop t = refl

-- The rest of a packet behind its header, with what follows it in the stream.
abbrev rest_of : ℕ → List ℕ → ℕ → List ℕ → List ℕ
rest_of c r hole bs =
    before_eop c r ++ (replicate hole phy_idle ++ (pkt_eop ∷ (escape (final c r) ++ bs)))

-- t is what the parser has recorded.
Parses-rest_of :
    (c : ℕ) (r : List ℕ) (hole : ℕ) (t bs : List ℕ)
    → length t + length r < trans_buf_size
    → Parses (mid t false false false) (rest_of c r hole bs) (t ++ c ∷ r)
unfolding before_eop final
Parses-rest_of c [] hole t bs h =
    Parses-idle hole (mid t false false false) (pkt_eop ∷ (escape c ++ bs)) (t ++ c ∷ []) (
      Parses-step _ (mid t true false false) _ (escape c ++ bs) (t ++ c ∷ []) (rx_byte-eop t)
        (omega arith) (Parses-escape t true c bs (t ++ c ∷ []) (omega arith) refl))
Parses-rest_of c (d ∷ r) hole t bs h =
    let ih = Parses-rest_of d r hole (t ++ c ∷ []) bs (omega (arith, length-append t (c ∷ []))) in
    rw (append_assoc (escape c) (before_eop d r)) (
      Parses-escape t false c (rest_of d r hole bs) (t ++ c ∷ d ∷ r) (omega arith) (
        omega (arith, length-append t (c ∷ [])),
        subst (Parses _ _) (append_assoc t (c ∷ []) (d ∷ r)) ih,
      ))

rx_byte-header :
    (rx_byte rx_start pkt_sop ≡ more (mid [] false false false))
    × (rx_byte (mid [] false false false) pkt_channel ≡ more (mid [] false true false))
    × (rx_byte (mid [] false true false) 0 ≡ more (mid [] false false false))
unfolding rx_byte rx_start
rx_byte-header = (refl, refl, refl)

packet-append :
    (c : ℕ) (r : List ℕ) (hole : ℕ) (bs : List ℕ)
    → packet c r hole ++ bs ≡ pkt_sop ∷ pkt_channel ∷ 0x0 ∷ rest_of c r hole bs
unfolding packet
packet-append c r hole bs =
    ap (λ (l : List ℕ). pkt_sop ∷ pkt_channel ∷ 0x0 ∷ l)
      (append_assoc (before_eop c r) _ bs
        ∙ ap (◌++◌ (before_eop c r)) (append_assoc (replicate hole phy_idle) _ bs))

-- A packet of at most TRANS_BUF_SIZE bytes is read back, whatever follows it in the stream.
pub Parses-packet :
    (c : ℕ) (r : List ℕ) (hole : ℕ) (bs : List ℕ)
    → length r < trans_buf_size
    → Parses rx_start (packet c r hole ++ bs) (c ∷ r)
Parses-packet c r hole bs h = rw (packet-append c r hole bs) (
    Parses-step _ (mid [] false false false) _ (pkt_channel ∷ 0 ∷ rest_of c r hole bs) (c ∷ r)
      rx_byte-header.0 (omega arith)
      (Parses-step _ (mid [] false true false) _ (0 ∷ rest_of c r hole bs) (c ∷ r) rx_byte-header.1
        (omega arith)
        (Parses-step _ (mid [] false false false) _ (rest_of c r hole bs) (c ∷ r) rx_byte-header.2
          (omega arith) (Parses-rest_of c r hole [] bs (omega arith)))))

-- Bytes before the first SOP are dropped.
pub Parses-junk :
    (junk bs d : List ℕ)
    → All (λ b. b ≢ pkt_sop) junk
    → Parses rx_start bs d
    → Parses rx_start (junk ++ bs) d
Parses-junk [] bs d h k = k
Parses-junk (b ∷ junk) bs d h k =
    Parses-drop _ b (junk ++ bs) d (rx_byte-junk b h.0) (Parses-junk junk bs d h.1 k)

-- A stream without its idle bytes.
unfoldable pub strip_idle : List ℕ → List ℕ
strip_idle [] = []
strip_idle (b ∷ bs) = if b == phy_idle then strip_idle bs else b ∷ strip_idle bs

-- Idle bytes change nothing, wherever they stand.
pub Parses-strip_idle : (s : RxState) (bs d : List ℕ) → Parses s (strip_idle bs) d → Parses s bs d
unfolding strip_idle
Parses-strip_idle s [] d h = h
Parses-strip_idle s (b ∷ bs) d h = elim (Bool-cases (b == phy_idle)) [
  | inl e ↦
      Parses-drop s b bs d (rw ((==_iff b phy_idle).0 e) (rx_byte-idle s))
        (Parses-strip_idle s bs d (rw e at h))
  | inr e ↦ Completes-map (rx_byte s b) s _ _ d (λ s'. Parses-strip_idle s' bs d) (rw e at h)
]
