-- ===== src/Avmm/Answer.antt =====
-- drivers/base/regmap/regmap-spi-avmm.c: what do_reg_access makes of the slave's answer.
use Prim.Native.Nat.{bit_xor}
use linux_dfl_backport.Base.{
  ℕ, zero, suc, ◌+◌, ◌*◌, ◌/◌, ◌%◌, ◌^◌, ◌<◌, ◌≡◌, ◌≢◌, refl, sym, ap, ◌∙◌, subst, Bool, true,
  false, List, [], inl, inr, ◌∷◌, ◌++◌, arith, ◌==◌, if◌then◌else◌, length, All, ok, err, efault,
  ==_iff, not, ◌&&◌,
}
use linux_dfl_backport.Base.{Bool-cases}
use linux_dfl_backport.Avmm.Defs.{pkt_sop, val_size, trans_buf_size, Bridge}
use linux_dfl_backport.Avmm.Bytes.{le32_all, length-le32_all, IsWord, le32_to_cpu-le32_all}
use linux_dfl_backport.Avmm.Prepare.{packet}
use linux_dfl_backport.Avmm.Rx.{rx_start, received, br_do_rx_and_pkt_phy_parse}
use linux_dfl_backport.Avmm.Parse.{Parses-packet, Parses-junk, strip_idle, Parses-strip_idle}
use linux_dfl_backport.Avmm.Stream.{Parses}
use linux_dfl_backport.Avmm.Receive.{InTime, soon-received}
use linux_dfl_backport.Avmm.Wire.{stream}
use linux_dfl_backport.Avmm.Transfer.{
  done, of_result, error, Spi, after_rx, do_reg_access, br_rd_trans_rx_parse, br_wr_trans_rx_parse,
}
use linux_dfl_backport.Avmm.Access.{IsBridge, IsRequest, request_sent}

-- The slave answers with one packet of the bytes c ∷ r, in time: idle bytes may stand anywhere in
-- the stream, other bytes but SOP before the packet, and any behind it.
pub record Answers (xfer_timeout : ℕ) (br : Bridge) (spi : Spi) (c : ℕ) (r : List ℕ) : Type 0 where
  pub junk : List ℕ
  pub trailing : List ℕ
  pub small : spi.jiffies + 2 * xfer_timeout < 2 ^ 63
  pub in_time : All (InTime spi.jiffies xfer_timeout) spi.polls
  pub no_sop : All (λ b. b ≢ pkt_sop) junk
  pub carried : strip_idle (stream br.swap_words spi.polls) ≡ junk ++ (packet c r 0 ++ trailing)

Answers-received :
    (xfer_timeout : ℕ) (br : Bridge) (spi : Spi) (c : ℕ) (r : List ℕ)
    → length r < trans_buf_size
    → Answers xfer_timeout br spi c r
    → br_do_rx_and_pkt_phy_parse br.swap_words xfer_timeout spi.jiffies spi.polls ≡ received (c ∷ r)
Answers-received xfer_timeout br spi c r h a =
    soon-received br.swap_words xfer_timeout spi.jiffies spi.polls (c ∷ r) a.small a.in_time (
      Parses-strip_idle rx_start _ (c ∷ r) (
        subst (λ bs. Parses rx_start bs (c ∷ r)) (sym a.carried)
          (Parses-junk a.junk _ (c ∷ r) a.no_sop (Parses-packet c r 0 a.trailing h))))

-- If spi_write succeeds and the slave answers with a packet, the packet's bytes are the answer.
answered :
    (xfer_timeout : ℕ) (br : Bridge) (spi : Spi) (is_read : Bool) (reg : ℕ) (value : List ℕ)
    (count : ℕ) (c : ℕ) (r : List ℕ)
    → IsBridge br
    → IsRequest is_read value count
    → ((wire : List ℕ) → spi.write_status wire ≡ 0)
    → length r < trans_buf_size
    → Answers xfer_timeout br spi c r
    → do_reg_access xfer_timeout br spi is_read reg value count
      ≡ after_rx is_read count (received (c ∷ r))
answered xfer_timeout br spi is_read reg value count c r known asked sent h a =
    let (wire, _, _, _, e) = request_sent xfer_timeout br spi is_read reg value count known asked in
    e ∙ ground (arith, sent wire, Answers-received xfer_timeout br spi c r h a)

abbrev le32_rest : ℕ → List ℕ → List ℕ
le32_rest v vs = v / 256 % 256 ∷ v / 65536 % 256 ∷ v / 16777216 % 256 ∷ le32_all vs

rd_parse_words :
    (v : ℕ) (vs : List ℕ)
    → All IsWord (v ∷ vs)
    → br_rd_trans_rx_parse (v % 256 ∷ le32_rest v vs) (length (v ∷ vs)) ≡ ok (v ∷ vs)
unfolding br_rd_trans_rx_parse le32_all
rd_parse_words v vs h =
    rw
      ((==_iff (length (v ∷ vs) * val_size) (length (v % 256 ∷ le32_rest v vs))).1
        (omega (arith, length-le32_all vs)))
      (ap ok (le32_to_cpu-le32_all (v ∷ vs) h))

-- A read of up to 256 registers (MAX_READ_CNT) returns the values that the slave answers with, if
-- spi_write succeeds and the slave's packet arrives in time, wherever idle bytes stand in the
-- stream, whatever else but SOP comes before the packet, and however the stream is cut into words.
pub read_gives :
    (xfer_timeout : ℕ) (br : Bridge) (spi : Spi) (reg v : ℕ) (vs : List ℕ)
    → IsBridge br
    → ((wire : List ℕ) → spi.write_status wire ≡ 0)
    → length vs < 256
    → All IsWord (v ∷ vs)
    → Answers xfer_timeout br spi (v % 256) (le32_rest v vs)
    → do_reg_access xfer_timeout br spi true reg [] (length (v ∷ vs)) ≡ done (v ∷ vs)
unfolding after_rx
read_gives xfer_timeout br spi reg v vs known sent h words a =
    answered xfer_timeout br spi true reg [] (length (v ∷ vs)) (v % 256) (le32_rest v vs) known tt
      sent (omega (arith, length-le32_all vs)) a
    ∙ ap of_result (rd_parse_words v vs words)

-- The code of a write's answer, with its top bit taken off, is that of a write for 0x80 alone.
is_write_answer : ℕ → Bool
is_write_answer code = if bit_xor code 0x80 == 0 then code == 0x80 else not (code == 0x80)

-- The n codes from `first` on are told apart that way.
codes_agree : (n first : ℕ) → Bool
codes_agree zero first = true
codes_agree (suc n) first = if is_write_answer first then codes_agree n (first + 1) else false

codes_agree_at :
    (n first k : ℕ) → codes_agree n first ≡ true → k < n → is_write_answer (first + k) ≡ true
unfolding codes_agree
codes_agree_at zero first k h lt = absurd (omega arith)
codes_agree_at (suc n) first zero h lt = ground arith
codes_agree_at (suc n) first (suc k) h lt = elim (Bool-cases (is_write_answer first)) [
  | inl e ↦
      subst (λ c. is_write_answer c ≡ true) (omega arith)
        (codes_agree_at n (first + 1) k (rw e at h) (omega arith))
  | inr e ↦ cc (rw e at h)
]

every_code : codes_agree 256 0 ≡ true
unfolding codes_agree is_write_answer
every_code = refl

write_answer_code : (code : ℕ) → code < 256 → is_write_answer code ≡ true
write_answer_code code h =
    subst (λ c. is_write_answer c ≡ true) (omega arith) (codes_agree_at 256 0 code every_code h)

wr_parse-check :
    (code rsvd hi lo : ℕ)
    → code < 256
    → lo < 256
    → br_wr_trans_rx_parse (code ∷ rsvd ∷ hi ∷ lo ∷ []) 1
      ≡ (if code == 0x80 && (hi == 0 && lo == 4) then ok [] else err efault)
unfolding br_wr_trans_rx_parse is_write_answer
wr_parse-check code rsvd hi lo hc hl = ground (arith, write_answer_code code hc)

-- A write of one register succeeds exactly if the slave's answer of four bytes has the code of a
-- write with its top bit set and gives the size of one value; any other such answer is -EFAULT.
pub write_checked :
    (xfer_timeout : ℕ) (br : Bridge) (spi : Spi) (reg v code rsvd hi lo : ℕ)
    → IsBridge br
    → ((wire : List ℕ) → spi.write_status wire ≡ 0)
    → code < 256
    → lo < 256
    → Answers xfer_timeout br spi code (rsvd ∷ hi ∷ lo ∷ [])
    → do_reg_access xfer_timeout br spi false reg (v ∷ []) 1
      ≡ (if code == 0x80 && (hi == 0 && lo == 4) then done [] else error efault)
unfolding after_rx
write_checked xfer_timeout br spi reg v code rsvd hi lo known sent hc hl a =
    answered xfer_timeout br spi false reg (v ∷ []) 1 code (rsvd ∷ hi ∷ lo ∷ []) known (refl, refl)
      sent (omega arith) a
    ∙ ground (arith, wr_parse-check code rsvd hi lo hc hl)
