-- ===== src/Avmm/Rx.antt =====
-- drivers/base/regmap/regmap-spi-avmm.c, receive side: br_do_rx_and_pkt_phy_parse.
use Prim.Native.Nat.{bit_xor}
use linux_dfl_backport.Base.{
  ℕ, ◌+◌, ◌-◌, ◌%◌, ◌^◌, Bool, true, false, not, ◌&&◌, ◌||◌, Option, none, some, List, [], ◌∷◌,
  ◌++◌, ltb, leb, ◌==◌, if◌then◌else◌, is_none, length, efault, etimedout,
}
use linux_dfl_backport.Avmm.Defs.{
  pkt_sop, pkt_eop, pkt_channel, pkt_esc, phy_idle, phy_esc, trans_buf_size,
}
use linux_dfl_backport.Avmm.Bytes.{br_swap_words_32}

-- The locals of the parser: the bytes of trans_buf up to `tb`, or none while `tb` is NULL, and the
-- three flags.
pub record RxState : Type 0 where
  pub tb : Option (List ℕ)
  pub eop_found : Bool
  pub channel_found : Bool
  pub esc_found : Bool

unfoldable pub rx_start : RxState
rx_start = record { tb = none; eop_found = false; channel_found = false; esc_found = false }

-- What one byte leads to: it is dropped, the parser goes on, the packet is complete, or it is bad.
pub data RxStep : Type 0 where
  dropped : RxStep
  more : RxState → RxStep
  complete : List ℕ → RxStep
  fault : ℕ → RxStep

-- `default:` of the switch. The pointer `tb` is not NULL there; the write goes to its end.
unfoldable pub rx_record : RxState → List ℕ → ℕ → RxStep
rx_record s tb b =
    let tb' = tb ++ (if s.esc_found then bit_xor b 0x20 else b) ∷ [] in
    if s.eop_found then complete tb' else more (record s { tb = some tb'; esc_found = false })

-- The switch.
unfoldable pub rx_switch : RxState → List ℕ → ℕ → RxStep
unfolding rx_record
rx_switch s tb b =
    if b == pkt_sop
    then more (record { tb = some []; eop_found = false; channel_found = false; esc_found = false })
    else if b == pkt_eop
    then (if s.esc_found || s.eop_found then fault efault else more (record s { eop_found = true }))
    else if b == pkt_channel
    then (if s.esc_found || s.eop_found
        then fault efault
        else more (record s { channel_found = true }))
    else if b == pkt_esc || b == phy_esc
    then (if s.esc_found then fault efault else more (record s { esc_found = true }))
    else rx_record s tb b

abbrev pub bytes_of : Option (List ℕ) → List ℕ
bytes_of none = []
bytes_of (some tb) = tb

-- The body of the loop over the bytes of a word.
unfoldable pub rx_byte : RxState → ℕ → RxStep
unfolding rx_switch
rx_byte s b =
    if is_none s.tb && not (b == pkt_sop)
    then dropped
    else if b == phy_idle
    then dropped
    else if s.channel_found
    then (if not (b == 0) then fault efault else more (record s { channel_found = false }))
    else rx_switch s (bytes_of s.tb) b

-- What a word leads to: `rest` says whether it was a valid word.
pub data RxWord : Type 0 where
  rest : RxState → Bool → RxWord
  complete : List ℕ → RxWord
  fault : ℕ → RxWord

unfoldable pub rx_word : RxState → Bool → List ℕ → RxWord
rx_word s valid [] = RxWord.rest s valid
rx_word s valid (b ∷ bs) = elim (rx_byte s b) [
  | dropped ↦ rx_word s valid bs
  | more s' ↦ rx_word s' true bs
  | complete d ↦ RxWord.complete d
  | fault e ↦ RxWord.fault e
]

-- What the hardware and the clock give in one round of the outer loop: the result of spi_read (0,
-- or an error number), the word that it stored, and the value of jiffies behind it.
pub record Poll : Type 0 where
  pub status : ℕ
  pub word : List ℕ
  pub jiffies : ℕ

-- time_after(a, b) on unsigned longs of 64 bits: b - a is negative as a signed long.
unfoldable pub time_after : ℕ → ℕ → Bool
time_after a b = leb (2 ^ 63) ((b + 2 ^ 64 - a) % 2 ^ 64)

-- What the parser returns: trans_buf, whose length is trans_len, or an error; `waiting` where the
-- given rounds are used up and the loop would read on.
pub data RxResult : Type 0 where
  received : List ℕ → RxResult
  failed : ℕ → RxResult
  waiting : RxResult

abbrev pub has_room : RxState → Bool
has_room s = ltb (length (bytes_of s.tb)) trans_buf_size

-- What a round of the outer loop leads to: a return, or the next round with these values of the
-- parser's locals, of poll_timeout and of last_try.
pub data RxRound : Type 0 where
  stop : RxResult → RxRound
  again : RxState → ℕ → Bool → RxRound

module _ (swap_words : Bool) (xfer_timeout : ℕ) where
  -- What follows the loop over the bytes of a word.
  unfoldable pub rx_after : ℕ → Bool → Poll → RxWord → RxRound
  unfolding time_after
  rx_after poll_timeout last_try p (rest s true) =
      again s ((p.jiffies + xfer_timeout) % 2 ^ 64) false
  rx_after poll_timeout last_try p (rest s false) =
      if last_try
      then stop (failed etimedout)
      else again s poll_timeout (last_try || time_after p.jiffies poll_timeout)
  rx_after poll_timeout last_try p (RxWord.complete d) = stop (received d)
  rx_after poll_timeout last_try p (RxWord.fault e) = stop (failed e)

  unfoldable pub rx_round : RxState → ℕ → Bool → Poll → RxRound
  unfolding rx_word rx_after
  rx_round s poll_timeout last_try p =
      if not (has_room s)
      then stop (failed efault)
      else if not (p.status == 0)
      then stop (failed p.status)
      else rx_after poll_timeout last_try p
          (rx_word s false (if swap_words then br_swap_words_32 p.word else p.word))

  unfoldable pub rx_loop : RxState → ℕ → Bool → List Poll → RxResult
  unfolding rx_round
  rx_loop s poll_timeout last_try [] = if has_room s then waiting else failed efault
  rx_loop s poll_timeout last_try (p ∷ ps) = elim (rx_round s poll_timeout last_try p) [
    | stop r ↦ r
    | again s' poll_timeout' last_try' ↦ rx_loop s' poll_timeout' last_try' ps
  ]

  -- The second argument is the value of jiffies at the start.
  unfoldable pub br_do_rx_and_pkt_phy_parse : ℕ → List Poll → RxResult
  unfolding rx_loop rx_start
  br_do_rx_and_pkt_phy_parse jiffies ps =
      rx_loop rx_start ((jiffies + xfer_timeout) % 2 ^ 64) false ps
