-- ===== src/Avmm/Tests.antt =====
-- drivers/base/regmap/regmap-spi-avmm.c: runs of the layers on concrete requests and answers.
use linux_dfl_backport.Base.{
  ℕ, ◌+◌, ◌%◌, ◌≤◌, ◌≡◌, refl, true, false, List, [], ◌∷◌, arith, inr, length, ok, etimedout, ◌==◌,
  if◌then◌else◌,
}
use linux_dfl_backport.Avmm.Defs.{Bridge, phy_buf_size, trans_buf_size}
use linux_dfl_backport.Avmm.Bytes.{br_swap_words_32, le32_all}
use linux_dfl_backport.Avmm.Tx.{br_pkt_phy_tx_prepare}
use linux_dfl_backport.Avmm.Frame.{escape}
use linux_dfl_backport.Avmm.Prepare.{before_eop, final, packet, hole_size, prepare-packet}
use linux_dfl_backport.Avmm.Rx.{
  Poll, rx_start, rx_byte, received, failed, waiting, time_after, rx_loop,
  br_do_rx_and_pkt_phy_parse,
}
use linux_dfl_backport.Avmm.Parse.{strip_idle}
use linux_dfl_backport.Avmm.Stream.{Parses}
use linux_dfl_backport.Avmm.Receive.{parse-received}
use linux_dfl_backport.Avmm.Wire.{stream}
use linux_dfl_backport.Avmm.Transfer.{done, error, Spi, br_do_tx, after_rx, do_reg_access}
use linux_dfl_backport.Avmm.Access.{request, request_sent}
use linux_dfl_backport.Avmm.Answer.{Answers, read_gives, write_checked}
use linux_dfl_backport.Avmm.Limits.{IsIdle, received-le, silent_times_out}

abbrev swapped : Bridge
swapped = record { word_len = 4; swap_words = true }

abbrev word_at : ℕ → List ℕ → Poll
word_at t w = record { status = 0; word = w; jiffies = t }

-- The answer of a read with the value 0x12345678, after a word of idle bytes.
abbrev read_polls : List Poll
read_polls =
    word_at 1001 (0x4a ∷ 0x4a ∷ 0x4a ∷ 0x4a ∷ [])
    ∷ word_at 1002 (0x78 ∷ 0 ∷ 0x7c ∷ 0x7a ∷ [])
    ∷ word_at 1003 (0x12 ∷ 0x7b ∷ 0x34 ∷ 0x56 ∷ [])
    ∷ []

abbrev read_spi : Spi
read_spi = record { write_status = λ _. 0; jiffies = 1000; polls = read_polls }

abbrev write_polls : List Poll
write_polls = word_at 1001 (0x80 ∷ 0 ∷ 0x7c ∷ 0x7a ∷ []) ∷ word_at 1002 (4 ∷ 0x7b ∷ 0 ∷ 0 ∷ []) ∷ []

abbrev write_spi : Spi
write_spi = record { write_status = λ _. 0; jiffies = 1000; polls = write_polls }

request_sent_example :
    (wire : List ℕ) × Parses rx_start (br_do_tx swapped wire) (request true 0x7a40 [] 1)
    × (length wire ≤ phy_buf_size)
    × (length wire % 4 ≡ 0)
    × (do_reg_access 200 swapped read_spi true 0x7a40 [] 1 ≡ (
        if read_spi.write_status wire == 0
        then after_rx true 1 (br_do_rx_and_pkt_phy_parse true 200 1000 read_polls)
        else error (read_spi.write_status wire)))
request_sent_example = request_sent 200 swapped read_spi true 0x7a40 [] 1 (inr (refl, refl)) tt

read_answer : Answers 200 swapped read_spi 0x78 (0x56 ∷ 0x34 ∷ 0x12 ∷ [])
unfolding strip_idle stream packet br_swap_words_32 before_eop escape final
read_answer = record {
  junk = [];
  trailing = [];
  small = omega arith;
  in_time = ground arith;
  no_sop = tt;
  carried = refl;
}

read_gives_example : do_reg_access 200 swapped read_spi true 0x7a40 [] 1 ≡ done (0x12345678 ∷ [])
unfolding le32_all
read_gives_example =
    read_gives 200 swapped read_spi 0x7a40 0x12345678 [] (inr (refl, refl)) (λ _. refl)
      (omega arith) (omega arith, tt) read_answer

write_answer : Answers 200 swapped write_spi 0x80 (0 ∷ 0 ∷ 4 ∷ [])
unfolding strip_idle stream packet br_swap_words_32 before_eop escape final
write_answer = record {
  junk = [];
  trailing = [];
  small = omega arith;
  in_time = ground arith;
  no_sop = tt;
  carried = refl;
}

write_checked_example : do_reg_access 200 swapped write_spi false 0x7a40 (0xdead ∷ []) 1 ≡ done []
write_checked_example =
    write_checked 200 swapped write_spi 0x7a40 0xdead 0x80 0 0 4 (inr (refl, refl)) (λ _. refl)
      (omega arith) (omega arith) write_answer

-- An idle word behind the deadline of 1200, and one word that moves it to 1500.
abbrev slow_polls : List Poll
slow_polls =
    word_at 1250 (0x4a ∷ 0x4a ∷ 0x4a ∷ 0x4a ∷ [])
    ∷ word_at 1300 (0x78 ∷ 0 ∷ 0x7c ∷ 0x7a ∷ [])
    ∷ word_at 1490 (0x12 ∷ 0x7b ∷ 0x34 ∷ 0x56 ∷ [])
    ∷ []

parse-received_example :
    br_do_rx_and_pkt_phy_parse true 200 1000 slow_polls ≡ received (0x78 ∷ 0x56 ∷ 0x34 ∷ 0x12 ∷ [])
unfolding strip_idle packet before_eop escape final
parse-received_example =
    parse-received true 200 1000 slow_polls 0x78 (0x56 ∷ 0x34 ∷ 0x12 ∷ []) [] [] (omega arith)
      (omega arith) (refl, omega arith, (refl, (refl, omega arith, (refl, omega arith, tt))))
      (refl, (refl, (refl, tt))) tt refl

prepare-packet_example :
    br_pkt_phy_tx_prepare 4 (0x10 ∷ 0 ∷ 0 ∷ 4 ∷ 0 ∷ 0 ∷ 0x7a ∷ 0x40 ∷ [])
    ≡ ok (
        packet 0x10
          (0 ∷ 0 ∷ 4 ∷ 0 ∷ 0 ∷ 0x7a ∷ 0x40 ∷ [])
          (hole_size 4 0x10 (0 ∷ 0 ∷ 4 ∷ 0 ∷ 0 ∷ 0x7a ∷ 0x40 ∷ [])))
prepare-packet_example =
    prepare-packet 4 0x10 (0 ∷ 0 ∷ 4 ∷ 0 ∷ 0 ∷ 0x7a ∷ 0x40 ∷ []) (inr refl) (omega arith)

received-le_example : length {A = ℕ} (0x80 ∷ 0 ∷ 0 ∷ 4 ∷ []) ≤ trans_buf_size + 2
unfolding br_swap_words_32 rx_byte
received-le_example =
    received-le true 200 1000 write_polls (0x80 ∷ 0 ∷ 0 ∷ 4 ∷ []) (ground arith)
      (unfold br_do_rx_and_pkt_phy_parse in refl)

abbrev idle_at : ℕ → Poll
idle_at t = word_at t (0x4a ∷ 0x4a ∷ 0x4a ∷ 0x4a ∷ [])

all-IsIdle : (t : ℕ) → IsIdle true 200 (idle_at t)
unfolding br_swap_words_32
all-IsIdle t = ground arith

silent_times_out_example :
    (rx_loop true 200 rx_start 1200 false (idle_at 1100 ∷ idle_at 1201 ∷ []) ≡ waiting)
    × (rx_loop true 200 rx_start 1200 false (idle_at 1100 ∷ idle_at 1201 ∷ idle_at 1202 ∷ [])
        ≡ failed etimedout)
unfolding rx_start
silent_times_out_example =
    silent_times_out true 200 (idle_at 1100 ∷ []) (idle_at 1201) (idle_at 1202) [] rx_start 1200
      refl ((all-IsIdle 1100, unfold time_after in refl), tt) (all-IsIdle 1201)
      (unfold time_after in refl) (all-IsIdle 1202)
