-- ===== src/Pmci/Defs.antt =====
-- drivers/mfd/intel-m10-bmc-pmci.c: the FIFO of the flash, and the loops that fill and drain it. A
-- word is the list of its four bytes in the order of memory.
use linux_dfl_backport.Base.{
  ℕ, zero, suc, ◌+◌, ◌-◌, ◌*◌, ◌/◌, ◌%◌, ◌^◌, Bool, true, false, List, [], ◌∷◌, ◌++◌, Option, none,
  some, ◌==◌, ltb, if◌then◌else◌, take, drop, replicate, etimedout,
}

-- M10BMC_N6000_FIFO_WORD_SIZE, M10BMC_N6000_FIFO_MAX_WORDS and M10BMC_N6000_READ_BLOCK_SIZE.
abbrev pub word_size : ℕ
word_size = 4

abbrev pub fifo_max_words : ℕ
fifo_max_words = 0x200

abbrev pub read_block_size : ℕ
read_block_size = 0x800

abbrev pub eio : ℕ
eio = 5

-- The first `count` words of a buffer, the bytes behind its end left out.
unfoldable pub words : (count : ℕ) → List ℕ → List (List ℕ)
words zero buf = []
words (suc count) buf = take 4 buf ∷ words count (drop 4 buf)

-- pmci_write_fifo: the words go into the FIFO, the oldest first.
unfoldable pub pmci_write_fifo :
    (fifo : List (List ℕ)) → (buf : List ℕ) → (count : ℕ) → List (List ℕ)
unfolding words
pmci_write_fifo fifo buf count = fifo ++ words count buf

-- min of what pmci_get_write_space gives and the size: it gives the whole FIFO, or 0 after a timeout.
unfoldable pub block : (space : Bool) → (size : ℕ) → ℕ
block false size = 0
block true size = if ltb size (fifo_max_words * word_size) then size else fifo_max_words * word_size

-- The remainder of less than a word is filled with zeros.
unfoldable pub remainder : List (List ℕ) → (buf : List ℕ) → (size : ℕ) → List (List ℕ)
remainder fifo buf size =
    if size == 0 then fifo else fifo ++ ((take size buf ++ replicate (4 - size) 0) ∷ [])

-- pmci_flash_bulk_write, on the words in the FIFO and a list that says whether the FIFO gets empty in
-- time; `none` where the list is used up. The buffer starts at the offset.
unfoldable pub pmci_flash_bulk_write :
    (spaces : List Bool) → List (List ℕ) → (buf : List ℕ) → (size : ℕ) → Option (List (List ℕ) × ℕ)
pmci_flash_bulk_write [] fifo buf size = if size == 0 then some (fifo, 0) else none
pmci_flash_bulk_write (space ∷ spaces) fifo buf size =
    let blk_size = block space size in
    let rest =
      pmci_flash_bulk_write spaces (pmci_write_fifo fifo buf (blk_size / word_size))
        (drop blk_size buf) (size - blk_size) in
    if size == 0
    then some (fifo, 0)
    else if blk_size == 0
    then some (fifo, eio)
    else if ltb size word_size
    then some (remainder fifo buf size, 0)
    else rest

-- The bytes of the flash from an address on, `count` of them.
unfoldable pub flash_bytes : (flash : ℕ → ℕ) → (addr count : ℕ) → List ℕ
flash_bytes flash addr zero = []
flash_bytes flash addr (suc count) = flash addr ∷ flash_bytes flash (addr + 1) count

-- What pmci_flash_bulk_read leaves: the bytes that it wrote to the buffer, whether the last thing
-- that it wrote to the control register was 0, and its status.
pub record ReadResult : Type 0 where
  pub bytes : List ℕ
  pub ctrl_cleared : Bool
  pub status : ℕ

-- A block in front of what follows.
unfoldable pub behind_block : List ℕ → ReadResult → ReadResult
behind_block block r = record r { bytes = block ++ r.bytes }

-- What follows the loop, with the size that is left.
unfoldable pub read_rest : (flash : ℕ → ℕ) → (addr size : ℕ) → (cleared : Bool) → ReadResult
unfolding flash_bytes
read_rest flash addr size cleared =
    if size == 0
    then record { bytes = []; ctrl_cleared = cleared; status = 0 }
    else record { bytes = flash_bytes flash (addr % 2 ^ 32) size; ctrl_cleared = true; status = 0 }

unfoldable pub behind_all : List ℕ → Option ReadResult → Option ReadResult
unfolding behind_block
behind_all block none = none
behind_all block (some r) = some (behind_block block r)

-- read_count: the words that a block of bytes takes.
unfoldable pub words_of : ℕ → ℕ
words_of blk_size =
    if ltb (blk_size / word_size * word_size) blk_size
    then blk_size / word_size + 1
    else blk_size / word_size

unfoldable pub read_block : (size : ℕ) → ℕ
read_block size = if ltb size read_block_size then size else read_block_size

-- pmci_flash_bulk_read, on a list that says whether the flash answers in time; the flash puts the
-- bytes from the address on, a 32-bit number, into the FIFO. The last argument is whether the control register was
-- last written with 0.
unfoldable pub pmci_flash_bulk_read :
    (polls : List Bool) → (flash : ℕ → ℕ) → (addr size : ℕ) → (cleared : Bool) → Option ReadResult
pmci_flash_bulk_read [] flash addr size cleared =
    if size == 0 then some (read_rest flash addr size cleared) else none
pmci_flash_bulk_read (in_time ∷ polls) flash addr size cleared =
    let blk_size = read_block size in
    let full_read_count = blk_size / word_size in
    let read_count = words_of blk_size in
    let block = flash_bytes flash (addr % 2 ^ 32) (full_read_count * word_size) in
    let addr' = addr + blk_size in
    let size' = size - blk_size in
    let rest = behind_all block (pmci_flash_bulk_read polls flash addr' size' true) in
    if size == 0
    then some (read_rest flash addr size cleared)
    else if in_time
    then (if ltb full_read_count read_count
        then some (behind_block block (read_rest flash addr' size' false))
        else rest)
    else some (record { bytes = []; ctrl_cleared = false; status = etimedout })
