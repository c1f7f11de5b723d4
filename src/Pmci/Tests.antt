-- ===== src/Pmci/Tests.antt =====
-- drivers/mfd/intel-m10-bmc-pmci.c: transfers of six bytes.
use linux_dfl_backport.Base.{
  ℕ, ◌/◌, ◌≡◌, refl, true, false, List, [], ◌∷◌, ◌++◌, some, arith, replicate,
}
use linux_dfl_backport.Pmci.Defs.{
  words, pmci_write_fifo, block, remainder, pmci_flash_bulk_write, pmci_flash_bulk_read,
}
use linux_dfl_backport.Pmci.Write.{last_word, bulk_write_lem}
use linux_dfl_backport.Pmci.Read.{read_whole, bulk_read_lem}

abbrev six_bytes : List ℕ
six_bytes = 1 ∷ 2 ∷ 3 ∷ 4 ∷ 5 ∷ 6 ∷ []

bulk_write_lem_example :
    pmci_flash_bulk_write (replicate 1 true) [] six_bytes 6
    ≡ some ([] ++ (words (6 / 4) six_bytes ++ last_word six_bytes 6), 0)
bulk_write_lem_example = bulk_write_lem 1 [] six_bytes 6 (omega arith)

-- The last two bytes never reach the FIFO.
write_run : pmci_flash_bulk_write (true ∷ []) [] six_bytes 6 ≡ some ((1 ∷ 2 ∷ 3 ∷ 4 ∷ []) ∷ [], 0)
unfolding pmci_flash_bulk_write pmci_write_fifo block
write_run = refl

-- A rest of less than a word that is alone does.
write_two :
    pmci_flash_bulk_write (true ∷ []) [] (1 ∷ 2 ∷ []) 2 ≡ some ((1 ∷ 2 ∷ 0 ∷ 0 ∷ []) ∷ [], 0)
unfolding pmci_flash_bulk_write remainder block
write_two = refl

bulk_read_lem_example :
    pmci_flash_bulk_read (replicate 1 true) (λ a. a) 0x100 6 false
    ≡ some (read_whole (λ a. a) 0x100 6 false)
bulk_read_lem_example = bulk_read_lem 1 (λ a. a) 0x100 6 false (omega arith) (omega arith)
