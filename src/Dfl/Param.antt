-- ===== src/Dfl/Param.antt =====
-- drivers/fpga/dfl.c: the parameter blocks of a version 1 feature header (find_param,
-- dfh_find_param, dfh_get_param_size), and the size and the id of a feature (feature_size,
-- feature_id). `readq` is the content of the device's registers. Loops that the device can keep
-- from ending are on fuel; `none` means that it is used up.
use linux_dfl_backport.Base.{
  ℕ, zero, suc, ◌+◌, ◌-◌, ◌*◌, ◌/◌, ◌%◌, ◌^◌, Bool, not, List, [], ◌∷◌, Option, none, some, ltb,
  leb, ◌==◌, if◌then◌else◌, Result, ok, err, enoent, length, drop,
}
use linux_dfl_backport.Dfl.Field.{
  bit, dfh_id, dfh_next_hdr_ofst, dfh_eol, dfh_type, dfh_type_afu, dfh_type_private, dfh_type_fiu,
  dfh_type_interface, dfhv1_csr_size_grp, dfhv1_param_hdr, param_hdr_id, param_hdr_next_eop,
  param_hdr_next_offset,
}
pub mod Blocks
pub mod Sizes

-- The list holds the words from `params` to `end`; the result is the words from the header on that
-- is found. Fuel of their number is enough, since each round goes on by a word or more.
unfoldable pub find_from : ℕ → List ℕ → (param_id : ℕ) → Option (List ℕ)
find_from zero params param_id = none
find_from (suc n) [] param_id = none
find_from (suc n) (v ∷ params) param_id =
    let next = param_hdr_next_offset v in
    let rest = find_from n (drop next (v ∷ params)) param_id in
    if param_id == param_hdr_id v
    then some (v ∷ params)
    else if param_hdr_next_eop v
    then none
    else if next == 0
    then none
    else rest

unfoldable pub find_param : List ℕ → ℕ → Option (List ℕ)
unfolding find_from
find_param params param_id = find_from (length params) params param_id

-- What find_param gave; the result is the words behind the header and the size in bytes.
unfoldable pub param_data : Option (List ℕ) → Result (List ℕ × ℕ)
param_data none = err enoent
param_data (some []) = err enoent
param_data (some (v ∷ words)) =
    let next = param_hdr_next_offset v in ok (words, ((if next == 0 then 2 else next) - 1) * 8)

unfoldable pub dfh_find_param : List ℕ → ℕ → Result (List ℕ × ℕ)
unfolding find_param param_data
dfh_find_param params param_id = param_data (find_param params param_id)

-- A value of type int, by its 32 bits, as the u64 that a comparison with one makes of it.
unfoldable pub int_as_u64 : ℕ → ℕ
int_as_u64 size = if ltb size (2 ^ 31) then size else 2 ^ 64 - 2 ^ 32 + size

-- An address plus an int: one of 2^31 or more is negative.
abbrev pub at_int : (addr size : ℕ) → ℕ
at_int addr size = if ltb size (2 ^ 31) then addr + size else addr + size - 2 ^ 32

-- The loop of dfh_get_param_size. `size` is an int, here by its 32 bits; -ENOENT is 2 ^ 32 - 2.
unfoldable pub param_size_from : (readq : ℕ → ℕ) → ℕ → (dfh_base max size : ℕ) → Option ℕ
unfolding int_as_u64
param_size_from readq zero dfh_base max size = none
param_size_from readq (suc n) dfh_base max size =
    let v = readq (at_int (dfh_base + dfhv1_param_hdr) size) in
    let next = param_hdr_next_offset v in
    let size' = (size + next * 8) % 2 ^ 32 in
    let rest = param_size_from readq n dfh_base max size' in
    if ltb (int_as_u64 ((size + dfhv1_param_hdr) % 2 ^ 32)) max
    then if next == 0
      then some ((size + 16) % 2 ^ 32)
      else if param_hdr_next_eop v
      then some size'
      else rest
    else some (2 ^ 32 - enoent)

unfoldable pub dfh_get_param_size : (readq : ℕ → ℕ) → ℕ → (dfh_base max : ℕ) → Option ℕ
unfolding param_size_from
dfh_get_param_size readq fuel dfh_base max =
    if not (bit 31 (readq (dfh_base + dfhv1_csr_size_grp)))
    then some 0
    else param_size_from readq fuel dfh_base max 0

-- The loop of feature_size; `ofst` is a u32.
unfoldable pub feature_size_from : (readq : ℕ → ℕ) → ℕ → (dfh_ioaddr end ofst : ℕ) → Option ℕ
feature_size_from readq zero dfh_ioaddr end ofst = none
feature_size_from readq (suc n) dfh_ioaddr end ofst =
    let value = readq (dfh_ioaddr + ofst) in
    let ofst' = (ofst + dfh_next_hdr_ofst value) % 2 ^ 32 in
    let rest = feature_size_from readq n dfh_ioaddr end ofst' in
    if not (dfh_type value == dfh_type_interface)
    then some ofst
    else if dfh_eol value
    then some ofst'
    else if ltb (dfh_ioaddr + ofst') end
    then rest
    else some 0

unfoldable pub feature_size : (readq : ℕ → ℕ) → ℕ → (dfh_ioaddr end value : ℕ) → Option ℕ
unfolding feature_size_from
feature_size readq fuel dfh_ioaddr end value =
    let ofst = dfh_next_hdr_ofst value in
    if ofst == 0
    then some 4096
    else if dfh_eol value
    then some ofst
    else feature_size_from readq fuel dfh_ioaddr end ofst

unfoldable pub feature_id : ℕ → ℕ
feature_id value =
    if dfh_type value == dfh_type_fiu
    then 0xfe
    else if dfh_type value == dfh_type_private
    then dfh_id value
    else if dfh_type value == dfh_type_afu
    then 0xff
    else 0
