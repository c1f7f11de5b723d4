-- ===== src/Dfl/Field.antt =====
-- drivers/fpga/dfl.h: the fields of the 64-bit registers (FIELD_GET) and their masks.
use linux_dfl_backport.Base.{ℕ, ◌/◌, ◌%◌, ◌^◌, Bool, ◌==◌}

-- FIELD_GET of the mask GENMASK(lo + width - 1, lo).
abbrev pub field : (lo width : ℕ) → ℕ → ℕ
field lo width v = v / 2 ^ lo % 2 ^ width

-- The test of BIT(n).
abbrev pub bit : ℕ → ℕ → Bool
bit n v = v / 2 ^ n % 2 == 1

abbrev pub dfh_id : ℕ → ℕ
dfh_id = field 0 12

abbrev pub dfh_revision : ℕ → ℕ
dfh_revision = field 12 4

abbrev pub dfh_next_hdr_ofst : ℕ → ℕ
dfh_next_hdr_ofst = field 16 24

abbrev pub dfh_eol : ℕ → Bool
dfh_eol = bit 40

abbrev pub dfh_version : ℕ → ℕ
dfh_version = field 52 8

abbrev pub dfh_type : ℕ → ℕ
dfh_type = field 60 4

abbrev pub dfh_type_afu : ℕ
dfh_type_afu = 1

abbrev pub dfh_type_private : ℕ
dfh_type_private = 3

abbrev pub dfh_type_fiu : ℕ
dfh_type_fiu = 4

abbrev pub dfh_type_interface : ℕ
dfh_type_interface = 5

abbrev pub dfhv1_csr_addr : ℕ
dfhv1_csr_addr = 0x18

abbrev pub dfhv1_csr_size_grp : ℕ
dfhv1_csr_size_grp = 0x20

abbrev pub dfhv1_param_hdr : ℕ
dfhv1_param_hdr = 0x28

abbrev pub param_hdr_id : ℕ → ℕ
param_hdr_id = field 0 16

abbrev pub param_hdr_next_eop : ℕ → Bool
param_hdr_next_eop = bit 32

abbrev pub param_hdr_next_offset : ℕ → ℕ
param_hdr_next_offset = field 35 29
