-- ===== src/Fme/Mgr/Status.antt =====
-- drivers/fpga/dfl-fme-mgr.c: what the manager reports of an error.
use linux_dfl_backport.Base.{
  ℕ, ◌+◌, ◌*◌, ◌/◌, ◌%◌, ◌^◌, ◌≡◌, arith, Bool-cases, if◌then◌else◌, inl, inr,
}
use linux_dfl_backport.Dfl.Field.{bit}
use linux_dfl_backport.Fme.Mgr.{pr_error_to_mgr_status}

-- A bit of a number, in its place.
bit_place : (n err : ℕ) → (if bit n err then 2 ^ n else 0) ≡ err / 2 ^ n % 2 * 2 ^ n
bit_place n err = elim (Bool-cases (bit n err)) [
  | inl e ↦ let b : err / 2 ^ n % 2 ≡ 1 = ground arith in rw (e, b) (omega arith)
  | inr e ↦ let b : err / 2 ^ n % 2 ≡ 0 = ground arith in rw (e, b) (omega arith)
]

low_bits :
    (err : ℕ)
    → err / 1 % 2 * 1 + err / 2 % 2 * 2 + err / 4 % 2 * 4 + err / 8 % 2 * 8 + err / 16 % 2 * 16
      ≡ err % 32
low_bits err = omega arith

-- The status of the manager is the low five bits of the error register.
mgr_status_lem : (err : ℕ) → pr_error_to_mgr_status err ≡ err % 2 ^ 5
unfolding pr_error_to_mgr_status
mgr_status_lem err =
    rw (bit_place 0 err, bit_place 1 err, bit_place 2 err, bit_place 3 err, bit_place 4 err)
      (low_bits err)
