-- ===== src/Base/Errors.antt =====
-- Error returns of the kernel: a function that returns an `int` or an `ERR_PTR` returns a `Result`
-- here; `err n` stands for the return value -n.
use Prim.Native.Nat.{ℕ}

pub data Result {ℓ} (A : Type ℓ) : Type ℓ where
  ok : A → Result A
  err : ℕ → Result A

-- The error numbers of include/uapi/asm-generic/errno-base.h and errno.h.
abbrev pub enoent : ℕ
enoent = 2

abbrev pub enomem : ℕ
enomem = 12

abbrev pub efault : ℕ
efault = 14

abbrev pub ebusy : ℕ
ebusy = 16

abbrev pub eexist : ℕ
eexist = 17

abbrev pub enodev : ℕ
enodev = 19

abbrev pub einval : ℕ
einval = 22

abbrev pub etimedout : ℕ
etimedout = 110
