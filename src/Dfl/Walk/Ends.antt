-- ===== src/Dfl/Walk/Ends.antt =====
-- drivers/fpga/dfl.c: the end of the walk in parse_feature_list.
use linux_dfl_backport.Base.{ℕ, ◌+◌, ◌≡◌, Option, some, ◌==◌, if◌then◌else◌}
use linux_dfl_backport.Dfl.Param.{dfh_get_param_size, feature_size}
use linux_dfl_backport.Dfl.Feature.{Binfo, Env}
use linux_dfl_backport.Dfl.Walk.{Cdev}

-- A result is there.
abbrev pub Gives {ℓ} : {A : Type ℓ} → Option A → Type ℓ
Gives {A = A} o = (x : A) × (o ≡ some x)

-- On this device the loops over sizes end with the fuel.
pub record HasSizes (env : Env) : Type 0 where
  pub params : (base max : ℕ) → Gives (dfh_get_param_size env.readq env.fuel base max)
  pub sizes : (base end v : ℕ) → Gives (feature_size env.readq env.fuel base end v)

module _ (env : Env) (cdev : Cdev) (sizes : HasSizes env) where
  abbrev size_of : Binfo → (ofst size : ℕ) → Option ℕ
  size_of b ofst size =
      if size == 0
      then feature_size env.readq env.fuel (b.start + ofst) (b.start + b.len)
          (env.readq (b.start + ofst))
      else some size
