-- ===== src/Dfl/Tests.antt =====
-- drivers/fpga/dfl.c: runs of enumeration on small devices.
use linux_dfl_backport.Base.{
  ℕ, ◌+◌, ◌*◌, ◌^◌, ◌≡◌, refl, true, [], ◌∷◌, none, some, arith, ok, err, if◌then◌else◌, ◌==◌,
  length, enoent,
}
use linux_dfl_backport.Dfl.Param.{dfh_find_param, dfh_get_param_size, feature_size, feature_id}
use linux_dfl_backport.Dfl.Param.Blocks.{Block, encode, find_block, data_of, find_param-encode}
use linux_dfl_backport.Dfl.Param.Sizes.{get_param_size-encode}
use linux_dfl_backport.Dfl.Feature.{
  Binfo, Env, port_id, parse_feature_irqs, add_instance, create_feature_instance, vectors,
}
use linux_dfl_backport.Dfl.Feature.Ranges.{InRegion, Grows, add_instance-Grows}
use linux_dfl_backport.Dfl.Feature.Irqs.{HasIrqs, parse_irqs-HasIrqs}
use linux_dfl_backport.Dfl.Walk.{State, dfh_id_to_type, Cdev, parse_feature_list}

-- MSI-X vectors from 4 on, and a clock rate.
abbrev msi_x : Block
msi_x = record { id = 1; words = (3 * 2 ^ 32 + 4) ∷ [] }

abbrev clk : Block
clk = record { id = 9; words = 100 ∷ 0 ∷ [] }

find_param-encode_example :
    dfh_find_param (encode (clk ∷ msi_x ∷ [])) 1 ≡ data_of (find_block (clk ∷ msi_x ∷ []) 1)
find_param-encode_example = find_param-encode (clk ∷ msi_x ∷ []) 1 (ground arith)

find_param_none : dfh_find_param (encode (clk ∷ msi_x ∷ [])) 2 ≡ err enoent
unfolding dfh_find_param encode
find_param_none = refl

-- A version 1 feature at 0x1000 with those two parameters.
abbrev with_two : ℕ → ℕ
with_two a =
    if a == 0x1020
    then 2 ^ 31
    else if a == 0x1028
    then 9 + 3 * 2 ^ 35
    else if a == 0x1030
    then 100
    else if a == 0x1040
    then 1 + 2 ^ 32 + 2 * 2 ^ 35
    else if a == 0x1048
    then 3 * 2 ^ 32 + 4
    else 0

get_param_size-encode_example :
    dfh_get_param_size with_two 2 0x1000 0x1000 ≡ some (length (encode (clk ∷ msi_x ∷ [])) * 8)
unfolding encode
get_param_size-encode_example =
    get_param_size-encode with_two 0x1000 0x1000 2 clk (msi_x ∷ []) refl (omega arith)
      (ground arith) (refl, (refl, (refl, (refl, (refl, tt))))) (omega arith) (omega arith)

-- A port at 0x1000 whose user interrupts are 2 from vector 1 on.
abbrev port_regs : ℕ → ℕ
port_regs a = if a == 0x1108 then 1 * 2 ^ 12 + 2 else 0

abbrev port_env : Env
port_env = record {
  readq = port_regs;
  nr_irqs = 4;
  irq_table = λ i. some (40 + i);
  max_irqs = 1000;
  allocated = true;
  stray = 0;
  fuel = 10;
}

abbrev port : Binfo
port = record {
  type = some port_id;
  start = 0x1000;
  len = 0x1000;
  sub_features = [];
  feature_num = 0;
}

port_irqs : parse_feature_irqs port_env port 0x100 0 0x12 [] ≡ ok (1, 2)
unfolding parse_feature_irqs
port_irqs = refl

parse_irqs-HasIrqs_example : HasIrqs port_env (1, 2)
unfolding vectors
parse_irqs-HasIrqs_example =
    parse_irqs-HasIrqs port_env port 0x100 0 0x12 [] (1, 2) (omega arith) port_irqs

add_instance-Grows_example :
    Grows (InRegion port) port (add_instance port_env port 0x100 0x100 0x12 0 0 0)
add_instance-Grows_example =
    add_instance-Grows port_env port 0x100 0x100 0x12 0 0 0 (omega arith) (omega arith)
      (omega arith) (λ v. absurd (omega arith))

-- A port's header, which ends the list, and no AFU.
abbrev one_port : ℕ → ℕ
one_port a = if a == 0x1000 then 4 * 2 ^ 60 + 2 ^ 40 + 1 else 0

abbrev one_env : Env
one_env = record port_env { readq = one_port }

abbrev cdev : Cdev
cdev = record {
  request_mem_region = λ start len. true;
  ioremap = λ start len. true;
  create_data = λ type features. 0;
  register = λ type features. 0;
}

abbrev nothing_yet : State
nothing_yet = record {
  binfo = record { type = none; start = 0; len = 0; sub_features = []; feature_num = 0 };
  devs = [];
}

-- The port is registered, with its header as the one sub feature.
one_port_run :
    (st : State) × (parse_feature_list one_env cdev nothing_yet 0x1000 0x1000 ≡ some (st, 0))
    × (length st.devs ≡ 1)
unfolding parse_feature_list dfh_id_to_type create_feature_instance feature_size parse_feature_irqs
    feature_id
one_port_run = (_, refl, refl)
