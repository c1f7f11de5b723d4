-- ===== src/Dfl/Feature.antt =====
-- drivers/fpga/dfl.c: the sub features that enumeration collects (parse_feature_irqs,
-- create_feature_instance). A register address is the physical one, binfo->start + offset, as
-- binfo->ioaddr maps it.
use linux_dfl_backport.Base.{
  ℕ, zero, suc, ◌+◌, ◌-◌, ◌*◌, ◌/◌, ◌%◌, ◌^◌, Bool, true, false, not, ◌&&◌, ◌||◌, List, [], ◌∷◌,
  ◌++◌, Option, none, some, ltb, leb, ◌==◌, if◌then◌else◌, is_none, Result, ok, err, einval, enomem,
}
use linux_dfl_backport.Dfl.Field.{
  field, bit, dfh_revision, dfh_version, dfhv1_csr_addr, dfhv1_csr_size_grp, dfhv1_param_hdr,
}
use linux_dfl_backport.Dfl.Param.{find_param, dfh_get_param_size, feature_size, feature_id}
pub mod Ranges
pub mod Irqs

-- enum dfl_id_type; DFL_ID_MAX is `none` below.
pub data IdType : Type 0 where
  fme_id port_id priv_feat_id : IdType

-- struct dfl_feature_info; the resource is given by its first and last address, the guid by its
-- two registers.
pub record FeatureInfo : Type 0 where
  pub fid : ℕ
  pub revision : ℕ
  pub dfh_version : ℕ
  pub guid_h : ℕ
  pub guid_l : ℕ
  pub res_start : ℕ
  pub res_end : ℕ
  pub irq_base : ℕ
  pub nr_irqs : ℕ
  pub params : List ℕ

-- The fields of struct build_feature_devs_info that enumeration changes.
pub record Binfo : Type 0 where
  pub type : Option IdType
  pub start : ℕ
  pub len : ℕ
  pub sub_features : List FeatureInfo
  pub feature_num : ℕ

-- The device and what it is given: its registers, the number and the table of its interrupts (a
-- negative entry is `none`), NR_IRQS, whether memory is allocated, the word behind an array of
-- parameters, and fuel for the loops over sizes.
pub record Env : Type 0 where
  pub readq : ℕ → ℕ
  pub nr_irqs : ℕ
  pub irq_table : ℕ → Option ℕ
  pub max_irqs : ℕ
  pub allocated : Bool
  pub stray : ℕ
  pub fuel : ℕ

-- The first vector and the number of vectors in the parameter for MSI-X.
unfoldable pub msi_x_vectors : Env → Option (List ℕ) → ℕ × ℕ
msi_x_vectors env none = (0, 0)
msi_x_vectors env (some (hdr ∷ p ∷ _)) = (field 0 32 p, field 32 32 p)
msi_x_vectors env (some _) = (field 0 32 env.stray, field 32 32 env.stray)

-- The vectors of a version 0 feature, from the registers of three of them.
unfoldable pub v0_vectors : Env → Option IdType → (base fid : ℕ) → ℕ × ℕ
v0_vectors env (some port_id) base fid =
    if fid == 0x12
    then (field 12 12 (env.readq (base + 0x8)), field 0 12 (env.readq (base + 0x8)))
    else if fid == 0x10
    then (field 1 12 (env.readq (base + 0x38)), field 0 1 (env.readq (base + 0x38)))
    else (0, 0)
v0_vectors env (some fme_id) base fid =
    if fid == 0x4
    then (field 1 12 (env.readq (base + 0x70)), field 0 1 (env.readq (base + 0x70)))
    else (0, 0)
v0_vectors env (some priv_feat_id) base fid = (0, 0)
v0_vectors env none base fid = (0, 0)

unfoldable pub vectors : Env → Option IdType → (base version fid : ℕ) → List ℕ → ℕ × ℕ
unfolding msi_x_vectors v0_vectors
vectors env type base version fid params =
    if version == 0
    then v0_vectors env type base fid
    else if version == 1
    then msi_x_vectors env (find_param params 1)
    else (0, 0)

-- The test of an entry of the table.
unfoldable pub is_irq : ℕ → Option ℕ → Bool
is_irq max_irqs none = false
is_irq max_irqs (some virq) = leb virq max_irqs

-- The test of the entries from ibase + i on.
unfoldable pub are_irqs : Env → (ibase i : ℕ) → (left : ℕ) → Bool
unfolding is_irq
are_irqs env ibase i zero = true
are_irqs env ibase i (suc left) =
    let rest = are_irqs env ibase (i + 1) left in
    if is_irq env.max_irqs (env.irq_table ((ibase + i) % 2 ^ 32)) then rest else false

-- From the test of `inr` on: the interrupts' base and number.
unfoldable pub check_irqs : Env → ℕ × ℕ → Result (ℕ × ℕ)
unfolding are_irqs
check_irqs env (ibase, inr) =
    if inr == 0
    then ok (0, 0)
    else if ltb env.nr_irqs ((ibase + inr) % 2 ^ 32)
    then err einval
    else if are_irqs env ibase 0 inr
    then ok (ibase, inr)
    else err einval

unfoldable pub parse_feature_irqs : Env → Binfo → (ofst version fid : ℕ) → List ℕ → Result (ℕ × ℕ)
unfolding check_irqs vectors
parse_feature_irqs env binfo ofst version fid params =
    check_irqs env (vectors env binfo.type (binfo.start + ofst) version fid params)

-- memcpy_fromio of n words.
unfoldable pub read_words : (readq : ℕ → ℕ) → (addr n : ℕ) → List ℕ
read_words readq addr zero = []
read_words readq addr (suc n) = readq addr ∷ read_words readq (addr + 8) n

-- in_range64.
unfoldable pub in_range : (val start len : ℕ) → Bool
in_range val start len = ltb ((val + 2 ^ 64 - start) % 2 ^ 64) len

-- A range with a relative address is ignored when it is out of the region.
unfoldable pub checked_range : Binfo → (rel_addr : Bool) → (start end : ℕ) → Option (ℕ × ℕ)
unfolding in_range
checked_range binfo rel_addr start end =
    if rel_addr && not (in_range start binfo.start binfo.len && in_range end binfo.start binfo.len)
    then none
    else some (start, end)

-- The last address of a range.
unfoldable pub csr_end : (start csr_size : ℕ) → ℕ
csr_end start csr_size = if csr_size == 0 then start else (start + csr_size + 2 ^ 64 - 1) % 2 ^ 64

-- The resource of a version 1 feature, if it is not to be ignored.
unfoldable pub v1_resource : Env → Binfo → (ofst : ℕ) → Option (ℕ × ℕ)
unfolding checked_range csr_end
v1_resource env binfo ofst =
    let v = env.readq (binfo.start + ofst + dfhv1_csr_addr) in
    let addr_off = field 1 63 v * 2 in
    let rel_addr = not (bit 0 v) in
    let start = if rel_addr then (binfo.start + ofst + addr_off) % 2 ^ 64 else addr_off in
    let csr_size = field 32 32 (env.readq (binfo.start + ofst + dfhv1_csr_size_grp)) in
    checked_range binfo rel_addr start (csr_end start csr_size)

-- The end of create_feature_instance: what parse_feature_irqs gave.
unfoldable pub append_feature : Binfo → FeatureInfo → Result (ℕ × ℕ) → Binfo × ℕ
append_feature binfo finfo (err e) = (binfo, e)
append_feature binfo finfo (ok (irq_base, nr_irqs)) = (
  record binfo {
    sub_features =
        binfo.sub_features ++ record finfo { irq_base = irq_base; nr_irqs = nr_irqs } ∷ [];
    feature_num = binfo.feature_num + 1;
  },
  0,
)

-- The resource; a version 1 feature out of range is dropped.
unfoldable pub with_resource : Env → Binfo → (ofst : ℕ) → FeatureInfo → Option (ℕ × ℕ) → Binfo × ℕ
unfolding append_feature
with_resource env binfo ofst finfo none = (binfo, 0)
with_resource env binfo ofst finfo (some (start, end)) =
    append_feature binfo (record finfo { res_start = start; res_end = end })
      (parse_feature_irqs env binfo ofst finfo.dfh_version finfo.fid finfo.params)

-- The sub feature before its resource and interrupts are known; psize is the size of the
-- parameters in bytes.
unfoldable pub fresh_info : Env → Binfo → (ofst fid revision version psize : ℕ) → FeatureInfo
fresh_info env binfo ofst fid revision version psize = record {
  fid = fid;
  revision = revision;
  dfh_version = version;
  guid_h = if version == 1 then env.readq (binfo.start + ofst + 0x10) else 0;
  guid_l = if version == 1 then env.readq (binfo.start + ofst + 0x8) else 0;
  res_start = 0;
  res_end = 0;
  irq_base = 0;
  nr_irqs = 0;
  params = read_words env.readq (binfo.start + ofst + dfhv1_param_hdr) (psize / 8);
}

unfoldable pub resource : Env → Binfo → (ofst size version : ℕ) → Option (ℕ × ℕ)
unfolding v1_resource
resource env binfo ofst size version =
    if version == 1
    then v1_resource env binfo ofst
    else some (binfo.start + ofst, (binfo.start + ofst + size + 2 ^ 64 - 1) % 2 ^ 64)

-- What kzalloc gave.
unfoldable pub with_memory :
    (allocated : Bool) → Env → Binfo → (ofst : ℕ) → FeatureInfo → Option (ℕ × ℕ) → Binfo × ℕ
unfolding with_resource
with_memory false env binfo ofst finfo res = (binfo, enomem)
with_memory true env binfo ofst finfo res = with_resource env binfo ofst finfo res

-- From the test of the length on.
unfoldable pub add_instance : Env → Binfo → (ofst size fid revision version psize : ℕ) → Binfo × ℕ
unfolding with_memory fresh_info resource
add_instance env binfo ofst size fid revision version psize =
    if ltb ((binfo.len + 2 ^ 64 - ofst) % 2 ^ 64) size
    then (binfo, einval)
    else with_memory env.allocated env binfo ofst
        (fresh_info env binfo ofst fid revision version psize)
        (resource env binfo ofst size version)

-- What dfh_get_param_size gave, an int by its 32 bits.
unfoldable pub with_params : Env → Binfo → (ofst size fid v : ℕ) → Option ℕ → Option (Binfo × ℕ)
unfolding add_instance
with_params env binfo ofst size fid v none = none
with_params env binfo ofst size fid v (some psize) = some (
    if leb (2 ^ 31) psize
    then (binfo, 2 ^ 32 - psize)
    else add_instance env binfo ofst size fid (dfh_revision v) (dfh_version v) psize)

-- What feature_size gave, or the size that the caller gives.
unfoldable pub with_size : Env → Binfo → (ofst fid v : ℕ) → Option ℕ → Option (Binfo × ℕ)
unfolding with_params
with_size env binfo ofst fid v none = none
with_size env binfo ofst fid v (some size) =
    let fid' = if fid == 0 then feature_id v else fid in
    if size == 0
    then some (binfo, einval)
    else with_params env binfo ofst size fid' v (
        if dfh_version v == 1
        then dfh_get_param_size env.readq env.fuel (binfo.start + ofst) size
        else some 0)

-- The result is the new state and the status, 0 or an error number; `none` where a loop over sizes
-- does not end with the fuel.
unfoldable pub create_feature_instance : Env → Binfo → (ofst size fid : ℕ) → Option (Binfo × ℕ)
unfolding with_size
create_feature_instance env binfo ofst size fid =
    if fid == 0xff
    then some (add_instance env binfo ofst size fid 0 0 0)
    else let v = env.readq (binfo.start + ofst) in
      with_size env binfo ofst fid v (
        if size == 0
        then feature_size env.readq env.fuel (binfo.start + ofst) (binfo.start + binfo.len) v
        else some size)
