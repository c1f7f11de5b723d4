-- ===== src/Dfl/Walk.antt =====
-- drivers/fpga/dfl.c: the walk over a device feature list (parse_feature_list and the parse_
-- functions below it, build_info_commit_dev). The region's reservation and mapping
-- (build_info_prepare), and the making and registration of a feature device, come as functions
-- of `Cdev` that give a status.
use linux_dfl_backport.Base.{
  ℕ, zero, suc, ◌+◌, ◌-◌, ◌*◌, ◌%◌, ◌^◌, Bool, true, false, not, ◌||◌, List, [], ◌∷◌, ◌++◌, Option,
  none, some, ltb, ◌==◌, if◌then◌else◌, einval, ebusy, enomem, is_none,
}
use linux_dfl_backport.Dfl.Field.{
  field, dfh_id, dfh_next_hdr_ofst, dfh_eol, dfh_version, dfh_type, dfh_type_afu, dfh_type_private,
  dfh_type_fiu,
}
use linux_dfl_backport.Dfl.Feature.{
  IdType, fme_id, port_id, priv_feat_id, FeatureInfo, Binfo, Env, create_feature_instance,
}
pub mod Ends

-- A feature device that was registered.
pub record FeatureDev : Type 0 where
  pub type : IdType
  pub features : List FeatureInfo

-- Enumeration's state: what is collected, and the devices so far, the newest first.
pub record State : Type 0 where
  pub binfo : Binfo
  pub devs : List FeatureDev

pub record Cdev : Type 0 where
  pub request_mem_region : (start len : ℕ) → Bool
  pub ioremap : (start len : ℕ) → Bool
  -- binfo_create_feature_dev_data and feature_dev_register.
  pub create_data : IdType → List FeatureInfo → ℕ
  pub register : IdType → List FeatureInfo → ℕ

unfoldable pub dfh_id_to_type : ℕ → Option IdType
dfh_id_to_type id =
    if id == 0
    then some fme_id
    else if id == 1
    then some port_id
    else if id == 2
    then some priv_feat_id
    else none

module _ (env : Env) (cdev : Cdev) where
  unfoldable pub build_info_prepare : State → (start len : ℕ) → State × ℕ
  build_info_prepare st start len =
      if not (cdev.request_mem_region start len)
      then (st, ebusy)
      else if not (cdev.ioremap start len)
      then (st, enomem)
      else (record st { binfo = record (st.binfo) { start = start; len = len } }, 0)

  -- The argument is the type in the state.
  unfoldable pub commit_type : State → Option IdType → State × ℕ
  commit_type st none = (st, einval)
  commit_type st (some type) =
      let created = cdev.create_data type st.binfo.sub_features in
      let registered = cdev.register type st.binfo.sub_features in
      if not (created == 0)
      then (st, created)
      else if not (registered == 0)
      then (st, registered)
      else (
        record {
          binfo = record (st.binfo) { type = none };
          devs = record { type = type; features = st.binfo.sub_features } ∷ st.devs;
        },
        0,
      )

  unfoldable pub build_info_commit_dev : State → State × ℕ
  unfolding commit_type
  build_info_commit_dev st = commit_type st st.binfo.type

  -- What create_feature_instance gave.
  unfoldable pub created : State → Option (Binfo × ℕ) → Option (State × ℕ)
  created st none = none
  created st (some (binfo, status)) = some (record st { binfo = binfo }, status)

  unfoldable pub parse_feature_port_afu : State → ℕ → Option (State × ℕ)
  unfolding created
  parse_feature_port_afu st ofst =
      let size = field 8 16 (env.readq (st.binfo.start + 0x30)) * 1024 in
      created st (create_feature_instance env st.binfo ofst size 0xff)

  -- The second argument is the type in the state.
  unfoldable pub afu_of : State → Option IdType → ℕ → Option (State × ℕ)
  unfolding parse_feature_port_afu
  afu_of st none ofst = some (st, einval)
  afu_of st (some port_id) ofst = parse_feature_port_afu st ofst
  afu_of st (some fme_id) ofst = some (st, 0)
  afu_of st (some priv_feat_id) ofst = some (st, 0)

  unfoldable pub parse_feature_afu : State → ℕ → Option (State × ℕ)
  unfolding afu_of
  parse_feature_afu st ofst = afu_of st st.binfo.type ofst

  -- After the header: the AFU that it points to.
  unfoldable pub fiu_child : Option (State × ℕ) → Option (State × ℕ)
  unfolding parse_feature_afu
  fiu_child none = none
  fiu_child (some (st, status)) =
      let offset = field 0 24 (env.readq (st.binfo.start + 0x18)) in
      if not (status == 0)
      then some (st, status)
      else if offset == 0
      then some (st, 0)
      else parse_feature_afu st offset

  -- The header's id gave a type.
  unfoldable pub fiu_typed : State → Option IdType → Option (State × ℕ)
  unfolding fiu_child created
  fiu_typed st none = some (st, einval)
  fiu_typed st (some type) =
      let b = record (st.binfo) { type = some type; sub_features = []; feature_num = 0 } in
      fiu_child (created (record st { binfo = b }) (create_feature_instance env b 0 0 0))

  -- The header of the FIU, at the start of the region.
  unfoldable pub fiu_header : State × ℕ → Option (State × ℕ)
  unfolding fiu_typed
  fiu_header (st, status) =
      if not (status == 0)
      then some (st, status)
      else fiu_typed st (dfh_id_to_type (dfh_id (env.readq st.binfo.start)))

  -- What build_info_commit_dev gave for the device before.
  unfoldable pub fiu_prepare : State × ℕ → ℕ → State × ℕ
  unfolding build_info_prepare
  fiu_prepare (st, status) ofst =
      if not (status == 0)
      then (st, status)
      else build_info_prepare st (st.binfo.start + ofst) (st.binfo.len - ofst)

  unfoldable pub parse_feature_fiu : State → ℕ → Option (State × ℕ)
  unfolding fiu_header fiu_prepare build_info_commit_dev
  parse_feature_fiu st ofst =
      fiu_header
        (if is_none st.binfo.type then (st, 0) else fiu_prepare (build_info_commit_dev st) ofst)

  unfoldable pub parse_feature_private : State → ℕ → Option (State × ℕ)
  unfolding created
  parse_feature_private st ofst =
      let version = dfh_version (env.readq st.binfo.start) in
      let b = if version == 1 then record (st.binfo) { type = some priv_feat_id } else st.binfo in
      if version == 0
      then (if is_none st.binfo.type
          then some (st, einval)
          else created st (create_feature_instance env st.binfo ofst 0 0))
      else created (record st { binfo = b }) (create_feature_instance env b ofst 0 0)

  unfoldable pub parse_feature : State → ℕ → Option (State × ℕ)
  unfolding parse_feature_afu parse_feature_private parse_feature_fiu
  parse_feature st ofst =
      let type = dfh_type (env.readq (st.binfo.start + ofst)) in
      if type == dfh_type_afu
      then parse_feature_afu st ofst
      else if type == dfh_type_private
      then parse_feature_private st ofst
      else if type == dfh_type_fiu
      then parse_feature_fiu st ofst
      else some (st, 0)

  -- The end of the walk.
  unfoldable pub finish : State → State × ℕ
  unfolding build_info_commit_dev
  finish st = if is_none st.binfo.type then (st, 0) else build_info_commit_dev st

  -- What a feature led to; `next` walks on from an address.
  unfoldable pub walk_on :
      Option (State × ℕ) → (pos : ℕ) → (next : State → ℕ → Option (State × ℕ)) → Option (State × ℕ)
  unfolding finish
  walk_on none pos next = none
  walk_on (some (st, status)) pos next =
      let v = env.readq pos in
      if not (status == 0)
      then some (st, status)
      else if dfh_eol v || dfh_next_hdr_ofst v == 0
      then some (finish st)
      else next st (pos + dfh_next_hdr_ofst v)

  -- The loop, at the address `pos`. Each round goes on by a byte at least, so that fuel of the
  -- region's length is enough.
  unfoldable pub walk : ℕ → State → (pos end : ℕ) → Option (State × ℕ)
  unfolding walk_on parse_feature
  walk zero st pos end = if ltb pos end then none else some (finish st)
  walk (suc n) st pos end =
      if not (ltb pos end)
      then some (finish st)
      else if ltb (end - pos) 8
      then some (st, einval)
      else walk_on (parse_feature st (pos - st.binfo.start)) pos (λ st' pos'. walk n st' pos' end)

  -- What build_info_prepare gave for the whole region.
  unfoldable pub walk_prepared : State × ℕ → (start len : ℕ) → Option (State × ℕ)
  unfolding walk
  walk_prepared (st, status) start len =
      if not (status == 0) then some (st, status) else walk len st start (start + len)

  unfoldable pub parse_feature_list : State → (start len : ℕ) → Option (State × ℕ)
  unfolding walk_prepared build_info_prepare
  parse_feature_list st start len = walk_prepared (build_info_prepare st start len) start len
