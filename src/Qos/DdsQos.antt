-- ===== src/Qos/DdsQos.antt =====
-- `create_dds_qos` of rmw_cyclonedds_c/src/rmw_cyclonedds_c.c: the QoS of a writer or a reader in
-- DDS. Of the policies that take fixed values it keeps the history.
pub mod Profiled
use rmw_cyclonedds_c.Common.{
  ℕ, suc, ◌-◌, ◌%◌, ◌^◌, Bool, true, false, ◌&&◌, not, List, Option, none, some, CString, ltb, leb,
  if◌then◌else◌,
}
use rmw_cyclonedds_c.Rmw.{ℤ, pos, negsuc}
use rmw_cyclonedds_c.Qos.{QosProfile, Reliability, Durability}
use rmw_cyclonedds_c.Qos.UserData.{TypeHash, set_type_hash_user_data}

pub data DdsHistory : Type 0 where
  keep_last keep_all : DdsHistory

pub data DdsReliability : Type 0 where
  reliable best_effort : DdsReliability

pub data DdsDurability : Type 0 where
  transient_local volatile : DdsDurability

-- `history` and `depth` are those of `dds_qset_history`; `service_depth` is that of the durability
-- service, if it is set, whose history is DDS_HISTORY_KEEP_LAST. A reliable writer blocks for ever, a best-effort one not at all.
pub record DdsQos : Type 0 where
  pub history : DdsHistory
  pub depth : ℤ
  pub reliability : DdsReliability
  pub durability : DdsDurability
  pub service_depth : Option ℤ
  pub user_data : CString

-- `(int32_t)n`
abbrev pub int32_of : ℕ → ℤ
int32_of n = let low = n % 2 ^ 32 in if leb (2 ^ 31) low then negsuc (2 ^ 32 - suc low) else pos low

abbrev pub is_reliable : Reliability → Bool
is_reliable Reliability.reliable = true
is_reliable _ = false

abbrev pub is_transient_local : Durability → Bool
is_transient_local Durability.transient_local = true
is_transient_local _ = false

-- `made` says whether `dds_create_qos` succeeds; the last three are read by
-- `set_type_hash_user_data`. Where that fails, the new QoS is deleted.
unfoldable pub create_dds_qos :
    Bool → QosProfile → Bool → List ℕ → Bool → Option TypeHash → Option DdsQos
create_dds_qos made qos writer stack has_function hash =
    if not made then none else elim (set_type_hash_user_data stack has_function hash) [
      | none ↦ none
      | some user_data ↦ some (record {
        history = DdsHistory.keep_last;
        depth = int32_of qos.depth;
        reliability =
            if is_reliable qos.reliability
            then DdsReliability.reliable
            else DdsReliability.best_effort;
        durability =
            if is_transient_local qos.durability
            then DdsDurability.transient_local
            else DdsDurability.volatile;
        service_depth =
            if writer && is_transient_local qos.durability then some (int32_of qos.depth) else none;
        user_data = user_data;
      })
    ]
