-- ===== src/Logs/Sources.antt =====
-- `LogSource` and the events about sources, of modules/shared/logs/source-watcher.go.
use kubetail.Prelude.{
  ◌≡◌, ◌↔◌, Bool, true, ◌&&◌, arith, Comparable, ◌==◌, nat_comparable, Str, same_str_iff,
  str_comparable,
}

pub record LogSourceMetadata : Type 0 where
  pub region : Str
  pub zone : Str
  pub os : Str
  pub arch : Str
  pub node : Str

pub record LogSource : Type 0 where
  pub metadata : LogSourceMetadata
  pub namespace : Str
  pub pod_name : Str
  pub container_name : Str
  pub container_id : Str

abbrev same_metadata : LogSourceMetadata → LogSourceMetadata → Bool
same_metadata a b =
    (a.region == b.region)
    && ((a.zone == b.zone) && ((a.os == b.os) && ((a.arch == b.arch) && (a.node == b.node))))

unfoldable pub same_source : LogSource → LogSource → Bool
same_source a b =
    same_metadata a.metadata b.metadata
    && ((a.namespace == b.namespace)
        && ((a.pod_name == b.pod_name)
            && ((a.container_name == b.container_name) && (a.container_id == b.container_id))))

same_metadata_iff : (a b : LogSourceMetadata) → (same_metadata a b ≡ true) ↔ (a ≡ b)
same_metadata_iff a b = ground (
  arith,
  same_str_iff a.region b.region,
  same_str_iff a.zone b.zone,
  same_str_iff a.os b.os,
  same_str_iff a.arch b.arch,
  same_str_iff a.node b.node,
)

pub same_source_iff : (a b : LogSource) → (same_source a b ≡ true) ↔ (a ≡ b)
unfolding same_source
same_source_iff a b = ground (
  arith,
  same_metadata_iff a.metadata b.metadata,
  same_str_iff a.namespace b.namespace,
  same_str_iff a.pod_name b.pod_name,
  same_str_iff a.container_name b.container_name,
  same_str_iff a.container_id b.container_id,
)

instance abbrev pub source_comparable : Comparable LogSource
source_comparable = record { same = same_source; same_iff = same_source_iff }

-- SourceWatcherEvent with the source that is published.
pub data Event : Type 0 where
  added deleted : LogSource → Event
