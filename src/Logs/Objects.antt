-- ===== src/Logs/Objects.antt =====
-- What the log pipeline reads of the Kubernetes objects (k8s.io/api) that the informers deliver.
use kubetail.Prelude.{List, Str, Map}

-- metav1.ObjectMeta: the UIDs in `owners` are those of `OwnerReferences`.
pub record ObjectMeta : Type 0 where
  pub uid : Str
  pub namespace : Str
  pub name : Str
  pub owners : List Str

-- corev1.ContainerStatus
pub record ContainerStatus : Type 0 where
  pub name : Str
  pub container_id : Str

-- corev1.Pod
pub record Pod : Type 0 where
  pub meta : ObjectMeta
  pub node_name : Str
  pub container_statuses : List ContainerStatus
  pub init_container_statuses : List ContainerStatus

-- corev1.Node
pub record Node : Type 0 where
  pub meta : ObjectMeta
  pub labels : Map Str Str
  pub operating_system : Str
  pub architecture : Str

-- The argument `obj any` of a handler: the types that a `switch` names, nodes, and anything else,
-- such as the tombstone of a missed deletion.
pub data Object : Type 0 where
  cron_job daemon_set deployment job replica_set stateful_set : ObjectMeta → Object
  pod : Pod → Object
  node : Node → Object
  other : Object
