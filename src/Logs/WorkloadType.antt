-- ===== src/Logs/WorkloadType.antt =====
-- `WorkloadType` and its methods, and `parseWorkloadType`, of modules/shared/logs/helpers.go.
pub mod Names
use kubetail.Prelude.{
  Bool, true, false, ◌||◌, if◌then◌else◌, ◌==◌, List, [], ◌∷◌, ◌++◌, Str, str, Result, ok, err,
  str_comparable, elem,
}
use kubetail.Strings.{to_lower, join}

pub data WorkloadType : Type 0 where
  unknown cron_job daemon_set deployment job pod replica_set stateful_set : WorkloadType

unfoldable pub to_string : WorkloadType → Str
to_string cron_job = str "CronJob"
to_string daemon_set = str "DaemonSet"
to_string deployment = str "Deployment"
to_string job = str "Job"
to_string pod = str "Pod"
to_string replica_set = str "ReplicaSet"
to_string stateful_set = str "StatefulSet"
to_string unknown = str "Unknown"

-- The group and the resource, or an error.
pub group_resource : WorkloadType → Result (Str × Str)
unfolding to_string
group_resource cron_job = ok (str "batch", str "cronjobs")
group_resource daemon_set = ok (str "apps", str "daemonsets")
group_resource deployment = ok (str "apps", str "deployments")
group_resource job = ok (str "batch", str "jobs")
group_resource pod = ok ([], str "pods")
group_resource replica_set = ok (str "apps", str "replicasets")
group_resource stateful_set = ok (str "apps", str "statefulsets")
group_resource unknown = err (str "not implemented: " ++ to_string unknown)

-- schema.GroupVersionResource
pub record GroupVersionResource : Type 0 where
  pub group : Str
  pub version : Str
  pub resource : Str

pub gvr : WorkloadType → GroupVersionResource
gvr cron_job = record { group = str "batch"; version = str "v1"; resource = str "cronjobs" }
gvr daemon_set = record { group = str "apps"; version = str "v1"; resource = str "daemonsets" }
gvr deployment = record { group = str "apps"; version = str "v1"; resource = str "deployments" }
gvr job = record { group = str "batch"; version = str "v1"; resource = str "jobs" }
gvr pod = record { group = []; version = str "v1"; resource = str "pods" }
gvr replica_set = record { group = str "apps"; version = str "v1"; resource = str "replicasets" }
gvr stateful_set = record { group = str "apps"; version = str "v1"; resource = str "statefulsets" }
gvr unknown = record { group = []; version = []; resource = [] }

pub key : WorkloadType → List Str → Str
unfolding to_string join
key w args = to_string w ++ str "/" ++ join b'/' args

-- The names that a `case` lists, against the text in lower case.
abbrev named : Str → Str → Str → Str → Bool
named s a b c = (s == a) || (s == b) || (s == c)

unfoldable pub parse_workload_type : Str → WorkloadType
unfolding to_lower
parse_workload_type text =
    let s = to_lower text in
    if named s (str "cronjobs") (str "cronjob") (str "cj")
    then cron_job
    else if named s (str "daemonsets") (str "daemonset") (str "ds")
    then daemon_set
    else if named s (str "deployments") (str "deployment") (str "deploy")
    then deployment
    else if (s == str "jobs") || (s == str "job")
    then job
    else if named s (str "pods") (str "pod") (str "po")
    then pod
    else if named s (str "replicasets") (str "replicaset") (str "rs")
    then replica_set
    else if named s (str "statefulsets") (str "statefulset") (str "sts")
    then stateful_set
    else unknown
