-- ===== src/Logs/WorkloadType/Names.antt =====
-- The names of the workload types, as they are printed and parsed.
use kubetail.Prelude.{◌≡◌, ◌≢◌, refl, ap, Str, str, ok, err, ◌⊎◌, inl, inr}
use kubetail.Strings.{to_lower}
use kubetail.Strings.Laws.{to_lower_idem}
use kubetail.Logs.WorkloadType.{
  WorkloadType, unknown, cron_job, to_string, group_resource, gvr, parse_workload_type,
}

-- Every type is read back from its printed name and from the name of its resource.
pub parse_workload_type-to_string :
    (w : WorkloadType)
    → (parse_workload_type (to_string w) ≡ w) × (parse_workload_type (gvr w).resource ≡ w)
unfolding parse_workload_type to_string gvr
parse_workload_type-to_string cron_job = (refl, refl)
parse_workload_type-to_string _ = (refl, refl)

-- The case of the letters of a name does not matter to the type that is parsed from it.
pub parse_workload_type-to_lower :
    (s : Str) → parse_workload_type (to_lower s) ≡ parse_workload_type s
unfolding parse_workload_type
parse_workload_type-to_lower s = rw (to_lower_idem s)

-- `GroupResource` fails exactly for the unknown type, and otherwise agrees with `GVR`.
pub group_resource-gvr :
    (w : WorkloadType)
    → ((w ≡ unknown) × (group_resource w ≡ err (str "not implemented: Unknown")))
      ⊎ ((w ≢ unknown) × (group_resource w ≡ ok ((gvr w).group, (gvr w).resource)))
unfolding group_resource gvr
group_resource-gvr unknown = inl (refl, refl)
group_resource-gvr cron_job = inr ((λ e. cc), refl)
group_resource-gvr _ = inr ((λ e. cc), refl)

pub to_string-injective : (v w : WorkloadType) → to_string v ≡ to_string w → v ≡ w
to_string-injective v w e = cc (
  ap parse_workload_type e,
  (parse_workload_type-to_string v).0,
  (parse_workload_type-to_string w).0,
)
