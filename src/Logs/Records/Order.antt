-- ===== src/Logs/Records/Order.antt =====
-- Records in the order of their times.
use kubetail.Prelude.{◌≤◌, List, [], ◌∷◌, nat_comparable, All, str_comparable}
use kubetail.Logs.Records.{LogRecord}

-- Times do not fall along the list.
abbrev pub IsAscending : List LogRecord → Type 0
IsAscending [] = Unit {0}
IsAscending (r ∷ rs) = All (λ x. r.timestamp ≤ x.timestamp) rs × IsAscending rs
