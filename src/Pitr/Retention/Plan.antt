-- ===== src/Pitr/Retention/Plan.antt =====
-- mysql-wrapper/src/pitr.rs: `plan_retention`. `none` stands for a panic: the cutoff lies below
-- chrono's earliest instant, or an `expect` fails.
use mysql_ha.Prelude.{
  ℕ, Bool, not, ◌&&◌, ◌||◌, Option, none, some, List, ltb, if◌then◌else◌, length, any, Str, str_eq,
}
use mysql_ha.Pitr.Retention.Types.{
  LineageObjects, RetentionInput, RetentionPlan, not_positive, sub_duration, no_active_lineage,
  horizon_not_positive, active_without_full, note,
}
use mysql_ha.Pitr.Retention.Lineage.{sweep_lineages}
use mysql_ha.Pitr.Retention.Shared.{archive_shares_history, plan_shared_history_retention}

-- The active lineage can itself serve a restore.
unfoldable pub active_has_full : Str → List LineageObjects → Bool
active_has_full active_uuid = any (λ l. str_eq l.server_uuid active_uuid && ltb 0 (length l.fulls))

-- Behind the cutoff.
unfoldable pub plan_from_cutoff : RetentionInput → Str → ℕ → Option RetentionPlan
unfolding active_has_full
plan_from_cutoff input active_uuid cutoff =
    if input.shared_history_marker || archive_shares_history input.lineages
    then plan_shared_history_retention active_uuid input.now cutoff input.lineages
    else if not (active_has_full active_uuid input.lineages)
    then some (note (active_without_full active_uuid))
    else sweep_lineages active_uuid input.now cutoff input.lineages

unfoldable pub plan_for_active : RetentionInput → Str → Option RetentionPlan
unfolding not_positive sub_duration plan_from_cutoff
plan_for_active input active_uuid =
    if not_positive input.horizon
    then some (note horizon_not_positive)
    else elim (sub_duration input.now input.horizon) [
      | none ↦ none
      | some cutoff ↦ plan_from_cutoff input active_uuid cutoff
    ]

unfoldable pub plan_retention : RetentionInput → Option RetentionPlan
unfolding plan_for_active
plan_retention input = elim input.active_server_uuid [
  | none ↦ some (note no_active_lineage)
  | some active_uuid ↦ plan_for_active input active_uuid
]
