-- ===== src/Pitr/Retention/Shared.antt =====
-- mysql-wrapper/src/pitr.rs: what a sweep expires of an archive whose lineages share one history
-- (`archive_shares_history`, `plan_shared_history_retention`).
use mysql_ha.Prelude.{
  ℕ, Bool, false, not, ◌&&◌, ◌||◌, Option, none, some, List, [], ◌∷◌, ◌++◌, map, ltb, leb, ◌==◌,
  if◌then◌else◌, is_some, is_none, length, last, any, filter, Str, str_eq, contains,
}
use mysql_ha.Pitr.Keys.{meta_key_for_dump}
use mysql_ha.Pitr.Binlog.{binlog_seq}
use mysql_ha.Pitr.Fulls.{FullBackupRef, fulls_to_keep}
use mysql_ha.Pitr.Retention.Types.{
  LineageObjects, RetentionPlan, shared_no_full, floor_predates_horizon, floor_unparseable,
  shared_unreadable, ages_unknown, shared_swept, empty_plan, note, ◌then_push◌,
  min_active_fulls_kept, expired_orphans, expired_keys, named, dump_keys,
}

unfoldable pub archive_shares_history : List LineageObjects → Bool
archive_shares_history = any (λ l. any (λ f. is_some f.meta.gtid_purged) l.fulls)

-- `binlog_ages.get(name)`.
unfoldable pub age_of : List (Str × ℕ) → Str → Option ℕ
age_of [] name = none
age_of ((key, uploaded_at) ∷ rest) name =
    if str_eq key name then some uploaded_at else age_of rest name

unfoldable pub is_before : Option ℕ → Option ℕ → Bool
is_before (some seq) (some floor_seq) = ltb seq floor_seq
is_before (some seq) none = false
is_before none _ = false

-- Whether a binlog holds nothing that the floor dump lacks: by sequence in the floor's own
-- lineage, by upload time in the others.
unfoldable pub redundant : FullBackupRef → LineageObjects → Str → Bool
unfolding age_of is_before
redundant floor l name =
    if str_eq l.server_uuid floor.server_uuid
    then is_before (binlog_seq name) (binlog_seq floor.meta.binlog_file)
    else elim (age_of l.binlog_ages name) [
      | none ↦ false
      | some uploaded_at ↦ ltb uploaded_at floor.meta.taken_at
    ]

-- How many binlogs of a lineage other than the floor's have no upload time.
unknown_ages : FullBackupRef → LineageObjects → ℕ
unfolding age_of
unknown_ages floor l =
    if str_eq l.server_uuid floor.server_uuid
    then 0
    else length (filter (λ name. is_none (age_of l.binlog_ages name)) l.binlogs)

-- The body of the second loop.
unfoldable pub sweep_shared_lineage :
    Str → FullBackupRef → List Str → LineageObjects → RetentionPlan
unfolding redundant unknown_ages
sweep_shared_lineage active_uuid floor kept_dumps l =
    let is_active = str_eq l.server_uuid active_uuid in
    let kept_fulls = length (filter (λ f. contains kept_dumps f.dump_key) l.fulls) in
    let expired_fulls = length (filter (λ f. not (contains kept_dumps f.dump_key)) l.fulls) in
    let expired = filter (redundant floor l) l.binlogs in
    let kept_binlogs = length (filter (λ name. not (redundant floor l name)) l.binlogs) in
    let unknown_age = unknown_ages floor l in
    let touched = ltb 0 expired_fulls || ltb 0 (length expired) in
    record {
      expired_full_keys = expired_keys meta_key_for_dump kept_dumps l.fulls;
      expired_binlogs = named l.server_uuid expired;
      orphan_dump_keys = [];
      retired_lineages =
          if not is_active && (touched && (kept_fulls == 0 && kept_binlogs == 0))
          then l.server_uuid ∷ []
          else [];
      notes =
          (if ltb 0 unknown_age then ages_unknown l.server_uuid unknown_age ∷ [] else [])
          ++ (if touched
              then shared_swept l.server_uuid is_active kept_fulls kept_binlogs floor expired_fulls
                  (length expired)
                ∷ []
              else []);
    }

unfoldable pub sweep_shared_lineages :
    Str → FullBackupRef → List Str → List LineageObjects → RetentionPlan
sweep_shared_lineages active_uuid floor kept_dumps [] = empty_plan
sweep_shared_lineages active_uuid floor kept_dumps (l ∷ ls) =
    sweep_shared_lineage active_uuid floor kept_dumps l
    then_push sweep_shared_lineages active_uuid floor kept_dumps ls

unfoldable pub all_orphans : ℕ → List LineageObjects → List Str
all_orphans now [] = []
all_orphans now (l ∷ ls) = expired_orphans now l.orphan_dumps ++ all_orphans now ls

unfoldable pub unreadable : List LineageObjects → List LineageObjects
unreadable = filter (λ l. ltb (length l.fulls) l.full_objects_seen)

unfoldable pub all_fulls : List LineageObjects → List FullBackupRef
all_fulls [] = []
all_fulls (l ∷ ls) = l.fulls ++ all_fulls ls

-- Behind the guards: the floor and the second loop. `none` stands for a failed `expect`.
unfoldable pub sweep_shared_kept :
    Str → ℕ → List LineageObjects → List FullBackupRef → Option RetentionPlan
sweep_shared_kept active_uuid cutoff lineages kept = elim (last kept) [
  | none ↦ none
  | some floor ↦ some (
      (if ltb floor.meta.taken_at cutoff && any (λ f. leb cutoff f.meta.taken_at) kept
        then note (floor_predates_horizon floor.server_uuid floor.meta.taken_at)
        else empty_plan)
      then_push (if is_none (binlog_seq floor.meta.binlog_file)
          then note (floor_unparseable floor.server_uuid floor.meta.binlog_file)
          else empty_plan)
      then_push sweep_shared_lineages active_uuid floor (dump_keys kept) lineages)
]

unfoldable pub sweep_shared_fulls :
    Str → ℕ → List LineageObjects → List FullBackupRef → Option RetentionPlan
unfolding sweep_shared_kept
sweep_shared_fulls active_uuid cutoff lineages [] = some (note shared_no_full)
sweep_shared_fulls active_uuid cutoff lineages (f ∷ fs) =
    sweep_shared_kept active_uuid cutoff lineages
      (fulls_to_keep (f ∷ fs) cutoff min_active_fulls_kept)

unfoldable pub plan_shared_history_retention :
    Str → ℕ → ℕ → List LineageObjects → Option RetentionPlan
unfolding all_orphans unreadable all_fulls sweep_shared_fulls
plan_shared_history_retention active_uuid now cutoff lineages =
    let blind = unreadable lineages in
    elim (if ltb 0 (length blind)
      then some (note (shared_unreadable (length blind) (map (λ l. l.server_uuid) blind)))
      else sweep_shared_fulls active_uuid cutoff lineages (all_fulls lineages)) [
        | none ↦ none
        | some swept ↦
            some (record empty_plan { orphan_dump_keys = all_orphans now lineages } then_push swept)
      ]
