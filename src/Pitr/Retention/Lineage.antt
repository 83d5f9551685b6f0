-- ===== src/Pitr/Retention/Lineage.antt =====
-- mysql-wrapper/src/pitr.rs: what a sweep expires of one lineage where the lineages are independent
-- histories (the loop of `plan_retention`). `none` stands for a failed `expect`.
use mysql_ha.Prelude.{
  ℕ, max, Bool, false, not, ◌&&◌, ◌||◌, Option, none, some, List, [], ◌∷◌, ◌++◌, ltb, leb,
  if◌then◌else◌, is_none, length, last, any, filter, Str, str_eq, contains,
}
use mysql_ha.Pitr.Keys.{meta_key_for_dump}
use mysql_ha.Pitr.Binlog.{binlog_seq}
use mysql_ha.Pitr.Fulls.{FullBackupRef, fulls_to_keep}
use mysql_ha.Pitr.Retention.Types.{
  LineageObjects, RetentionPlan, fulls_unreadable, unrestorable_binlogs, retiring_lineage,
  floor_predates_horizon, floor_unparseable, names_unparseable, lineage_swept, empty_plan, note,
  ◌then_push◌, min_active_fulls_kept, expired_orphans, expired_keys, named, dump_keys,
}

-- A lineage with no complete full.
unfoldable pub sweep_without_full : LineageObjects → Bool → RetentionPlan
sweep_without_full l is_active =
    if ltb 0 l.full_objects_seen
    then note (fulls_unreadable l.server_uuid l.full_objects_seen)
    else if not is_active && ltb 0 (length l.binlogs)
    then record {
      expired_full_keys = [];
      expired_binlogs = named l.server_uuid l.binlogs;
      orphan_dump_keys = [];
      retired_lineages = l.server_uuid ∷ [];
      notes = unrestorable_binlogs l.server_uuid (length l.binlogs) ∷ [];
    }
    else empty_plan

unfoldable pub newest_taken_at : ℕ → List FullBackupRef → ℕ
newest_taken_at best [] = best
newest_taken_at best (f ∷ fs) = newest_taken_at (max best f.meta.taken_at) fs

-- A dead lineage whose newest full predates the horizon goes whole.
unfoldable pub sweep_retired : LineageObjects → ℕ → RetentionPlan
sweep_retired l newest_full_at = record {
  expired_full_keys = expired_keys meta_key_for_dump [] l.fulls;
  expired_binlogs = named l.server_uuid l.binlogs;
  orphan_dump_keys = [];
  retired_lineages = l.server_uuid ∷ [];
  notes = retiring_lineage l.server_uuid newest_full_at ∷ [];
}

unfoldable pub is_below : ℕ → Str → Bool
is_below floor_seq name = elim (binlog_seq name) [ none ↦ false | some seq ↦ ltb seq floor_seq ]

-- The binlogs of a lineage that keeps fulls, and the notes on them.
unfoldable pub sweep_binlogs : LineageObjects → Bool → ℕ → FullBackupRef → ℕ → RetentionPlan
unfolding is_below
sweep_binlogs l is_active kept floor expired_fulls = elim (binlog_seq floor.meta.binlog_file) [
  | none ↦ note (floor_unparseable l.server_uuid floor.meta.binlog_file)
  | some floor_seq ↦
      let below = filter (is_below floor_seq) l.binlogs in
      let unparseable = length (filter (λ n. is_none (binlog_seq n)) l.binlogs) in
      record empty_plan {
        expired_binlogs = named l.server_uuid below;
        notes =
            (if ltb 0 unparseable then names_unparseable l.server_uuid unparseable ∷ [] else [])
            ++ (if ltb 0 expired_fulls || ltb 0 (length below)
                then lineage_swept l.server_uuid is_active kept floor expired_fulls (length below)
                  ∷ []
                else []);
      }
]

-- The rest of the loop's body, for the fulls that are kept.
unfoldable pub sweep_kept : LineageObjects → Bool → ℕ → List FullBackupRef → Option RetentionPlan
unfolding sweep_binlogs
sweep_kept l is_active cutoff kept = elim (last kept) [
  | none ↦ none
  | some floor ↦
      let expired = expired_keys meta_key_for_dump (dump_keys kept) l.fulls in
      let expired_fulls =
        length (filter (λ f. not (contains (dump_keys kept) f.dump_key)) l.fulls) in
      let predates = ltb floor.meta.taken_at cutoff && any (λ f. leb cutoff f.meta.taken_at) kept in
      some (
        (if predates
          then note (floor_predates_horizon l.server_uuid floor.meta.taken_at)
          else empty_plan)
        then_push (record empty_plan { expired_full_keys = expired })
        then_push sweep_binlogs l is_active (length kept) floor expired_fulls)
]

-- The loop's body behind the orphans, by the lineage's complete fulls.
unfoldable pub sweep_fulls : LineageObjects → Bool → ℕ → List FullBackupRef → Option RetentionPlan
unfolding sweep_without_full newest_taken_at sweep_retired sweep_kept
sweep_fulls l is_active cutoff [] = some (sweep_without_full l is_active)
sweep_fulls l is_active cutoff (f ∷ fs) =
    let newest_full_at = newest_taken_at f.meta.taken_at fs in
    let min_kept = if is_active then min_active_fulls_kept else 1 in
    if not is_active && ltb newest_full_at cutoff
    then some (sweep_retired l newest_full_at)
    else sweep_kept l is_active cutoff (fulls_to_keep l.fulls cutoff min_kept)

unfoldable pub sweep_lineage : Str → ℕ → ℕ → LineageObjects → Option RetentionPlan
unfolding sweep_fulls
sweep_lineage active_uuid now cutoff l =
    elim (sweep_fulls l (str_eq l.server_uuid active_uuid) cutoff l.fulls) [
      | none ↦ none
      | some swept ↦ some (
          record empty_plan { orphan_dump_keys = expired_orphans now l.orphan_dumps }
          then_push swept)
    ]

unfoldable pub sweep_lineages : Str → ℕ → ℕ → List LineageObjects → Option RetentionPlan
sweep_lineages active_uuid now cutoff [] = some empty_plan
sweep_lineages active_uuid now cutoff (l ∷ ls) =
    let rest = sweep_lineages active_uuid now cutoff ls in
    elim (sweep_lineage active_uuid now cutoff l) [
      | none ↦ none
      | some swept ↦ elim rest [ none ↦ none | some later ↦ some (swept then_push later) ]
    ]
