-- ===== src/Examples/Retention.antt =====
-- mysql-wrapper/src/pitr.rs at concrete inputs: full selection and retention.
use mysql_ha.Prelude.{
  ℕ, ◌≤◌, ◌≡◌, refl, sym, ◌∙◌, subst, ◌≢◌, inl, inr, true, false, none, some, List, [], ◌∷◌, arith,
  In, All, In-cons, All-In, Str, codes, str_eq, strip_prefix, strip_suffix, sort_by,
}
use mysql_ha.Pitr.Keys.{meta_key_for_dump}
use mysql_ha.Pitr.Binlog.{binlog_seq}
use mysql_ha.Pitr.Fulls.{
  FullBackupRef, floor_to_millis, newest_qualifying_full, fulls_to_keep, newest_first,
}
use mysql_ha.Pitr.Fulls.Restorable.{Qualifies, Selects, newest_qualifying_full-Selects}
use mysql_ha.Pitr.Fulls.Window.{fulls_to_keep_restorable}
use mysql_ha.Pitr.Retention.Types.{
  LineageObjects, RetentionInput, RetentionPlan, non_negative, floor_predates_horizon,
  lineage_swept, retiring_lineage, not_positive, sub_duration, expired_keys, expired_orphans,
}
use mysql_ha.Pitr.Retention.Shared.{all_fulls, archive_shares_history}
use mysql_ha.Pitr.Retention.Plan.{plan_retention, active_has_full}
use mysql_ha.Pitr.Retention.Lineage.{sweep_lineages, sweep_lineage, newest_taken_at}
use mysql_ha.Pitr.Retention.Window.{IsArchive, Survives}
use mysql_ha.Pitr.Retention.Guards.{plan_retention_total}
use mysql_ha.Pitr.Retention.Promise.{plan_retention_window}
use mysql_ha.Pitr.Retention.Retired.{survivors, retired_loses_target}

abbrev full : Str → Str → ℕ → Str → FullBackupRef
full uuid key taken_at file = record {
  server_uuid = uuid;
  dump_key = key;
  meta = record {
    taken_at = taken_at;
    binlog_file = file;
    binlog_pos = 4;
    server_uuid = uuid;
    mysql_version = codes "8.4";
    gtid_purged = none;
    dump_bytes = none;
    datadir_bytes = none;
  };
}

abbrev f1 : FullBackupRef
f1 = full (codes "u") (codes "1.sql.gz") 100 (codes "b.1")

abbrev f2 : FullBackupRef
f2 = full (codes "u") (codes "2.sql.gz") 200 (codes "b.3")

abbrev f3 : FullBackupRef
f3 = full (codes "u") (codes "3.sql.gz") 300 (codes "b.5")

abbrev fulls : List FullBackupRef
fulls = f2 ∷ f1 ∷ f3 ∷ []

newest_qualifying_full-Selects_example : Selects fulls 250 (newest_qualifying_full fulls 250)
newest_qualifying_full-Selects_example = newest_qualifying_full-Selects fulls 250

fulls_kept : fulls_to_keep fulls 250 1 ≡ f3 ∷ f2 ∷ []
unfolding fulls_to_keep sort_by newest_first
fulls_kept = refl

fulls_to_keep_restorable_example :
    (g : FullBackupRef) × In g (fulls_to_keep fulls 250 1)
    × Qualifies 260 g
    × (200 ≤ g.meta.taken_at)
unfolding floor_to_millis
fulls_to_keep_restorable_example =
    fulls_to_keep_restorable fulls 250 1 260 f2 (omega arith) In.here (omega arith)

abbrev lineage : LineageObjects
lineage = record {
  server_uuid = codes "u";
  fulls = fulls;
  full_objects_seen = 3;
  orphan_dumps = [];
  binlogs = codes "b.1" ∷ codes "b.2" ∷ codes "b.3" ∷ codes "b.4" ∷ [];
  binlog_ages = [];
}

abbrev input_of : List LineageObjects → Str → ℕ → RetentionInput
input_of lineages active_uuid horizon = record {
  lineages = lineages;
  active_server_uuid = some active_uuid;
  now = 400;
  horizon = non_negative horizon;
  shared_history_marker = false;
}

abbrev input : RetentionInput
input = input_of (lineage ∷ []) (codes "u") 150

plan_retention_total_example : (plan : RetentionPlan) × (plan_retention input ≡ some plan)
plan_retention_total_example = plan_retention_total input 150 refl (omega arith)

abbrev swept_plan : RetentionPlan
swept_plan = record {
  expired_full_keys = codes "1.sql.gz" ∷ codes "1.meta.json" ∷ [];
  expired_binlogs = (codes "u", codes "b.1") ∷ (codes "u", codes "b.2") ∷ [];
  orphan_dump_keys = [];
  retired_lineages = [];
  notes = floor_predates_horizon (codes "u") 200 ∷ lineage_swept (codes "u") true 2 f2 1 2 ∷ [];
}

sweeps_below_floor : plan_retention input ≡ some swept_plan
unfolding plan_retention archive_shares_history sweep_lineages sweep_lineage fulls_to_keep sort_by
    newest_first binlog_seq meta_key_for_dump strip_suffix strip_prefix expired_keys expired_orphans
sweeps_below_floor = refl

only_one : (l k : LineageObjects) → In l (k ∷ []) → l ≡ k
only_one l k m = elim (In-cons m) [ inl e ↦ e | inr j ↦ elim j [ ] ]

abbrev KeysApart : FullBackupRef → FullBackupRef → Type 0
KeysApart f g = str_eq f.dump_key (meta_key_for_dump g.dump_key) ≡ false

abbrev SidecarsApart : FullBackupRef → FullBackupRef → Type 0
SidecarsApart f g =
    meta_key_for_dump f.dump_key ≡ meta_key_for_dump g.dump_key → f.dump_key ≡ g.dump_key

abbrev InOrder : FullBackupRef → FullBackupRef → Type 0
InOrder f g =
    (m n : ℕ)
    → f.meta.taken_at ≤ g.meta.taken_at
    → binlog_seq f.meta.binlog_file ≡ some m
    → binlog_seq g.meta.binlog_file ≡ some n
    → m ≤ n

abbrev EachPair : (FullBackupRef → FullBackupRef → Type 0) → List FullBackupRef → Type 0
EachPair R fs = All (λ f. All (λ g. R f g) fs) fs

pair_at :
    (R : FullBackupRef → FullBackupRef → Type 0) (l k : LineageObjects) (f g : FullBackupRef)
    → l ≡ k
    → EachPair R k.fulls
    → In f l.fulls
    → In g k.fulls
    → R f g
pair_at R l k f g e h mf mg =
    All-In (λ x. R f x) k.fulls
      (All-In (λ x. All (λ y. R x y) k.fulls) k.fulls h
        (subst (λ (z : LineageObjects). In f z.fulls) e mf))
      mg

one_lineage-IsArchive :
    (k : LineageObjects)
    → EachPair KeysApart k.fulls
    → EachPair SidecarsApart k.fulls
    → EachPair InOrder k.fulls
    → IsArchive (k ∷ [])
one_lineage-IsArchive k apart sidecars order = record {
  listed_once = λ l m hl hm _. only_one l k hl ∙ sym (only_one m k hm);
  key_owner = λ l m f g hl hm _ _ _. only_one l k hl ∙ sym (only_one m k hm);
  keys_apart = λ l m f g hl hm mf mg.
      pair_at KeysApart l k f g (only_one l k hl) apart mf
        (subst (λ (z : LineageObjects). In g z.fulls) (only_one m k hm) mg);
  sidecar_owner = λ l m f g hl hm mf mg.
      pair_at SidecarsApart l k f g (only_one l k hl) sidecars mf
        (subst (λ (z : LineageObjects). In g z.fulls) (only_one m k hm) mg);
  coordinates = λ l f g m n hl mf mg.
      pair_at InOrder l k f g (only_one l k hl) order mf
        (subst (λ (z : LineageObjects). In g z.fulls) (only_one l k hl) mg) m n;
}

lineage-IsArchive : IsArchive (lineage ∷ [])
unfolding binlog_seq meta_key_for_dump strip_suffix strip_prefix
lineage-IsArchive =
    one_lineage-IsArchive lineage
      ((refl, (refl, (refl, tt))), ((refl, (refl, (refl, tt))), ((refl, (refl, (refl, tt))), tt)))
      (
        ((λ e. refl), ((λ e. cc), ((λ e. cc), tt))),
        (
          ((λ e. cc), ((λ e. refl), ((λ e. cc), tt))),
          (((λ e. cc), ((λ e. cc), ((λ e. refl), tt))), tt),
        ),
      )
      (
        (
          (λ m n t p q. ground arith),
          ((λ m n t p q. ground arith), ((λ m n t p q. ground arith), tt)),
        ),
        (
          (
            (λ m n t p q. ground arith),
            ((λ m n t p q. ground arith), ((λ m n t p q. ground arith), tt)),
          ),
          (
            (
              (λ m n t p q. ground arith),
              ((λ m n t p q. ground arith), ((λ m n t p q. ground arith), tt)),
            ),
            tt,
          ),
        ),
      )

plan_retention_window_example :
    (g : FullBackupRef) × In g fulls
    × Qualifies 260 g
    × (100 ≤ g.meta.taken_at)
    × Survives swept_plan lineage g
unfolding floor_to_millis archive_shares_history
plan_retention_window_example =
    plan_retention_window input swept_plan (codes "u") 250 lineage 260 f1 lineage-IsArchive refl
      (unfold sub_duration in refl) refl sweeps_below_floor In.here (λ d. cc (d.1)) (omega arith)
      (In.there In.here) (omega arith)

-- `u` took its last full before the cutoff and was replaced by `v`, whose first full is later than
-- the target.
abbrev dead : LineageObjects
dead = record lineage { fulls = f2 ∷ [] }

abbrev g1 : FullBackupRef
g1 = full (codes "v") (codes "9.sql.gz") 3_000_000 (codes "b.1")

abbrev fresh : LineageObjects
fresh = record {
  server_uuid = codes "v";
  fulls = g1 ∷ [];
  full_objects_seen = 1;
  orphan_dumps = [];
  binlogs = [];
  binlog_ages = [];
}

abbrev reset : RetentionInput
reset = record (input_of (dead ∷ fresh ∷ []) (codes "v") 3_999_000) { now = 4_000_000 }

abbrev reset_plan : RetentionPlan
reset_plan = record {
  expired_full_keys = codes "2.sql.gz" ∷ codes "2.meta.json" ∷ [];
  expired_binlogs =
      (codes "u", codes "b.1")
      ∷ (codes "u", codes "b.2")
      ∷ (codes "u", codes "b.3")
      ∷ (codes "u", codes "b.4")
      ∷ [];
  orphan_dump_keys = [];
  retired_lineages = codes "u" ∷ [];
  notes = retiring_lineage (codes "u") 200 ∷ [];
}

retires_dead : plan_retention reset ≡ some reset_plan
unfolding plan_retention archive_shares_history sweep_lineages sweep_lineage fulls_to_keep sort_by
    newest_first binlog_seq meta_key_for_dump strip_suffix strip_prefix expired_keys expired_orphans
retires_dead = refl

only_dead :
    (m : LineageObjects) (g : FullBackupRef)
    → In m (dead ∷ fresh ∷ [])
    → In g m.fulls
    → Qualifies 1_500_000 g
    → m ≡ dead
unfolding floor_to_millis
only_dead m g hm hg q = elim (In-cons hm) [
  | inl e ↦ e
  | inr k ↦
      let e = only_one m fresh k in
      let mg : In g (g1 ∷ []) = subst (λ (z : LineageObjects). In g z.fulls) e hg in
      elim (In-cons mg) [
        | inl same ↦
            let q' : 3_000_000 ≤ 1_500_000 = subst (Qualifies 1_500_000) same q in
            absurd (omega arith)
        | inr j ↦ elim j [ ]
      ]
]

retired_loses_target_example :
    (newest_qualifying_full (all_fulls reset.lineages) 1_500_000 ≢ none)
    × (newest_qualifying_full (survivors reset_plan reset.lineages) 1_500_000 ≡ none)
unfolding floor_to_millis archive_shares_history newest_taken_at not_positive sub_duration
    active_has_full
retired_loses_target_example =
    retired_loses_target reset reset_plan (codes "v") 1000 dead 1_500_000 f2 refl refl refl refl
      refl retires_dead In.here (200, refl, refl, omega arith) In.here (omega arith) only_dead
