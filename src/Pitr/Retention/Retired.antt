-- ===== src/Pitr/Retention/Retired.antt =====
-- mysql-wrapper/src/pitr.rs: retiring a dead lineage whole can take the only full that serves a
-- target inside the window. The comment on that branch says that such a lineage "can no longer serve
-- anything the window promises"; its newest full, older than the cutoff, serves every target up to
-- the end of its binlogs.
use mysql_ha.Prelude.{
  ℕ, ◌≡◌, refl, subst, ◌≢◌, inl, inr, true, false, not, none, some, List, [], ◌∷◌, arith,
  Option-cases, filter, In, In-append_left, In-append_right, In-append_cases, In-cons, In-filter,
  Str, str_eq, contains, str_eq_refl,
}
use mysql_ha.Pitr.Keys.{meta_key_for_dump}
use mysql_ha.Pitr.Fulls.{FullBackupRef, newest_qualifying_full}
use mysql_ha.Pitr.Fulls.Restorable.{Qualifies, Selects, newest_qualifying_full-Selects}
use mysql_ha.Pitr.Retention.Types.{
  LineageObjects, RetentionInput, RetentionPlan, ◌then_push◌, empty_plan, expired_keys,
  expired_orphans, sub_duration, not_positive,
}
use mysql_ha.Pitr.Retention.Lineage.{
  newest_taken_at, sweep_retired, sweep_fulls, sweep_lineage, sweep_lineages,
}
use mysql_ha.Pitr.Retention.Shared.{all_fulls}
use mysql_ha.Pitr.Retention.Plan.{
  active_has_full, plan_retention, plan_for_active, plan_from_cutoff,
}
use mysql_ha.Pitr.Retention.Sweep.{IsRetired}
use mysql_ha.Pitr.Retention.Merge.{From-sweep_lineages, expired_keys-In}
use mysql_ha.Pitr.Retention.Guards.{is_shared}

contains-In : (a : Str) (xs : List Str) → In a xs → contains xs a ≡ true
contains-In a [] m = elim m [ ]
contains-In a (x ∷ xs) m = elim (In-cons m) [
  | inl e ↦ rw (← e, str_eq_refl a) refl
  | inr k ↦ ground (arith, contains-In a xs k)
]

In-all_fulls :
    (f : FullBackupRef) (ls : List LineageObjects)
    → In f (all_fulls ls)
    → (l : LineageObjects) × In l ls × In f l.fulls
unfolding all_fulls
In-all_fulls f [] m = elim m [ ]
In-all_fulls f (l ∷ ls) m = elim (In-append_cases l.fulls (all_fulls ls) m) [
  | inl k ↦ (l, In.here, k)
  | inr k ↦ let (l', m', i) = In-all_fulls f ls k in (l', In.there m', i)
]

all_fulls-In :
    (f : FullBackupRef) (l : LineageObjects) (ls : List LineageObjects)
    → In l ls
    → In f l.fulls
    → In f (all_fulls ls)
unfolding all_fulls
all_fulls-In f l [] m k = elim m [ ]
all_fulls-In f l (x ∷ ls) m k = elim (In-cons m) [
  | inl e ↦ In-append_left x.fulls (all_fulls ls) (rw (← e) k)
  | inr j ↦ In-append_right x.fulls (all_fulls ls) (all_fulls-In f l ls j k)
]

sweep_fulls_retired :
    (active_uuid : Str) (cutoff : ℕ) (l : LineageObjects) (fulls : List FullBackupRef)
    → l.fulls ≡ fulls
    → IsRetired active_uuid cutoff l
    → (p : RetentionPlan) × (sweep_fulls l (str_eq l.server_uuid active_uuid) cutoff fulls ≡ some p)
      × (p.expired_full_keys ≡ expired_keys meta_key_for_dump [] l.fulls)
unfolding sweep_fulls
sweep_fulls_retired active_uuid cutoff l [] e (n, dead, newest, old) =
    let none_there : none ≡ some n = rw e at newest in cc
sweep_fulls_retired active_uuid cutoff l (f ∷ fs) e (n, dead, newest, old) =
    let same : some (newest_taken_at f.meta.taken_at fs) ≡ some n = rw e at newest in
    (
      sweep_retired l (newest_taken_at f.meta.taken_at fs),
      ground arith,
      unfold sweep_retired in refl,
    )

retired_key :
    (active_uuid : Str) (now cutoff : ℕ) (l : LineageObjects) (ls : List LineageObjects)
    (plan : RetentionPlan) (f : FullBackupRef)
    → sweep_lineages active_uuid now cutoff ls ≡ some plan
    → In l ls
    → IsRetired active_uuid cutoff l
    → In f l.fulls
    → In f.dump_key plan.expired_full_keys
unfolding sweep_lineage
retired_key active_uuid now cutoff l ls plan f h m dead mf =
    let (p, e, keys) = sweep_fulls_retired active_uuid cutoff l l.fulls refl dead in
    let (q, s, into) =
      From-sweep_lineages active_uuid now cutoff (λ p. p.expired_full_keys) refl (λ p q. refl) l ls
        plan h m in
    let swept : (record empty_plan { orphan_dump_keys = expired_orphans now l.orphan_dumps }
          then_push p)
        ≡ q =
      ground arith in
    into f.dump_key (rw (← swept, keys) (expired_keys-In meta_key_for_dump [] f l.fulls mf refl))

-- The fulls whose dump the plan does not delete.
abbrev pub survivors : RetentionPlan → List LineageObjects → List FullBackupRef
survivors plan ls = filter (λ f. not (contains plan.expired_full_keys f.dump_key)) (all_fulls ls)

none_of_Selects :
    (fulls : List FullBackupRef) (target : ℕ)
    → ((f : FullBackupRef) → In f fulls → ¬ Qualifies target f)
    → newest_qualifying_full fulls target ≡ none
none_of_Selects fulls target h = elim (Option-cases (newest_qualifying_full fulls target)) [
  | inl e ↦ e
  | inr (r, e) ↦
      let s : Selects fulls target (some r) =
        rw e at (newest_qualifying_full-Selects fulls target) in
      absurd (h r s.0 s.1)
]

-- Over independent histories, where the active lineage has a full: if a lineage is retired and, for
-- a target at or after the cutoff, each qualifying full of the archive is of that lineage, then a
-- full qualifies before the sweep and none does after it.
pub retired_loses_target :
    (input : RetentionInput) (plan : RetentionPlan) (active_uuid : Str) (cutoff : ℕ)
    (l : LineageObjects) (target : ℕ) (f : FullBackupRef)
    → input.active_server_uuid ≡ some active_uuid
    → not_positive input.horizon ≡ false
    → sub_duration input.now input.horizon ≡ some cutoff
    → is_shared input ≡ false
    → active_has_full active_uuid input.lineages ≡ true
    → plan_retention input ≡ some plan
    → In l input.lineages
    → IsRetired active_uuid cutoff l
    → In f l.fulls
    → Qualifies target f
    → ((m : LineageObjects) (g : FullBackupRef)
        → In m input.lineages
        → In g m.fulls
        → Qualifies target g
        → m ≡ l)
    → (newest_qualifying_full (all_fulls input.lineages) target ≢ none)
      × (newest_qualifying_full (survivors plan input.lineages) target ≡ none)
unfolding plan_retention plan_for_active plan_from_cutoff
retired_loses_target input plan active_uuid cutoff l target f active pos cut own has h m dead mf q
      only =
    let ls = input.lineages in
    let swept : sweep_lineages active_uuid input.now cutoff ls ≡ some plan = ground arith in
    (
      λ e.
          let s : Selects (all_fulls ls) target none =
            rw e at (newest_qualifying_full-Selects (all_fulls ls) target) in
          s f (all_fulls-In f l ls m mf) q,
      none_of_Selects (survivors plan ls) target (λ g k qg.
          let (listed, kept) =
            In-filter (λ x. not (contains plan.expired_full_keys x.dump_key)) (all_fulls ls) k in
          let (o, mo, i) = In-all_fulls g ls listed in
          let same = only o g mo i qg in
          let gone = contains-In g.dump_key plan.expired_full_keys (
            retired_key active_uuid input.now cutoff l ls plan g swept m dead
              (subst (λ (z : LineageObjects). In g z.fulls) same i)) in
          ground arith),
    )
