-- ===== src/Pitr/Retention/Guards.antt =====
-- mysql-wrapper/src/pitr.rs: the guards of `plan_retention`. In which cases nothing expires, that the
-- planner always returns a plan, and which orphan dumps it deletes.
use mysql_ha.Prelude.{
  ℕ, ◌-◌, ◌≤◌, ◌<◌, ◌≡◌, refl, ◌≢◌, ◌⊎◌, inl, inr, Bool, true, false, not, ◌&&◌, ◌||◌, Option, none,
  some, List, [], ◌∷◌, arith, ltb, if◌then◌else◌, Bool-cases, Option-cases, length, last, Str,
  str_eq,
}
use mysql_ha.Pitr.Fulls.{FullBackupRef, fulls_to_keep}
use mysql_ha.Pitr.Fulls.Window.{fulls_to_keep_floor}
use mysql_ha.Pitr.Retention.Types.{
  LineageObjects, RetentionInput, RetentionPlan, non_negative, not_positive, sub_duration,
  empty_plan, ◌then_push◌, expired_orphans, min_active_fulls_kept,
}
use mysql_ha.Pitr.Retention.Lineage.{
  sweep_kept, sweep_fulls, sweep_lineage, sweep_lineages, sweep_retired, newest_taken_at,
}
use mysql_ha.Pitr.Retention.Shared.{
  archive_shares_history, plan_shared_history_retention, sweep_shared_fulls, unreadable, all_fulls,
}
use mysql_ha.Pitr.Retention.Plan.{
  active_has_full, plan_from_cutoff, plan_for_active, plan_retention,
}

-- Nothing is deleted.
abbrev pub Inert : RetentionPlan → Type 0
Inert plan =
    (plan.expired_full_keys ≡ []) × (plan.expired_binlogs ≡ []) × (plan.orphan_dump_keys ≡ [])

abbrev pub is_shared : RetentionInput → Bool
is_shared input = input.shared_history_marker || archive_shares_history input.lineages

-- How a plan came about: by a guard, by the rules for a shared history, or by those for independent
-- histories.
abbrev pub Planned : RetentionInput → RetentionPlan → Type 0
Planned input plan =
    Inert plan
    ⊎ ((active_uuid : Str) × (cutoff : ℕ) × (input.active_server_uuid ≡ some active_uuid)
        × (not_positive input.horizon ≡ false)
        × (sub_duration input.now input.horizon ≡ some cutoff)
        × (((is_shared input ≡ true)
              × (plan_shared_history_retention active_uuid input.now cutoff input.lineages
                  ≡ some plan))
            ⊎ ((is_shared input ≡ false)
                × (active_has_full active_uuid input.lineages ≡ true)
                × (sweep_lineages active_uuid input.now cutoff input.lineages ≡ some plan))))

plan_from_cutoff_cases :
    (input : RetentionInput) (plan : RetentionPlan) (active_uuid : Str) (cutoff : ℕ)
    → plan_from_cutoff input active_uuid cutoff ≡ some plan
    → Inert plan
      ⊎ (((is_shared input ≡ true)
            × (plan_shared_history_retention active_uuid input.now cutoff input.lineages
                ≡ some plan))
          ⊎ ((is_shared input ≡ false)
              × (active_has_full active_uuid input.lineages ≡ true)
              × (sweep_lineages active_uuid input.now cutoff input.lineages ≡ some plan)))
unfolding plan_from_cutoff
plan_from_cutoff_cases input plan active_uuid cutoff h = elim (Bool-cases (is_shared input)) [
  | inl s ↦ inr (inl (s, rw s at h))
  | inr s ↦ elim (Bool-cases (active_has_full active_uuid input.lineages)) [
    | inl a ↦ inr (inr (s, a, rw (s, a) at h))
    | inr a ↦ inl (ground arith)
  ]
]

pub plan_retention-Planned :
    (input : RetentionInput) (plan : RetentionPlan)
    → plan_retention input ≡ some plan
    → Planned input plan
unfolding plan_retention plan_for_active
plan_retention-Planned input plan h = elim (Option-cases input.active_server_uuid) [
  | inl e ↦ inl (ground arith)
  | inr (a, e) ↦ elim (Bool-cases (not_positive input.horizon)) [
    | inl z ↦ inl (ground arith)
    | inr z ↦ elim (Option-cases (sub_duration input.now input.horizon)) [
      | inl n ↦ ground arith
      | inr (cutoff, n) ↦ elim (plan_from_cutoff_cases input plan a cutoff (ground arith)) [
        | inl i ↦ inl i
        | inr r ↦ inr (a, cutoff, e, z, n, r)
      ]
    ]
  ]
]

-- Nothing is deleted where no active lineage is established, where the horizon is not positive, or
-- where the histories are independent and the active lineage has no complete full.
pub plan_retention-Inert :
    (input : RetentionInput) (plan : RetentionPlan)
    → plan_retention input ≡ some plan
    → (input.active_server_uuid ≡ none)
      ⊎ ((not_positive input.horizon ≡ true)
          ⊎ ((a : Str) × (input.active_server_uuid ≡ some a)
              × (is_shared input ≡ false)
              × (active_has_full a input.lineages ≡ false)))
    → Inert plan
plan_retention-Inert input plan h guard = elim (plan_retention-Planned input plan h) [
  | inl i ↦ i
  | inr (a, cutoff, e, z, n, r) ↦ ground arith
]

last_total :
    (fulls : List FullBackupRef) → 0 < length fulls → (f : FullBackupRef) × (last fulls ≡ some f)
last_total [] h = absurd (omega arith)
last_total (x ∷ []) h = (x, refl)
last_total (x ∷ y ∷ r) h = last_total (y ∷ r) (omega arith)

-- Retention keeps a full wherever there is one, so `expect` never fails.
kept_last :
    (f : FullBackupRef) (fs : List FullBackupRef) (cutoff min_kept : ℕ)
    → (floor : FullBackupRef) × (last (fulls_to_keep (f ∷ fs) cutoff min_kept) ≡ some floor)
kept_last f fs cutoff min_kept =
    let enough = (fulls_to_keep_floor (f ∷ fs) cutoff min_kept).2 in
    last_total (fulls_to_keep (f ∷ fs) cutoff min_kept) (omega arith)

some_of_ne_none : (o : Option RetentionPlan) → o ≢ none → (p : RetentionPlan) × (o ≡ some p)
some_of_ne_none none h = absurd (h refl)
some_of_ne_none (some p) h = (p, refl)

sweep_kept-ne-none :
    (l : LineageObjects) (b : Bool) (cutoff : ℕ) (kept : List FullBackupRef) (floor : FullBackupRef)
    → last kept ≡ some floor
    → sweep_kept l b cutoff kept ≢ none
unfolding sweep_kept
sweep_kept-ne-none l b cutoff kept floor e h = ground arith

sweep_fulls_total :
    (l : LineageObjects) (b : Bool) (cutoff : ℕ) (fulls : List FullBackupRef)
    → l.fulls ≡ fulls
    → (p : RetentionPlan) × (sweep_fulls l b cutoff fulls ≡ some p)
unfolding sweep_fulls
sweep_fulls_total l b cutoff [] same = (_, refl)
sweep_fulls_total l b cutoff (f ∷ fs) same =
    let newest = newest_taken_at f.meta.taken_at fs in
    let min_kept : ℕ = if b then min_active_fulls_kept else 1 in
    elim (Bool-cases (not b && ltb newest cutoff)) [
      | inl dead ↦ (sweep_retired l newest, rw dead)
      | inr alive ↦
          let (floor, e) = kept_last f fs cutoff min_kept in
          rw alive (
            some_of_ne_none _ (
              sweep_kept-ne-none l b cutoff (fulls_to_keep l.fulls cutoff min_kept) floor
                (rw same e)))
    ]

sweep_lineages_total :
    (active_uuid : Str) (now cutoff : ℕ) (ls : List LineageObjects)
    → (p : RetentionPlan) × (sweep_lineages active_uuid now cutoff ls ≡ some p)
unfolding sweep_lineages sweep_lineage
sweep_lineages_total active_uuid now cutoff [] = (empty_plan, refl)
sweep_lineages_total active_uuid now cutoff (l ∷ ls) =
    let (p, e) = sweep_fulls_total l (str_eq l.server_uuid active_uuid) cutoff l.fulls refl in
    let (q, e') = sweep_lineages_total active_uuid now cutoff ls in
    (
      (record empty_plan { orphan_dump_keys = expired_orphans now l.orphan_dumps } then_push p)
          then_push q,
      ground arith,
    )

sweep_shared_fulls_total :
    (active_uuid : Str) (cutoff : ℕ) (ls : List LineageObjects) (fulls : List FullBackupRef)
    → sweep_shared_fulls active_uuid cutoff ls fulls ≢ none
unfolding sweep_shared_fulls
sweep_shared_fulls_total active_uuid cutoff ls [] h = cc
sweep_shared_fulls_total active_uuid cutoff ls (f ∷ fs) h =
    let (floor, e) = kept_last f fs cutoff min_active_fulls_kept in ground arith

plan_shared_total :
    (active_uuid : Str) (now cutoff : ℕ) (ls : List LineageObjects)
    → plan_shared_history_retention active_uuid now cutoff ls ≢ none
unfolding plan_shared_history_retention
plan_shared_total active_uuid now cutoff ls h = elim (Bool-cases (ltb 0 (length (unreadable ls)))) [
  | inl e ↦ ground arith
  | inr e ↦ ground (arith, sweep_shared_fulls_total active_uuid cutoff ls (all_fulls ls))
]

plan_from_cutoff_total :
    (input : RetentionInput) (active_uuid : Str) (cutoff : ℕ)
    → plan_from_cutoff input active_uuid cutoff ≢ none
unfolding plan_from_cutoff
plan_from_cutoff_total input active_uuid cutoff h =
    let (p, e) = sweep_lineages_total active_uuid input.now cutoff input.lineages in
    ground (arith, plan_shared_total active_uuid input.now cutoff input.lineages)

-- The planner returns a plan, with no panic, for every listing, if the horizon reaches back no
-- further than the earliest instant.
pub plan_retention_total :
    (input : RetentionInput) (h : ℕ)
    → input.horizon ≡ non_negative h
    → h ≤ input.now
    → (plan : RetentionPlan) × (plan_retention input ≡ some plan)
unfolding plan_retention plan_for_active
plan_retention_total input h e fits = some_of_ne_none (plan_retention input) (λ n.
    elim (Option-cases input.active_server_uuid) [
      | inl none_active ↦ ground arith
      | inr (a, active) ↦ ground (arith, plan_from_cutoff_total input a (input.now - h))
    ])
