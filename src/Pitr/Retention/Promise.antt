-- ===== src/Pitr/Retention/Promise.antt =====
-- mysql-wrapper/src/pitr.rs: what `plan_retention` promises of targets inside the window.
use mysql_ha.Prelude.{ℕ, ◌≤◌, ◌≡◌, inl, inr, false, some, List, [], ◌∷◌, arith, In, Str}
use mysql_ha.Pitr.Fulls.{FullBackupRef}
use mysql_ha.Pitr.Fulls.Restorable.{Qualifies}
use mysql_ha.Pitr.Retention.Types.{LineageObjects, RetentionInput, RetentionPlan, sub_duration}
use mysql_ha.Pitr.Retention.Sweep.{IsRetired}
use mysql_ha.Pitr.Retention.Window.{IsArchive, Survives, lineage_window}
use mysql_ha.Pitr.Retention.Guards.{Inert, is_shared, plan_retention-Planned}
use mysql_ha.Pitr.Retention.Plan.{plan_retention}

not_In-nil {ℓ} : {A : Type ℓ} {x : A} (xs : List A) → xs ≡ [] → ¬ In x xs
not_In-nil [] e m = elim m [ ]
not_In-nil (y ∷ ys) e m = cc

Inert-Survives :
    (plan : RetentionPlan) (l : LineageObjects) (g : FullBackupRef) → Inert plan → Survives plan l g
Inert-Survives plan l g i = (
  not_In-nil plan.expired_full_keys i.0,
  not_In-nil plan.expired_full_keys i.0,
  λ name c n _ _ _. not_In-nil plan.expired_binlogs i.1,
)

-- The restorability invariant, for independent histories: for each lineage that is not retired (it
-- is the active one, or its newest full is not older than the cutoff), each target at or after the
-- cutoff and each full of the lineage that qualifies for it, some full of the lineage qualifies and
-- was taken no earlier, neither its dump nor its sidecar is expired, and no binlog of the lineage
-- from its coordinate on is expired. The listing is that of an archive: a lineage is listed once, a
-- dump's key names its lineage, no sidecar's key is a dump's key, dumps with the same sidecar key
-- have the same key, and a later full of a lineage has no earlier coordinate.
pub plan_retention_window :
    (input : RetentionInput) (plan : RetentionPlan) (active_uuid : Str) (cutoff : ℕ)
    (l : LineageObjects) (target : ℕ) (f : FullBackupRef)
    → IsArchive input.lineages
    → input.active_server_uuid ≡ some active_uuid
    → sub_duration input.now input.horizon ≡ some cutoff
    → is_shared input ≡ false
    → plan_retention input ≡ some plan
    → In l input.lineages
    → ¬ IsRetired active_uuid cutoff l
    → cutoff ≤ target
    → In f l.fulls
    → Qualifies target f
    → (g : FullBackupRef) × In g l.fulls
      × Qualifies target g
      × (f.meta.taken_at ≤ g.meta.taken_at)
      × Survives plan l g
plan_retention_window input plan active_uuid cutoff l target f archive active cut own h m alive le
      mf q =
    elim (plan_retention-Planned input plan h) [
      | inl i ↦ (f, mf, q, omega arith, Inert-Survives plan l f i)
      | inr (a, c, e, z, n, inl (s, _)) ↦ cc
      | inr (a, c, e, z, n, inr (s, has, swept)) ↦
          let same_a : a ≡ active_uuid = cc in
          let same_c : c ≡ cutoff = cc in
          lineage_window active_uuid input.now cutoff input.lineages plan archive
            (rw (← same_a, ← same_c) swept) l m alive target f le mf q
    ]
