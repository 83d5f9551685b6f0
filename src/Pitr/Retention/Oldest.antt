-- ===== src/Pitr/Retention/Oldest.antt =====
-- mysql-wrapper/src/pitr.rs: the last of the fulls that a sweep keeps is the oldest of them.
use mysql_ha.Prelude.{
  ℕ, zero, suc, ◌≤◌, ◌≡◌, inl, inr, some, List, [], ◌∷◌, arith, take, last, In, In-cons, All-In,
  All-of_In, sort_by, IsSorted, sort_by-IsSorted, In-take,
}
use mysql_ha.Pitr.Fulls.{FullBackupRef, fulls_to_keep, newest_first}
use mysql_ha.Pitr.Fulls.Restorable.{newest_first-le}
use mysql_ha.Pitr.Fulls.Window.{fulls_to_keep_floor, newest_first-IsOrder, kept_bounds}

last_is_oldest :
    (fulls : List FullBackupRef) {g floor : FullBackupRef}
    → IsSorted newest_first fulls
    → In g fulls
    → last fulls ≡ some floor
    → floor.meta.taken_at ≤ g.meta.taken_at
last_is_oldest [] s m e = elim m [ ]
last_is_oldest (x ∷ []) {g} {floor} s m e = elim (In-cons m) [
  | inl same ↦ let last_one : x ≡ floor = ground arith in rw (← last_one, same) (omega arith)
  | inr k ↦ elim k [ ]
]
last_is_oldest (x ∷ y ∷ r) {g} {floor} s m e = elim (In-cons m) [
  | inl same ↦
      let oldest = last_is_oldest (y ∷ r) {g = y} {floor = floor} s.1 In.here e in
      let le = newest_first-le x y s.0.0 in rw same (omega arith)
  | inr k ↦ last_is_oldest (y ∷ r) s.1 k e
]

last-In :
    (fulls : List FullBackupRef) {floor : FullBackupRef} → last fulls ≡ some floor → In floor fulls
last-In [] e = cc
last-In (x ∷ []) {floor} e = let same : x ≡ floor = ground arith in rw same In.here
last-In (x ∷ y ∷ r) e = In.there (last-In (y ∷ r) e)

IsSorted-take :
    (n : ℕ) (fulls : List FullBackupRef)
    → IsSorted newest_first fulls
    → IsSorted newest_first (take n fulls)
IsSorted-take zero fulls s = tt
IsSorted-take (suc n) [] s = tt
IsSorted-take (suc n) (x ∷ xs) s =
    (All-of_In _ (take n xs) (λ a m. All-In _ xs s.0 (In-take n xs m)), IsSorted-take n xs s.1)

pub kept_oldest :
    (fulls : List FullBackupRef) (cutoff min_kept : ℕ) (g floor : FullBackupRef)
    → In g (fulls_to_keep fulls cutoff min_kept)
    → last (fulls_to_keep fulls cutoff min_kept) ≡ some floor
    → In floor fulls × (floor.meta.taken_at ≤ g.meta.taken_at)
kept_oldest fulls cutoff min_kept g floor m e =
    let (n, shape, _, _, _) = kept_bounds fulls cutoff min_kept in
    let order = sort_by-IsSorted newest_first fulls (newest_first-IsOrder fulls) in
    let inside = (fulls_to_keep_floor fulls cutoff min_kept).1 floor (last-In _ e) in
    (
      inside,
      last_is_oldest (take n (sort_by newest_first fulls)) (IsSorted-take n _ order) (rw shape at m)
          (rw shape at e),
    )
