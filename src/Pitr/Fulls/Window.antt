-- ===== src/Pitr/Fulls/Window.antt =====
-- mysql-wrapper/src/pitr.rs: the fulls that retention keeps (`fulls_to_keep`) serve every target
-- inside the window as well as all the fulls do, and never fall below the count floor.
use mysql_ha.Prelude.{
  ℕ, zero, suc, ◌+◌, ◌-◌, ◌≤◌, ◌<◌, min, max, ◌≡◌, refl, ◌⊎◌, inl, inr, Bool, false, ◌&&◌, List, [],
  ◌∷◌, arith, ltb, leb, if◌then◌else◌, Bool-cases, Option-cases, length, take, drop, get_elem?,
  filter, In, In-cons, All-In, length-filter-le, sort_by, IsSorted, In-sort_by, sort_by-In,
  length-sort_by, IsOrder, sort_by-IsSorted, IsSorted-split, In-drop, In-take_or_drop, In-take,
  length-take, drop_lt_length,
}
use mysql_ha.Pitr.Fulls.{
  FullBackupRef, newest_first, keep_count, boundary_at, needs_boundary, fulls_to_keep,
}
use mysql_ha.Pitr.Fulls.Restorable.{
  Qualifies, floor_to_millis-le, newest_first-connex, newest_first_trans, newest_first-le,
}

abbrev in_window : ℕ → FullBackupRef → Bool
in_window cutoff f = leb cutoff f.meta.taken_at

pub newest_first-IsOrder : (fulls : List FullBackupRef) → IsOrder newest_first fulls
newest_first-IsOrder fulls = record {
  connex = λ x y _ _. newest_first-connex x y;
  trans = λ x y z _ _ _. newest_first_trans x y z;
}

no_window :
    (fulls : List FullBackupRef) (cutoff : ℕ)
    → ((f : FullBackupRef) → In f fulls → f.meta.taken_at < cutoff)
    → length (filter (in_window cutoff) fulls) ≡ 0
no_window [] cutoff h = refl
no_window (f ∷ fs) cutoff h =
    let rest = no_window fs cutoff (λ g m. h g (In.there m)) in ground (arith, h f In.here)

-- Newest first, those inside the window come first.
drop_before_window :
    (n : ℕ) (sorted : List FullBackupRef) (cutoff : ℕ)
    → IsSorted newest_first sorted
    → length (filter (in_window cutoff) sorted) ≤ n
    → (f : FullBackupRef) → In f (drop n sorted)
    → f.meta.taken_at < cutoff
drop_before_window zero [] cutoff s h f m = elim m [ ]
drop_before_window (suc n) [] cutoff s h f m = elim m [ ]
drop_before_window zero (x ∷ xs) cutoff s h f m = elim (Bool-cases (in_window cutoff x)) [
  | inl e ↦
      absurd (let k : suc (length (filter (in_window cutoff) xs)) ≤ 0 = rw e at h in omega arith)
  | inr e ↦ elim (In-cons m) [
    | inl same ↦ rw same (ground arith)
    | inr k ↦ let le = newest_first-le x f (All-In _ xs s.0 k) in ground arith
  ]
]
drop_before_window (suc n) (x ∷ xs) cutoff s h f m = elim (Bool-cases (in_window cutoff x)) [
  | inl e ↦
      drop_before_window n xs cutoff s.1
        (let k : suc (length (filter (in_window cutoff) xs)) ≤ suc n = rw e at h in omega arith) f m
  | inr e ↦ let le = newest_first-le x f (All-In _ xs s.0 (In-drop n xs m)) in ground arith
]

-- A kept full that serves a target at or after the cutoff no worse than `f` does.
abbrev Served : List FullBackupRef → ℕ → FullBackupRef → Type 0
Served kept cutoff f =
    In f kept
    ⊎ ((g : FullBackupRef) × In g kept
        × (g.meta.taken_at ≤ cutoff)
        × (f.meta.taken_at ≤ g.meta.taken_at))

abbrev kept_count : List FullBackupRef → ℕ → ℕ → ℕ
kept_count sorted keep cutoff = if needs_boundary sorted keep cutoff then keep + 1 else keep

module _ (sorted : List FullBackupRef) (cutoff : ℕ) (s : IsSorted newest_first sorted) where
  boundary_serves :
      (keep : ℕ)
      → length (filter (in_window cutoff) sorted) ≤ keep
      → (f : FullBackupRef) → In f (drop (suc keep) sorted)
      → Served (take (suc keep) sorted) cutoff f
  boundary_serves keep h f m =
      let lt = drop_lt_length (suc keep) sorted m in
      let (g, e, early, at, later) = IsSorted-split newest_first sorted keep s (omega arith) in
      let old = drop_before_window keep sorted cutoff s h g at in
      inr (g, early, omega arith, newest_first-le g f (later f m))

  oldest_serves :
      (i : ℕ)
      → needs_boundary sorted (suc i) cutoff ≡ false
      → (f : FullBackupRef) → In f (drop (suc i) sorted)
      → Served (take (suc i) sorted) cutoff f
  unfolding boundary_at
  oldest_serves i b f m =
      let lt = drop_lt_length (suc i) sorted m in
      let (g, e, early, at, later) = IsSorted-split newest_first sorted i s (omega arith) in
      let same : suc i - 1 ≡ i = omega arith in
      let past : (ltb (suc i) (length sorted) && ltb cutoff g.meta.taken_at) ≡ false =
        rw (same, e) at b in
      inr (g, early, ground arith, newest_first-le g f (later f m))

  kept_serves :
      (keep : ℕ)
      → 0 < keep
      → length (filter (in_window cutoff) sorted) ≤ keep
      → (f : FullBackupRef) → In f sorted
      → Served (take (kept_count sorted keep cutoff) sorted) cutoff f
  kept_serves zero pos h f m = absurd (omega arith)
  kept_serves (suc i) pos h f m = elim (Bool-cases (needs_boundary sorted (suc i) cutoff)) [
    | inl b ↦
        let one : suc i + 1 ≡ suc (suc i) = omega arith in
        rw (b, one)
          (elim (In-take_or_drop (suc (suc i)) sorted m) [
            | inl k ↦ inl k
            | inr k ↦ boundary_serves (suc i) h f k
          ])
    | inr b ↦
        rw b (elim (In-take_or_drop (suc i) sorted m) [
          | inl k ↦ inl k
          | inr k ↦ oldest_serves i b f k
        ])
  ]

keep_count-le : (inside min_kept len : ℕ) → inside ≤ len → inside ≤ keep_count inside min_kept len
keep_count-le inside min_kept len h = omega arith

keep_count-pos : (inside min_kept len : ℕ) → 0 < len → 0 < keep_count inside min_kept len
keep_count-pos inside min_kept len h = omega arith

In-length : {f : FullBackupRef} (fulls : List FullBackupRef) → In f fulls → 0 < length fulls
In-length [] m = elim m [ ]
In-length (x ∷ xs) m = omega arith

fulls_to_keep-Served :
    (fulls : List FullBackupRef) (cutoff min_kept : ℕ) (f : FullBackupRef)
    → In f fulls
    → Served (fulls_to_keep fulls cutoff min_kept) cutoff f
unfolding fulls_to_keep
fulls_to_keep-Served fulls cutoff min_kept f m =
    let sorted = sort_by newest_first fulls in
    let inside = length (filter (in_window cutoff) sorted) in
    let listed = sort_by-In newest_first fulls m in
    kept_serves sorted cutoff (sort_by-IsSorted newest_first fulls (newest_first-IsOrder fulls))
      (keep_count inside min_kept (length sorted))
      (keep_count-pos inside min_kept (length sorted) (In-length sorted listed))
      (keep_count-le inside min_kept (length sorted) (length-filter-le (in_window cutoff) sorted)) f
      listed

-- Retention keeps the promise of the window: for each target at or after the cutoff and each full
-- that qualifies for it, a full that is kept qualifies too and was taken no earlier.
pub fulls_to_keep_restorable :
    (fulls : List FullBackupRef) (cutoff min_kept target : ℕ) (f : FullBackupRef)
    → cutoff ≤ target
    → In f fulls
    → Qualifies target f
    → (g : FullBackupRef) × In g (fulls_to_keep fulls cutoff min_kept)
      × Qualifies target g
      × (f.meta.taken_at ≤ g.meta.taken_at)
fulls_to_keep_restorable fulls cutoff min_kept target f h m q =
    elim (fulls_to_keep-Served fulls cutoff min_kept f m) [
      | inl k ↦ (f, k, q, omega arith)
      | inr (g, k, old, newer) ↦ (g, k, omega (arith, floor_to_millis-le g.meta.taken_at), newer)
    ]

kept_count_bounds :
    (sorted : List FullBackupRef) (keep cutoff : ℕ)
    → keep ≤ length sorted
    → (keep ≤ kept_count sorted keep cutoff) × (kept_count sorted keep cutoff ≤ length sorted)
unfolding boundary_at
kept_count_bounds sorted keep cutoff h = elim (Option-cases (get_elem? sorted (keep - 1))) [
  | inl e ↦ rw e (omega arith, h)
  | inr (g, e) ↦ rw e (ground arith)
]

pub kept_bounds :
    (fulls : List FullBackupRef) (cutoff min_kept : ℕ)
    → let sorted = sort_by newest_first fulls in
      (n : ℕ) × (fulls_to_keep fulls cutoff min_kept ≡ take n sorted)
      × (n ≤ length sorted)
      × (length (filter (in_window cutoff) sorted) ≤ n)
      × (min (max min_kept 1) (length sorted) ≤ n)
unfolding fulls_to_keep
kept_bounds fulls cutoff min_kept =
    let sorted = sort_by newest_first fulls in
    let inside = length (filter (in_window cutoff) sorted) in
    let keep = keep_count inside min_kept (length sorted) in
    let (low, high) = kept_count_bounds sorted keep cutoff (omega arith) in
    let fits = length-filter-le (in_window cutoff) sorted in
    (kept_count sorted keep cutoff, refl, high, omega arith, omega arith)

-- Retention keeps every full inside the window, and at least `min_kept` of them and at least one,
-- as far as there are so many; it keeps nothing that was not there.
pub fulls_to_keep_floor :
    (fulls : List FullBackupRef) (cutoff min_kept : ℕ)
    → ((f : FullBackupRef)
        → In f fulls
        → cutoff ≤ f.meta.taken_at
        → In f (fulls_to_keep fulls cutoff min_kept))
      × ((f : FullBackupRef) → In f (fulls_to_keep fulls cutoff min_kept) → In f fulls)
      × (min (max min_kept 1) (length fulls) ≤ length (fulls_to_keep fulls cutoff min_kept))
fulls_to_keep_floor fulls cutoff min_kept =
    let sorted = sort_by newest_first fulls in
    let (n, e, fits, inside, low) = kept_bounds fulls cutoff min_kept in
    let order = sort_by-IsSorted newest_first fulls (newest_first-IsOrder fulls) in
    rw e (
      (λ f m h. elim (In-take_or_drop n sorted (sort_by-In newest_first fulls m)) [
        | inl k ↦ k
        | inr k ↦
            let late = drop_before_window n sorted cutoff order inside f k in absurd (omega arith)
      ]),
      (λ f m. In-sort_by newest_first fulls (In-take n sorted m)),
      omega (arith, length-take n sorted fits, length-sort_by newest_first fulls),
    )
