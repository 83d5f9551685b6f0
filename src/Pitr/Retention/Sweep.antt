-- ===== src/Pitr/Retention/Sweep.antt =====
-- mysql-wrapper/src/pitr.rs: what one lineage's sweep puts into the plan, by the lineage's case, and
-- how the plan of all lineages is made of theirs.
use mysql_ha.Prelude.{
  ℕ, ◌<◌, ◌≡◌, refl, ap, ◌⊎◌, inl, inr, Bool, true, false, not, ◌&&◌, Option, none, some, List, [],
  ◌∷◌, append-nil, arith, ltb, if◌then◌else◌, Bool-cases, Option-cases, length, last, filter, In,
  In-cons, In-filter, Str, str_eq, contains,
}
use mysql_ha.Pitr.Keys.{meta_key_for_dump}
use mysql_ha.Pitr.Binlog.{binlog_seq}
use mysql_ha.Pitr.Fulls.{FullBackupRef, fulls_to_keep}
use mysql_ha.Pitr.Retention.Types.{
  LineageObjects, RetentionPlan, empty_plan, ◌then_push◌, min_active_fulls_kept, expired_orphans,
  expired_keys, named, dump_keys,
}
use mysql_ha.Pitr.Retention.Lineage.{
  sweep_without_full, newest_taken_at, sweep_retired, is_below, sweep_binlogs, sweep_kept,
  sweep_fulls, sweep_lineage,
}

-- The instant of the newest full, none for a lineage without one.
abbrev pub newest_at : List FullBackupRef → Option ℕ
newest_at [] = none
newest_at (f ∷ fs) = some (newest_taken_at f.meta.taken_at fs)

-- A dead lineage whose fulls all lie before the cutoff.
abbrev pub IsRetired : Str → ℕ → LineageObjects → Type 0
IsRetired active_uuid cutoff l =
    (n : ℕ) × (str_eq l.server_uuid active_uuid ≡ false)
    × (newest_at l.fulls ≡ some n)
    × (n < cutoff)

abbrev pub min_kept_of : Str → LineageObjects → ℕ
min_kept_of active_uuid l = if str_eq l.server_uuid active_uuid then min_active_fulls_kept else 1

abbrev pub kept_of : Str → ℕ → LineageObjects → List FullBackupRef
kept_of active_uuid cutoff l = fulls_to_keep l.fulls cutoff (min_kept_of active_uuid l)

-- Where a lineage keeps fulls, `floor` being the oldest of them.
abbrev pub Keeps : Str → ℕ → LineageObjects → RetentionPlan → Type 0
Keeps active_uuid cutoff l p =
    (floor : FullBackupRef) × (last (kept_of active_uuid cutoff l) ≡ some floor)
    × (p.expired_full_keys
        ≡ expired_keys meta_key_for_dump (dump_keys (kept_of active_uuid cutoff l)) l.fulls)
    × ((name : Str)
        → In (l.server_uuid, name) p.expired_binlogs
        → (n : ℕ) × (binlog_seq floor.meta.binlog_file ≡ some n)
          × ((m : ℕ) → binlog_seq name ≡ some m → m < n))

-- Every plan of a lineage expires only its own binlogs, and is of one of three kinds.
abbrev pub Swept : Str → ℕ → LineageObjects → RetentionPlan → Type 0
Swept active_uuid cutoff l p =
    ((uuid name : Str) → In (uuid, name) p.expired_binlogs → uuid ≡ l.server_uuid)
    × (((l.fulls ≡ []) × (p.expired_full_keys ≡ []))
        ⊎ ((IsRetired active_uuid cutoff l
              × (p.expired_full_keys ≡ expired_keys meta_key_for_dump [] l.fulls))
            ⊎ Keeps active_uuid cutoff l p))

In-named :
    (own uuid name : Str) (names : List Str)
    → In (uuid, name) (named own names)
    → (uuid ≡ own) × In name names
In-named own uuid name [] m = elim m [ ]
In-named own uuid name (x ∷ names) m = elim (In-cons m) [
  | inl e ↦ (ap (λ p. p.0) e, rw (ap (λ p. p.1) e) In.here)
  | inr k ↦ let (e, j) = In-named own uuid name names k in (e, In.there j)
]

is_below-lt :
    (floor_seq : ℕ) (name : Str) (m : ℕ)
    → is_below floor_seq name ≡ true
    → binlog_seq name ≡ some m
    → m < floor_seq
unfolding is_below
is_below-lt floor_seq name m h e = ground arith

module _ (active_uuid : Str) (cutoff : ℕ) (l : LineageObjects) where
  sweep_without_full_own :
      (b : Bool) (uuid name : Str)
      → In (uuid, name) (sweep_without_full l b).expired_binlogs
      → uuid ≡ l.server_uuid
  unfolding sweep_without_full
  sweep_without_full_own b uuid name m = elim (Bool-cases (ltb 0 l.full_objects_seen)) [
    | inl e ↦ elim (rw e at m) [ ]
    | inr e ↦ elim (Bool-cases (not b && ltb 0 (length l.binlogs))) [
      | inl k ↦ (In-named l.server_uuid uuid name l.binlogs (rw (e, k) at m)).0
      | inr k ↦ elim (rw (e, k) at m) [ ]
    ]
  ]

  sweep_without_full_keys : (b : Bool) → (sweep_without_full l b).expired_full_keys ≡ []
  unfolding sweep_without_full
  sweep_without_full_keys b = ground arith

  sweep_binlogs_below :
      (b : Bool) (kept : ℕ) (floor : FullBackupRef) (n : ℕ) (uuid name : Str)
      → In (uuid, name) (sweep_binlogs l b kept floor n).expired_binlogs
      → (uuid ≡ l.server_uuid)
        × ((y : ℕ) × (binlog_seq floor.meta.binlog_file ≡ some y)
            × ((x : ℕ) → binlog_seq name ≡ some x → x < y))
  unfolding sweep_binlogs
  sweep_binlogs_below b kept floor n uuid name m =
      elim (Option-cases (binlog_seq floor.meta.binlog_file)) [
        | inl e ↦ elim (rw (e, sweep_binlogs) at m) [ ]
        | inr (s, e) ↦
            let (own, k) = In-named l.server_uuid uuid name _ (rw (e, sweep_binlogs) at m) in
            let (_, below) = In-filter (is_below s) l.binlogs k in
            (own, (s, e, λ x p. is_below-lt s name x below p))
      ]

  sweep_binlogs_keys :
      (b : Bool) (kept : ℕ) (floor : FullBackupRef) (n : ℕ)
      → (sweep_binlogs l b kept floor n).expired_full_keys ≡ []
  unfolding sweep_binlogs
  sweep_binlogs_keys b kept floor n = ground arith

  sweep_kept-some :
      (b : Bool) (kept : List FullBackupRef) (p : RetentionPlan)
      → sweep_kept l b cutoff kept ≡ some p
      → (floor : FullBackupRef) × (n : ℕ) × (last kept ≡ some floor)
        × (p.expired_full_keys ≡ expired_keys meta_key_for_dump (dump_keys kept) l.fulls)
        × (p.expired_binlogs ≡ (sweep_binlogs l b (length kept) floor n).expired_binlogs)
  unfolding sweep_kept
  sweep_kept-some b kept p h = elim (Option-cases (last kept)) [
    | inl e ↦ cc (let k : none ≡ some p = rw (e, sweep_kept) at h in k)
    | inr (floor, e) ↦
        let n = length (filter (λ f. not (contains (dump_keys kept) f.dump_key)) l.fulls) in
        (
          floor,
          n,
          e,
          ground (
            arith,
            sweep_binlogs_keys b (length kept) floor n,
            append-nil (expired_keys meta_key_for_dump (dump_keys kept) l.fulls),
          ),
          ground arith,
        )
  ]

module _ (active_uuid : Str) (now cutoff : ℕ) (l : LineageObjects) where
  sweep_fulls-Swept :
      (fulls : List FullBackupRef) (p : RetentionPlan)
      → l.fulls ≡ fulls
      → sweep_fulls l (str_eq l.server_uuid active_uuid) cutoff fulls ≡ some p
      → Swept active_uuid cutoff l p
  unfolding sweep_fulls
  sweep_fulls-Swept [] p e h =
      let b = str_eq l.server_uuid active_uuid in
      let same : sweep_without_full l b ≡ p = cc in
      rw (← same) (
        sweep_without_full_own active_uuid cutoff l b,
        inl (e, sweep_without_full_keys active_uuid cutoff l b),
      )
  sweep_fulls-Swept (f ∷ fs) p e h =
      let b = str_eq l.server_uuid active_uuid in
      let newest = newest_taken_at f.meta.taken_at fs in
      elim (Bool-cases (not b && ltb newest cutoff)) [
        | inl dead ↦
            let same : sweep_retired l newest ≡ p = ground arith in
            rw (← same) (
              unfold sweep_retired in
              (
                (λ uuid name m. (In-named l.server_uuid uuid name l.binlogs m).0),
                inr (inl ((newest, ground arith, rw e refl, ground arith), refl)),
              ))
        | inr alive ↦
            let (floor, n, oldest, keys, logs) =
              sweep_kept-some active_uuid cutoff l b (kept_of active_uuid cutoff l) p
                (rw alive at h) in
            (
              (λ uuid name m.
                  (sweep_binlogs_below active_uuid cutoff l b _ floor n uuid name
                    (rw logs at m)).0),
              inr (
                  inr (
                    floor,
                    oldest,
                    keys,
                    λ name m.
                        (sweep_binlogs_below active_uuid cutoff l b _ floor n l.server_uuid name
                          (rw logs at m)).1,
                  )),
            )
      ]

  pub sweep_lineage-Swept :
      (p : RetentionPlan)
      → sweep_lineage active_uuid now cutoff l ≡ some p
      → Swept active_uuid cutoff l p
  unfolding sweep_lineage
  sweep_lineage-Swept p h =
      elim (Option-cases (sweep_fulls l (str_eq l.server_uuid active_uuid) cutoff l.fulls)) [
        | inl e ↦ cc (let k : none ≡ some p = rw (e, sweep_lineage) at h in k)
        | inr (q, e) ↦
            let same : (record empty_plan { orphan_dump_keys = expired_orphans now l.orphan_dumps }
                  then_push q)
                ≡ p =
              ground arith in
            rw (← same) (sweep_fulls-Swept l.fulls q refl e)
      ]
