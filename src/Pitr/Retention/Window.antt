-- ===== src/Pitr/Retention/Window.antt =====
-- mysql-wrapper/src/pitr.rs: the restorability invariant of retention over independent histories. A
-- lineage that is not retired keeps, for each target inside the window, a full to restore from, and
-- every binlog from that full's coordinate on.
use mysql_ha.Prelude.{
  ℕ, ◌≤◌, ◌≡◌, refl, sym, ap, subst, inl, inr, false, some, List, [], arith, In, Str, str_eq,
  contains, str_eq_iff,
}
use mysql_ha.Pitr.Keys.{meta_key_for_dump}
use mysql_ha.Pitr.Binlog.{binlog_seq}
use mysql_ha.Pitr.Fulls.{FullBackupRef}
use mysql_ha.Pitr.Fulls.Restorable.{Qualifies}
use mysql_ha.Pitr.Fulls.Window.{fulls_to_keep_restorable, fulls_to_keep_floor}
use mysql_ha.Pitr.Retention.Types.{LineageObjects, RetentionPlan, expired_keys, dump_keys}
use mysql_ha.Pitr.Retention.Lineage.{sweep_lineage, sweep_lineages}
use mysql_ha.Pitr.Retention.Sweep.{
  IsRetired, Keeps, Swept, kept_of, min_kept_of, sweep_lineage-Swept,
}
use mysql_ha.Pitr.Retention.Oldest.{kept_oldest}
use mysql_ha.Pitr.Retention.Merge.{sweep_lineages-From, In-expired_keys, contains-dump_keys}

-- What the listing of an archive gives: a lineage is listed once, a dump's key names its lineage, no
-- sidecar's key is a dump's key, dumps with the same sidecar are the same, and a later full of a
-- lineage has no earlier coordinate.
pub record IsArchive (ls : List LineageObjects) : Type 0 where
  pub listed_once :
      (l m : LineageObjects) → In l ls → In m ls → l.server_uuid ≡ m.server_uuid → l ≡ m
  pub key_owner :
      (l m : LineageObjects) (f g : FullBackupRef)
      → In l ls
      → In m ls
      → In f l.fulls
      → In g m.fulls
      → f.dump_key ≡ g.dump_key
      → l ≡ m
  pub keys_apart :
      (l m : LineageObjects) (f g : FullBackupRef)
      → In l ls
      → In m ls
      → In f l.fulls
      → In g m.fulls
      → str_eq f.dump_key (meta_key_for_dump g.dump_key) ≡ false
  pub sidecar_owner :
      (l m : LineageObjects) (f g : FullBackupRef)
      → In l ls
      → In m ls
      → In f l.fulls
      → In g m.fulls
      → meta_key_for_dump f.dump_key ≡ meta_key_for_dump g.dump_key
      → f.dump_key ≡ g.dump_key
  pub coordinates :
      (l : LineageObjects) (f g : FullBackupRef) (m n : ℕ)
      → In l ls
      → In f l.fulls
      → In g l.fulls
      → f.meta.taken_at ≤ g.meta.taken_at
      → binlog_seq f.meta.binlog_file ≡ some m
      → binlog_seq g.meta.binlog_file ≡ some n
      → m ≤ n

-- After the sweep a restore can stand on `g`, its dump and its sidecar, and read on from its
-- coordinate.
abbrev pub Survives : RetentionPlan → LineageObjects → FullBackupRef → Type 0
Survives plan l g =
    (¬ In g.dump_key plan.expired_full_keys)
    × (¬ In (meta_key_for_dump g.dump_key) plan.expired_full_keys)
    × ((name : Str) (c n : ℕ)
        → binlog_seq g.meta.binlog_file ≡ some c
        → binlog_seq name ≡ some n
        → c ≤ n
        → ¬ In (l.server_uuid, name) plan.expired_binlogs)

module _ (active_uuid : Str) (now cutoff : ℕ) (ls : List LineageObjects) (plan : RetentionPlan)
    (archive : IsArchive ls) (h : sweep_lineages active_uuid now cutoff ls ≡ some plan)
    (l : LineageObjects) (listed : In l ls) (alive : ¬ IsRetired active_uuid cutoff l) where
  Keeps-of_full :
      (p : RetentionPlan) (f : FullBackupRef)
      → In f l.fulls
      → sweep_lineage active_uuid now cutoff l ≡ some p
      → Keeps active_uuid cutoff l p
  Keeps-of_full p f m e = elim (sweep_lineage-Swept active_uuid now cutoff l p e).1 [
    | inl (no_full, _) ↦ let k : In f [] = rw no_full at m in elim k [ ]
    | inr (inl (dead, _)) ↦ absurd (alive dead)
    | inr (inr k) ↦ k
  ]

  -- An expired key that is the dump key of a full of `l` was expired by the sweep of `l`.
  owned :
      (l' : LineageObjects) (g : FullBackupRef) (dumps : List Str)
      → In l' ls
      → In g l.fulls
      → In g.dump_key (expired_keys meta_key_for_dump dumps l'.fulls)
      → (l' ≡ l) × (contains dumps g.dump_key ≡ false)
  owned l' g dumps m' m i =
      let (f, mf, gone, which) = In-expired_keys meta_key_for_dump dumps g.dump_key l'.fulls i in
      elim which [
        | inl own ↦ (archive.key_owner l' l f g m' listed mf m (sym own), rw own gone)
        | inr sidecar ↦
            let apart = archive.keys_apart l l' g f listed m' m mf in
            absurd (cc (apart, (str_eq_iff g.dump_key (meta_key_for_dump f.dump_key)).1 sidecar))
      ]

  -- Nor is its sidecar's key expired by another sweep.
  sidecar-owned :
      (l' : LineageObjects) (g : FullBackupRef) (dumps : List Str)
      → In l' ls
      → In g l.fulls
      → In (meta_key_for_dump g.dump_key) (expired_keys meta_key_for_dump dumps l'.fulls)
      → (l' ≡ l) × (contains dumps g.dump_key ≡ false)
  sidecar-owned l' g dumps m' m i =
      let key = meta_key_for_dump g.dump_key in
      let (f, mf, gone, which) = In-expired_keys meta_key_for_dump dumps key l'.fulls i in
      elim which [
        | inl dump ↦
            let apart = archive.keys_apart l' l f g m' listed mf m in
            absurd (cc (apart, (str_eq_iff f.dump_key key).1 (sym dump)))
        | inr sidecar ↦
            let own = archive.sidecar_owner l' l f g m' listed mf m (sym sidecar) in
            (archive.key_owner l' l f g m' listed mf m own, rw (← own) gone)
      ]

  -- Only the sweep of `l` expires the key, and only where it does not keep `g`.
  abbrev OwnKey : FullBackupRef → Str → Type 0
  OwnKey g key =
      (l' : LineageObjects) (dumps : List Str)
      → In l' ls
      → In key (expired_keys meta_key_for_dump dumps l'.fulls)
      → (l' ≡ l) × (contains dumps g.dump_key ≡ false)

  Swept-not_expired :
      (l' : LineageObjects) (p : RetentionPlan) (g : FullBackupRef) (key : Str)
      → OwnKey g key
      → In l' ls
      → In g (kept_of active_uuid cutoff l)
      → Swept active_uuid cutoff l' p
      → ¬ In key p.expired_full_keys
  Swept-not_expired l' p g key own m' kept sw i = elim sw.1 [
    | inl (_, no_keys) ↦ let k : In key [] = rw no_keys at i in elim k [ ]
    | inr (inl (dead, keys)) ↦
        let (same, _) = own l' [] m' (rw keys at i) in
        alive (subst (IsRetired active_uuid cutoff) same dead)
    | inr (inr (floor, _, keys, _)) ↦
        let (same, gone) = own l' (dump_keys (kept_of active_uuid cutoff l')) m' (rw keys at i) in
        let here_kept = contains-dump_keys g (kept_of active_uuid cutoff l) kept in
        cc (ap (λ k. contains (dump_keys (kept_of active_uuid cutoff k)) g.dump_key) same)
  ]

  key_not_expired :
      (g : FullBackupRef) (key : Str)
      → OwnKey g key
      → In g (kept_of active_uuid cutoff l)
      → ¬ In key plan.expired_full_keys
  key_not_expired g key own kept i =
      let (l', p, m', e, j) =
        sweep_lineages-From active_uuid now cutoff (λ p. p.expired_full_keys) refl (λ p q. refl) key
          ls plan h i in
      Swept-not_expired l' p g key own m' kept (sweep_lineage-Swept active_uuid now cutoff l' p e) j

  binlog_not_expired :
      (f g : FullBackupRef) (name : Str) (c n : ℕ)
      → In g l.fulls
      → In g (kept_of active_uuid cutoff l)
      → binlog_seq g.meta.binlog_file ≡ some c
      → binlog_seq name ≡ some n
      → c ≤ n
      → ¬ In (l.server_uuid, name) plan.expired_binlogs
  binlog_not_expired f g name c n m kept pc pn le i =
      let (l', p, m', e, j) =
        sweep_lineages-From active_uuid now cutoff (λ p. p.expired_binlogs) refl (λ p q. refl)
          (l.server_uuid, name) ls plan h i in
      let own = (sweep_lineage-Swept active_uuid now cutoff l' p e).0 l.server_uuid name j in
      let same = archive.listed_once l' l m' listed (sym own) in
      let (floor, oldest, _, below) =
        Keeps-of_full p g m (subst (λ k. sweep_lineage active_uuid now cutoff k ≡ some p) same e) in
      let (inside, first_taken) =
        kept_oldest l.fulls cutoff (min_kept_of active_uuid l) g floor kept oldest in
      let (b, pb, lt) = below name j in
      let early = lt n pn in
      let order = archive.coordinates l floor g b c listed inside m first_taken pb pc in omega arith

  pub lineage_window :
      (target : ℕ) (f : FullBackupRef)
      → cutoff ≤ target
      → In f l.fulls
      → Qualifies target f
      → (g : FullBackupRef) × In g l.fulls
        × Qualifies target g
        × (f.meta.taken_at ≤ g.meta.taken_at)
        × Survives plan l g
  lineage_window target f le m q =
      let (g, kept, qg, newer) =
        fulls_to_keep_restorable l.fulls cutoff (min_kept_of active_uuid l) target f le m q in
      let inside = (fulls_to_keep_floor l.fulls cutoff (min_kept_of active_uuid l)).1 g kept in
      (
        g,
        inside,
        qg,
        newer,
        (
          key_not_expired g g.dump_key (λ l' dumps m' i. owned l' g dumps m' inside i) kept,
          key_not_expired g (meta_key_for_dump g.dump_key)
              (λ l' dumps m' i. sidecar-owned l' g dumps m' inside i) kept,
          λ name c n. binlog_not_expired f g name c n inside kept,
        ),
      )
