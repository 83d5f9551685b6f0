-- ===== src/Archiver/Ship/Purge.antt =====
-- mysql-wrapper/src/archiver.rs: what a shipping pass may let the server reclaim.
use mysql_ha.Prelude.{
  ℕ, ◌≤◌, ◌≡◌, refl, ◌⊎◌, inl, inr, Bool, true, false, Option, none, some, List, [], ◌∷◌, arith,
  Bool-cases, In, All, All-mono, Str, str_eq, contains, str_eq_iff, subst,
}
use mysql_ha.Pitr.Purge.{
  before, Reclaimable, ReclaimableOld, purge_cut_safe, purge_cut_retaining_recent_safe,
}
use mysql_ha.Archiver.Reclaim.{purge, reclaim_decision}
use mysql_ha.Archiver.Ship.{
  ArchiveMode, standalone, group_primary, UploadState, Pass, Shipping, Outcome, goes_on, failed,
  shipping_of, ship_once, cut_of, reclaim_of, gr_binlog_expire,
}
use mysql_ha.Archiver.Ship.Honest.{Within, IsHonest, ship_once-IsHonest}

reclaim_decision-purge :
    (o : Option Str) (held : Bool) {cut : Str}
    → reclaim_decision o held ≡ purge cut
    → (o ≡ some cut) × (held ≡ false)
unfolding reclaim_decision
reclaim_decision-purge none held e = cc
reclaim_decision-purge (some cut) true e = cc
reclaim_decision-purge (some cut) false e = (cc, refl)

In-contains : (names : List Str) (f : Str) → contains names f ≡ true → In f names
In-contains [] f e = cc
In-contains (x ∷ xs) f e = elim (Bool-cases (str_eq x f)) [
  | inl own ↦ subst (λ (y : Str). In y (x ∷ xs)) ((str_eq_iff x f).0 own) In.here
  | inr other ↦ In.there (In-contains xs f (ground arith))
]

-- A group primary keeps a file for the recovery window of a member that is away; a standalone
-- server does not.
abbrev pub IsPast : ArchiveMode → Option ℕ → Type 0
IsPast standalone age = Unit
IsPast group_primary age = (a : ℕ) × (age ≡ some a) × (gr_binlog_expire ≤ a)

-- What may be reclaimed: a file that is no longer written to, and that is recorded as lost or
-- whose upload has landed.
abbrev pub IsSpent : Pass → Shipping → Str → Type 0
IsSpent p s f =
    (str_eq f p.active ≡ false)
    × (In f s.memory.lost ⊎ (In f s.landed × IsPast p.mode (p.age_of f)))

standalone-IsSpent :
    (p : Pass) (s : Shipping) (f : Str)
    → p.mode ≡ standalone
    → IsHonest s
    → Reclaimable p.active s.memory.uploaded s.memory.lost f
    → IsSpent p s f
standalone-IsSpent p s f mode (honest, _) (closed, e) = (
  closed,
  elim (Bool-cases (contains s.memory.uploaded f)) [
    | inl up ↦ inr (honest f (In-contains s.memory.uploaded f up), rw mode tt)
    | inr not_up ↦ inl (In-contains s.memory.lost f (rw not_up at e))
  ],
)

group-IsSpent :
    (p : Pass) (s : Shipping) (f : Str)
    → p.mode ≡ group_primary
    → IsHonest s
    → ReclaimableOld p.active s.memory.uploaded s.memory.lost p.age_of gr_binlog_expire f
    → IsSpent p s f
group-IsSpent p s f mode (honest, _) (closed, inl lost) =
    (closed, inl (In-contains s.memory.lost f lost))
group-IsSpent p s f mode (honest, _) (closed, inr (up, old)) =
    (closed, inr (honest f (In-contains s.memory.uploaded f up), rw mode old))

mode-cases : (m : ArchiveMode) → (m ≡ standalone) ⊎ (m ≡ group_primary)
mode-cases standalone = inl refl
mode-cases group_primary = inr refl

cut_of_safe :
    (p : Pass) (s : Shipping) (cut : Str)
    → IsHonest s
    → cut_of p s.memory ≡ some cut
    → All (IsSpent p s) (before cut p.disk_files)
unfolding cut_of
cut_of_safe p s cut h e =
    let files = p.disk_files in
    let uploaded = s.memory.uploaded in
    let lost = s.memory.lost in
    elim (mode-cases p.mode) [
      | inl m ↦
          let (_, _, _, safe) = purge_cut_safe files p.active uploaded lost cut (rw m at e) in
          All-mono _ _ (before cut files) (λ f r. standalone-IsSpent p s f m h r) safe
      | inr m ↦
          let (_, _, safe) =
            purge_cut_retaining_recent_safe files p.active uploaded lost p.age_of gr_binlog_expire
              cut (rw m at e) in
          All-mono _ _ (before cut files) (λ f r. group-IsSpent p s f m h r) safe
    ]

reclaim_of_safe :
    (p : Pass) (o : Outcome) (cut : Str)
    → IsHonest (shipping_of o)
    → reclaim_of p o ≡ purge cut
    → (p.backup_lock_held ≡ false) × All (IsSpent p (shipping_of o)) (before cut p.disk_files)
unfolding reclaim_of
reclaim_of_safe p (failed s) cut h e = cc
reclaim_of_safe p (goes_on s) cut h e =
    let (found, held) =
      reclaim_decision-purge (cut_of p s.memory) p.backup_lock_held {cut = cut} e in
    (held, cut_of_safe p s cut h found)

-- When a shipping pass ends by asking the server to purge up to a file, no backup lock is held, and
-- each file that the server then reclaims is not the one written to, and is recorded as lost or its
-- upload has landed, perhaps in that very pass, provided that what the volume recorded as uploaded
-- before had landed. On a group primary such a file that is not recorded as lost was also last
-- modified at least the three days of `GR_BINLOG_EXPIRE` ago.
pub ship_once_purge_safe :
    (p : Pass) (volume : UploadState) (landed : List Str) (cut : Str)
    → Within volume.uploaded landed
    → reclaim_of p (ship_once p volume landed) ≡ purge cut
    → (p.backup_lock_held ≡ false)
      × All (IsSpent p (shipping_of (ship_once p volume landed))) (before cut p.disk_files)
ship_once_purge_safe p volume landed cut w e =
    reclaim_of_safe p (ship_once p volume landed) cut (ship_once-IsHonest p volume landed w) e
