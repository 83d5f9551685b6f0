-- ===== src/Archiver/Ship.antt =====
-- mysql-wrapper/src/archiver.rs: one shipping pass (`ship_once`), with the upload state on the volume
-- and its start-up check against the bucket (`reconcile_upload_state`). A set of names is a list.
-- That the pass asks for a full while the gap flag is set is an event of Archiver/Latch.
pub mod Honest
pub mod Purge
use mysql_ha.Prelude.{
  ℕ, ◌*◌, ◌^◌, Bool, true, not, ◌||◌, Option, none, some, List, [], ◌∷◌, if◌then◌else◌, last,
  filter, In.here, In.there, Str, str_eq, contains,
}
use mysql_ha.Pitr.Binlog.{binlog_is_closed}
use mysql_ha.Pitr.Purge.{purge_cut, purge_cut_retaining_recent}
use mysql_ha.Archiver.Reclaim.{Reclaim, nothing, reclaim_decision}

pub data ArchiveMode : Type 0 where
  standalone group_primary : ArchiveMode

pub record UploadState : Type 0 where
  pub uploaded : List Str
  pub lost : List Str
  pub gap_anchor_pending : Bool

abbrev pub insert_name : Str → List Str → List Str
insert_name name names = if contains names name then names else name ∷ names

abbrev pub remove_name : Str → List Str → List Str
remove_name name names = filter (λ n. not (str_eq n name)) names

-- What a pass finds and what succeeds in it: the index (sorted), the file written to, which files are
-- there, which uploads land and after which files the state can be written.
pub record Pass : Type 0 where
  pub mode : ArchiveMode
  pub disk_files : List Str
  pub active : Str
  pub is_file : Str → Bool
  pub put_succeeds : Str → Bool
  pub write_succeeds : Str → Bool
  pub age_of : Str → Option ℕ
  pub backup_lock_held : Bool

-- The state in memory and on the volume, the names whose upload has landed so far, and the newest
-- shipped name of `/pitr`.
pub record Shipping : Type 0 where
  pub memory : UploadState
  pub volume : UploadState
  pub landed : List Str
  pub last_shipped_binlog : Option Str

-- Whether the pass goes on; otherwise it returns its error.
pub data Outcome : Type 0 where
  goes_on failed : Shipping → Outcome

abbrev pub shipping_of : Outcome → Shipping
shipping_of (goes_on s) = s
shipping_of (failed s) = s

unfoldable pub record_lost : Pass → Shipping → Str → Outcome
record_lost p s name =
    let memory = record s.memory {
      lost = insert_name name s.memory.lost;
      gap_anchor_pending = true;
    } in
    if p.write_succeeds name
    then goes_on (record s { memory = memory; volume = memory })
    else failed (record s { memory = memory })

unfoldable pub upload : Pass → Shipping → Str → Outcome
upload p s name =
    let memory = record s.memory { uploaded = insert_name name s.memory.uploaded } in
    if not (p.put_succeeds name)
    then failed s
    else if p.write_succeeds name
    then goes_on (record {
      memory = memory;
      volume = memory;
      landed = name ∷ s.landed;
      last_shipped_binlog = some name;
    })
    else failed (record s { memory = memory; landed = name ∷ s.landed })

abbrev pub is_settled : Pass → UploadState → Str → Bool
is_settled p state name =
    not (binlog_is_closed name p.active) || contains state.uploaded name || contains state.lost name

-- One turn of the loop.
unfoldable pub ship_file : Pass → Shipping → Str → Outcome
ship_file p s name =
    if is_settled p s.memory name
    then goes_on s
    else if not (p.is_file name)
    then record_lost p s name
    else upload p s name

unfoldable pub ship_files : Pass → Shipping → List Str → Outcome
ship_files p s [] = goes_on s
ship_files p s (name ∷ names) = elim (ship_file p s name) [
  | goes_on next ↦ ship_files p next names
  | failed last ↦ failed last
]

abbrev pub gr_binlog_expire : ℕ
gr_binlog_expire = 259200 * 10 ^ 9

unfoldable pub cut_of : Pass → UploadState → Option Str
cut_of p state = elim p.mode [
  | standalone ↦ purge_cut p.disk_files p.active state.uploaded state.lost
  | group_primary ↦
      purge_cut_retaining_recent p.disk_files p.active state.uploaded state.lost p.age_of
        gr_binlog_expire
]

-- What the pass asks of mysqld once every file is settled.
unfoldable pub reclaim_of : Pass → Outcome → Reclaim
reclaim_of p (failed s) = nothing
reclaim_of p (goes_on s) = reclaim_decision (cut_of p s.memory) p.backup_lock_held

abbrev pub begin : UploadState → List Str → Shipping
begin volume landed = record {
  memory = volume;
  volume = volume;
  landed = landed;
  last_shipped_binlog = none;
}

unfoldable pub ship_once : Pass → UploadState → List Str → Outcome
ship_once p volume landed = ship_files p (begin volume landed) p.disk_files

-- After a purge: the names in front of the cut are dropped from the uploaded ones.
unfoldable pub forget_reclaimed : List Str → Str → UploadState → UploadState
forget_reclaimed [] cut state = state
forget_reclaimed (f ∷ files) cut state =
    let rest =
      forget_reclaimed files cut (record state { uploaded = remove_name f state.uploaded }) in
    if str_eq f cut then state else rest

-- The bucket's answer to a HEAD request: `none` is a failed one.
unfoldable pub reconcile : (Str → Option Bool) → UploadState → UploadState
reconcile exists state = record state {
  uploaded =
      filter (λ name. elim (exists name) [ none ↦ true | some there_ ↦ there_ ]) state.uploaded;
}
