-- ===== src/Archiver/Latch.antt =====
-- mysql-wrapper/src/archiver.rs: the latch of full backups in `PitrStatus`, the loop that takes them
-- (`full_backup_loop`), and the gap-anchor flag of the upload state. What happens is a list of events,
-- in any order: the tasks of the archiver run side by side.
pub mod Runs
pub mod Requests
pub mod Gap
pub mod NextKind
use mysql_ha.Prelude.{
  ℕ, ◌+◌, Bool, true, false, not, ◌&&◌, ◌||◌, Option, none, some, List, [], ◌∷◌, if◌then◌else◌,
}

-- `FULL_BACKUP_IDLE`, `FULL_BACKUP_QUEUED` and `FULL_BACKUP_RUNNING`.
pub data LatchState : Type 0 where
  idle queued running : LatchState

pub data Kind : Type 0 where
  initial scheduled triggered gap_recovery : Kind

-- The answer to a request: `Ok`, or which `Err`.
pub data Answer : Type 0 where
  accepted not_configured not_archiving already : Answer

pub record PitrStatus : Type 0 where
  pub archive_configured : Bool
  pub archiving : Bool
  pub full_backup_state : LatchState
  pub full_backup_gap_recovery : Bool

abbrev pub new : Bool → PitrStatus
new archive_configured = record {
  archive_configured = archive_configured;
  archiving = false;
  full_backup_state = idle;
  full_backup_gap_recovery = false;
}

abbrev pub is_state : LatchState → LatchState → Bool
is_state idle idle = true
is_state queued queued = true
is_state running running = true
is_state _ _ = false

-- `compare_exchange` on the latch, where it succeeds.
abbrev pub exchange : LatchState → LatchState → PitrStatus → Option PitrStatus
exchange current next s =
    if is_state s.full_backup_state current
    then some (record s { full_backup_state = next })
    else none

unfoldable pub queue_full_backup : Bool → PitrStatus → PitrStatus × Answer
queue_full_backup gap s =
    let reason = s.full_backup_gap_recovery || gap in
    if not s.archive_configured
    then (s, not_configured)
    else if not s.archiving
    then (s, not_archiving)
    else elim (exchange idle queued (record s { full_backup_gap_recovery = reason })) [
      | none ↦ (record s { full_backup_gap_recovery = reason }, already)
      | some s ↦ (s, accepted)
    ]

unfoldable pub begin_requested_full_backup : PitrStatus → Option (PitrStatus × Kind)
begin_requested_full_backup s = elim (exchange queued running s) [
  | none ↦ none
  | some s ↦ some (
    record s { full_backup_gap_recovery = false },
    if s.full_backup_gap_recovery then gap_recovery else triggered,
  )
]

unfoldable pub begin_scheduled_full_backup : PitrStatus → Option PitrStatus
begin_scheduled_full_backup s = exchange idle running s

-- `Drop` of a `FullBackupRun`.
abbrev pub drop_run : PitrStatus → PitrStatus
drop_run s = record s { full_backup_state = idle }

unfoldable pub stop_archiving : PitrStatus → PitrStatus
stop_archiving s = record s {
  full_backup_state = idle;
  full_backup_gap_recovery = false;
  archiving = false;
}

-- Where the loop of full backups stands: it waits for its next run, it holds a run and has not read
-- the gap flag yet, its dump runs with the flag read and the number of losses recorded when it
-- began, or its dump has landed and dropped its run.
pub data Phase : Type 0 where
  waiting begun : Phase
  dumping landed : Bool → ℕ → Phase

-- The status, the gap flag on the volume, the phase of the loop, and two counts that the code does not
-- keep: the losses recorded so far, and those recorded before the dump that landed last began.
pub record World : Type 0 where
  pub status : PitrStatus
  pub gap_anchor_pending : Bool
  pub phase : Phase
  pub losses : ℕ
  pub anchored : ℕ

-- What the tasks do. The shipping loop records a lost binlog (`lose`) and asks for a full while the flag
-- is set (`ask`), the endpoint requests one, the loop of full backups begins one that was requested or
-- is due, reads the flag, sees its dump end, and clears the flag, where the write may fail. The
-- supervisor starts and stops the archiver, and the wrapper restarts.
pub data Event : Type 0 where
  lose ask request begin_requested begin_scheduled read_flag land give_up : Event
  settle : Bool → Event
  start demote restart : Event

abbrev pub begin_run : Option PitrStatus → World → World
begin_run none w = w
begin_run (some s) w = record w { status = s; phase = begun }

abbrev pub requested_status : Option (PitrStatus × Kind) → Option PitrStatus
requested_status none = none
requested_status (some (s, kind)) = some s

unfoldable pub step : Event → World → World
step lose w = record w { gap_anchor_pending = true; losses = w.losses + 1 }
step ask w =
    if w.gap_anchor_pending then record w { status = (queue_full_backup true w.status).0 } else w
step request w = record w { status = (queue_full_backup false w.status).0 }
step begin_requested w = elim w.phase [
  | waiting ↦ begin_run (requested_status (begin_requested_full_backup w.status)) w
  | _ ↦ w
]
step begin_scheduled w = elim w.phase [
  | waiting ↦ begin_run (begin_scheduled_full_backup w.status) w
  | _ ↦ w
]
step read_flag w = elim w.phase [
  | begun ↦ record w { phase = dumping w.gap_anchor_pending w.losses }
  | _ ↦ w
]
step land w = elim w.phase [
  | dumping anchors seen ↦ record w {
    status = drop_run w.status;
    phase = landed anchors seen;
    anchored = seen;
  }
  | _ ↦ w
]
step give_up w = elim w.phase [
  | dumping anchors seen ↦ record w { status = drop_run w.status; phase = waiting }
  | _ ↦ w
]
step (settle written) w = elim w.phase [
  | landed anchors seen ↦ record w {
    gap_anchor_pending = w.gap_anchor_pending && not (anchors && written);
    phase = waiting;
  }
  | _ ↦ w
]
step start w = record w { status = record w.status { archiving = true } }
step demote w = record w { status = stop_archiving (drop_run w.status); phase = waiting }
step restart w = record w { status = new w.status.archive_configured; phase = waiting }

unfoldable pub run : List Event → World → World
run [] w = w
run (e ∷ events) w = run events (step e w)

-- A fresh volume.
abbrev pub boot : Bool → World
boot archive_configured = record {
  status = new archive_configured;
  gap_anchor_pending = false;
  phase = waiting;
  losses = 0;
  anchored = 0;
}
