-- ===== src/Archiver/Latch/Runs.antt =====
-- mysql-wrapper/src/archiver.rs: the latch admits one run at a time.
use mysql_ha.Prelude.{ℕ, ◌≡◌, refl, Bool, true, false, List, [], ◌∷◌}
use mysql_ha.Archiver.Latch.{
  LatchState, idle, queued, running, is_state, queue_full_backup, begin_requested_full_backup,
  begin_scheduled_full_backup, stop_archiving, Phase, waiting, begun, dumping, landed, World, Event,
  lose, ask, request, begin_requested, begin_scheduled, read_flag, land, give_up, settle, start,
  demote, restart, step, run, boot,
}

-- Whether the loop holds a `FullBackupRun`.
abbrev pub holds_run : Phase → Bool
holds_run waiting = false
holds_run begun = true
holds_run (dumping _ _) = true
holds_run (landed _ _) = false

abbrev pub is_running : World → Bool
is_running w = is_state w.status.full_backup_state running

-- The latch reads running exactly while the loop holds a run.
abbrev pub IsLatched : World → Type 0
IsLatched w = is_running w ≡ holds_run w.phase

-- A request changes the latch from idle to queued, or leaves it.
queue-latch :
    (gap configured archiving : Bool) (latch : LatchState) (reason : Bool)
    → is_state
        (queue_full_backup gap (record {
          archive_configured = configured;
          archiving = archiving;
          full_backup_state = latch;
          full_backup_gap_recovery = reason;
        })).0.full_backup_state
        running
      ≡ is_state latch running
unfolding queue_full_backup
queue-latch gap false archiving latch reason = refl
queue-latch gap true false latch reason = refl
queue-latch gap true true idle reason = refl
queue-latch gap true true queued reason = refl
queue-latch gap true true running reason = refl

IsLatched-begins :
    (e : Event) (c a : Bool) (latch : LatchState) (r g : Bool) (phase : Phase) (l n : ℕ)
    → is_state latch running ≡ holds_run phase
    → IsLatched (
        step e (record {
          status = record {
            archive_configured = c;
            archiving = a;
            full_backup_state = latch;
            full_backup_gap_recovery = r;
          };
          gap_anchor_pending = g;
          phase = phase;
          losses = l;
          anchored = n;
        }))
unfolding step begin_requested_full_backup begin_scheduled_full_backup stop_archiving
IsLatched-begins lose c a latch r g phase l n h = h
IsLatched-begins ask c a latch r false phase l n h = h
IsLatched-begins ask c a latch r true phase l n h = rw (queue-latch true c a latch r) h
IsLatched-begins request c a latch r g phase l n h = rw (queue-latch false c a latch r) h
IsLatched-begins begin_requested c a idle r g waiting l n h = h
IsLatched-begins begin_requested c a queued r g waiting l n h = refl
IsLatched-begins begin_requested c a running r g waiting l n h = h
IsLatched-begins begin_requested c a latch r g begun l n h = h
IsLatched-begins begin_requested c a latch r g (dumping b k) l n h = h
IsLatched-begins begin_requested c a latch r g (landed b k) l n h = h
IsLatched-begins begin_scheduled c a idle r g waiting l n h = refl
IsLatched-begins begin_scheduled c a queued r g waiting l n h = h
IsLatched-begins begin_scheduled c a running r g waiting l n h = h
IsLatched-begins begin_scheduled c a latch r g begun l n h = h
IsLatched-begins begin_scheduled c a latch r g (dumping b k) l n h = h
IsLatched-begins begin_scheduled c a latch r g (landed b k) l n h = h
IsLatched-begins read_flag c a latch r g waiting l n h = h
IsLatched-begins read_flag c a latch r g begun l n h = h
IsLatched-begins read_flag c a latch r g (dumping b k) l n h = h
IsLatched-begins read_flag c a latch r g (landed b k) l n h = h
IsLatched-begins land c a latch r g waiting l n h = h
IsLatched-begins land c a latch r g begun l n h = h
IsLatched-begins land c a latch r g (dumping b k) l n h = refl
IsLatched-begins land c a latch r g (landed b k) l n h = h
IsLatched-begins give_up c a latch r g waiting l n h = h
IsLatched-begins give_up c a latch r g begun l n h = h
IsLatched-begins give_up c a latch r g (dumping b k) l n h = refl
IsLatched-begins give_up c a latch r g (landed b k) l n h = h
IsLatched-begins (settle z) c a latch r g waiting l n h = h
IsLatched-begins (settle z) c a latch r g begun l n h = h
IsLatched-begins (settle z) c a latch r g (dumping b k) l n h = h
IsLatched-begins (settle z) c a latch r g (landed b k) l n h = h
IsLatched-begins start c a latch r g phase l n h = h
IsLatched-begins demote c a latch r g phase l n h = refl
IsLatched-begins restart c a latch r g phase l n h = refl

step-IsLatched : (e : Event) (w : World) → IsLatched w → IsLatched (step e w)
step-IsLatched e w h =
    let s = w.status in
    IsLatched-begins e s.archive_configured s.archiving s.full_backup_state
      s.full_backup_gap_recovery w.gap_anchor_pending w.phase w.losses w.anchored h

run-IsLatched : (events : List Event) (w : World) → IsLatched w → IsLatched (run events w)
unfolding run
run-IsLatched [] w h = h
run-IsLatched (e ∷ events) w h = run-IsLatched events (step e w) (step-IsLatched e w h)

-- Whatever happens since the volume was new, also when the archiver is stopped in the middle of a dump
-- and started again: the latch reads running exactly while the loop of full backups holds a run.
pub latch_tracks_run :
    (configured : Bool) (events : List Event) → IsLatched (run events (boot configured))
latch_tracks_run configured events = run-IsLatched events (boot configured) refl
