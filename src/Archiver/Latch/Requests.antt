-- ===== src/Archiver/Latch/Requests.antt =====
-- mysql-wrapper/src/archiver.rs: a request of a full backup that was accepted is kept.
use mysql_ha.Prelude.{ℕ, ◌≡◌, refl, Bool, true, false, List, [], ◌∷◌, arith, all, subst, sym}
use mysql_ha.Archiver.Latch.{
  LatchState, idle, queued, running, accepted, is_state, queue_full_backup,
  begin_requested_full_backup, begin_scheduled_full_backup, Phase, waiting, begun, dumping, landed,
  World, Event, lose, ask, request, begin_requested, begin_scheduled, read_flag, land, give_up,
  settle, start, demote, restart, step, run, boot,
}
use mysql_ha.Archiver.Latch.Runs.{holds_run, IsLatched, latch_tracks_run}

-- What leaves a queued request in place.
abbrev pub keeps_request : Event → Bool
keeps_request begin_requested = false
keeps_request demote = false
keeps_request restart = false
keeps_request _ = true

-- A full is queued, and the loop holds no run.
abbrev pub IsQueued : World → Type 0
IsQueued w = (w.status.full_backup_state ≡ queued) × (holds_run w.phase ≡ false)

queued-keeps :
    (e : Event) (c a r g : Bool) (phase : Phase) (l n : ℕ)
    → keeps_request e ≡ true
    → holds_run phase ≡ false
    → IsQueued (
        step e (record {
          status = record {
            archive_configured = c;
            archiving = a;
            full_backup_state = queued;
            full_backup_gap_recovery = r;
          };
          gap_anchor_pending = g;
          phase = phase;
          losses = l;
          anchored = n;
        }))
unfolding step begin_scheduled_full_backup queue_full_backup
queued-keeps lose c a r g phase l n k h = (refl, h)
queued-keeps ask c a r false phase l n k h = (refl, h)
queued-keeps ask false a r true phase l n k h = (refl, h)
queued-keeps ask true false r true phase l n k h = (refl, h)
queued-keeps ask true true r true phase l n k h = (refl, h)
queued-keeps request false a r g phase l n k h = (refl, h)
queued-keeps request true false r g phase l n k h = (refl, h)
queued-keeps request true true r g phase l n k h = (refl, h)
queued-keeps begin_requested c a r g phase l n k h = cc
queued-keeps begin_scheduled c a r g waiting l n k h = (refl, refl)
queued-keeps begin_scheduled c a r g (landed b m) l n k h = (refl, refl)
queued-keeps read_flag c a r g waiting l n k h = (refl, refl)
queued-keeps read_flag c a r g (landed b m) l n k h = (refl, refl)
queued-keeps land c a r g waiting l n k h = (refl, refl)
queued-keeps land c a r g (landed b m) l n k h = (refl, refl)
queued-keeps give_up c a r g waiting l n k h = (refl, refl)
queued-keeps give_up c a r g (landed b m) l n k h = (refl, refl)
queued-keeps (settle z) c a r g waiting l n k h = (refl, refl)
queued-keeps (settle z) c a r g (landed b m) l n k h = (refl, refl)
queued-keeps start c a r g phase l n k h = (refl, h)
queued-keeps demote c a r g phase l n k h = cc
queued-keeps restart c a r g phase l n k h = cc
queued-keeps e c a r g begun l n k h = cc
queued-keeps e c a r g (dumping b m) l n k h = cc

step-IsQueued : (e : Event) (w : World) → keeps_request e ≡ true → IsQueued w → IsQueued (step e w)
step-IsQueued e w k (q, h) =
    let s = w.status in
    let kept =
      queued-keeps e s.archive_configured s.archiving s.full_backup_gap_recovery
        w.gap_anchor_pending w.phase w.losses w.anchored k h in
    subst
      (λ (latch : LatchState).
        IsQueued (step e (record w { status = record s { full_backup_state = latch } })))
      (sym q) kept

run-IsQueued :
    (events : List Event) (w : World)
    → all keeps_request events ≡ true
    → IsQueued w
    → IsQueued (run events w)
unfolding run
run-IsQueued [] w k h = h
run-IsQueued (e ∷ events) w k h =
    run-IsQueued events (step e w) (ground arith) (step-IsQueued e w (ground arith) h)

accepted_queues :
    (c a : Bool) (latch : LatchState) (r g : Bool) (phase : Phase) (l n : ℕ)
    → is_state latch running ≡ holds_run phase
    → (queue_full_backup false (record {
      archive_configured = c;
      archiving = a;
      full_backup_state = latch;
      full_backup_gap_recovery = r;
    })).1
      ≡ accepted
    → IsQueued (
        step request (record {
          status = record {
            archive_configured = c;
            archiving = a;
            full_backup_state = latch;
            full_backup_gap_recovery = r;
          };
          gap_anchor_pending = g;
          phase = phase;
          losses = l;
          anchored = n;
        }))
unfolding step queue_full_backup
accepted_queues false a latch r g phase l n h k = cc
accepted_queues true false latch r g phase l n h k = cc
accepted_queues true true idle r g phase l n h k = (refl, sym h)
accepted_queues true true queued r g phase l n h k = cc
accepted_queues true true running r g phase l n h k = cc

accepted-IsQueued :
    (w : World)
    → IsLatched w
    → (queue_full_backup false w.status).1 ≡ accepted
    → IsQueued (step request w)
accepted-IsQueued w h k =
    let s = w.status in
    accepted_queues s.archive_configured s.archiving s.full_backup_state s.full_backup_gap_recovery
      w.gap_anchor_pending w.phase w.losses w.anchored h k

queued_begins :
    (c a r g : Bool) (phase : Phase) (l n : ℕ)
    → holds_run phase ≡ false
    → (step begin_requested (
        step (settle true) (record {
          status = record {
            archive_configured = c;
            archiving = a;
            full_backup_state = queued;
            full_backup_gap_recovery = r;
          };
          gap_anchor_pending = g;
          phase = phase;
          losses = l;
          anchored = n;
        }))).phase
      ≡ begun
unfolding step begin_requested_full_backup
queued_begins c a r g waiting l n h = refl
queued_begins c a r g (landed b k) l n h = refl
queued_begins c a r g begun l n h = cc
queued_begins c a r g (dumping b k) l n h = cc

IsQueued-begins :
    (w : World) → IsQueued w → (step begin_requested (step (settle true) w)).phase ≡ begun
IsQueued-begins w (q, h) =
    let s = w.status in
    let begins =
      queued_begins s.archive_configured s.archiving s.full_backup_gap_recovery w.gap_anchor_pending
        w.phase w.losses w.anchored h in
    subst
      (λ (latch : LatchState).
        (step begin_requested
          (step (settle true) (record w { status = record s { full_backup_state = latch } }))).phase
        ≡ begun)
      (sym q) begins

-- A request that the endpoint accepts is not forgotten: after any later events but the begin of a
-- requested full, a demotion and a restart, a full is still queued, and once the loop has settled
-- what it was doing its next begin of a requested full begins one.
pub accepted_request_begins :
    (configured : Bool) (events later : List Event)
    → (queue_full_backup false (run events (boot configured)).status).1 ≡ accepted
    → all keeps_request later ≡ true
    → let w = run later (step request (run events (boot configured))) in
      (w.status.full_backup_state ≡ queued)
      × ((step begin_requested (step (settle true) w)).phase ≡ begun)
accepted_request_begins configured events later k keeps =
    let before = run events (boot configured) in
    let kept =
      run-IsQueued later (step request before) keeps
        (accepted-IsQueued before (latch_tracks_run configured events) k) in
    (kept.0, IsQueued-begins (run later (step request before)) kept)
