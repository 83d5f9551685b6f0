-- ===== src/Examples/Archiver.antt =====
-- mysql-wrapper/src/archiver.rs at concrete inputs.
use mysql_ha.Prelude.{
  Bool, any, ◌⊎◌, arith, ℕ, ◌<◌, ◌≡◌, refl, true, false, none, some, List, [], ◌∷◌, ◌++◌, All, Str,
  codes,
}
use mysql_ha.Pitr.Binlog.{binlog_is_closed, binlog_seq}
use mysql_ha.Pitr.Purge.{before, purge_cut}
use mysql_ha.Gr.State.{MemberRow}
use mysql_ha.Gr.Majority.{role_is_writable_primary}
use mysql_ha.Archiver.Supervisor.{
  applied, applied_unanswered, Poll, verdict_of, note_started, reap, act, hand_back, poll,
  after_polls,
}
use mysql_ha.Archiver.Supervisor.Primary.{
  newest_verdict, is_lossy, archives_as_primary, demoted_expires,
}
use mysql_ha.Archiver.Supervisor.Unowned.{lost_answer_stays_off}
use mysql_ha.Archiver.Reclaim.{purge, reclaim_decision, DeferralCause, foreign, new_watch, resolved}
use mysql_ha.Archiver.Reclaim.Episode.{is_due, named_in, bit, watch_after, episode_names_once}
use mysql_ha.Archiver.Ship.{
  standalone, UploadState, Pass, shipping_of, reclaim_of, ship_once, ship_files, ship_file, upload,
  cut_of,
}
use mysql_ha.Archiver.Ship.Honest.{Within, IsHonest, ship_once-IsHonest}
use mysql_ha.Archiver.Ship.Purge.{IsSpent, ship_once_purge_safe}
use mysql_ha.Archiver.Latch.{
  begin_requested_full_backup, Event, lose, ask, request, begin_requested, begin_scheduled,
  read_flag, land, settle, start, step, run, boot, queued, begun, queue_full_backup,
}
use mysql_ha.Archiver.Latch.Runs.{IsLatched, latch_tracks_run}
use mysql_ha.Archiver.Latch.Requests.{accepted_request_begins}
use mysql_ha.Archiver.Latch.Gap.{
  forgetting, flag_clear_anchored, second_loss_forgotten, spares_dumps,
}

-- A lock held by another session for two passes.
abbrev foreign_pass : List (DeferralCause × ℕ)
foreign_pass = (foreign, 130) ∷ []

episode_names_once_example :
    (named_in 86400 new_watch ((foreign, 100) ∷ foreign_pass)
      ≡ bit (is_due 86400 100 0 ((foreign, 100) ∷ foreign_pass)))
    × ((resolved (watch_after 86400 new_watch ((foreign, 100) ∷ foreign_pass))).1
        ≡ is_due 86400 100 0 ((foreign, 100) ∷ foreign_pass))
episode_names_once_example = episode_names_once 86400 100 foreign foreign_pass

foreign_pass_named : named_in 86400 new_watch ((foreign, 100) ∷ foreign_pass) ≡ 1
unfolding named_in
foreign_pass_named = (episode_names_once 86400 100 foreign foreign_pass).0

-- Three binlogs, the first uploaded before and the last written to.
abbrev three_files : Pass
three_files = record {
  mode = standalone;
  disk_files = codes "binlog.000001" ∷ codes "binlog.000002" ∷ codes "binlog.000003" ∷ [];
  active = codes "binlog.000003";
  is_file = λ f. true;
  put_succeeds = λ f. true;
  write_succeeds = λ f. true;
  age_of = λ f. none;
  backup_lock_held = false;
}

abbrev first_uploaded : UploadState
first_uploaded = record {
  uploaded = codes "binlog.000001" ∷ [];
  lost = [];
  gap_anchor_pending = false;
}

abbrev first_landed : List Str
first_landed = codes "binlog.000001" ∷ []

first-Within : Within first_uploaded.uploaded first_landed
first-Within n m = m

ship_once-IsHonest_example :
    IsHonest (shipping_of (ship_once three_files first_uploaded first_landed))
ship_once-IsHonest_example = ship_once-IsHonest three_files first_uploaded first_landed first-Within

three_files-purge :
    reclaim_of three_files (ship_once three_files first_uploaded first_landed)
    ≡ purge (codes "binlog.000003")
unfolding reclaim_of ship_once ship_files ship_file upload cut_of purge_cut reclaim_decision
    binlog_is_closed binlog_seq
three_files-purge = refl

ship_once_purge_safe_example :
    (false ≡ false)
    × All
        (IsSpent three_files (shipping_of (ship_once three_files first_uploaded first_landed)))
        (before (codes "binlog.000003") three_files.disk_files)
ship_once_purge_safe_example =
    ship_once_purge_safe three_files first_uploaded first_landed (codes "binlog.000003")
      first-Within three_files-purge

-- A loss, and the dump that the archiver asks for.
abbrev gap_dump : List Event
gap_dump = start ∷ lose ∷ ask ∷ begin_requested ∷ read_flag ∷ []

latch_tracks_run_example : IsLatched (run gap_dump (boot true))
latch_tracks_run_example = latch_tracks_run true gap_dump

accepted_request_begins_example :
    let w = run (begin_scheduled ∷ lose ∷ []) (step request (run (start ∷ []) (boot true))) in
    (w.status.full_backup_state ≡ queued)
    × ((step begin_requested (step (settle true) w)).phase ≡ begun)
unfolding run step queue_full_backup
accepted_request_begins_example =
    accepted_request_begins true (start ∷ []) (begin_scheduled ∷ lose ∷ []) refl refl

flag_clear_anchored_example :
    (run (gap_dump ++ (land ∷ settle true ∷ [])) (boot true)).anchored
    ≡ (run (gap_dump ++ (land ∷ settle true ∷ [])) (boot true)).losses
unfolding run step spares_dumps queue_full_backup begin_requested_full_backup
flag_clear_anchored_example =
    flag_clear_anchored true (gap_dump ++ (land ∷ settle true ∷ [])) refl refl

second_loss_forgotten_example :
    let w = run forgetting (run gap_dump (boot true)) in
    (w.gap_anchor_pending ≡ false) × (w.anchored < w.losses)
unfolding run step spares_dumps queue_full_backup begin_requested_full_backup
second_loss_forgotten_example = second_loss_forgotten true gap_dump 1 refl refl

abbrev lone_primary : List MemberRow
lone_primary =
    record {
      member_id = codes "a";
      host = codes "a";
      state = codes "ONLINE";
      role = codes "PRIMARY";
    }
    ∷ []

abbrev poll_of : Bool → Poll
poll_of membership_fenced = record {
  started = true;
  finished = false;
  server_uuid = some (codes "a");
  group_members = some lone_primary;
  membership_fenced = membership_fenced;
  set_outcome = applied;
}

abbrev two_polls : List Poll
two_polls = poll_of false ∷ poll_of false ∷ []

two_polls_archive : (after_polls 259200 two_polls).status.archiving ≡ true
unfolding after_polls poll hand_back act reap note_started verdict_of role_is_writable_primary
two_polls_archive = refl

archives_as_primary_example :
    ((after_polls 259200 two_polls).status.archiving ≡ true → newest_verdict two_polls ≡ some true)
    × ((after_polls 259200 two_polls).expire_logs_seconds ≡ 0
        → ((after_polls 259200 two_polls).owns_expiry ≡ true) ⊎ (any is_lossy two_polls ≡ true))
archives_as_primary_example = archives_as_primary 259200 two_polls (omega arith)

demoted_expires_example : 0 < (after_polls 259200 (poll_of true ∷ two_polls)).expire_logs_seconds
unfolding verdict_of role_is_writable_primary
demoted_expires_example =
    demoted_expires 259200 two_polls (poll_of true) (omega arith) refl refl (λ e. cc)

abbrev lost_poll : Poll
lost_poll = record (poll_of false) { set_outcome = applied_unanswered }

lost_answer_stays_off_example :
    (after_polls 259200 (poll_of true ∷ lost_poll ∷ [])).expire_logs_seconds ≡ 0
unfolding verdict_of role_is_writable_primary after_polls
lost_answer_stays_off_example =
    lost_answer_stays_off 259200 [] (poll_of true ∷ []) lost_poll refl refl refl refl
      ((λ e. cc), tt)
