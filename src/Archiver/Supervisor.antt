-- ===== src/Archiver/Supervisor.antt =====
-- mysql-wrapper/src/archiver.rs: `run_group_primary_supervisor`, which runs the archiver on a member of
-- a group while it is the writable primary, and owns mysqld's binlog expiry meanwhile.
pub mod Primary
pub mod Unowned
use mysql_ha.Prelude.{
  ℕ, Bool, true, false, not, ◌&&◌, Option, none, some, List, [], ◌∷◌, if◌then◌else◌, In.here,
  In.there, Str,
}
use mysql_ha.Gr.State.{MemberRow}
use mysql_ha.Gr.Majority.{role_is_writable_primary}
use mysql_ha.Archiver.Latch.{PitrStatus, new, drop_run, stop_archiving}

-- `GR_BINLOG_EXPIRE_SECONDS`.
abbrev pub gr_binlog_expire_seconds : ℕ
gr_binlog_expire_seconds = 259200

-- How a `SET GLOBAL` of the expiry ends: the server applies it and answers; it applies it, and the
-- answer does not come in time, which the caller takes for a failure; or it does not apply it.
pub data SetOutcome : Type 0 where
  applied applied_unanswered not_applied : SetOutcome

-- What one poll finds: whether the archiver that runs has set itself up and whether it has ended since
-- the poll before, the two readings of the group, the fence, and how a write of mysqld's expiry ends
-- (a poll writes it at most once).
pub record Poll : Type 0 where
  pub started : Bool
  pub finished : Bool
  pub server_uuid : Option Str
  pub group_members : Option (List MemberRow)
  pub membership_fenced : Bool
  pub set_outcome : SetOutcome

-- Whether there is a handle of a running archiver, whether the expiry was switched off, mysqld's
-- `binlog_expire_logs_seconds`, and the status that the archiver reports.
pub record Supervisor : Type 0 where
  pub running : Bool
  pub owns_expiry : Bool
  pub expire_logs_seconds : ℕ
  pub status : PitrStatus

unfoldable pub verdict_of : Poll → Option Bool
verdict_of p = elim p.server_uuid [
  | none ↦ none
  | some self_uuid ↦ elim p.group_members [
    | none ↦ none
    | some members ↦ some (role_is_writable_primary members self_uuid && not p.membership_fenced)
  ]
]

-- What the archiver itself does before the poll: it reports that it archives.
unfoldable pub note_started : Poll → Supervisor → Supervisor
note_started p s =
    if s.running && p.started then record s { status = record s.status { archiving = true } } else s

unfoldable pub reap : Poll → Supervisor → Supervisor
reap p s =
    if s.running && p.finished
    then record s { running = false; status = record s.status { archiving = false } }
    else s

-- The expiry is switched off, and the archiver runs however that ends.
start_archiver : SetOutcome → Supervisor → Supervisor
start_archiver applied s = record s { running = true; owns_expiry = true; expire_logs_seconds = 0 }
start_archiver applied_unanswered s = record s { running = true; expire_logs_seconds = 0 }
start_archiver not_applied s = record s { running = true }

unfoldable pub act : Option Bool → SetOutcome → Supervisor → Supervisor
unfolding start_archiver
act none set_outcome s = s
act (some true) set_outcome s = if s.running then s else start_archiver set_outcome s
act (some false) set_outcome s =
    if s.running
    then record s { running = false; status = stop_archiving (drop_run s.status) }
    else s

expire_again : SetOutcome → Supervisor → Supervisor
expire_again applied s = record s {
  owns_expiry = false;
  expire_logs_seconds = gr_binlog_expire_seconds;
}
expire_again applied_unanswered s = record s { expire_logs_seconds = gr_binlog_expire_seconds }
expire_again not_applied s = s

unfoldable pub hand_back : Option Bool → SetOutcome → Supervisor → Supervisor
unfolding expire_again
hand_back (some false) set_outcome s = if s.owns_expiry then expire_again set_outcome s else s
hand_back _ set_outcome s = s

unfoldable pub poll : Supervisor → Poll → Supervisor
poll s p =
    hand_back (verdict_of p) p.set_outcome
      (act (verdict_of p) p.set_outcome (reap p (note_started p s)))

-- The polls, the newest first, from the expiry of the configuration on.
unfoldable pub after_polls : ℕ → List Poll → Supervisor
after_polls configured_expiry [] = record {
  running = false;
  owns_expiry = false;
  expire_logs_seconds = configured_expiry;
  status = new true;
}
after_polls configured_expiry (p ∷ polls) = poll (after_polls configured_expiry polls) p
