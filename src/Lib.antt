-- ===== src/Lib.antt =====
-- A model of the wrapper that runs mysqld in a replicated group with point-in-time recovery, and
-- theorems on what it decides.
--
-- The wrapper (mysql-wrapper/src) starts mysqld, forms or joins a Group Replication group with
-- its peers, fences a member that lost its majority, archives fulls and binlogs to object
-- storage, restores from them and expires old ones. The parts modelled are the decisions, pure
-- functions that the asynchronous loops around them call with what they observed, and those loops
-- that keep state: the start of a node up to its place in the group, the majority watch, a shipping pass of
-- the archiver, its latch of full backups and its supervisor. The archiver calls the ownership verdict, the purge cuts and the retention
-- plan; a restore calls the selection of a full and the replay plan; the orchestrator calls the
-- bootstrap decision, the guard of adopted data and the tracker of gone names; the majority watch
-- calls the recovery verdict; the health server calls the writability test; the boot calls the
-- heal gate.
--
-- Files, by the source they follow:
--   Prelude, Prelude/*      what the parts share: Boolean tests, lists, text, sorting
--   Pitr/Keys               mysql-wrapper/src/pitr.rs, the layout of an archive
--   Pitr/Binlog, Purge      pitr.rs, `binlog_seq` and its order, `purge_cut` and
--                           `purge_cut_retaining_recent`
--   Pitr/Head               pitr.rs, `parse_binlog_head`, `decode_gtid_set`
--   Pitr/Replay             pitr.rs, `binlogs_to_replay`, `binlog_runs_past_gap`
--   Pitr/Fulls              pitr.rs, `newest_qualifying_full`, `fulls_to_keep`
--   Pitr/Retention          pitr.rs, `plan_retention` and `plan_shared_history_retention`; the
--                           one long loop of each is a function for one lineage and a merge
--   Pitr/Ownership          pitr.rs, `archive_ownership_verdict`, and claims one after another
--   Gr/State                peers.rs, `GrState`, `PeerAnswer`; sql.rs, `MemberRow`; config.rs,
--                           `seed_rank`
--   Gr/Bootstrap            gr.rs, `classify_round`, `diverged_peer_wins`, `decide`
--   Gr/Majority             gr.rs, `majority_loss_recovery_verdict`, `membership_fence_wanted`;
--                           sql.rs, `role_is_writable_primary`
--   Gr/Watch                gr.rs, `majority_watch`: one turn of its loop on what the round found, and
--                           runs of rounds, the newest first
--   Gr/Gone                 gr.rs, `GoneTracker`
--   Gr/Orchestrate          gr.rs, `orchestrate`: Startup for the steps before the loop, Loop for a
--                           turn of it and runs of turns, the newest first, Node for what the loop
--                           keeps and a turn finds, Live for the turn that
--                           sees a live group, Bootstrapping for the one that sees none, and Local
--                           for the markers and `local_gr_state`, `pick_donor`,
--                           `resolve_peer_block_sizes`, `recovery_credential`
--   Gr/Answers              gr.rs, what is read off one round of answers
--   Archiver/Ship           mysql-wrapper/src/archiver.rs, `ship_once`, `reconcile_upload_state`
--   Archiver/Reclaim        archiver.rs, `reclaim_decision`, `ReclaimWatch`
--   Archiver/Latch          archiver.rs, the latch of `PitrStatus`, `full_backup_loop` and the gap
--                           flag, as a machine on events in any order
--   Archiver/Supervisor     archiver.rs, `run_group_primary_supervisor`: one poll, and runs of polls
--   Dns                     mysql-wrapper/src/dns_probe.rs, `encode_query`, `decode_rcode`
--   Health                  mysql-wrapper/src/health_server.rs, `role_verdict`, `role_reply`, `role`
--   Upgrade                 mysql-wrapper/src/finish_upgrade.rs, `decide`, `quote_identifier`
--   SelfHeal                mysql-wrapper/src/self_heal.rs, `HealLedger`, `heal_gate`
--   Examples                runs at concrete inputs and an instance of each theorem
-- The modules below one of these hold its proofs.
--
-- Conventions. A text is the list of its bytes. In the retention plans an instant is the number of
-- nanoseconds since the earliest instant that chrono holds, and a `chrono::Duration` carries its
-- sign; a subtraction of instants that chrono would refuse is `none` of the model, the panic of
-- the source. Elsewhere an instant is a number. A 64-bit sequence number keeps its bound in
-- `parse_u64` and its wrap where 1 is added to it. A set or a map is a list. A log line or the
-- text of a refusal is a value with the same content. What a step reads from mysqld, the bucket, a
-- peer or the volume, and whether a call of them succeeds, is an input of the step. Loops are
-- structural recursion on the list that the source iterates or on the count that it reads; the
-- search for the binlog's Previous_gtids event has the source's budget of four events, and
-- printing a number has as much fuel as the number, which has no more digits. A loop that retries
-- without a bound, or to a deadline, is run on the list of what its attempts find. The comparison
-- of two GTID sets belongs to mysqld and is a parameter; the theorem that needs a property of it
-- names the property. A write of the binlog expiry may fail although the server applied it, and a
-- wipe of the datadir may fail before or behind the marker that holds the attempts. Where a list is
-- sorted by a comparison that is a total order only on names with a sequence number, the theorems ask
-- for such names.
--
-- Not modelled: the wait for mysqld and the recovery account at the start of a node, the retention
-- and ownership passes of the archiver, the restore, statements sent to mysqld, object storage,
-- the other HTTP endpoints, DNS lookups, files and processes, haproxy, common, and the rendering
-- of instants as text, which the keys take as given.
pub mod Prelude
pub mod Pitr
pub mod Gr
pub mod Archiver
pub mod SelfHeal
pub mod Dns
pub mod Health
pub mod Upgrade
mod Examples
