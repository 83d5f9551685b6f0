-- ===== src/Gr/Orchestrate/Live.antt =====
-- mysql-wrapper/src/gr.rs, `orchestrate`: a turn that sees a live group, stage by stage. A stage
-- either lets the turn go on or ends it (`continue`).
use mysql_ha.Prelude.{
  ℕ, Bool, true, false, not, ◌&&◌, ◌||◌, Option, none, some, List, [], ◌∷◌, ltb, if◌then◌else◌,
  is_some, is_none, unwrap_or, first, Str, codes, str_eq, is_empty, is_str,
}
use mysql_ha.Gr.State.{GrState, PeerAnswer, not_ready, unreachable, Answers}
use mysql_ha.Gr.Bootstrap.{GtidCompare}
use mysql_ha.Gr.Answers.{
  find_map, block_size_to_adopt, uuid_collision_peer, live_primary_gtid, GroupPreGtidPicture,
  group_pre_gtid_picture, AdoptedDataVerdict, not_applicable, group_carries_it, incomplete, refuse,
  adopted_data_verdict,
}
use mysql_ha.Gr.Orchestrate.Local.{
  Volume, persist_group_name, persist_waiver_generation, local_gr_state, note_membership,
  has_been_group_member, pick_donor, current_recovery_credential, resolve_peer_block_sizes,
}
use mysql_ha.Gr.Orchestrate.Node.{
  OrchestrateConfig, Node, Pass, Deed, Progress, go, stop, then_do, remove_auto_cnf,
  shutdown_server, start_group_replication, stop_group_replication, set_group_name, clone_from,
  set_block_size,
}

-- A live member with the uuid of this node: the identity is dropped and mysqld goes down.
unfoldable pub on_collision : Node → Bool → Option Str → Progress
on_collision n removes none = go n
on_collision n removes (some peer) =
    if removes
    then stop n (remove_auto_cnf ∷ shutdown_server ∷ [])
    else stop n (remove_auto_cnf ∷ [])

unfoldable pub collision_stage : Node → Bool → Answers → Option Str → Progress
collision_stage n removes answers none = stop n []
collision_stage n removes answers (some my_uuid) =
    on_collision n removes (uuid_collision_peer my_uuid answers)

abbrev pub identity_of : Option Str → ℕ → Option (Str × ℕ)
identity_of none generation = none
identity_of (some name) generation = some (name, generation)

abbrev pub live_name : Str × PeerAnswer → Option (Str × ℕ)
live_name (host, PeerAnswer.state s) =
    if s.group_active then identity_of s.group_name s.waiver_generation else none
live_name (host, not_ready) = none
live_name (host, unreachable) = none

unfoldable pub live_identity : Answers → Option (Str × ℕ)
live_identity answers = find_map live_name answers

abbrev pub raise_generation : Bool → ℕ → Volume → Volume
raise_generation succeeds generation v =
    if ltb v.generation generation then persist_waiver_generation succeeds generation v else v

-- The node takes the live group's name.
unfoldable pub adopt_name : Node → Pass → Str → ℕ → Progress
adopt_name n r name generation =
    if r.sets_group_name
    then record {
      node = record n {
        volume =
            raise_generation r.persists_generation generation
              (persist_group_name r.persists_name name n.volume);
        group_name = name;
      };
      deeds = set_group_name name ∷ [];
      goes_on = true;
    }
    else stop n (set_group_name name ∷ [])

unfoldable pub adopt_stage : Node → Pass → Option Str → Option (Str × ℕ) → Progress
adopt_stage n r pinned none = go n
adopt_stage n r pinned (some (name, generation)) =
    if str_eq name n.group_name
    then go n
    else if is_some pinned
    then stop n []
    else adopt_name n r name generation

abbrev pub clone_deeds : Option Str → Str → List Deed
clone_deeds none credential = []
clone_deeds (some donor) credential = clone_from donor credential ∷ []

abbrev pub credential_of : OrchestrateConfig → Pass → Str
credential_of c r =
    current_recovery_credential c.replication_password c.env_root_password r.pin c.boot_password

-- By the comparison of the own set with the primary's.
unfoldable pub on_compared : Node → List Deed → Option (Bool × Bool) → Progress
on_compared n clone none = stop n []
on_compared n clone (some (peer_sub_mine, true)) = go n
on_compared n clone (some (peer_sub_mine, false)) = stop n clone

-- The transactions that the live group lacks are discarded.
unfoldable pub divergence_stage : Node → GtidCompare → List Deed → Str → Option Str → Progress
divergence_stage n compare_sets clone mine none = go n
divergence_stage n compare_sets clone mine (some peer_gtid) =
    if is_empty mine then go n else on_compared n clone (compare_sets mine peer_gtid)

unfoldable pub adopted_stage : Node → AdoptedDataVerdict → Progress
adopted_stage n not_applicable = go n
adopted_stage n group_carries_it = go n
adopted_stage n (incomplete hosts) = stop n []
adopted_stage n (refuse hosts) = stop n []

-- The join is held while a live member cannot tell.
unfoldable pub unknown_stage : Node → Bool → Bool → GroupPreGtidPicture → Progress
unknown_stage n i_hold gtid_is_empty picture =
    if not i_hold
      && (gtid_is_empty
          && (not picture.carries_pre_gtid_data && not (is_none (first picture.unknown))))
    then stop n []
    else go n

unfoldable pub on_donor : Node → Str → Option Str → Progress
on_donor n credential none = go n
on_donor n credential (some donor) = stop n (clone_from donor credential ∷ [])

-- The group's data is older than its GTIDs: clone instead of joining.
unfoldable pub clone_first_stage : Node → Str → Bool → Bool → Bool → Option Str → Progress
clone_first_stage n credential group_has i_hold gtid_is_empty donor =
    if group_has && (not i_hold && gtid_is_empty) then on_donor n credential donor else go n

unfoldable pub on_block_size : Node → Bool → Option ℕ → Progress
on_block_size n sets none = go n
on_block_size n sets (some group) = record {
  node = n;
  deeds = set_block_size group ∷ [];
  goes_on = sets;
}

unfoldable pub block_size_stage : Node → Bool → Option ℕ → Option Answers → Progress
block_size_stage n sets mine none = stop n []
block_size_stage n sets mine (some answers) =
    on_block_size n sets (block_size_to_adopt mine answers)

abbrev pub is_recovering : Option GrState → Bool
is_recovering none = false
is_recovering (some s) = is_str s.member_state (codes "RECOVERING")

-- The join; a failed one is torn down where the plugin is left half-joined.
unfoldable pub start_stage : Node → Pass → Progress
start_stage n r =
    if r.starts
    then stop n (start_group_replication ∷ [])
    else stop
        (record n {
          volume =
              note_membership r.notes_membership (local_gr_state n.volume r.after_start) n.volume;
        })
        (start_group_replication
          ∷ (if is_recovering (local_gr_state n.volume r.after_start)
              then stop_group_replication ∷ []
              else []))

-- The set as the turn reads it: an unreadable one is taken as empty.
abbrev pub gtid_now : Pass → Str
gtid_now r = unwrap_or r.executed_gtid_set []

unfoldable pub been_member_now : Node → Pass → Bool → Bool
been_member_now n r been_member =
    been_member || has_been_group_member n.volume r.membership_gtid_again n.group_name

abbrev pub picture_of : Pass → GroupPreGtidPicture
picture_of r = group_pre_gtid_picture r.answers

abbrev pub is_blank : Pass → Bool
is_blank r = is_empty (gtid_now r)

-- The stages of a turn from the block size on, from the clone on, from the doubt about the group's
-- data on, and from the guard of adopted data on.
unfoldable pub size_stages : Pass → Node → Progress
size_stages r n =
    then_do
      (block_size_stage n r.sets_block_size r.local_block_size
        (resolve_peer_block_sizes r.ask_block_size r.answers))
      λ n1. start_stage n1 r

unfoldable pub clone_stages : OrchestrateConfig → Pass → Node → Progress
clone_stages c r n =
    then_do
      (clone_first_stage n (credential_of c r) (picture_of r).carries_pre_gtid_data
        n.volume.pre_gtid (is_blank r) (pick_donor r.answers))
      (size_stages r)

unfoldable pub unknown_stages : OrchestrateConfig → Pass → Node → Progress
unknown_stages c r n =
    then_do (unknown_stage n n.volume.pre_gtid (is_blank r) (picture_of r)) (clone_stages c r)

unfoldable pub data_stages : OrchestrateConfig → Pass → Bool → Node → Progress
data_stages c r been_member n =
    then_do
      (adopted_stage n
        (adopted_data_verdict n.volume.pre_gtid (been_member_now n r been_member) (picture_of r)))
      (unknown_stages c r)

unfoldable pub divergence_stages : OrchestrateConfig → Pass → Bool → Node → Progress
divergence_stages c r been_member n =
    then_do
      (divergence_stage n r.gtid_compare (clone_deeds (pick_donor r.answers) (credential_of c r))
        (gtid_now r) (live_primary_gtid r.answers))
      (data_stages c r been_member)

unfoldable pub name_stages : OrchestrateConfig → Pass → Bool → Node → Progress
name_stages c r been_member n =
    then_do (adopt_stage n r c.pinned_name (live_identity r.answers))
      (divergence_stages c r been_member)

unfoldable pub live_turn : OrchestrateConfig → Pass → Bool → Node → Progress
live_turn c r been_member n =
    then_do
      (collision_stage (record n { safe_since = none }) r.removes_auto_cnf r.answers r.server_uuid)
      (name_stages c r been_member)
