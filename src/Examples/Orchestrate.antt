-- ===== src/Examples/Orchestrate.antt =====
-- mysql-wrapper/src/gr.rs, `orchestrate`, at concrete inputs: one of two nodes as it starts, joins,
-- clones and bootstraps.
use mysql_ha.Prelude.{
  All, ℕ, ◌≡◌, refl, ◌⊎◌, Bool, true, false, none, some, List, [], ◌∷◌, arith, take, any, In, Str,
  codes, strip_prefix, is_str,
}
use mysql_ha.Gr.State.{GrState, PeerAnswer, Answers}
use mysql_ha.Gr.Gone.{gone}
use mysql_ha.Gr.Answers.{
  group_active_from, find_map, uuid_collision_peer, live_primary_gtid, group_pre_gtid_picture,
  picture_from, picture_step, adopted_data_verdict, block_size_to_adopt,
}
use mysql_ha.Gr.Orchestrate.Local.{
  Volume, Local, read_group_name_marker, persist_group_name, persist_waiver_generation,
  has_substring, has_been_group_member, pre_gtid_reading, reported, local_gr_state_of,
  local_gr_state, note_membership, later_max, pick_from, pick_donor, recovery_credential,
  current_recovery_credential, resolve_peer_block_sizes,
}
use mysql_ha.Gr.Orchestrate.Node.{OrchestrateConfig, Node, Pass, clone_from}
use mysql_ha.Gr.Orchestrate.Live.{
  on_collision, collision_stage, live_identity, adopt_name, adopt_stage, credential_of, on_compared,
  divergence_stage, adopted_stage, unknown_stage, clone_first_stage, on_block_size,
  block_size_stage, start_stage, been_member_now, size_stages, clone_stages, unknown_stages,
  data_stages, divergence_stages, name_stages, live_turn,
}
use mysql_ha.Gr.Orchestrate.Loop.{
  initial_node, been_member, outside_turn, on_local, turn, is_start, is_clone,
}
use mysql_ha.Gr.Orchestrate.Joining.{NotDiverged, BaseKept}
use mysql_ha.Gr.Orchestrate.Join.{AdoptedJoin, join_loses_nothing}
use mysql_ha.Gr.Orchestrate.Cloning.{HasDiverged, NeedsBase, clone_justified}
use mysql_ha.Gr.Orchestrate.Donor.{reports_primary}
use mysql_ha.Gr.Orchestrate.Startup.{
  Attempt, FenceAttempt, attempt_on, detect_adoption, on_detection, detect_on, detect,
  fence_attempts, set_fence, joins_loop, returned, exits_process, after_fence,
}
use mysql_ha.Gr.Orchestrate.Settled.{Settled, adoption-Settled, never_unfenced}
use mysql_ha.Examples.Group.{by_length}

abbrev pub pair_config : OrchestrateConfig
pair_config = record {
  seeds = codes "mysql-1" ∷ codes "mysql-2" ∷ [];
  private_domain = codes "mysql-1";
  pinned_name = none;
  dwell = 15;
  gone_dwell = 1800;
  replication_password = none;
  env_root_password = codes "edited";
  boot_password = codes "root";
}

abbrev pub outside : Local
outside = record {
  server_uuid = some (codes "1");
  members = some [];
  gtid = some (codes "u:1-9");
  group_pre_gtid_flag = some false;
  block_size = some 1;
  is_uuid = λ name. true;
}

abbrev pub pass_of : Answers → ℕ → Pass
pass_of answers now = record {
  healing = false;
  before = outside;
  answers = answers;
  name_of = λ host. gone;
  now = now;
  membership_gtid = some (codes "u:1-9");
  server_uuid = some (codes "1");
  removes_auto_cnf = true;
  sets_group_name = true;
  persists_name = true;
  persists_generation = true;
  notes_membership = true;
  executed_gtid_set = some (codes "u:1-9");
  gtid_compare = by_length;
  membership_gtid_again = some (codes "u:1-9");
  pin = some (codes "pinned");
  ask_block_size = λ host uuid group. none;
  local_block_size = some 1;
  sets_block_size = true;
  starts = true;
  after_start = outside;
  safe_at = now;
  elapsed_at = now;
  fresh_name = codes "fresh";
  bootstraps = true;
  promoted = true;
  sets_flag = λ attempt. true;
}

abbrev pub volume : Bool → Bool → Volume
volume pre_gtid member = record {
  name_marker = some (codes "u");
  generation = 0;
  pre_gtid = pre_gtid;
  member = member;
}

abbrev pub node : Bool → Bool → Node
node pre_gtid member = initial_node (volume pre_gtid member) (codes "u")

abbrev primary_with : Str → GrState
primary_with gtid = record {
  group_active = true;
  member_state = some (codes "ONLINE");
  member_role = some (codes "PRIMARY");
  gtid_executed = some gtid;
  members_total = 1;
  members_reachable = 1;
  pre_gtid_data = false;
  pre_gtid_data_unknown = false;
  server_uuid = some (codes "2");
  group_name = some (codes "w");
  gtid_assignment_block_size = some 1000;
  waiver_generation = 1;
}

abbrev led_by : Str → Answers
led_by gtid = (codes "mysql-2", PeerAnswer.state (primary_with gtid)) ∷ []

abbrev joining : Pass
joining = pass_of (led_by (codes "u:1-50")) 100

-- Data older than the GTIDs, in a node that has been no member: its transactions of its own get it
-- cloned all the same.
abbrev diverging : Pass
diverging = pass_of (led_by (codes "u:1")) 100

joining_starts : any is_start (turn pair_config joining (node false false)).deeds ≡ true
unfolding turn on_local local_gr_state local_gr_state_of reported group_active_from outside_turn
    been_member has_been_group_member has_substring strip_prefix live_turn collision_stage
    on_collision uuid_collision_peer find_map name_stages adopt_stage live_identity adopt_name
    persist_group_name persist_waiver_generation divergence_stages divergence_stage on_compared
    live_primary_gtid data_stages adopted_stage adopted_data_verdict group_pre_gtid_picture
    picture_from picture_step been_member_now unknown_stages unknown_stage clone_stages
    clone_first_stage size_stages block_size_stage resolve_peer_block_sizes block_size_to_adopt
    on_block_size start_stage note_membership pre_gtid_reading read_group_name_marker
joining_starts = refl

diverging_clones : any is_clone (turn pair_config diverging (node true false)).deeds ≡ true
unfolding turn on_local local_gr_state local_gr_state_of reported group_active_from outside_turn
    been_member has_been_group_member has_substring strip_prefix live_turn collision_stage
    on_collision uuid_collision_peer find_map name_stages adopt_stage live_identity adopt_name
    persist_group_name persist_waiver_generation divergence_stages divergence_stage on_compared
    live_primary_gtid pick_donor pick_from later_max current_recovery_credential recovery_credential
    note_membership pre_gtid_reading read_group_name_marker
diverging_clones = refl

join_loses_nothing_example :
    NotDiverged joining
    × AdoptedJoin joining
        (node false false)
        (been_member (node false false) joining)
        (turn pair_config joining (node false false)).node.group_name
    × BaseKept joining (node false false)
join_loses_nothing_example =
    join_loses_nothing pair_config joining (node false false) joining_starts

clone_justified_example :
    (HasDiverged diverging ⊎ NeedsBase diverging (node true false))
    × (donor : Str) × (s : GrState) × In
        (clone_from donor (credential_of pair_config diverging))
        (turn pair_config diverging (node true false)).deeds
    × In (donor, PeerAnswer.state s) diverging.answers
    × (s.group_active ≡ true)
    × (is_str s.member_role (codes "PRIMARY") ≡ any reports_primary diverging.answers)
clone_justified_example = clone_justified pair_config diverging (node true false) diverging_clones

abbrev detections : List Attempt
detections =
    record { gtid = none; persists = true }
    ∷ record { gtid = some []; persists = false }
    ∷ record { gtid = some []; persists = true }
    ∷ []

detections_settle : (detect false (volume false false) detections).adoption_checked ≡ true
unfolding detect detect_on detect_adoption attempt_on on_detection
detections_settle = refl

adoption-Settled_example :
    Settled false (volume false false) detections (detect false (volume false false) detections)
adoption-Settled_example = adoption-Settled false (volume false false) detections detections_settle

abbrev busy : List FenceAttempt
busy =
    record { succeeds = false; now = 50 }
    ∷ record { succeeds = false; now = 100 }
    ∷ record { succeeds = false; now = 150 }
    ∷ []

never_unfenced_example :
    ((after_fence (set_fence 180 0 busy) (true ∷ false ∷ []) ≡ joins_loop)
      × (any (λ a. a.succeeds) (take fence_attempts busy) ≡ true))
    ⊎ ((after_fence (set_fence 180 0 busy) (true ∷ false ∷ []) ≡ returned) × (true ≡ true))
    ⊎ ((after_fence (set_fence 180 0 busy) (true ∷ false ∷ []) ≡ exits_process)
        × All (λ answered. answered ≡ true) (true ∷ false ∷ []))
never_unfenced_example = never_unfenced 180 busy (true ∷ false ∷ []) (omega arith)
