-- ===== src/Examples/Group.antt =====
-- mysql-wrapper/src/gr.rs and sql.rs at concrete inputs: bootstrap, majority, waivers, adopted data.
use mysql_ha.Prelude.{
  ◌≤◌, ◌≡◌, refl, ◌≢◌, ◌↔◌, Bool, true, false, Option, none, some, List, [], ◌∷◌, leb, length, In,
  All, Str, codes,
}
use mysql_ha.Gr.State.{GrState, PeerAnswer, not_ready, Answers, MemberRow, is_live, rank_of}
use mysql_ha.Gr.Bootstrap.{
  behind, equal, PeerStanding, safe_to_bootstrap, peer_is_more_advanced, decide, Self, GtidCompare,
  classify_round, relation_of, relation_of_set, standings,
}
use mysql_ha.Gr.Bootstrap.Decide.{Outranked, decide-safe_iff}
use mysql_ha.Gr.Bootstrap.Agreement.{Swaps}
use mysql_ha.Gr.Majority.{
  force, is_reachable, reachable_count, answer_of, departures, blocked_by,
  majority_loss_recovery_verdict, role_is_writable_primary,
}
use mysql_ha.Gr.Majority.Departed.{ProvablyOut, majority_loss_recovery_force_iff}
use mysql_ha.Gr.Majority.Partition.{role_is_writable_primary_partition}
use mysql_ha.Gr.Gone.{
  gone, exists_or_unknown, Sighting, observed, reached, is_waived, sight, sight_all, observe,
  observe_reachable, or_insert, remove, get, new_tracker,
}
use mysql_ha.Gr.Answers.{
  refuse, adopted_data_verdict, group_pre_gtid_picture, find_map, block_size_to_adopt,
}
use mysql_ha.Gr.Answers.Adopted.{Denies, live_hosts, adopted_data_refuse_iff}

abbrev seeds : List Str
seeds = codes "mysql-1" ∷ codes "mysql-2" ∷ codes "mysql-3" ∷ []

abbrev pub idle_state : Str → GrState
idle_state gtid = record {
  group_active = false;
  member_state = some (codes "OFFLINE");
  member_role = none;
  gtid_executed = some gtid;
  members_total = 0;
  members_reachable = 0;
  pre_gtid_data = false;
  pre_gtid_data_unknown = false;
  server_uuid = none;
  group_name = some (codes "g");
  gtid_assignment_block_size = none;
  waiver_generation = 0;
}

-- A comparison in which the longer text is the larger set.
abbrev pub by_length : GtidCompare
by_length mine peer = some (leb (length peer) (length mine), leb (length mine) (length peer))

abbrev pair : Bool → Bool → Option (Bool × Bool)
pair x y = some (x, y)

swap_some : (x y p q : Bool) → pair x y ≡ pair p q → pair y x ≡ pair q p
swap_some x y p q h = cc

pub by_length-Swaps : Swaps by_length
by_length-Swaps a b p q h = swap_some (leb (length b) (length a)) (leb (length a) (length b)) p q h

abbrev pub node_1 : Self
node_1 = record { gtid = codes "u:1-50"; generation = 0; seed_rank = 0; pre_gtid = false }

abbrev node_2 : Self
node_2 = record { gtid = codes "u:1-9"; generation = 0; seed_rank = 1; pre_gtid = false }

abbrev round_1 : Answers
round_1 = (codes "mysql-2", PeerAnswer.state (idle_state (codes "u:1-9"))) ∷ []

abbrev round_2 : Answers
round_2 = (codes "mysql-1", PeerAnswer.state (idle_state (codes "u:1-50"))) ∷ []

node_1_bootstraps : classify_round by_length seeds node_1 round_1 ≡ some safe_to_bootstrap
unfolding classify_round standings relation_of relation_of_set decide rank_of
node_1_bootstraps = refl

node_2_yields :
    classify_round by_length seeds node_2 round_2 ≡ some (peer_is_more_advanced (codes "mysql-1"))
unfolding classify_round standings relation_of relation_of_set decide rank_of
node_2_yields = refl

abbrev two_peers : List PeerStanding
two_peers =
    record { host = codes "mysql-2"; seed_rank = 1; relation = behind }
    ∷ record { host = codes "mysql-3"; seed_rank = 2; relation = equal false }
    ∷ []

decide-safe_iff_example :
    (decide false 0 two_peers ≡ safe_to_bootstrap)
    ↔ All (λ p. Outranked false 0 p.seed_rank p.relation) two_peers
decide-safe_iff_example = decide-safe_iff false 0 two_peers

abbrev pub row : Str → Str → Str → MemberRow
row host s role = record { member_id = host; host = host; state = s; role = role }

abbrev pub survivor_view : List MemberRow
survivor_view =
    row (codes "mysql-1") (codes "ONLINE") (codes "PRIMARY")
    ∷ row (codes "mysql-2") (codes "UNREACHABLE") (codes "SECONDARY")
    ∷ []

abbrev survivor_answers : Answers
survivor_answers = (codes "mysql-2", PeerAnswer.state (idle_state (codes "u:1-9"))) ∷ []

survivor_forces :
    majority_loss_recovery_verdict (some (codes "g")) survivor_view survivor_answers ≡ force
unfolding majority_loss_recovery_verdict departures blocked_by
survivor_forces = refl

unanswered_holds : majority_loss_recovery_verdict (some (codes "g")) survivor_view [] ≢ force
unfolding majority_loss_recovery_verdict departures blocked_by
unanswered_holds h = cc

majority_loss_recovery_force_iff_example :
    (majority_loss_recovery_verdict (some (codes "g")) survivor_view survivor_answers ≡ force) ↔ (
      (2 ≤ length survivor_view)
      × (reachable_count survivor_view ≡ 1)
      × (n : Str) × (some (codes "g") ≡ some n)
      × ((m : MemberRow)
          → In m survivor_view
          → is_reachable m ≡ false
          → ProvablyOut n (answer_of survivor_answers m.host)))
majority_loss_recovery_force_iff_example =
    majority_loss_recovery_force_iff (some (codes "g")) survivor_view survivor_answers

abbrev majority_side : List MemberRow
majority_side =
    row (codes "a") (codes "ONLINE") (codes "PRIMARY")
    ∷ row (codes "b") (codes "ONLINE") (codes "SECONDARY")
    ∷ row (codes "c") (codes "UNREACHABLE") (codes "SECONDARY")
    ∷ []

abbrev minority_side : List MemberRow
minority_side =
    row (codes "a") (codes "UNREACHABLE") (codes "SECONDARY")
    ∷ row (codes "b") (codes "UNREACHABLE") (codes "SECONDARY")
    ∷ row (codes "c") (codes "ONLINE") (codes "PRIMARY")
    ∷ []

majority_side_writable : role_is_writable_primary majority_side (codes "A") ≡ true
unfolding role_is_writable_primary
majority_side_writable = refl

role_is_writable_primary_partition_example :
    role_is_writable_primary minority_side (codes "c") ≢ true
role_is_writable_primary_partition_example =
    role_is_writable_primary_partition majority_side minority_side (codes "A") (codes "c")
      (refl, refl, (refl, refl, (refl, refl, tt))) majority_side_writable

abbrev sightings : List Sighting
sightings =
    observed (codes "mysql-3") gone 5
    ∷ reached (codes "mysql-3")
    ∷ observed (codes "mysql-3") gone 40
    ∷ observed (codes "mysql-2") exists_or_unknown 50
    ∷ observed (codes "mysql-3") gone 70
    ∷ []

sightings_waive : is_waived (sight_all new_tracker sightings) (codes "mysql-3") 100 60 ≡ true
unfolding is_waived sight_all sight observe observe_reachable or_insert remove get
sightings_waive = refl

abbrev pub live_state : GrState
live_state = record {
  group_active = true;
  member_state = some (codes "ONLINE");
  member_role = some (codes "PRIMARY");
  gtid_executed = some (codes "u:1-9");
  members_total = 1;
  members_reachable = 1;
  pre_gtid_data = false;
  pre_gtid_data_unknown = false;
  server_uuid = none;
  group_name = some (codes "g");
  gtid_assignment_block_size = some 1;
  waiver_generation = 0;
}

abbrev live_round : Answers
live_round = (codes "mysql-1", PeerAnswer.state live_state) ∷ (codes "mysql-2", not_ready) ∷ []

adopted_data_refuse_iff_example :
    (adopted_data_verdict true false (group_pre_gtid_picture live_round)
      ≡ refuse (codes "mysql-1" ∷ []))
    ↔ (((host : Str) (answer : PeerAnswer)
          → In (host, answer) live_round
          → is_live answer ≡ true
          → Denies answer)
        × (live_hosts live_round ≡ codes "mysql-1" ∷ []))
adopted_data_refuse_iff_example = adopted_data_refuse_iff live_round (codes "mysql-1" ∷ [])

joiner_adopts : block_size_to_adopt (some 1000000) live_round ≡ some 1
unfolding block_size_to_adopt find_map
joiner_adopts = refl
