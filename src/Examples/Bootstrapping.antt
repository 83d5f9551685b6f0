-- ===== src/Examples/Bootstrapping.antt =====
-- mysql-wrapper/src/gr.rs, `orchestrate`, at concrete inputs: one of two nodes that bootstraps, alone
-- and beside the other.
use mysql_ha.Prelude.{
  ℕ, ◌+◌, ◌^◌, ◌<◌, ◌≡◌, refl, ◌⊎◌, true, false, some, List, [], ◌∷◌, arith, any, In, All, Str,
  codes, strip_prefix,
}
use mysql_ha.Gr.State.{rank_of, GrState, PeerAnswer, unreachable}
use mysql_ha.Gr.Bootstrap.{
  defer_to_peer, relation_of_set, decide, classify_round, relation_of, standings,
}
use mysql_ha.Gr.Gone.{
  observe_reachable, remove, Sighting, is_waived, sight, sight_all, observe, or_insert, get,
}
use mysql_ha.Gr.Answers.{group_active_from}
use mysql_ha.Gr.Orchestrate.Local.{
  Local, read_group_name_marker, persist_group_name, persist_waiver_generation, has_substring,
  has_been_group_member, pre_gtid_reading, reported, local_gr_state_of, local_gr_state,
  note_membership,
}
use mysql_ha.Gr.Orchestrate.Node.{OrchestrateConfig, Node, Pass}
use mysql_ha.Gr.Orchestrate.Bootstrapping.{
  track, any_waived, considered, peer_generations, next_generation, mint_identity, bootstrap_stage,
  safe_turn, on_verdict, no_group_turn, self_of,
}
use mysql_ha.Gr.Orchestrate.Loop.{
  initial_node, been_member, may_waive, tracked, outside_turn, on_local, turn, node_after,
  is_bootstrap,
}
use mysql_ha.Gr.Orchestrate.Generation.{Renamed, bootstrap_fences_fork}
use mysql_ha.Gr.Orchestrate.Standing.{ReadsSafe, SafeSince, bootstrap_waits_dwell}
use mysql_ha.Gr.Orchestrate.Fork.{DweltSince}
use mysql_ha.Gr.Orchestrate.Clocks.{Seen, HeardOrGone, bootstrap-HeardOrGone}
use mysql_ha.Gr.Orchestrate.Unique.{one_node_bootstraps}
use mysql_ha.Gr.Orchestrate.Deferral.{flagged_pair_defers}
use mysql_ha.Examples.Group.{by_length-Swaps}
use mysql_ha.Examples.Orchestrate.{pair_config, outside, pass_of, volume, node}

-- The other node stays away for good.
abbrev alone_at : ℕ → Pass
alone_at now = pass_of ((codes "mysql-2", unreachable) ∷ []) now

abbrev waited : List Pass
waited = alone_at 1900 ∷ alone_at 0 ∷ []

abbrev last_pass : Pass
last_pass = alone_at 2000

waited_bootstraps :
    any is_bootstrap
      (turn pair_config last_pass
        (node_after pair_config (initial_node (volume false true) (codes "u")) waited)).deeds
    ≡ true
unfolding turn on_local local_gr_state local_gr_state_of reported group_active_from outside_turn
    been_member may_waive has_been_group_member node_after note_membership pre_gtid_reading
    read_group_name_marker track sight_all sight observe or_insert get is_waived any_waived
    considered no_group_turn classify_round standings decide on_verdict safe_turn mint_identity
    persist_group_name persist_waiver_generation next_generation peer_generations bootstrap_stage
    relation_of
waited_bootstraps = refl

bootstrap_waits_dwell_example :
    ReadsSafe pair_config last_pass
      (node_after pair_config (initial_node (volume false true) (codes "u")) waited)
    × (((since : ℕ) × SafeSince pair_config
            (initial_node (volume false true) (codes "u"))
            waited
            since
          × DweltSince pair_config last_pass since)
        ⊎ DweltSince pair_config last_pass last_pass.safe_at)
bootstrap_waits_dwell_example =
    bootstrap_waits_dwell pair_config (volume false true) (codes "u") waited last_pass
      waited_bootstraps

bootstrap-HeardOrGone_example :
    (gtid : Str) × (last_pass.executed_gtid_set ≡ some gtid)
    × (xs : List Sighting) × Seen pair_config
        (initial_node (volume false true) (codes "u"))
        (last_pass ∷ waited)
        xs
    × All
        (HeardOrGone pair_config last_pass
          (node_after pair_config (initial_node (volume false true) (codes "u")) waited)
          gtid
          xs)
        last_pass.answers
bootstrap-HeardOrGone_example =
    bootstrap-HeardOrGone pair_config (volume false true) (codes "u") waited last_pass
      waited_bootstraps

abbrev waited_node : Node
waited_node = node_after pair_config (initial_node (volume false true) (codes "u")) waited

waited_unnumbered : waited_node.volume.generation ≡ 0
unfolding turn on_local local_gr_state local_gr_state_of reported group_active_from outside_turn
    been_member may_waive has_been_group_member node_after note_membership pre_gtid_reading
    read_group_name_marker track sight_all sight observe or_insert get is_waived any_waived
    considered no_group_turn classify_round standings decide on_verdict safe_turn mint_identity
    persist_group_name persist_waiver_generation next_generation peer_generations bootstrap_stage
    relation_of
waited_unnumbered = refl

waited_generation : waited_node.volume.generation + 1 < 2 ^ 64
waited_generation = omega (arith, waited_unnumbered)

bootstrap_fences_fork_example :
    (any_waived pair_config
          (tracked waited_node last_pass)
          last_pass
          (may_waive waited_node last_pass)
        ≡ false)
      × ((turn pair_config last_pass waited_node).node.group_name ≡ waited_node.group_name)
      × ((turn pair_config last_pass waited_node).node.volume ≡ waited_node.volume)
    ⊎ (any_waived pair_config
          (tracked waited_node last_pass)
          last_pass
          (may_waive waited_node last_pass)
        ≡ true)
      × Renamed last_pass waited_node (turn pair_config last_pass waited_node)
bootstrap_fences_fork_example =
    bootstrap_fences_fork pair_config last_pass waited_node waited_generation (omega arith, tt)
      waited_bootstraps

-- Both nodes without a group and with the same transactions, and no dwell.
abbrev second_config : OrchestrateConfig
second_config = record pair_config { private_domain = codes "mysql-2"; dwell = 0 }

abbrev first_config : OrchestrateConfig
first_config = record pair_config { dwell = 0 }

abbrev itself : Local → GrState
itself l = reported (volume false false) l (codes "1") [] (codes "u:1-9")

abbrev heard_from : Str → Local → Pass
heard_from host l = record (pass_of ((host, PeerAnswer.state (itself l)) ∷ []) 100) { before = l }

abbrev flagged : Local
flagged = record outside { group_pre_gtid_flag = some true }

reads_itself : local_gr_state (volume false false) outside ≡ some (itself outside)
unfolding local_gr_state local_gr_state_of
reads_itself = refl

reads_flag : local_gr_state (volume false false) flagged ≡ some (itself flagged)
unfolding local_gr_state local_gr_state_of
reads_flag = refl

first_bootstraps :
    any is_bootstrap
      (turn first_config (heard_from (codes "mysql-2") outside) (node false false)).deeds
    ≡ true
unfolding turn on_local local_gr_state local_gr_state_of reported group_active_from outside_turn
    been_member may_waive has_been_group_member has_substring strip_prefix note_membership
    pre_gtid_reading read_group_name_marker track sight_all sight observe_reachable remove
    any_waived considered no_group_turn classify_round standings decide on_verdict safe_turn
    mint_identity bootstrap_stage relation_of relation_of_set rank_of
first_bootstraps = refl

one_node_bootstraps_example :
    any is_bootstrap
      (turn second_config (heard_from (codes "mysql-1") outside) (node false false)).deeds
    ≡ false
unfolding rank_of
one_node_bootstraps_example =
    one_node_bootstraps first_config second_config (heard_from (codes "mysql-2") outside)
      (heard_from (codes "mysql-1") outside) (node false false) (node false false) (codes "u:1-9")
      (codes "u:1-9") (itself outside) (itself outside) refl refl by_length-Swaps (λ e. cc)
      (refl, refl, reads_itself) (refl, refl, reads_itself) In.here In.here first_bootstraps

flagged_pair_defers_example :
    (any is_bootstrap
        (turn first_config (heard_from (codes "mysql-2") flagged) (node false false)).deeds
      ≡ false)
    × (any is_bootstrap
          (turn second_config (heard_from (codes "mysql-1") flagged) (node false false)).deeds
        ≡ false)
    × (classify_round
          (heard_from (codes "mysql-2") flagged).gtid_compare
          first_config.seeds
          (self_of first_config (node false false) (codes "u:1-9"))
          ((codes "mysql-2", PeerAnswer.state (itself flagged)) ∷ [])
        ≡ some (defer_to_peer (codes "mysql-2")))
    × (classify_round
          (heard_from (codes "mysql-1") flagged).gtid_compare
          second_config.seeds
          (self_of second_config (node false false) (codes "u:1-9"))
          ((codes "mysql-1", PeerAnswer.state (itself flagged)) ∷ [])
        ≡ some (defer_to_peer (codes "mysql-1")))
unfolding reported group_active_from
flagged_pair_defers_example =
    flagged_pair_defers first_config second_config (heard_from (codes "mysql-2") flagged)
      (heard_from (codes "mysql-1") flagged) (node false false) (node false false) (codes "mysql-1")
      (codes "mysql-2") (codes "u:1-9") (codes "u:1-9") (itself flagged) (itself flagged)
      (refl, refl, refl, refl, reads_flag) (refl, refl, refl, refl, reads_flag) In.here In.here refl
      refl refl refl
