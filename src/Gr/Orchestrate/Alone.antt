-- ===== src/Gr/Orchestrate/Alone.antt =====
-- mysql-wrapper/src/gr.rs, `orchestrate`: a node that sees a live group does not bootstrap one.
use mysql_ha.Prelude.{◌≡◌, refl, ap, ◌∙◌, inl, inr, Bool, true, false, none, Bool-cases, any}
use mysql_ha.Gr.Answers.{live_primary_gtid, adopted_data_verdict}
use mysql_ha.Gr.Orchestrate.Local.{pick_donor}
use mysql_ha.Gr.Orchestrate.Node.{OrchestrateConfig, Node, Pass}
use mysql_ha.Gr.Orchestrate.Live.{
  collision_stage, live_identity, adopt_stage, clone_deeds, credential_of, divergence_stage,
  adopted_stage, unknown_stage, clone_first_stage, gtid_now, been_member_now, picture_of, is_blank,
  size_stages, clone_stages, unknown_stages, data_stages, divergence_stages, name_stages, live_turn,
}
use mysql_ha.Gr.Orchestrate.Bootstrapping.{no_group_turn}
use mysql_ha.Gr.Orchestrate.Loop.{
  been_member, may_waive, group_seen, tracked, outside_turn, turn, is_bootstrap,
}
use mysql_ha.Gr.Orchestrate.Stages.{is_bootstrap-IsLate, collision_stage-quiet, adopt_stage-quiet}
use mysql_ha.Gr.Orchestrate.Guards.{
  divergence_stage-quiet, adopted_node, unknown_node, clone_first_stage-quiet,
}
use mysql_ha.Gr.Orchestrate.Reach.{then_do-quiet}
use mysql_ha.Gr.Orchestrate.Acts.{size_stages-quiet, turn-outside}

data_stages-quiet :
    (c : OrchestrateConfig) (r : Pass) (been : Bool) (n : Node)
    → any is_bootstrap (data_stages c r been n).deeds ≡ false
unfolding data_stages unknown_stages clone_stages
data_stages-quiet c r been n =
    then_do-quiet is_bootstrap
      (adopted_stage n
        (adopted_data_verdict n.volume.pre_gtid (been_member_now n r been) (picture_of r)))
      (unknown_stages c r) (ap (any is_bootstrap) (adopted_node n _).1)
      λ m.
        then_do-quiet is_bootstrap (unknown_stage m m.volume.pre_gtid (is_blank r) (picture_of r))
          (clone_stages c r)
          (ap (any is_bootstrap) (unknown_node m m.volume.pre_gtid (is_blank r) (picture_of r)).1)
          λ k.
            then_do-quiet is_bootstrap
              (clone_first_stage k (credential_of c r) (picture_of r).carries_pre_gtid_data
                k.volume.pre_gtid (is_blank r) (pick_donor r.answers))
              (size_stages r)
              (clone_first_stage-quiet is_bootstrap k (credential_of c r)
                (picture_of r).carries_pre_gtid_data k.volume.pre_gtid (is_blank r)
                (pick_donor r.answers) (λ d x. refl))
              (λ z. size_stages-quiet is_bootstrap r z (is_bootstrap-IsLate, refl, refl))

live_turn-quiet :
    (c : OrchestrateConfig) (r : Pass) (been : Bool) (n : Node)
    → any is_bootstrap (live_turn c r been n).deeds ≡ false
unfolding live_turn name_stages divergence_stages
live_turn-quiet c r been n =
    let cleared = record n { safe_since = none } in
    then_do-quiet is_bootstrap (collision_stage cleared r.removes_auto_cnf r.answers r.server_uuid)
      (name_stages c r been)
      (collision_stage-quiet is_bootstrap cleared r.removes_auto_cnf r.answers r.server_uuid
        is_bootstrap-IsLate)
      λ m.
        then_do-quiet is_bootstrap (adopt_stage m r c.pinned_name (live_identity r.answers))
          (divergence_stages c r been)
          (adopt_stage-quiet is_bootstrap m r c.pinned_name (live_identity r.answers)
            is_bootstrap-IsLate)
          λ k.
            then_do-quiet is_bootstrap
              (divergence_stage k r.gtid_compare
                (clone_deeds (pick_donor r.answers) (credential_of c r)) (gtid_now r)
                (live_primary_gtid r.answers))
              (data_stages c r been)
              (divergence_stage-quiet is_bootstrap k r.gtid_compare (pick_donor r.answers)
                (credential_of c r) (gtid_now r) (live_primary_gtid r.answers) (λ d x. refl))
              (data_stages-quiet c r been)

-- The node bootstraps in a turn without a live group.
pub turn-alone :
    (c : OrchestrateConfig) (r : Pass) (n : Node)
    → any is_bootstrap (turn c r n).deeds ≡ true
    → (group_seen r.answers ≡ false)
      × (turn c r n ≡ no_group_turn c r (may_waive n r) (tracked n r) r.executed_gtid_set)
unfolding outside_turn
turn-alone c r n h =
    let outside : turn c r n ≡ outside_turn c r n = turn-outside c r n is_bootstrap h in
    elim (Bool-cases (group_seen r.answers)) [
      | inr unseen ↦ (unseen, outside ∙ rw (unseen, outside_turn) refl)
      | inl seen ↦
          let quiet : any is_bootstrap (live_turn c r (been_member n r) (tracked n r)).deeds
              ≡ false =
            live_turn-quiet c r (been_member n r) (tracked n r) in
          let joined : outside_turn c r n ≡ live_turn c r (been_member n r) (tracked n r) =
            rw (seen, outside_turn) refl in
          cc
    ]
