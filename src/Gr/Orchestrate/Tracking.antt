-- ===== src/Gr/Orchestrate/Tracking.antt =====
-- mysql-wrapper/src/gr.rs, `orchestrate`: a turn that asks the peers moves their clocks by all that it
-- sees.
use mysql_ha.Prelude.{
  ℕ, ◌-◌, ◌≡◌, refl, inl, inr, Bool, true, false, Option, none, some, ltb, unwrap_or, Bool-cases,
  Str,
}
use mysql_ha.Gr.State.{Answers}
use mysql_ha.Gr.Gone.{GoneTracker}
use mysql_ha.Gr.Bootstrap.{
  BootstrapVerdict, join_existing_group, safe_to_bootstrap, undecidable, peer_is_more_advanced,
  defer_to_peer, diverged_from,
}
use mysql_ha.Gr.Orchestrate.Node.{OrchestrateConfig, Node, Pass}
use mysql_ha.Gr.Orchestrate.Bootstrapping.{
  track, any_waived, considered, mint_identity, bootstrap_stage, safe_turn, on_verdict,
  no_group_turn,
}
use mysql_ha.Gr.Orchestrate.Loop.{been_member, may_waive, group_seen, tracked, outside_turn}
use mysql_ha.Gr.Orchestrate.Waiting.{then_do-all}
use mysql_ha.Gr.Orchestrate.Dwell.{live_turn-waits}

abbrev pub HasClocks : GoneTracker → Node → Type 0
HasClocks tracker n = n.gone_tracker ≡ tracker

mint-clocks :
    (n : Node) (r : Pass) (waived : Bool) (answers : Answers)
    → HasClocks n.gone_tracker (mint_identity n r waived answers).node
unfolding mint_identity
mint-clocks n r false answers = refl
mint-clocks n r true answers = elim (Bool-cases r.sets_group_name) [
  | inl e ↦ rw e refl
  | inr e ↦ rw e refl
]

bootstrap-clocks :
    (tracker : GoneTracker) (r : Pass) (n : Node)
    → HasClocks tracker n
    → HasClocks tracker (bootstrap_stage n r).node
unfolding bootstrap_stage
bootstrap-clocks tracker r n e = elim (Bool-cases r.bootstraps) [
  | inl works ↦ rw works e
  | inr fails ↦ rw fails e
]

safe_turn-clocks :
    (c : OrchestrateConfig) (r : Pass) (waived : Bool) (answers : Answers) (n : Node) (since : ℕ)
    → HasClocks n.gone_tracker (safe_turn c r waived answers n since).node
unfolding safe_turn
safe_turn-clocks c r waived answers n since =
    let waiting = record n { safe_since = some since } in
    elim (Bool-cases (ltb (r.elapsed_at - since) c.dwell)) [
      | inl early ↦ rw (early, safe_turn) refl
      | inr late ↦
          rw (late, safe_turn)
            (then_do-all (HasClocks n.gone_tracker) (mint_identity waiting r waived answers)
              (λ n1. bootstrap_stage n1 r) (mint-clocks waiting r waived answers)
              (bootstrap-clocks n.gone_tracker r))
    ]

on_verdict-clocks :
    (c : OrchestrateConfig) (r : Pass) (waived : Bool) (answers : Answers) (n : Node)
    (o : Option BootstrapVerdict)
    → HasClocks n.gone_tracker (on_verdict c r waived answers n o).node
unfolding on_verdict
on_verdict-clocks c r waived answers n none = refl
on_verdict-clocks c r waived answers n (some safe_to_bootstrap) =
    safe_turn-clocks c r waived answers n (unwrap_or n.safe_since r.safe_at)
on_verdict-clocks c r waived answers n (some (peer_is_more_advanced host)) = refl
on_verdict-clocks c r waived answers n (some (defer_to_peer host)) = refl
on_verdict-clocks c r waived answers n (some (diverged_from host)) = refl
on_verdict-clocks c r waived answers n (some undecidable) = refl
on_verdict-clocks c r waived answers n (some join_existing_group) = refl

no_group-clocks :
    (c : OrchestrateConfig) (r : Pass) (may : Bool) (n : Node) (o : Option Str)
    → HasClocks n.gone_tracker (no_group_turn c r may n o).node
unfolding no_group_turn
no_group-clocks c r may n none = refl
no_group-clocks c r may n (some gtid) =
    on_verdict-clocks c r (any_waived c n r may) (considered c n r may) n _

pub outside-clocks :
    (c : OrchestrateConfig) (r : Pass) (n : Node)
    → HasClocks (track n.gone_tracker r) (outside_turn c r n).node
unfolding outside_turn
outside-clocks c r n = elim (Bool-cases (group_seen r.answers)) [
  | inl seen ↦ rw (seen, outside_turn) (live_turn-waits c r (been_member n r) (tracked n r)).1
  | inr unseen ↦
      rw (unseen, outside_turn)
        (no_group-clocks c r (may_waive n r) (tracked n r) r.executed_gtid_set)
]
