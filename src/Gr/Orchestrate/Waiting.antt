-- ===== src/Gr/Orchestrate/Waiting.antt =====
-- mysql-wrapper/src/gr.rs, `orchestrate`: what a turn that sees no live group leaves of the wait for
-- a bootstrap.
use mysql_ha.Prelude.{
  ℕ, ◌-◌, ◌≡◌, refl, sym, ◌∙◌, ◌⊎◌, inl, inr, Bool, true, false, Option, none, some, List, ltb,
  unwrap_or, Bool-cases,
}
use mysql_ha.Gr.State.{Answers}
use mysql_ha.Gr.Bootstrap.{
  BootstrapVerdict, join_existing_group, safe_to_bootstrap, undecidable, peer_is_more_advanced,
  defer_to_peer, diverged_from,
}
use mysql_ha.Gr.Orchestrate.Node.{OrchestrateConfig, Node, Pass, Deed, Progress, then_do}
use mysql_ha.Gr.Orchestrate.Bootstrapping.{mint_identity, bootstrap_stage, safe_turn, on_verdict}
use mysql_ha.Gr.Orchestrate.Stages.{progress}

-- The node waits since the instant, or not at all.
abbrev WaitsSince : ℕ → Node → Type 0
WaitsSince since n = (n.safe_since ≡ some since) ⊎ (n.safe_since ≡ none)

then_do-all_at :
    (P : Node → Type 0) (n : Node) (deeds : List Deed) (goes_on : Bool) (next : Node → Progress)
    → P n
    → ((m : Node) → P m → P (next m).node)
    → P (then_do (progress n deeds goes_on) next).node
then_do-all_at P n deeds true next h k = k n h
then_do-all_at P n deeds false next h k = h

pub then_do-all :
    (P : Node → Type 0) (q : Progress) (next : Node → Progress)
    → P q.node
    → ((m : Node) → P m → P (next m).node)
    → P (then_do q next).node
then_do-all P q next h k = then_do-all_at P q.node q.deeds q.goes_on next h k

mint-waits :
    (since : ℕ) (n : Node) (r : Pass) (waived : Bool) (answers : Answers)
    → n.safe_since ≡ some since
    → WaitsSince since (mint_identity n r waived answers).node
unfolding mint_identity
mint-waits since n r false answers e = inl e
mint-waits since n r true answers e = elim (Bool-cases r.sets_group_name) [
  | inl sets ↦ rw sets (inl e)
  | inr fails ↦ rw fails (inr refl)
]

bootstrap-waits :
    (since : ℕ) (r : Pass) (n : Node)
    → WaitsSince since n
    → WaitsSince since (bootstrap_stage n r).node
unfolding bootstrap_stage
bootstrap-waits since r n w = elim (Bool-cases r.bootstraps) [
  | inl works ↦ rw works w
  | inr fails ↦ rw fails (inr refl)
]

safe_turn-waits :
    (c : OrchestrateConfig) (r : Pass) (waived : Bool) (answers : Answers) (n : Node) (since : ℕ)
    → WaitsSince since (safe_turn c r waived answers n since).node
unfolding safe_turn
safe_turn-waits c r waived answers n since =
    let waiting = record n { safe_since = some since } in
    elim (Bool-cases (ltb (r.elapsed_at - since) c.dwell)) [
      | inl early ↦ rw (early, safe_turn) (inl refl)
      | inr late ↦
          rw (late, safe_turn)
            (then_do-all (WaitsSince since) (mint_identity waiting r waived answers)
              (λ n1. bootstrap_stage n1 r) (mint-waits since waiting r waived answers refl)
              (λ m w. bootstrap-waits since r m w))
    ]

pub on_verdict-waits :
    (c : OrchestrateConfig) (r : Pass) (waived : Bool) (answers : Answers) (n : Node)
    (o : Option BootstrapVerdict) (since : ℕ)
    → (on_verdict c r waived answers n o).node.safe_since ≡ some since
    → (o ≡ some safe_to_bootstrap) × (unwrap_or n.safe_since r.safe_at ≡ since)
unfolding on_verdict
on_verdict-waits c r waived answers n none since h = cc
on_verdict-waits c r waived answers n (some safe_to_bootstrap) since h =
    let at = unwrap_or n.safe_since r.safe_at in
    elim (safe_turn-waits c r waived answers n at) [
      | inl e ↦ let both : some at ≡ some since = sym e ∙ h in (refl, cc)
      | inr e ↦ cc (let both : none ≡ some since = sym e ∙ h in both)
    ]
on_verdict-waits c r waived answers n (some (peer_is_more_advanced host)) since h = cc
on_verdict-waits c r waived answers n (some (defer_to_peer host)) since h = cc
on_verdict-waits c r waived answers n (some (diverged_from host)) since h = cc
on_verdict-waits c r waived answers n (some undecidable) since h = cc
on_verdict-waits c r waived answers n (some join_existing_group) since h = cc
