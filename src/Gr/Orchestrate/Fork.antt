-- ===== src/Gr/Orchestrate/Fork.antt =====
-- mysql-wrapper/src/gr.rs, `orchestrate`: when a node bootstraps a group, and under which name and
-- generation.
use mysql_ha.Prelude.{
  ℕ, ◌-◌, ◌≤◌, ◌≡◌, refl, sym, ap, ◌∙◌, subst, ◌⊎◌, inl, inr, Bool, true, false, Option, none, some,
  arith, ltb, unwrap_or, Bool-cases, any, In, Str,
}
use mysql_ha.Gr.State.{Answers}
use mysql_ha.Gr.Bootstrap.{
  BootstrapVerdict, join_existing_group, safe_to_bootstrap, undecidable, peer_is_more_advanced,
  defer_to_peer, diverged_from, classify_round,
}
use mysql_ha.Gr.Orchestrate.Local.{Volume, persist_group_name, persist_waiver_generation}
use mysql_ha.Gr.Orchestrate.Node.{
  OrchestrateConfig, Node, Pass, Deed, set_group_name, Progress, then_do,
}
use mysql_ha.Gr.Orchestrate.Bootstrapping.{
  any_waived, considered, next_generation, mint_identity, bootstrap_stage, safe_turn, on_verdict,
  self_of, no_group_turn,
}
use mysql_ha.Gr.Orchestrate.Loop.{may_waive, group_seen, tracked, turn, is_bootstrap}
use mysql_ha.Gr.Orchestrate.Stages.{then_do-passes, then_do-node}
use mysql_ha.Gr.Orchestrate.Reach.{then_do-earlier}
use mysql_ha.Gr.Orchestrate.Alone.{turn-alone}

abbrev pub minted_volume : Pass → Volume → Answers → Volume
minted_volume r v answers =
    persist_waiver_generation r.persists_generation (next_generation v answers)
      (persist_group_name r.persists_name r.fresh_name v)

-- The group keeps its name, or takes the fresh one because a peer is waived, and the server has
-- taken it.
abbrev pub Minted : Pass → Bool → Answers → Node → Progress → Type 0
Minted r waived answers n p =
    ((waived ≡ false) × (p.node.group_name ≡ n.group_name) × (p.node.volume ≡ n.volume))
    ⊎ ((waived ≡ true)
        × (p.node.group_name ≡ r.fresh_name)
        × (p.node.volume ≡ minted_volume r n.volume answers)
        × In (set_group_name r.fresh_name) p.deeds
        × (r.sets_group_name ≡ true))

mint_identity-passes :
    (n : Node) (r : Pass) (waived : Bool) (answers : Answers)
    → (mint_identity n r waived answers).goes_on ≡ true
    → Minted r waived answers n (mint_identity n r waived answers)
      × (any is_bootstrap (mint_identity n r waived answers).deeds ≡ false)
unfolding mint_identity
mint_identity-passes n r false answers h = (inl (refl, refl, refl), refl)
mint_identity-passes n r true answers h = elim (Bool-cases r.sets_group_name) [
  | inl e ↦ rw e (inr (refl, refl, refl, In.here, refl), refl)
  | inr e ↦ cc (let x : false ≡ true = rw e at h in x)
]

mint_identity-quiet :
    (n : Node) (r : Pass) (waived : Bool) (answers : Answers)
    → any is_bootstrap (mint_identity n r waived answers).deeds ≡ false
unfolding mint_identity
mint_identity-quiet n r false answers = refl
mint_identity-quiet n r true answers = elim (Bool-cases r.sets_group_name) [
  | inl e ↦ rw e refl
  | inr e ↦ rw e refl
]

bootstrap_stage-node :
    (n : Node) (r : Pass)
    → ((bootstrap_stage n r).node.group_name ≡ n.group_name)
      × ((bootstrap_stage n r).node.volume ≡ n.volume)
unfolding bootstrap_stage
bootstrap_stage-node n r = elim (Bool-cases r.bootstraps) [
  | inl e ↦ rw e (refl, refl)
  | inr e ↦ rw e (refl, refl)
]

Minted-through :
    (r : Pass) (waived : Bool) (answers : Answers) (n : Node) (q p : Progress)
    → p.node.group_name ≡ q.node.group_name
    → p.node.volume ≡ q.node.volume
    → ((d : Deed) → In d q.deeds → In d p.deeds)
    → Minted r waived answers n q
    → Minted r waived answers n p
Minted-through r waived answers n q p name volume keeps (inl (w, a, b)) =
    inl (w, name ∙ a, volume ∙ b)
Minted-through r waived answers n q p name volume keeps (inr (w, a, b, m, set)) =
    inr (w, name ∙ a, volume ∙ b, keeps (set_group_name r.fresh_name) m, set)

-- The verdict has stood for the dwell.
abbrev pub DweltSince : OrchestrateConfig → Pass → ℕ → Type 0
DweltSince c r since = c.dwell ≤ r.elapsed_at - since

safe_turn-bootstrap :
    (c : OrchestrateConfig) (r : Pass) (waived : Bool) (answers : Answers) (n : Node) (since : ℕ)
    → any is_bootstrap (safe_turn c r waived answers n since).deeds ≡ true
    → DweltSince c r since × Minted r waived answers n (safe_turn c r waived answers n since)
unfolding safe_turn
safe_turn-bootstrap c r waived answers n since h =
    elim (Bool-cases (ltb (r.elapsed_at - since) c.dwell)) [
      | inl early ↦ cc (let x : false ≡ true = rw (early, safe_turn) at h in x)
      | inr late ↦
          let waiting = record n { safe_since = some since } in
          let q = mint_identity waiting r waived answers in
          let next = λ (n1 : Node). bootstrap_stage n1 r in
          let acts : any is_bootstrap (then_do q next).deeds ≡ true =
            let x = rw (late, safe_turn) at h in x in
          let (goes, does) =
            then_do-passes is_bootstrap q next (mint_identity-quiet waiting r waived answers)
              acts in
          let (minted, quiet) = mint_identity-passes waiting r waived answers goes in
          let node = then_do-node q next goes in
          let (name, volume) = bootstrap_stage-node q.node r in
          let whole : Minted r waived answers n (then_do q next) =
            Minted-through r waived answers n q (then_do q next)
              (ap (λ m. m.group_name) node ∙ name) (ap (λ m. m.volume) node ∙ volume)
              (λ d m. then_do-earlier d q next m) minted in
          (ground arith, rw (late, safe_turn) whole)
    ]

on_verdict-bootstrap :
    (c : OrchestrateConfig) (r : Pass) (waived : Bool) (answers : Answers) (n : Node)
    (o : Option BootstrapVerdict)
    → any is_bootstrap (on_verdict c r waived answers n o).deeds ≡ true
    → (o ≡ some safe_to_bootstrap)
      × DweltSince c r (unwrap_or n.safe_since r.safe_at)
      × Minted r waived answers n (on_verdict c r waived answers n o)
unfolding on_verdict
on_verdict-bootstrap c r waived answers n none h = cc
on_verdict-bootstrap c r waived answers n (some safe_to_bootstrap) h =
    let (dwelt, minted) =
      safe_turn-bootstrap c r waived answers n (unwrap_or n.safe_since r.safe_at) h in
    (refl, dwelt, minted)
on_verdict-bootstrap c r waived answers n (some (peer_is_more_advanced host)) h = cc
on_verdict-bootstrap c r waived answers n (some (defer_to_peer host)) h = cc
on_verdict-bootstrap c r waived answers n (some (diverged_from host)) h = cc
on_verdict-bootstrap c r waived answers n (some undecidable) h = cc
on_verdict-bootstrap c r waived answers n (some join_existing_group) h = cc

-- What a turn that bootstraps has established, of the node with its tracker brought up to date.
abbrev pub BootstrapFacts : OrchestrateConfig → Pass → Node → Bool → Progress → Type 0
BootstrapFacts c r m may p =
    (gtid : Str) × (r.executed_gtid_set ≡ some gtid)
    × (classify_round r.gtid_compare c.seeds (self_of c m gtid) (considered c m r may)
        ≡ some safe_to_bootstrap)
    × DweltSince c r (unwrap_or m.safe_since r.safe_at)
    × Minted r (any_waived c m r may) (considered c m r may) m p

no_group-bootstrap :
    (c : OrchestrateConfig) (r : Pass) (may : Bool) (m : Node) (o : Option Str)
    → r.executed_gtid_set ≡ o
    → any is_bootstrap (no_group_turn c r may m o).deeds ≡ true
    → BootstrapFacts c r m may (no_group_turn c r may m o)
unfolding no_group_turn
no_group-bootstrap c r may m none e h = cc
no_group-bootstrap c r may m (some gtid) e h =
    let verdict = classify_round r.gtid_compare c.seeds (self_of c m gtid) (considered c m r may) in
    let (safe, dwelt, minted) =
      on_verdict-bootstrap c r (any_waived c m r may) (considered c m r may) m verdict h in
    (gtid, e, safe, dwelt, minted)

pub turn-bootstrap :
    (c : OrchestrateConfig) (r : Pass) (n : Node)
    → any is_bootstrap (turn c r n).deeds ≡ true
    → (group_seen r.answers ≡ false) × BootstrapFacts c r (tracked n r) (may_waive n r) (turn c r n)
turn-bootstrap c r n h =
    let (unseen, same) = turn-alone c r n h in
    let h' = subst (λ p. any is_bootstrap p.deeds ≡ true) same h in
    (
      unseen,
      subst (BootstrapFacts c r (tracked n r) (may_waive n r)) (sym same)
          (no_group-bootstrap c r (may_waive n r) (tracked n r) r.executed_gtid_set refl h'),
    )
