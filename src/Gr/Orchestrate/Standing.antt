-- ===== src/Gr/Orchestrate/Standing.antt =====
-- mysql-wrapper/src/gr.rs, `orchestrate`: a bootstrap waits out the dwell on a verdict that stands
-- over a run of turns.
use mysql_ha.Prelude.{
  ℕ, ◌≡◌, refl, sym, ap, ◌∙◌, subst, ◌⊎◌, inl, inr, true, false, ◌||◌, Option, none, some, List, [],
  ◌∷◌, unwrap_or, Bool-cases, Option-cases, any, Str,
}
use mysql_ha.Gr.State.{GrState}
use mysql_ha.Gr.Bootstrap.{safe_to_bootstrap, classify_round}
use mysql_ha.Gr.Orchestrate.Local.{Volume, local_gr_state}
use mysql_ha.Gr.Orchestrate.Node.{OrchestrateConfig, Node, Pass}
use mysql_ha.Gr.Orchestrate.Live.{live_turn}
use mysql_ha.Gr.Orchestrate.Bootstrapping.{any_waived, considered, self_of, no_group_turn}
use mysql_ha.Gr.Orchestrate.Loop.{
  initial_node, been_member, may_waive, group_seen, tracked, outside_turn, noting, on_local, turn,
  node_after, is_bootstrap,
}
use mysql_ha.Gr.Orchestrate.Acts.{noting-same}
use mysql_ha.Gr.Orchestrate.Fork.{DweltSince, turn-bootstrap}
use mysql_ha.Gr.Orchestrate.Waiting.{on_verdict-waits}
use mysql_ha.Gr.Orchestrate.Dwell.{live_turn-waits}

-- The turn reads that no peer sees a live group and that the node may bootstrap one.
abbrev pub ReadsSafe : OrchestrateConfig → Pass → Node → Type 0
ReadsSafe c r n =
    (group_seen r.answers ≡ false)
    × (gtid : Str) × (r.executed_gtid_set ≡ some gtid)
    × (classify_round r.gtid_compare c.seeds (self_of c n gtid)
          (considered c (tracked n r) r (may_waive n r))
        ≡ some safe_to_bootstrap)

-- The turn ends before the verdict: the node is healing or already handed over, its own state or
-- its own GTIDs cannot be read, or it is an active member.
abbrev pub Skips : Pass → Node → Type 0
Skips r n =
    ((n.watching || r.healing) ≡ true)
    ⊎ (local_gr_state n.volume r.before ≡ none)
    ⊎ ((s : GrState) × (local_gr_state n.volume r.before ≡ some s) × (s.group_active ≡ true))
    ⊎ ((group_seen r.answers ≡ false) × (r.executed_gtid_set ≡ none))

-- A verdict that stands since an instant: a turn read it then, and every turn since read it again
-- or ended before it.
pub data SafeSince (c : OrchestrateConfig) (n : Node) : List Pass → ℕ → Type 0 where
  started :
      {h : List Pass} {r : Pass}
      → ReadsSafe c r (node_after c n h)
      → SafeSince c n (r ∷ h) r.safe_at
  held :
      {h : List Pass} {r : Pass} {since : ℕ}
      → SafeSince c n h since
      → ReadsSafe c r (node_after c n h)
      → SafeSince c n (r ∷ h) since
  skipped :
      {h : List Pass} {r : Pass} {since : ℕ}
      → SafeSince c n h since
      → Skips r (node_after c n h)
      → SafeSince c n (r ∷ h) since

-- What a turn leaves standing stood before it and was skipped, or the turn reads it.
abbrev Standing : OrchestrateConfig → Pass → Node → ℕ → Type 0
Standing c r n since =
    ((n.safe_since ≡ some since) × Skips r n)
    ⊎ (ReadsSafe c r n × (unwrap_or n.safe_since r.safe_at ≡ since))

no_group-waits :
    (c : OrchestrateConfig) (r : Pass) (n : Node) (o : Option Str) (since : ℕ)
    → group_seen r.answers ≡ false
    → r.executed_gtid_set ≡ o
    → (no_group_turn c r (may_waive n r) (tracked n r) o).node.safe_since ≡ some since
    → Standing c r n since
unfolding no_group_turn
no_group-waits c r n none since unseen e h = inl (h, inr (inr (inr (unseen, e))))
no_group-waits c r n (some gtid) since unseen e h =
    let asked = considered c (tracked n r) r (may_waive n r) in
    let (safe, at) =
      on_verdict-waits c r (any_waived c (tracked n r) r (may_waive n r)) asked (tracked n r)
        (classify_round r.gtid_compare c.seeds (self_of c n gtid) asked) since h in
    inr ((unseen, gtid, e, safe), at)

outside-waits :
    (c : OrchestrateConfig) (r : Pass) (n : Node) (since : ℕ)
    → (outside_turn c r n).node.safe_since ≡ some since
    → Standing c r n since
unfolding outside_turn
outside-waits c r n since h = elim (Bool-cases (group_seen r.answers)) [
  | inl seen ↦
      let live : (live_turn c r (been_member n r) (tracked n r)).node.safe_since ≡ some since =
        let x = rw (seen, outside_turn) at h in x in
      let none_left : (live_turn c r (been_member n r) (tracked n r)).node.safe_since ≡ none =
        (live_turn-waits c r (been_member n r) (tracked n r)).0 in
      cc (let both : none ≡ some since = sym none_left ∙ live in both)
  | inr unseen ↦
      let alone : (no_group_turn c r (may_waive n r) (tracked n r)
            r.executed_gtid_set).node.safe_since
          ≡ some since =
        let x = rw (unseen, outside_turn) at h in x in
      no_group-waits c r n r.executed_gtid_set since unseen refl alone
]

on_local-waits :
    (c : OrchestrateConfig) (r : Pass) (n : Node) (o : Option GrState) (since : ℕ)
    → local_gr_state n.volume r.before ≡ o
    → (on_local c r (noting r n) o).node.safe_since ≡ some since
    → Standing c r n since
unfolding on_local
on_local-waits c r n none since e h = inl (h, inr (inl e))
on_local-waits c r n (some s) since e h = elim (Bool-cases s.group_active) [
  | inl active ↦
      let kept : n.safe_since ≡ some since = let x = rw active at h in x in
      inl (kept, inr (inr (inl (s, e, active))))
  | inr idle ↦
      let outside : (outside_turn c r (noting r n)).node.safe_since ≡ some since =
        let x = rw idle at h in x in
      outside-waits c r n since (
        subst (λ m. (outside_turn c r m).node.safe_since ≡ some since) (noting-same r n s e idle)
          outside)
]

turn-waits :
    (c : OrchestrateConfig) (r : Pass) (n : Node) (since : ℕ)
    → (turn c r n).node.safe_since ≡ some since
    → Standing c r n since
unfolding turn
turn-waits c r n since h = elim (Bool-cases (n.watching || r.healing)) [
  | inl idle ↦
      let kept : n.safe_since ≡ some since = let x = rw (idle, turn) at h in x in
      inl (kept, inl idle)
  | inr awake ↦
      let acts : (on_local c r (noting r n) (local_gr_state n.volume r.before)).node.safe_since
          ≡ some since =
        let x = rw (awake, turn) at h in x in
      on_local-waits c r n (local_gr_state n.volume r.before) since refl acts
]

node_after-SafeSince :
    (c : OrchestrateConfig) (n : Node) (history : List Pass) (since : ℕ)
    → n.safe_since ≡ none
    → (node_after c n history).safe_since ≡ some since
    → SafeSince c n history since
unfolding node_after
node_after-SafeSince c n [] since fresh h = cc
node_after-SafeSince c n (r ∷ earlier) since fresh h =
    let before = node_after c n earlier in
    elim (turn-waits c r before since h) [
      | inl (stood, skips) ↦ skipped (node_after-SafeSince c n earlier since fresh stood) skips
      | inr (safe, at) ↦ elim (Option-cases before.safe_since) [
        | inl none_yet ↦
            let same : r.safe_at ≡ since = let x = rw none_yet at at in x in
            subst (SafeSince c n (r ∷ earlier)) same (started safe)
        | inr (t, stood) ↦
            let same : t ≡ since = let x = rw stood at at in x in
            held (node_after-SafeSince c n earlier since fresh (stood ∙ ap some same)) safe
      ]
    ]

-- A node that bootstraps a group in a turn reads in it that no peer sees a live group and that it
-- may bootstrap one. That verdict has stood for the dwell: since an earlier turn that read it,
-- every turn in between having read it too or ended before it; or since this turn.
pub bootstrap_waits_dwell :
    (c : OrchestrateConfig) (v : Volume) (name : Str) (history : List Pass) (r : Pass)
    → any is_bootstrap (turn c r (node_after c (initial_node v name) history)).deeds ≡ true
    → ReadsSafe c r (node_after c (initial_node v name) history)
      × (((since : ℕ) × SafeSince c (initial_node v name) history since × DweltSince c r since)
          ⊎ DweltSince c r r.safe_at)
bootstrap_waits_dwell c v name history r h =
    let n = node_after c (initial_node v name) history in
    let (unseen, (gtid, e, safe, dwelt, minted)) = turn-bootstrap c r n h in
    (
      (unseen, gtid, e, safe),
      elim (Option-cases n.safe_since) [
        | inl none_yet ↦ inr (let x = rw none_yet at dwelt in x)
        | inr (since, stood) ↦
            let long : DweltSince c r since = let x = rw stood at dwelt in x in
            inl (since, node_after-SafeSince c (initial_node v name) history since refl stood, long)
      ],
    )
