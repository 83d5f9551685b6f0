-- ===== src/Gr/Orchestrate/Picture.antt =====
-- mysql-wrapper/src/gr.rs, `orchestrate`: which peers a node must have heard from before it
-- bootstraps, and what fences a bootstrap past the others.
use mysql_ha.Prelude.{
  or-cases, and-cases, ◌≡◌, refl, subst, ◌⊎◌, inl, inr, true, not, some, List, Bool-cases,
  Option-cases, any, In, All, All-of_In, filter-In, Str,
}
use mysql_ha.Gr.State.{GrState, PeerAnswer, not_ready, unreachable, rank_of}
use mysql_ha.Gr.Gone.{is_waived}
use mysql_ha.Gr.Bootstrap.{Self, GtidCompare, PeerRelation, unknown, relation_of, relation_of_set}
use mysql_ha.Gr.Bootstrap.Decide.{Outranked}
use mysql_ha.Gr.Bootstrap.Agreement.{Beats, classify_round_safe}
use mysql_ha.Gr.Orchestrate.Node.{OrchestrateConfig, Node, Pass}
use mysql_ha.Gr.Orchestrate.Bootstrapping.{track, given_up, considered, self_of}
use mysql_ha.Gr.Orchestrate.Loop.{been_member, may_waive, tracked, turn, is_bootstrap}
use mysql_ha.Gr.Orchestrate.Fork.{turn-bootstrap}

-- The peer has told its GTIDs, and the node outranks it.
abbrev pub Heard : GtidCompare → List Str → Self → Str × PeerAnswer → Type 0
Heard compare_sets seeds me a =
    (s : GrState) × (peer : Str) × (a.1 ≡ PeerAnswer.state s)
    × (s.gtid_executed ≡ some peer)
    × Beats compare_sets seeds me a.0 a.1

-- The peer does not answer, and the node may give it up and does.
abbrev pub GivenUp : OrchestrateConfig → Pass → Node → Str × PeerAnswer → Type 0
GivenUp c r n a =
    (a.1 ≡ unreachable)
    × ((been_member n r ≡ true) ⊎ (n.volume.pre_gtid ≡ true))
    × (is_waived (track n.gone_tracker r) a.0 r.now c.gone_dwell ≡ true)

unknown-wins :
    (seeds : List Str) (me : Self) (host : Str) (relation : PeerRelation)
    → some unknown ≡ some relation
    → Outranked me.pre_gtid me.seed_rank (rank_of seeds host) relation
    → ⊥
unknown-wins seeds me host relation e o =
    let same : relation ≡ unknown = cc in
    subst (Outranked me.pre_gtid me.seed_rank (rank_of seeds host)) same o

Beats-Heard :
    (compare_sets : GtidCompare) (seeds : List Str) (me : Self) (host : Str) (answer : PeerAnswer)
    → Beats compare_sets seeds me host answer
    → Heard compare_sets seeds me (host, answer)
unfolding relation_of relation_of_set
Beats-Heard compare_sets seeds me host not_ready (relation, e, o) =
    absurd (unknown-wins seeds me host relation e o)
Beats-Heard compare_sets seeds me host unreachable (relation, e, o) =
    absurd (unknown-wins seeds me host relation e o)
Beats-Heard compare_sets seeds me host (PeerAnswer.state s) (relation, e, o) =
    elim (Option-cases s.gtid_executed) [
      | inl silent ↦
          let none_told : some unknown ≡ some relation = rw (silent, relation_of_set) at e in
          absurd (unknown-wins seeds me host relation none_told o)
      | inr (peer, told) ↦ (s, peer, refl, told, (relation, e, o))
    ]

may_waive-cases :
    (n : Node) (r : Pass)
    → may_waive n r ≡ true
    → (been_member n r ≡ true) ⊎ (n.volume.pre_gtid ≡ true)
unfolding may_waive
may_waive-cases n r h = or-cases (been_member n r) n.volume.pre_gtid h

given_up-GivenUp :
    (c : OrchestrateConfig) (r : Pass) (n : Node) (a : Str × PeerAnswer)
    → given_up c (tracked n r) r (may_waive n r) a ≡ true
    → GivenUp c r n a
given_up-GivenUp c r n (host, PeerAnswer.state s) h = cc
given_up-GivenUp c r n (host, not_ready) h = cc
given_up-GivenUp c r n (host, unreachable) h =
    let (may, waived) = and-cases (may_waive n r) _ h in (refl, may_waive-cases n r may, waived)

-- Every peer of a turn that bootstraps has either told its GTIDs, and the node outranks it, or does
-- not answer and is given up: its name has been gone for the dwell, and the node has been a member
-- or holds data that is older than its GTIDs. The node's own GTIDs have been read.
pub bootstrap_full_picture :
    (c : OrchestrateConfig) (r : Pass) (n : Node)
    → any is_bootstrap (turn c r n).deeds ≡ true
    → (gtid : Str) × (r.executed_gtid_set ≡ some gtid)
      × All (λ a. Heard r.gtid_compare c.seeds (self_of c n gtid) a ⊎ GivenUp c r n a) r.answers
unfolding considered
bootstrap_full_picture c r n h =
    let (unseen, (gtid, e, safe, dwelt, minted)) = turn-bootstrap c r n h in
    let (idle, beats) =
      classify_round_safe r.gtid_compare c.seeds (self_of c n gtid)
        (considered c (tracked n r) r (may_waive n r)) safe in
    (
      gtid,
      e,
      All-of_In _ r.answers λ a m.
          elim (Bool-cases (given_up c (tracked n r) r (may_waive n r) a)) [
            | inl up ↦ inr (given_up-GivenUp c r n a up)
            | inr kept ↦
                let asked : In a (considered c (tracked n r) r (may_waive n r)) =
                  filter-In (λ x. not (given_up c (tracked n r) r (may_waive n r) x)) r.answers m
                    (rw kept refl) in
                inl (
                  Beats-Heard r.gtid_compare c.seeds (self_of c n gtid) a.0 a.1
                    (beats a.0 a.1 asked))
          ],
    )
