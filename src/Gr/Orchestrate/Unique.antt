-- ===== src/Gr/Orchestrate/Unique.antt =====
-- mysql-wrapper/src/gr.rs, `orchestrate`: two nodes that hear from one another do not both
-- bootstrap.
use mysql_ha.Prelude.{
  ◌≡◌, refl, sym, ap, ◌∙◌, subst, ◌≢◌, inl, inr, Bool, true, false, not, Option, none, some, List,
  false_of_ne_true, any, In, filter-In, Str,
}
use mysql_ha.Gr.State.{GrState, PeerAnswer, MemberRow, rank_of}
use mysql_ha.Gr.Bootstrap.{safe_to_bootstrap, classify_round}
use mysql_ha.Gr.Bootstrap.Agreement.{IsShown, Advertises, Swaps, bootstrap_unique}
use mysql_ha.Gr.Orchestrate.Local.{
  Volume, Local, pre_gtid_reading, reported, local_gr_state_of, local_gr_state,
}
use mysql_ha.Gr.Orchestrate.Node.{OrchestrateConfig, Node, Pass}
use mysql_ha.Gr.Orchestrate.Bootstrapping.{given_up, considered, self_of}
use mysql_ha.Gr.Orchestrate.Loop.{may_waive, tracked, turn, is_bootstrap}
use mysql_ha.Gr.Orchestrate.Fork.{turn-bootstrap}

-- What the node reads of itself in the pass, with the GTIDs that it decides on.
abbrev pub ReadsItself : Pass → Node → Str → GrState → Type 0
ReadsItself r n gtid s =
    (r.before.gtid ≡ some gtid)
    × (r.executed_gtid_set ≡ some gtid)
    × (local_gr_state n.volume r.before ≡ some s)

pre_gtid_reading-IsShown :
    (marked : Bool) (flag : Option Bool) → IsShown marked (pre_gtid_reading marked flag).0
unfolding pre_gtid_reading
pre_gtid_reading-IsShown true flag = inr refl
pre_gtid_reading-IsShown false flag = inl refl

reported-fields :
    (v : Volume) (l : Local) (u : Option Str) (ms : Option (List MemberRow)) (g : Option Str)
    (s : GrState)
    → local_gr_state_of v l u ms g ≡ some s
    → (s.gtid_executed ≡ g)
      × (s.waiver_generation ≡ v.generation)
      × IsShown v.pre_gtid s.pre_gtid_data
unfolding local_gr_state_of reported
reported-fields v l (some u) (some ms) (some g) s e =
    let same : reported v l u ms g ≡ s = cc in
    (
      sym (ap (λ x. x.gtid_executed) same),
      sym (ap (λ x. x.waiver_generation) same),
      subst (λ x. IsShown v.pre_gtid x.pre_gtid_data) same
          (pre_gtid_reading-IsShown v.pre_gtid l.group_pre_gtid_flag),
    )
reported-fields v l (some u) (some ms) none s e = cc
reported-fields v l (some u) none g s e = cc
reported-fields v l none ms g s e = cc

ReadsItself-Advertises :
    (c : OrchestrateConfig) (r : Pass) (n : Node) (gtid : Str) (s : GrState)
    → ReadsItself r n gtid s
    → Advertises (self_of c n gtid) (PeerAnswer.state s)
unfolding local_gr_state
ReadsItself-Advertises c r n gtid s (read, own, told) =
    let (set, generation, shown) =
      reported-fields n.volume r.before r.before.server_uuid r.before.members r.before.gtid s
        told in
    (set ∙ read, generation, shown)

-- A turn that bootstraps has classified its round as safe.
safe_round :
    (c : OrchestrateConfig) (r : Pass) (n : Node) (gtid : Str) (s : GrState)
    → ReadsItself r n gtid s
    → any is_bootstrap (turn c r n).deeds ≡ true
    → classify_round r.gtid_compare c.seeds
        (self_of c n gtid)
        (considered c (tracked n r) r (may_waive n r))
      ≡ some safe_to_bootstrap
safe_round c r n gtid s (read, own, told) h =
    let (unseen, (gtid', e', safe, dwelt, minted)) = turn-bootstrap c r n h in
    let same : gtid' ≡ gtid = cc in
    subst
      (λ g.
        classify_round r.gtid_compare c.seeds (self_of c n g)
          (considered c (tracked n r) r (may_waive n r))
        ≡ some safe_to_bootstrap)
      same safe

answer-considered :
    (c : OrchestrateConfig) (r : Pass) (n : Node) (host : Str) (s : GrState)
    → In (host, PeerAnswer.state s) r.answers
    → In (host, PeerAnswer.state s) (considered c (tracked n r) r (may_waive n r))
unfolding considered
answer-considered c r n host s m =
    filter-In (λ x. not (given_up c (tracked n r) r (may_waive n r) x)) r.answers m refl

-- Two nodes of one list of seeds, with different places in it, each hear in a turn what the other
-- has read of itself, with the GTIDs that the other decides on. Where comparing two GTID sets the
-- other way round swaps the two answers, at most one of them bootstraps in its turn.
pub one_node_bootstraps :
    (c_a c_b : OrchestrateConfig) (r_a r_b : Pass) (n_a n_b : Node) (gtid_a gtid_b : Str)
    (s_a s_b : GrState)
    → c_a.seeds ≡ c_b.seeds
    → r_a.gtid_compare ≡ r_b.gtid_compare
    → Swaps r_a.gtid_compare
    → rank_of c_a.seeds c_a.private_domain ≢ rank_of c_b.seeds c_b.private_domain
    → ReadsItself r_a n_a gtid_a s_a
    → ReadsItself r_b n_b gtid_b s_b
    → In (c_b.private_domain, PeerAnswer.state s_b) r_a.answers
    → In (c_a.private_domain, PeerAnswer.state s_a) r_b.answers
    → any is_bootstrap (turn c_a r_a n_a).deeds ≡ true
    → any is_bootstrap (turn c_b r_b n_b).deeds ≡ false
one_node_bootstraps c_a c_b r_a r_b n_a n_b gtid_a gtid_b s_a s_b seeds compares swaps apart a b
      in_a in_b h =
    false_of_ne_true _ λ k.
      let round_b = considered c_b (tracked n_b r_b) r_b (may_waive n_b r_b) in
      let self_b = self_of c_b n_b gtid_b in
      let safe_b : classify_round r_a.gtid_compare c_a.seeds self_b round_b
          ≡ some safe_to_bootstrap =
        subst (λ l. classify_round r_a.gtid_compare l self_b round_b ≡ some safe_to_bootstrap)
          (sym seeds)
          (subst (λ f. classify_round f c_b.seeds self_b round_b ≡ some safe_to_bootstrap)
            (sym compares) (safe_round c_b r_b n_b gtid_b s_b b k)) in
      bootstrap_unique r_a.gtid_compare c_a.seeds (self_of c_a n_a gtid_a) self_b c_a.private_domain
        c_b.private_domain (PeerAnswer.state s_a) (PeerAnswer.state s_b)
        (considered c_a (tracked n_a r_a) r_a (may_waive n_a r_a)) round_b swaps apart refl
        (ap (λ l. rank_of l c_b.private_domain) seeds)
        (ReadsItself-Advertises c_a r_a n_a gtid_a s_a a)
        (ReadsItself-Advertises c_b r_b n_b gtid_b s_b b)
        (answer-considered c_a r_a n_a c_b.private_domain s_b in_a)
        (answer-considered c_b r_b n_b c_a.private_domain s_a in_b)
        (safe_round c_a r_a n_a gtid_a s_a a h) safe_b
