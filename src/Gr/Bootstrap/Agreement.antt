-- ===== src/Gr/Bootstrap/Agreement.antt =====
-- mysql-wrapper/src/gr.rs: no two nodes that have heard of one another may both bootstrap.
use mysql_ha.Prelude.{
  ◌⊎◌, false, ℕ, ◌≡◌, sym, ap, subst, ◌≢◌, inl, inr, Bool, true, false, not, Option, none, some,
  List, [], ◌∷◌, arith, Bool-cases, Option-cases, any, In, In-cons, Str,
}
use mysql_ha.Gr.State.{PeerAnswer, not_ready, unreachable, Answers, is_live, rank_of}
use mysql_ha.Gr.Bootstrap.{
  tie_peer_wins, PeerRelation, PeerStanding, safe_to_bootstrap, diverged_peer_wins, decide, Self,
  GtidCompare, relation_by, relation_of_set, relation_of, standings, classify_round,
}
use mysql_ha.Gr.Bootstrap.Decide.{Outranked, AllOutranked, decide-safe_iff}

module _ (gtid_compare : GtidCompare) (seeds : List Str) (me : Self) where
  -- The answer was classified, and the node outranks the peer that gave it.
  abbrev pub Beats : Str → PeerAnswer → Type 0
  Beats host answer =
      (relation : PeerRelation) × (relation_of gtid_compare seeds me host answer ≡ some relation)
      × Outranked me.pre_gtid me.seed_rank (rank_of seeds host) relation

  standings-Beats :
      (answers : Answers) (peers : List PeerStanding)
      → standings gtid_compare seeds me answers ≡ some peers
      → AllOutranked me.pre_gtid me.seed_rank peers
      → (host : Str) (answer : PeerAnswer) → In (host, answer) answers
      → Beats host answer
  unfolding standings
  standings-Beats [] peers h o host answer m = elim m [ ]
  standings-Beats ((h', a') ∷ rest) peers h o host answer m =
      elim (Option-cases (relation_of gtid_compare seeds me h' a')) [
        | inl e ↦ cc (let k : none ≡ some peers = rw (e, standings) at h in k)
        | inr (relation, e) ↦ elim (Option-cases (standings gtid_compare seeds me rest)) [
          | inl n ↦ ground arith
          | inr (ps, n) ↦
              let same : record { host = h'; seed_rank = rank_of seeds h'; relation = relation }
                    ∷ ps
                  ≡ peers =
                ground arith in
              let o' : AllOutranked me.pre_gtid me.seed_rank
                  (record { host = h'; seed_rank = rank_of seeds h'; relation = relation } ∷ ps) =
                subst (AllOutranked me.pre_gtid me.seed_rank) (sym same) o in
              elim (In-cons m) [
                | inl own ↦
                    let host_eq : host ≡ h' = ap (λ x. x.0) own in
                    let answer_eq : answer ≡ a' = ap (λ x. x.1) own in
                    rw (host_eq, answer_eq) (relation, e, o'.0)
                | inr later ↦ standings-Beats rest ps n o'.1 host answer later
              ]
        ]
      ]

  -- Where a round ends in `safe_to_bootstrap`, nobody reported a live group, and the node outranks
  -- every peer asked.
  pub classify_round_safe :
      (answers : Answers)
      → classify_round gtid_compare seeds me answers ≡ some safe_to_bootstrap
      → (any (λ a. is_live a.1) answers ≡ false)
        × ((host : Str) (answer : PeerAnswer) → In (host, answer) answers → Beats host answer)
  unfolding classify_round
  classify_round_safe answers h = elim (Bool-cases (any (λ a. is_live a.1) answers)) [
    | inl live ↦ ground arith
    | inr idle ↦ elim (Option-cases (standings gtid_compare seeds me answers)) [
      | inl n ↦ ground arith
      | inr (peers, e) ↦
          let safe : decide me.pre_gtid me.seed_rank peers ≡ safe_to_bootstrap = ground arith in
          (
            idle,
            standings-Beats answers peers e
                ((decide-safe_iff me.pre_gtid me.seed_rank peers).0 safe),
          )
    ]
  ]

-- A node that holds the marker of data older than its GTIDs reports such data; one without it may,
-- by the flag of its group.
abbrev pub IsShown : Bool → Bool → Type 0
IsShown marked reported = (marked ≡ false) ⊎ (reported ≡ true)

-- What a node advertises of itself while it is in no group.
abbrev pub Advertises : Self → PeerAnswer → Type 0
Advertises node (PeerAnswer.state s) =
    (s.gtid_executed ≡ some node.gtid)
    × (s.waiver_generation ≡ node.generation)
    × IsShown node.pre_gtid s.pre_gtid_data
Advertises node not_ready = ⊥
Advertises node unreachable = ⊥

-- Comparing the other way round swaps the two answers.
abbrev pub Swaps : GtidCompare → Type 0
Swaps gtid_compare =
    (a b : Str) (p q : Bool) → gtid_compare a b ≡ some (p, q) → gtid_compare b a ≡ some (q, p)

pub diverged_one_wins :
    (g h r s : ℕ) → r ≢ s → diverged_peer_wins g r h s ≡ not (diverged_peer_wins h s g r)
unfolding diverged_peer_wins
diverged_one_wins g h r s d = ground arith

-- Of two nodes with the same dataset one loses the tie.
tie_one_loses :
    (marked_a marked_b pre_a pre_b : Bool) (rank_a rank_b : ℕ)
    → IsShown marked_a pre_a
    → IsShown marked_b pre_b
    → rank_a ≢ rank_b
    → tie_peer_wins pre_b marked_a rank_b rank_a ≡ false
    → tie_peer_wins pre_a marked_b rank_a rank_b ≡ false
    → ⊥
tie_one_loses true true true true ra rb a b d x y = ground arith
tie_one_loses true true false pre_b ra rb (inl e) b d x y = cc
tie_one_loses true true false pre_b ra rb (inr e) b d x y = cc
tie_one_loses true true true false ra rb a (inl e) d x y = cc
tie_one_loses true true true false ra rb a (inr e) d x y = cc
tie_one_loses true false true pre_b ra rb a b d x y = cc
tie_one_loses true false false pre_b ra rb (inl e) b d x y = cc
tie_one_loses true false false pre_b ra rb (inr e) b d x y = cc
tie_one_loses false marked_b pre_a true ra rb a b d x y = cc
tie_one_loses false true pre_a false ra rb a (inl e) d x y = cc
tie_one_loses false true pre_a false ra rb a (inr e) d x y = cc
tie_one_loses false false true false ra rb a b d x y = cc
tie_one_loses false false false false ra rb a b d x y = ground arith

-- One of two nodes with a known comparison is not outranked by the other.
not_both-Outranked :
    (a b : Self) (pre_a pre_b p q : Bool)
    → IsShown a.pre_gtid pre_a
    → IsShown b.pre_gtid pre_b
    → a.seed_rank ≢ b.seed_rank
    → Outranked a.pre_gtid a.seed_rank b.seed_rank
        (relation_by a b.seed_rank b.generation pre_b (p, q))
    → Outranked b.pre_gtid b.seed_rank a.seed_rank
        (relation_by b a.seed_rank a.generation pre_a (q, p))
    → ⊥
not_both-Outranked a b pre_a pre_b true true sa sb d x y =
    tie_one_loses a.pre_gtid b.pre_gtid pre_a pre_b a.seed_rank b.seed_rank sa sb d x y
not_both-Outranked a b pre_a pre_b true false sa sb d x y = y
not_both-Outranked a b pre_a pre_b false true sa sb d x y = x
not_both-Outranked a b pre_a pre_b false false sa sb d x y =
    let one_wins = diverged_one_wins a.generation b.generation a.seed_rank b.seed_rank d in
    elim (Bool-cases (diverged_peer_wins a.generation a.seed_rank b.generation b.seed_rank)) [
      | inl e ↦ rw e at x
      | inr e ↦
          let f : diverged_peer_wins b.generation b.seed_rank a.generation a.seed_rank ≡ true =
            ground arith in
          rw f at y
    ]

advertised_relation :
    (gtid_compare : GtidCompare) (seeds : List Str) (a b : Self) (host : Str) (answer : PeerAnswer)
    (relation : PeerRelation)
    → Advertises b answer
    → relation_of gtid_compare seeds a host answer ≡ some relation
    → (p q pre : Bool) × (gtid_compare a.gtid b.gtid ≡ some (p, q))
      × IsShown b.pre_gtid pre
      × (relation ≡ relation_by a (rank_of seeds host) b.generation pre (p, q))
unfolding relation_of relation_of_set
advertised_relation gtid_compare seeds a b host (PeerAnswer.state s) relation (g, w, pre) h =
    elim (Option-cases (gtid_compare a.gtid b.gtid)) [
      | inl e ↦ cc (let k : none ≡ some relation = rw (g, relation_of_set, e) at h in k)
      | inr ((p, q), e) ↦
          let k : some
                (relation_by a (rank_of seeds host) s.waiver_generation s.pre_gtid_data (p, q))
              ≡ some relation =
            rw (g, relation_of_set, e) at h in
          (p, q, s.pre_gtid_data, e, pre, cc)
    ]
advertised_relation gtid_compare seeds a b host not_ready relation adv h = absurd adv
advertised_relation gtid_compare seeds a b host unreachable relation adv h = absurd adv

-- What `Beats` says of a peer that advertises the node `b`.
Beats-node :
    (gtid_compare : GtidCompare) (seeds : List Str) (a b : Self) (host : Str) (answer : PeerAnswer)
    → Advertises b answer
    → rank_of seeds host ≡ b.seed_rank
    → Beats gtid_compare seeds a host answer
    → (p q pre : Bool) × (gtid_compare a.gtid b.gtid ≡ some (p, q))
      × IsShown b.pre_gtid pre
      × Outranked a.pre_gtid a.seed_rank b.seed_rank
          (relation_by a b.seed_rank b.generation pre (p, q))
Beats-node gtid_compare seeds a b host answer adv rank (relation, e, o) =
    let (p, q, pre, c, shown, same) =
      advertised_relation gtid_compare seeds a b host answer relation adv e in
    (
      p,
      q,
      pre,
      c,
      shown,
      subst
          (λ (r : ℕ). Outranked a.pre_gtid a.seed_rank r (relation_by a r b.generation pre (p, q)))
          rank (subst (Outranked a.pre_gtid a.seed_rank (rank_of seeds host)) same o),
    )

swapped-Outranked :
    (a b : Self) (pre_a pre_b p q p' q' : Bool) (answer : Option (Bool × Bool))
    → IsShown a.pre_gtid pre_a
    → IsShown b.pre_gtid pre_b
    → a.seed_rank ≢ b.seed_rank
    → answer ≡ some (q, p)
    → answer ≡ some (p', q')
    → Outranked a.pre_gtid a.seed_rank b.seed_rank
        (relation_by a b.seed_rank b.generation pre_b (p, q))
    → Outranked b.pre_gtid b.seed_rank a.seed_rank
        (relation_by b a.seed_rank a.generation pre_a (p', q'))
    → ⊥
swapped-Outranked a b pre_a pre_b p q p' q' answer sa sb d e e' x y =
    let first_eq : p' ≡ q = cc in
    let second_eq : q' ≡ p = cc in
    not_both-Outranked a b pre_a pre_b p q sa sb d x (let z = rw (first_eq, second_eq) at y in z)

-- Where comparing two GTID sets the other way round swaps the two answers, two nodes with different
-- places in the seed order, each of which has the other's own report in its round, never both
-- conclude that it is safe to bootstrap. A node that holds data older than its GTIDs reports it; one
-- that holds none may report it too.
pub bootstrap_unique :
    (gtid_compare : GtidCompare) (seeds : List Str) (a b : Self) (host_a host_b : Str)
    (answer_a answer_b : PeerAnswer) (round_a round_b : Answers)
    → Swaps gtid_compare
    → a.seed_rank ≢ b.seed_rank
    → rank_of seeds host_a ≡ a.seed_rank
    → rank_of seeds host_b ≡ b.seed_rank
    → Advertises a answer_a
    → Advertises b answer_b
    → In (host_b, answer_b) round_a
    → In (host_a, answer_a) round_b
    → classify_round gtid_compare seeds a round_a ≡ some safe_to_bootstrap
    → classify_round gtid_compare seeds b round_b ≢ some safe_to_bootstrap
bootstrap_unique gtid_compare seeds a b host_a host_b answer_a answer_b round_a round_b swaps d ra
      rb adv_a adv_b in_a in_b safe_a safe_b =
    let beats_b =
      (classify_round_safe gtid_compare seeds a round_a safe_a).1 host_b answer_b in_a in
    let beats_a =
      (classify_round_safe gtid_compare seeds b round_b safe_b).1 host_a answer_a in_b in
    let (p, q, pre_b, c, sb, o) =
      Beats-node gtid_compare seeds a b host_b answer_b adv_b rb beats_b in
    let (p', q', pre_a, c', sa, o') =
      Beats-node gtid_compare seeds b a host_a answer_a adv_a ra beats_a in
    swapped-Outranked a b pre_a pre_b p q p' q' (gtid_compare b.gtid a.gtid) sa sb d
      (swaps a.gtid b.gtid p q c) c' o o'
