-- ===== src/Gr/Bootstrap.antt =====
-- mysql-wrapper/src/gr.rs: the bootstrap decision (`classify_round`, `decide`). The comparison of
-- two GTID sets is mysqld's, a parameter; `none` is a failed query.
pub mod Decide
pub mod Agreement
use mysql_ha.Prelude.{
  ℕ, compare, Ordering, Bool, true, false, Option, none, some, List, [], ◌∷◌, ltb, if◌then◌else◌,
  any, find, Str,
}
use mysql_ha.Gr.State.{
  GrState, PeerAnswer, state, not_ready, unreachable, Answers, is_live, rank_of,
}

pub data PeerRelation : Type 0 where
  behind ahead diverged unknown : PeerRelation
  equal : Bool → PeerRelation

pub record PeerStanding : Type 0 where
  pub host : Str
  pub seed_rank : ℕ
  pub relation : PeerRelation

pub data BootstrapVerdict : Type 0 where
  join_existing_group safe_to_bootstrap undecidable : BootstrapVerdict
  peer_is_more_advanced defer_to_peer diverged_from : Str → BootstrapVerdict

unfoldable pub diverged_peer_wins : ℕ → ℕ → ℕ → ℕ → Bool
diverged_peer_wins my_generation my_seed_rank peer_generation peer_seed_rank =
    elim (compare peer_generation my_generation) [
      | Ordering.gt ↦ true
      | Ordering.lt ↦ false
      | Ordering.eq ↦ ltb peer_seed_rank my_seed_rank
    ]

abbrev pub is_unknown : PeerRelation → Bool
is_unknown unknown = true
is_unknown _ = false

abbrev pub is_diverged : PeerRelation → Bool
is_diverged diverged = true
is_diverged _ = false

abbrev pub is_ahead : PeerRelation → Bool
is_ahead ahead = true
is_ahead _ = false

-- The tie-break between equal datasets.
abbrev pub tie_peer_wins : Bool → Bool → ℕ → ℕ → Bool
tie_peer_wins true false peer_rank my_rank = true
tie_peer_wins false true peer_rank my_rank = false
tie_peer_wins true true peer_rank my_rank = ltb peer_rank my_rank
tie_peer_wins false false peer_rank my_rank = ltb peer_rank my_rank

abbrev pub peer_wins_tie : Bool → ℕ → PeerStanding → PeerRelation → Bool
peer_wins_tie my_pre_gtid my_seed_rank p (equal pre) =
    tie_peer_wins pre my_pre_gtid p.seed_rank my_seed_rank
peer_wins_tie my_pre_gtid my_seed_rank p _ = false

-- The `for` loop of `decide`: the first peer that wins a tie.
abbrev tie_winner : Bool → ℕ → List PeerStanding → Option PeerStanding
tie_winner my_pre_gtid my_seed_rank =
    find (λ p. peer_wins_tie my_pre_gtid my_seed_rank p p.relation)

abbrev named_or :
    (Str → BootstrapVerdict) → Option PeerStanding → BootstrapVerdict → BootstrapVerdict
named_or verdict none otherwise = otherwise
named_or verdict (some p) otherwise = verdict p.host

unfoldable pub decide : Bool → ℕ → List PeerStanding → BootstrapVerdict
decide my_pre_gtid my_seed_rank peers =
    if any (λ p. is_unknown p.relation) peers
    then undecidable
    else named_or diverged_from (find (λ p. is_diverged p.relation) peers) (
        named_or peer_is_more_advanced (find (λ p. is_ahead p.relation) peers)
          (named_or defer_to_peer (tie_winner my_pre_gtid my_seed_rank peers) safe_to_bootstrap))

-- What a node knows of itself in a round.
pub record Self : Type 0 where
  pub gtid : Str
  pub generation : ℕ
  pub seed_rank : ℕ
  pub pre_gtid : Bool

-- `(peer_sub_mine, mine_sub_peer)`, in the source's order of arguments: mine, then the peer's.
abbrev pub GtidCompare : Type 0
GtidCompare = Str → Str → Option (Bool × Bool)

abbrev pub relation_by : Self → ℕ → ℕ → Bool → Bool × Bool → PeerRelation
relation_by me peer_rank peer_generation peer_pre (true, true) = equal peer_pre
relation_by me peer_rank peer_generation peer_pre (true, false) = behind
relation_by me peer_rank peer_generation peer_pre (false, true) = ahead
relation_by me peer_rank peer_generation peer_pre (false, false) =
    if diverged_peer_wins me.generation me.seed_rank peer_generation peer_rank
    then ahead
    else behind

module _ (gtid_compare : GtidCompare) (seeds : List Str) (me : Self) where
  unfoldable pub relation_of_set : Str → GrState → Option Str → Option PeerRelation
  relation_of_set host s none = some unknown
  relation_of_set host s (some peer_gtid) = elim (gtid_compare me.gtid peer_gtid) [
    | none ↦ none
    | some order ↦
        some (relation_by me (rank_of seeds host) s.waiver_generation s.pre_gtid_data order)
  ]

  -- The relation of one answer.
  unfoldable pub relation_of : Str → PeerAnswer → Option PeerRelation
  relation_of host (PeerAnswer.state s) = relation_of_set host s s.gtid_executed
  relation_of host not_ready = some unknown
  relation_of host unreachable = some unknown

  -- The loop over the answers.
  unfoldable pub standings : Answers → Option (List PeerStanding)
  standings [] = some []
  standings ((host, answer) ∷ rest) =
      let later = standings rest in
      elim (relation_of host answer) [
        | none ↦ none
        | some relation ↦ elim later [
          | none ↦ none
          | some peers ↦
              some (
                record { host = host; seed_rank = rank_of seeds host; relation = relation } ∷ peers)
        ]
      ]

  unfoldable pub classify_round : Answers → Option BootstrapVerdict
  classify_round answers =
      if any (λ a. is_live a.1) answers
      then some join_existing_group
      else elim (standings answers) [
        | none ↦ none
        | some peers ↦ some (decide me.pre_gtid me.seed_rank peers)
      ]
