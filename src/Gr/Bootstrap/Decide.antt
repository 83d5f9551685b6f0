-- ===== src/Gr/Bootstrap/Decide.antt =====
-- mysql-wrapper/src/gr.rs: `decide` lets a node bootstrap exactly when it outranks every peer.
use mysql_ha.Prelude.{
  ℕ, ◌≡◌, refl, ◌↔◌, Bool, false, none, List, [], ◌∷◌, arith, any, find, All, All-of_In, any-false,
  find-none,
}
use mysql_ha.Gr.Bootstrap.{
  PeerRelation, behind, ahead, diverged, unknown, equal, PeerStanding, safe_to_bootstrap,
  is_unknown, is_diverged, is_ahead, tie_peer_wins, peer_wins_tie, tie_winner, decide,
}

-- The peer is behind, or its dataset is the same and it loses the tie.
abbrev pub Outranked : Bool → ℕ → ℕ → PeerRelation → Type 0
Outranked my_pre my_rank peer_rank behind = Unit {0}
Outranked my_pre my_rank peer_rank (equal pre) = tie_peer_wins pre my_pre peer_rank my_rank ≡ false
Outranked my_pre my_rank peer_rank ahead = ⊥
Outranked my_pre my_rank peer_rank diverged = ⊥
Outranked my_pre my_rank peer_rank unknown = ⊥

abbrev pub AllOutranked : Bool → ℕ → List PeerStanding → Type 0
AllOutranked my_pre my_rank peers = All (λ p. Outranked my_pre my_rank p.seed_rank p.relation) peers

abbrev Clear : Bool → ℕ → List PeerStanding → Type 0
Clear my_pre my_rank peers =
    (any (λ p. is_unknown p.relation) peers ≡ false)
    × (find (λ p. is_diverged p.relation) peers ≡ none)
    × (find (λ p. is_ahead p.relation) peers ≡ none)
    × (tie_winner my_pre my_rank peers ≡ none)

Outranked-of :
    (my_pre : Bool) (my_rank : ℕ) (p : PeerStanding) (relation : PeerRelation)
    → is_unknown relation ≡ false
    → is_diverged relation ≡ false
    → is_ahead relation ≡ false
    → peer_wins_tie my_pre my_rank p relation ≡ false
    → Outranked my_pre my_rank p.seed_rank relation
Outranked-of my_pre my_rank p behind u d a t = tt
Outranked-of my_pre my_rank p (equal pre) u d a t = t
Outranked-of my_pre my_rank p ahead u d a t = cc
Outranked-of my_pre my_rank p diverged u d a t = cc
Outranked-of my_pre my_rank p unknown u d a t = cc

of_Outranked :
    (my_pre : Bool) (my_rank : ℕ) (p : PeerStanding) (relation : PeerRelation)
    → Outranked my_pre my_rank p.seed_rank relation
    → (is_unknown relation ≡ false)
      × (is_diverged relation ≡ false)
      × (is_ahead relation ≡ false)
      × (peer_wins_tie my_pre my_rank p relation ≡ false)
of_Outranked my_pre my_rank p behind o = (refl, refl, refl, refl)
of_Outranked my_pre my_rank p (equal pre) o = (refl, refl, refl, o)
of_Outranked my_pre my_rank p ahead o = absurd o
of_Outranked my_pre my_rank p diverged o = absurd o
of_Outranked my_pre my_rank p unknown o = absurd o

Clear-AllOutranked :
    (my_pre : Bool) (my_rank : ℕ) (peers : List PeerStanding)
    → Clear my_pre my_rank peers
    → AllOutranked my_pre my_rank peers
Clear-AllOutranked my_pre my_rank peers (u, d, a, t) = All-of_In _ peers λ p m.
    Outranked-of my_pre my_rank p p.relation (any-false _ peers u m) (find-none _ peers d m)
      (find-none _ peers a m) (find-none _ peers t m)

AllOutranked-Clear :
    (my_pre : Bool) (my_rank : ℕ) (peers : List PeerStanding)
    → AllOutranked my_pre my_rank peers
    → Clear my_pre my_rank peers
AllOutranked-Clear my_pre my_rank [] o = (refl, refl, refl, refl)
AllOutranked-Clear my_pre my_rank (p ∷ ps) o =
    let (u, d, a, t) = of_Outranked my_pre my_rank p p.relation o.0 in
    let (us, ds, as_, ts) = AllOutranked-Clear my_pre my_rank ps o.1 in
    (rw (u, us), rw (d, ds), rw (a, as_), rw (t, ts))

safe-Clear :
    (my_pre : Bool) (my_rank : ℕ) (peers : List PeerStanding)
    → decide my_pre my_rank peers ≡ safe_to_bootstrap
    → Clear my_pre my_rank peers
unfolding decide
safe-Clear my_pre my_rank peers h = ground arith

-- A node decides that it may bootstrap exactly when it outranks each peer: the peer is classified
-- as behind, or as equal and the peer loses the tie-break. One peer whose relation is unknown, one
-- that is ahead and one that wins a tie each suffice against it.
pub decide-safe_iff :
    (my_pre : Bool) (my_rank : ℕ) (peers : List PeerStanding)
    → (decide my_pre my_rank peers ≡ safe_to_bootstrap)
      ↔ All (λ p. Outranked my_pre my_rank p.seed_rank p.relation) peers
unfolding decide
decide-safe_iff my_pre my_rank peers = (
  (λ h. Clear-AllOutranked my_pre my_rank peers (safe-Clear my_pre my_rank peers h)),
  (λ o. let (u, d, a, t) = AllOutranked-Clear my_pre my_rank peers o in rw (u, d, a, t)),
)
