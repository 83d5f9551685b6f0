-- ===== src/Gr/Orchestrate/Generation.antt =====
-- mysql-wrapper/src/gr.rs, `orchestrate`: the name and the generation of a group that is
-- bootstrapped past peers that are given up.
use mysql_ha.Prelude.{
  ℕ, ◌+◌, ◌%◌, ◌^◌, ◌≤◌, ◌<◌, max, ◌≡◌, refl, sym, ap, ◌∙◌, subst, ◌⊎◌, inl, inr, Bool, true, false,
  not, [], ◌∷◌, arith, Bool-cases, any, In, All, In-cons, All-In, All-of_In, In-filter, filter-In,
  Str,
}
use mysql_ha.Gr.State.{PeerAnswer, not_ready, unreachable, Answers}
use mysql_ha.Gr.Gone.{GoneTracker}
use mysql_ha.Gr.Orchestrate.Local.{Volume, persist_group_name, persist_waiver_generation}
use mysql_ha.Gr.Orchestrate.Node.{OrchestrateConfig, Node, Pass, set_group_name, Progress}
use mysql_ha.Gr.Orchestrate.Bootstrapping.{
  is_given_up, given_up, any_waived, considered, generation_of, peer_generations, next_generation,
}
use mysql_ha.Gr.Orchestrate.Loop.{may_waive, tracked, turn, is_bootstrap}
use mysql_ha.Gr.Orchestrate.Fork.{minted_volume, Minted, turn-bootstrap}

-- A generation that is not the last of its 64 bits.
abbrev pub IsCounted : ℕ → Type 0
IsCounted generation = generation + 1 < 2 ^ 64

max-left : (a b : ℕ) → a ≤ max a b
max-left a b = omega arith

max-later : (a b x : ℕ) → x ≤ b → x ≤ max a b
max-later a b x h = omega arith

max-IsCounted : (a b : ℕ) → IsCounted a → IsCounted b → IsCounted (max a b)
max-IsCounted a b h k = omega arith

wrapped :
    (a b : ℕ)
    → IsCounted a
    → IsCounted b
    → (a < (max a b + 1) % 2 ^ 64) × (b < (max a b + 1) % 2 ^ 64)
wrapped a b h k = (omega arith, omega arith)

generation-le :
    (answers : Answers) {a : Str × PeerAnswer}
    → In a answers
    → generation_of a.1 ≤ peer_generations answers
unfolding peer_generations
generation-le [] m = elim m [ ]
generation-le (x ∷ rest) m = elim (In-cons m) [
  | inl e ↦ rw e (max-left (generation_of x.1) (peer_generations rest))
  | inr later ↦ max-later (generation_of x.1) (peer_generations rest) _ (generation-le rest later)
]

peer_generations-IsCounted :
    (answers : Answers)
    → ((a : Str × PeerAnswer) → In a answers → IsCounted (generation_of a.1))
    → IsCounted (peer_generations answers)
unfolding peer_generations
peer_generations-IsCounted [] h = omega arith
peer_generations-IsCounted (x ∷ rest) h =
    max-IsCounted (generation_of x.1) (peer_generations rest) (h x In.here)
      (peer_generations-IsCounted rest (λ a m. h a (In.there m)))

-- The next generation is above the node's own and those of the peers.
next_generation-above :
    (v : Volume) (answers : Answers)
    → IsCounted v.generation
    → IsCounted (peer_generations answers)
    → (v.generation < next_generation v answers)
      × (peer_generations answers < next_generation v answers)
unfolding next_generation
next_generation-above v answers own peers =
    wrapped v.generation (peer_generations answers) own peers

given_up-generation :
    (may : Bool) (tracker : GoneTracker) (now dwell : ℕ) (a : Str × PeerAnswer)
    → is_given_up may tracker now dwell a ≡ true
    → generation_of a.1 ≡ 0
given_up-generation may tracker now dwell (host, PeerAnswer.state s) h = cc
given_up-generation may tracker now dwell (host, not_ready) h = cc
given_up-generation may tracker now dwell (host, unreachable) h = refl

-- The generation is above those of the node and of every peer that answered.
abbrev pub Outlives : Pass → ℕ → ℕ → Type 0
Outlives r own generation = (own < generation) × All (λ a. generation_of a.1 < generation) r.answers

considered-All :
    (c : OrchestrateConfig) (n : Node) (r : Pass) (may : Bool) (generation : ℕ)
    → peer_generations (considered c n r may) < generation
    → All (λ a. generation_of a.1 < generation) r.answers
unfolding considered
considered-All c n r may generation h = All-of_In _ r.answers λ a m.
    elim (Bool-cases (given_up c n r may a)) [
      | inl up ↦
          let none_told : generation_of a.1 ≡ 0 =
            given_up-generation may n.gone_tracker r.now c.gone_dwell a up in
          omega arith
      | inr kept ↦
          let below : generation_of a.1 ≤ peer_generations (considered c n r may) =
            generation-le (considered c n r may)
              (filter-In (λ x. not (given_up c n r may x)) r.answers m (rw kept refl)) in
          omega arith
    ]

-- The group's name is the fresh one, which the turn has set on the server, and the server has taken
-- it; the generation on the volume is higher unless the write of the marker failed.
abbrev pub Renamed : Pass → Node → Progress → Type 0
Renamed r n p =
    (p.node.group_name ≡ r.fresh_name)
    × In (set_group_name r.fresh_name) p.deeds
    × (r.sets_group_name ≡ true)
    × ((r.persists_generation ≡ false) ⊎ Outlives r n.volume.generation p.node.volume.generation)

minted-generation :
    (r : Pass) (v : Volume) (answers : Answers)
    → (r.persists_generation ≡ false)
      ⊎ ((minted_volume r v answers).generation ≡ next_generation v answers)
unfolding persist_group_name persist_waiver_generation
minted-generation r v answers = elim (Bool-cases r.persists_generation) [
  | inl e ↦ inr (rw e refl)
  | inr e ↦ inl e
]

Minted-Renamed :
    (c : OrchestrateConfig) (r : Pass) (n : Node) (p : Progress)
    → IsCounted n.volume.generation
    → All (λ a. IsCounted (generation_of a.1)) r.answers
    → Minted r true (considered c (tracked n r) r (may_waive n r)) (tracked n r) p
    → Renamed r n p
unfolding considered
Minted-Renamed c r n p own peers (inl (w, a, b)) = cc
Minted-Renamed c r n p own peers (inr (w, name, volume, m, set)) =
    let asked = considered c (tracked n r) r (may_waive n r) in
    let (above_own, above_peers) = next_generation-above n.volume asked own (
      peer_generations-IsCounted asked λ a k.
        All-In (λ x. IsCounted (generation_of x.1)) r.answers peers
          (In-filter (λ x. not (given_up c (tracked n r) r (may_waive n r) x)) r.answers k).0) in
    (
      name,
      m,
      set,
      elim (minted-generation r n.volume asked) [
        | inl failed ↦ inl failed
        | inr e ↦
            let generation : p.node.volume.generation ≡ next_generation n.volume asked =
              ap (λ v. v.generation) volume ∙ e in
            inr (
              subst (Outlives r n.volume.generation) (sym generation) (
                above_own,
                considered-All c (tracked n r) r (may_waive n r) (next_generation n.volume asked)
                    above_peers,
              ))
      ],
    )

-- A turn that bootstraps a group keeps its name where no peer is given up. Where one is, the group
-- goes by the name minted in that turn, and the server has taken the statement that sets it; and
-- the generation on the volume is then above the node's own and above that of every peer that
-- answered, unless writing the marker failed. None of the generations is the last that fits 64 bits.
pub bootstrap_fences_fork :
    (c : OrchestrateConfig) (r : Pass) (n : Node)
    → IsCounted n.volume.generation
    → All (λ a. IsCounted (generation_of a.1)) r.answers
    → any is_bootstrap (turn c r n).deeds ≡ true
    → (any_waived c (tracked n r) r (may_waive n r) ≡ false)
        × ((turn c r n).node.group_name ≡ n.group_name)
        × ((turn c r n).node.volume ≡ n.volume)
      ⊎ (any_waived c (tracked n r) r (may_waive n r) ≡ true) × Renamed r n (turn c r n)
bootstrap_fences_fork c r n own peers h =
    let (unseen, (gtid, e, safe, dwelt, minted)) = turn-bootstrap c r n h in
    elim minted [
      | inl kept ↦ inl kept
      | inr (waived, name, volume, m, set) ↦
          inr
            (waived, Minted-Renamed c r n (turn c r n) own peers (inr (refl, name, volume, m, set)))
    ]
