-- ===== src/Gr/Answers/BlockSize.antt =====
-- mysql-wrapper/src/gr.rs: the block size that a joiner adopts.
use mysql_ha.Prelude.{
  ℕ, ◌≡◌, ap, ◌∙◌, inl, inr, true, Option, none, some, [], ◌∷◌, arith, Bool-cases, Option-cases, In,
  Str,
}
use mysql_ha.Gr.State.{PeerAnswer, not_ready, unreachable, Answers}
use mysql_ha.Gr.Answers.{find_map, advertised_block_size, unless_same, block_size_to_adopt}

-- An answer of a live member that advertises this block size.
abbrev pub AdvertisesSize : ℕ → PeerAnswer → Type 0
AdvertisesSize size (PeerAnswer.state s) =
    (s.group_active ≡ true) × (s.gtid_assignment_block_size ≡ some size)
AdvertisesSize size not_ready = ⊥
AdvertisesSize size unreachable = ⊥

advertised_by :
    (x : Str × PeerAnswer) (size : ℕ)
    → advertised_block_size x ≡ some size
    → AdvertisesSize size x.1
advertised_by (host, PeerAnswer.state s) size h = elim (Bool-cases s.group_active) [
  | inl live ↦ (live, let k : s.gtid_assignment_block_size ≡ some size = rw live at h in k)
  | inr idle ↦ cc (let k : none ≡ some size = rw idle at h in k)
]
advertised_by (host, not_ready) size h = cc
advertised_by (host, unreachable) size h = cc

find_map-some :
    (answers : Answers) (size : ℕ)
    → find_map advertised_block_size answers ≡ some size
    → (host : Str) × (answer : PeerAnswer) × In (host, answer) answers × AdvertisesSize size answer
unfolding find_map
find_map-some [] size h = cc
find_map-some (x ∷ xs) size h = elim (Option-cases (advertised_block_size x)) [
  | inl e ↦
      let later : find_map advertised_block_size xs ≡ some size = rw (e, find_map) at h in
      let (host, answer, m, a) = find_map-some xs size later in (host, answer, In.there m, a)
  | inr (y, e) ↦
      let value : some y ≡ some size = rw (e, find_map) at h in
      (x.0, x.1, In.here, advertised_by x size (e ∙ value))
]

unless_same-cases :
    (local : Option ℕ) (group size : ℕ)
    → unless_same local group ≡ some size
    → (group ≡ size) × (unless_same (some size) group ≡ none)
unless_same-cases none group size h = ground arith
unless_same-cases (some mine) group size h = ground arith

-- A block size to adopt is one that a live member of the group advertises, and a node that has
-- adopted it has nothing left to change in the same round.
pub block_size_to_adopt_settles :
    (local : Option ℕ) (answers : Answers) (size : ℕ)
    → block_size_to_adopt local answers ≡ some size
    → ((host : Str) × (answer : PeerAnswer) × In (host, answer) answers
        × AdvertisesSize size answer)
      × (block_size_to_adopt (some size) answers ≡ none)
unfolding block_size_to_adopt
block_size_to_adopt_settles local answers size h =
    elim (Option-cases (find_map advertised_block_size answers)) [
      | inl e ↦ cc (let k : none ≡ some size = rw (e, block_size_to_adopt) at h in k)
      | inr (group, e) ↦
          let k : unless_same local group ≡ some size = rw (e, block_size_to_adopt) at h in
          let (same, settled) = unless_same-cases local group size k in
          let found : find_map advertised_block_size answers ≡ some size = e ∙ ap some same in
          (find_map-some answers size found, rw (e, block_size_to_adopt) settled)
    ]
