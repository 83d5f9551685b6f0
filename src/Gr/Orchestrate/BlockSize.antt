-- ===== src/Gr/Orchestrate/BlockSize.antt =====
-- mysql-wrapper/src/gr.rs: the block size of a live group (`resolve_peer_block_sizes`) as the
-- stage of the loop that takes it over.
use mysql_ha.Prelude.{
  ℕ, ◌≡◌, refl, ap, subst, ◌⊎◌, inl, inr, Bool, true, false, Option, none, some, List, [], ◌∷◌,
  ◌==◌, ==_iff, Bool-cases, Option-cases, any, Str,
}
use mysql_ha.Gr.State.{GrState, PeerAnswer, not_ready, unreachable, Answers}
use mysql_ha.Gr.Answers.{find_map, advertised_block_size, block_size_to_adopt}
use mysql_ha.Gr.Orchestrate.Local.{
  AskBlockSize, asked, resolve_first, advertises, resolve_peer_block_sizes,
}
use mysql_ha.Gr.Orchestrate.Node.{Node, Deed, set_block_size}
use mysql_ha.Gr.Orchestrate.Live.{on_block_size, block_size_stage}
use mysql_ha.Gr.Orchestrate.Stages.{IsLate}

abbrev pub Advertised : Answers → Type 0
Advertised answers = (size : ℕ) × (find_map advertised_block_size answers ≡ some size)

advertised-of :
    (host : Str) (s : GrState) (size : ℕ)
    → s.group_active ≡ true
    → advertised_block_size
        (host, PeerAnswer.state (record s { gtid_assignment_block_size = some size }))
      ≡ some size
advertised-of host s size h = rw h refl

asked-active :
    (ask : AskBlockSize) (host : Str) (s : GrState) (uuid group : Option Str) (size : ℕ)
    → asked ask host s uuid group ≡ some size
    → s.group_active ≡ true
unfolding asked
asked-active ask host s (some uuid) (some group) size h = elim (Bool-cases s.group_active) [
  | inl live ↦ live
  | inr idle ↦ cc (let x : none ≡ some size = rw idle at h in x)
]
asked-active ask host s (some uuid) none size h = cc
asked-active ask host s none group size h = cc

Advertised-cons : (x : Str × PeerAnswer) (rest : Answers) → Advertised rest → Advertised (x ∷ rest)
unfolding find_map
Advertised-cons x rest (size, e) = elim (Option-cases (advertised_block_size x)) [
  | inl silent ↦ (size, rw (silent, find_map, e) refl)
  | inr (own, told) ↦ (own, rw (told, find_map) refl)
]

Advertised-here :
    (x : Str × PeerAnswer) (rest : Answers) (size : ℕ)
    → advertised_block_size x ≡ some size
    → Advertised (x ∷ rest)
unfolding find_map
Advertised-here x rest size e = (size, rw (e, find_map) refl)

advertises-told :
    (x : Str × PeerAnswer)
    → advertises x.1 ≡ true
    → (size : ℕ) × (advertised_block_size x ≡ some size)
advertises-told (host, PeerAnswer.state s) h = elim (Bool-cases s.group_active) [
  | inr idle ↦ cc (let x : false ≡ true = rw idle at h in x)
  | inl live ↦ elim (Option-cases s.gtid_assignment_block_size) [
    | inl e ↦ cc (let x : false ≡ true = rw (live, e) at h in x)
    | inr (size, e) ↦ (size, rw (live, e) refl)
  ]
]
advertises-told (host, not_ready) h = cc
advertises-told (host, unreachable) h = cc

any-advertises : (answers : Answers) → any (λ a. advertises a.1) answers ≡ true → Advertised answers
any-advertises [] h = cc
any-advertises (x ∷ rest) h = elim (Bool-cases (advertises x.1)) [
  | inl told ↦ let (size, e) = advertises-told x told in Advertised-here x rest size e
  | inr silent ↦
      let later : any (λ a. advertises a.1) rest ≡ true = let y = rw silent at h in y in
      Advertised-cons x rest (any-advertises rest later)
]

resolve_first-told :
    (ask : AskBlockSize) (answers after : Answers)
    → resolve_first ask answers ≡ some after
    → Advertised after
unfolding resolve_first
resolve_first-told ask [] after h = cc
resolve_first-told ask ((host, PeerAnswer.state s) ∷ rest) after h =
    elim (Option-cases (asked ask host s s.server_uuid s.group_name)) [
      | inr (size, e) ↦
          let told : GrState = record s { gtid_assignment_block_size = some size } in
          let same : some ((host, PeerAnswer.state told) ∷ rest) ≡ some after =
            let x = rw (e, resolve_first) at h in x in
          let list : (host, PeerAnswer.state told) ∷ rest ≡ after = cc in
          subst Advertised list (
            Advertised-here (host, PeerAnswer.state told) rest size
              (advertised-of host s size
                (asked-active ask host s s.server_uuid s.group_name size e)))
      | inl e ↦ elim (Option-cases (resolve_first ask rest)) [
        | inl none_left ↦
            cc (let x : none ≡ some after = rw (e, resolve_first, none_left) at h in x)
        | inr (answers, more) ↦
            let same : some ((host, PeerAnswer.state s) ∷ answers) ≡ some after =
              let x = rw (e, resolve_first, more) at h in x in
            let list : (host, PeerAnswer.state s) ∷ answers ≡ after = cc in
            subst Advertised list (
              Advertised-cons (host, PeerAnswer.state s) answers
                (resolve_first-told ask rest answers more))
      ]
    ]
resolve_first-told ask ((host, not_ready) ∷ rest) after h =
    elim (Option-cases (resolve_first ask rest)) [
      | inl none_left ↦ cc (let x : none ≡ some after = rw none_left at h in x)
      | inr (answers, more) ↦
          let same : some ((host, not_ready) ∷ answers) ≡ some after = let x = rw more at h in x in
          let list : (host, not_ready) ∷ answers ≡ after = cc in
          subst Advertised list
            (Advertised-cons (host, not_ready) answers (resolve_first-told ask rest answers more))
    ]
resolve_first-told ask ((host, unreachable) ∷ rest) after h =
    elim (Option-cases (resolve_first ask rest)) [
      | inl none_left ↦ cc (let x : none ≡ some after = rw none_left at h in x)
      | inr (answers, more) ↦
          let same : some ((host, unreachable) ∷ answers) ≡ some after =
            let x = rw more at h in x in
          let list : (host, unreachable) ∷ answers ≡ after = cc in
          subst Advertised list
            (Advertised-cons (host, unreachable) answers (resolve_first-told ask rest answers more))
    ]

resolve-Advertised :
    (ask : AskBlockSize) (answers after : Answers)
    → resolve_peer_block_sizes ask answers ≡ some after
    → Advertised after
unfolding resolve_peer_block_sizes
resolve-Advertised ask answers after h = elim (Bool-cases (any (λ a. advertises a.1) answers)) [
  | inl told ↦
      let same : some answers ≡ some after = let x = rw told at h in x in
      let list : answers ≡ after = cc in subst Advertised list (any-advertises answers told)
  | inr silent ↦
      let first_told : resolve_first ask answers ≡ some after = let x = rw silent at h in x in
      resolve_first-told ask answers after first_told
]

-- The block size of the node is the one that the live group has told, or is set to it, and the
-- server takes it.
abbrev pub SizeOf : AskBlockSize → Answers → Bool → Option ℕ → List Deed → Type 0
SizeOf ask answers sets mine deeds =
    (told : Answers) × (group : ℕ) × (resolve_peer_block_sizes ask answers ≡ some told)
    × (find_map advertised_block_size told ≡ some group)
    × ((mine ≡ some group) ⊎ ((deeds ≡ set_block_size group ∷ []) × (sets ≡ true)))

block_size_to_adopt-told :
    (mine : Option ℕ) (answers : Answers) (group : ℕ)
    → find_map advertised_block_size answers ≡ some group
    → ((mine ≡ some group) × (block_size_to_adopt mine answers ≡ none))
      ⊎ (block_size_to_adopt mine answers ≡ some group)
unfolding block_size_to_adopt
block_size_to_adopt-told none answers group e = inr (rw (e, block_size_to_adopt) refl)
block_size_to_adopt-told (some own) answers group e = elim (Bool-cases (own == group)) [
  | inl same ↦ inl (ap some ((==_iff own group).0 same), rw (e, block_size_to_adopt, same) refl)
  | inr differs ↦ inr (rw (e, block_size_to_adopt, differs) refl)
]

block_size-passes :
    (n : Node) (sets : Bool) (mine : Option ℕ) (ask : AskBlockSize) (answers : Answers)
    (o : Option Answers)
    → resolve_peer_block_sizes ask answers ≡ o
    → (block_size_stage n sets mine o).goes_on ≡ true
    → let p = block_size_stage n sets mine o in SizeOf ask answers sets mine p.deeds × (p.node ≡ n)
unfolding block_size_stage on_block_size
block_size-passes n sets mine ask answers none e h = cc
block_size-passes n sets mine ask answers (some told) e h =
    let (group, f) = resolve-Advertised ask answers told e in
    elim (block_size_to_adopt-told mine told group f) [
      | inl (same, keep) ↦ rw (keep, on_block_size) ((told, group, e, f, inl same), refl)
      | inr adopt ↦
          let taken : sets ≡ true = let x = rw (adopt, on_block_size) at h in x in
          rw (adopt, on_block_size) ((told, group, e, f, inr (refl, taken)), refl)
    ]

pub block_size_stage-passes :
    (n : Node) (sets : Bool) (mine : Option ℕ) (ask : AskBlockSize) (answers : Answers)
    → (block_size_stage n sets mine (resolve_peer_block_sizes ask answers)).goes_on ≡ true
    → let p = block_size_stage n sets mine (resolve_peer_block_sizes ask answers) in
      SizeOf ask answers sets mine p.deeds × (p.node ≡ n)
block_size_stage-passes n sets mine ask answers h =
    block_size-passes n sets mine ask answers (resolve_peer_block_sizes ask answers) refl h

on_block_size-quiet :
    (p : Deed → Bool) (n : Node) (sets : Bool) (o : Option ℕ)
    → IsLate p
    → any p (on_block_size n sets o).deeds ≡ false
unfolding on_block_size
on_block_size-quiet p n sets none late = refl
on_block_size-quiet p n sets (some group) (a, b, d, late) = rw (late group) refl

pub block_size_stage-quiet :
    (p : Deed → Bool) (n : Node) (sets : Bool) (mine : Option ℕ) (o : Option Answers)
    → IsLate p
    → any p (block_size_stage n sets mine o).deeds ≡ false
unfolding block_size_stage
block_size_stage-quiet p n sets mine none late = refl
block_size_stage-quiet p n sets mine (some answers) late = on_block_size-quiet p n sets _ late
