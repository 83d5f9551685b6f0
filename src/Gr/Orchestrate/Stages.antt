-- ===== src/Gr/Orchestrate/Stages.antt =====
-- mysql-wrapper/src/gr.rs, `orchestrate`: what it takes for a stage of a turn to let the turn go
-- on, and the deeds that a stage never does.
use mysql_ha.Prelude.{
  ℕ, ◌≡◌, refl, ◌⊎◌, inl, inr, Bool, true, false, Option, none, some, List, [], ◌∷◌, ◌++◌, arith,
  is_some, Bool-cases, any, Str, str_eq, str_eq_iff,
}
use mysql_ha.Gr.State.{Answers}
use mysql_ha.Gr.Answers.{uuid_collision_peer}
use mysql_ha.Gr.Orchestrate.Local.{Volume, persist_group_name, persist_waiver_generation}
use mysql_ha.Gr.Orchestrate.Node.{Node, Pass, Deed, Progress, then_do}
use mysql_ha.Gr.Orchestrate.Live.{
  on_collision, collision_stage, adopt_name, adopt_stage, raise_generation,
}
use mysql_ha.Gr.Orchestrate.Loop.{is_start, is_clone, is_bootstrap}

abbrev pub progress : Node → List Deed → Bool → Progress
progress n deeds goes_on = record { node = n; deeds = deeds; goes_on = goes_on }

pub any-append_cases :
    (p : Deed → Bool) (xs ys : List Deed)
    → any p (xs ++ ys) ≡ true
    → (any p xs ≡ true) ⊎ (any p ys ≡ true)
any-append_cases p [] ys h = inr h
any-append_cases p (x ∷ xs) ys h = elim (Bool-cases (p x)) [
  | inl hit ↦ inl (rw hit refl)
  | inr miss ↦
      let rest : any p (xs ++ ys) ≡ true = let x = rw miss at h in x in
      elim (any-append_cases p xs ys rest) [ inl e ↦ inl (rw (miss, e) refl) | inr e ↦ inr e ]
]

then_do-deeds_at :
    (p : Deed → Bool) (n : Node) (deeds : List Deed) (goes_on : Bool) (next : Node → Progress)
    → any p (then_do (progress n deeds goes_on) next).deeds ≡ true
    → (any p deeds ≡ true) ⊎ (goes_on ≡ true) × (any p (next n).deeds ≡ true)
then_do-deeds_at p n deeds true next h = elim (any-append_cases p deeds (next n).deeds h) [
  | inl e ↦ inl e
  | inr e ↦ inr (refl, e)
]
then_do-deeds_at p n deeds false next h = inl h

-- A deed of two stages is one of the first, or the first lets the second do it.
pub then_do-deeds :
    (p : Deed → Bool) (q : Progress) (next : Node → Progress)
    → any p (then_do q next).deeds ≡ true
    → (any p q.deeds ≡ true) ⊎ (q.goes_on ≡ true) × (any p (next q.node).deeds ≡ true)
then_do-deeds p q next h = then_do-deeds_at p q.node q.deeds q.goes_on next h

pub then_do-passes :
    (p : Deed → Bool) (q : Progress) (next : Node → Progress)
    → any p q.deeds ≡ false
    → any p (then_do q next).deeds ≡ true
    → (q.goes_on ≡ true) × (any p (next q.node).deeds ≡ true)
then_do-passes p q next quiet h = elim (then_do-deeds p q next h) [ inl e ↦ cc | inr e ↦ e ]

pub then_do-node_at :
    (n : Node) (deeds : List Deed) (goes_on : Bool) (next : Node → Progress)
    → goes_on ≡ true
    → (then_do (progress n deeds goes_on) next).node ≡ (next n).node
then_do-node_at n deeds true next h = refl
then_do-node_at n deeds false next h = cc

pub then_do-node :
    (q : Progress) (next : Node → Progress)
    → q.goes_on ≡ true
    → (then_do q next).node ≡ (next q.node).node
then_do-node q next h = then_do-node_at q.node q.deeds q.goes_on next h

-- Two deeds that only the last stages do.
abbrev pub IsLate : (Deed → Bool) → Type 0
IsLate p =
    (p Deed.remove_auto_cnf ≡ false)
    × (p Deed.shutdown_server ≡ false)
    × ((name : Str) → p (Deed.set_group_name name) ≡ false)
    × ((size : ℕ) → p (Deed.set_block_size size) ≡ false)

pub is_start-IsLate : IsLate is_start
is_start-IsLate = (refl, refl, λ name. refl, λ size. refl)

pub is_clone-IsLate : IsLate is_clone
is_clone-IsLate = (refl, refl, λ name. refl, λ size. refl)

pub is_bootstrap-IsLate : IsLate is_bootstrap
is_bootstrap-IsLate = (refl, refl, λ name. refl, λ size. refl)

collision_quiet :
    (p : Deed → Bool) (n : Node) (removes : Bool) (o : Option Str)
    → IsLate p
    → any p (on_collision n removes o).deeds ≡ false
unfolding on_collision
collision_quiet p n removes none late = refl
collision_quiet p n true (some peer) (a, b, c, d) = rw (a, b) refl
collision_quiet p n false (some peer) (a, b, c, d) = rw a refl

pub collision_stage-quiet :
    (p : Deed → Bool) (n : Node) (removes : Bool) (answers : Answers) (o : Option Str)
    → IsLate p
    → any p (collision_stage n removes answers o).deeds ≡ false
unfolding collision_stage
collision_stage-quiet p n removes answers none late = refl
collision_stage-quiet p n removes answers (some u) late = collision_quiet p n removes _ late

on_collision-passes :
    (n : Node) (removes : Bool) (o : Option Str)
    → (on_collision n removes o).goes_on ≡ true
    → (o ≡ none) × ((on_collision n removes o).node ≡ n)
unfolding on_collision
on_collision-passes n removes none h = (refl, refl)
on_collision-passes n true (some peer) h = cc
on_collision-passes n false (some peer) h = cc

-- The uuid is read and no live member has it.
pub collision_stage-passes :
    (n : Node) (removes : Bool) (answers : Answers) (o : Option Str)
    → (collision_stage n removes answers o).goes_on ≡ true
    → ((u : Str) × (o ≡ some u) × (uuid_collision_peer u answers ≡ none))
      × ((collision_stage n removes answers o).node ≡ n)
unfolding collision_stage
collision_stage-passes n removes answers none h = cc
collision_stage-passes n removes answers (some u) h =
    let (free, same) = on_collision-passes n removes _ h in ((u, refl, free), same)

-- The markers of the volume that the guards read are kept.
abbrev pub SameMarkers : Node → Node → Type 0
SameMarkers n m = (m.volume.pre_gtid ≡ n.volume.pre_gtid) × (m.volume.member ≡ n.volume.member)

persist-pre_gtid :
    (writes_name writes_generation : Bool) (name : Str) (generation : ℕ) (v : Volume)
    → let after =
        raise_generation writes_generation generation (persist_group_name writes_name name v) in
      (after.pre_gtid ≡ v.pre_gtid) × (after.member ≡ v.member)
unfolding persist_group_name persist_waiver_generation
persist-pre_gtid true true name generation v = ground arith
persist-pre_gtid true false name generation v = ground arith
persist-pre_gtid false true name generation v = ground arith
persist-pre_gtid false false name generation v = ground arith

adopt_name-quiet :
    (p : Deed → Bool) (n : Node) (r : Pass) (name : Str) (generation : ℕ) (sets : Bool)
    → IsLate p
    → r.sets_group_name ≡ sets
    → any p (adopt_name n r name generation).deeds ≡ false
unfolding adopt_name
adopt_name-quiet p n r name generation true (a, b, late, d) e = rw (e, late name) refl
adopt_name-quiet p n r name generation false (a, b, late, d) e = rw (e, late name) refl

pub adopt_stage-quiet :
    (p : Deed → Bool) (n : Node) (r : Pass) (pinned : Option Str) (o : Option (Str × ℕ))
    → IsLate p
    → any p (adopt_stage n r pinned o).deeds ≡ false
unfolding adopt_stage
adopt_stage-quiet p n r pinned none late = refl
adopt_stage-quiet p n r pinned (some (name, g)) late =
    elim (Bool-cases (str_eq name n.group_name)) [
      | inl same ↦ rw same refl
      | inr differs ↦ elim (Bool-cases (is_some pinned)) [
        | inl fixed ↦ rw (differs, fixed) refl
        | inr free ↦ rw (differs, free) (adopt_name-quiet p n r name g r.sets_group_name late refl)
      ]
    ]

-- The node goes by the name, where the live group has one.
abbrev pub GoesBy : Option (Str × ℕ) → Str → Type 0
GoesBy identity group_name =
    (identity ≡ none) ⊎ ((generation : ℕ) × (identity ≡ some (group_name, generation)))

adopt_name-passes :
    (n : Node) (r : Pass) (name : Str) (g : ℕ) (sets : Bool)
    → r.sets_group_name ≡ sets
    → (adopt_name n r name g).goes_on ≡ true
    → GoesBy (some (name, g)) (adopt_name n r name g).node.group_name
      × SameMarkers n (adopt_name n r name g).node
unfolding adopt_name
adopt_name-passes n r name g true e h =
    rw e (inr (g, refl), persist-pre_gtid r.persists_name r.persists_generation name g n.volume)
adopt_name-passes n r name g false e h = cc (let x : false ≡ true = rw e at h in x)

pub adopt_stage-passes :
    (n : Node) (r : Pass) (pinned : Option Str) (o : Option (Str × ℕ))
    → (adopt_stage n r pinned o).goes_on ≡ true
    → GoesBy o (adopt_stage n r pinned o).node.group_name
      × SameMarkers n (adopt_stage n r pinned o).node
unfolding adopt_stage
adopt_stage-passes n r pinned none h = (inl refl, (refl, refl))
adopt_stage-passes n r pinned (some (name, g)) h = elim (Bool-cases (str_eq name n.group_name)) [
  | inl same ↦
      let e : name ≡ n.group_name = (str_eq_iff name n.group_name).0 same in
      rw same (inr (g, cc), (refl, refl))
  | inr differs ↦ elim (Bool-cases (is_some pinned)) [
    | inl fixed ↦ cc (let x : false ≡ true = rw (differs, fixed) at h in x)
    | inr free ↦
        let passes : (adopt_name n r name g).goes_on ≡ true =
          let x = rw (differs, free) at h in x in
        rw (differs, free) (adopt_name-passes n r name g r.sets_group_name refl passes)
  ]
]
