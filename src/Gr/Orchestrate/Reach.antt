-- ===== src/Gr/Orchestrate/Reach.antt =====
-- mysql-wrapper/src/gr.rs, `orchestrate`: which turns do anything at all, and how a deed of a turn
-- is traced to the stage that does it.
use mysql_ha.Prelude.{
  ℕ, zero, suc, ◌+◌, ◌-◌, ◌≡◌, refl, sym, ap, ◌∙◌, subst, inl, inr, Bool, true, false, ◌&&◌, Option,
  none, some, List, ltb, Bool-cases, false_of_ne_true, any, In, In-append_left, In-append_right,
  Str, codes, str_eq, is_str,
}
use mysql_ha.Gr.State.{GrState, Answers, MemberRow}
use mysql_ha.Gr.Answers.{group_active_from}
use mysql_ha.Gr.Bootstrap.{
  BootstrapVerdict, join_existing_group, safe_to_bootstrap, undecidable, peer_is_more_advanced,
  defer_to_peer, diverged_from,
}
use mysql_ha.Gr.Orchestrate.Local.{
  Volume, Local, own_row, state_of, reported, local_gr_state_of, note_membership,
}
use mysql_ha.Gr.Orchestrate.Node.{OrchestrateConfig, Node, Pass, Deed, Progress, then_do}
use mysql_ha.Gr.Orchestrate.Bootstrapping.{
  mint_identity, write_flag, flag_attempts, bootstrap_stage, safe_turn, on_verdict, no_group_turn,
}
use mysql_ha.Gr.Orchestrate.Stages.{progress, then_do-passes, then_do-node}

-- A deed that is not in the first stage is in the rest, and the node is that of the rest.
pub then_do-through :
    (p : Deed → Bool) (q : Progress) (next : Node → Progress) (n : Node)
    → any p q.deeds ≡ false
    → (q.goes_on ≡ true → q.node ≡ n)
    → any p (then_do q next).deeds ≡ true
    → (q.goes_on ≡ true) × (any p (next n).deeds ≡ true) × ((then_do q next).node ≡ (next n).node)
then_do-through p q next n quiet same h =
    let (goes, late) = then_do-passes p q next quiet h in
    let node : q.node ≡ n = same goes in
    (
      goes,
      subst (λ m. any p (next m).deeds ≡ true) node late,
      then_do-node q next goes ∙ ap (λ m. (next m).node) node,
    )

pub In-deeds :
    (d : Deed) (n : Node) (deeds : List Deed) (goes_on : Bool) (next : Node → Progress)
    → goes_on ≡ true
    → In d (next n).deeds
    → In d (then_do (progress n deeds goes_on) next).deeds
In-deeds d n deeds true next h m = In-append_right deeds _ m
In-deeds d n deeds false next h m = cc

pub then_do-In :
    (d : Deed) (q : Progress) (next : Node → Progress) (n : Node)
    → q.goes_on ≡ true
    → q.node ≡ n
    → In d (next n).deeds
    → In d (then_do q next).deeds
then_do-In d q next n goes same m =
    In-deeds d q.node q.deeds q.goes_on next goes (subst (λ k. In d (next k).deeds) (sym same) m)

In-earlier :
    (d : Deed) (n : Node) (deeds : List Deed) (goes_on : Bool) (next : Node → Progress)
    → In d deeds
    → In d (then_do (progress n deeds goes_on) next).deeds
In-earlier d n deeds true next m = In-append_left deeds _ m
In-earlier d n deeds false next m = m

pub then_do-earlier :
    (d : Deed) (q : Progress) (next : Node → Progress) → In d q.deeds → In d (then_do q next).deeds
then_do-earlier d q next m = In-earlier d q.node q.deeds q.goes_on next m

pub then_do-quiet :
    (p : Deed → Bool) (q : Progress) (next : Node → Progress)
    → any p q.deeds ≡ false
    → ((n : Node) → any p (next n).deeds ≡ false)
    → any p (then_do q next).deeds ≡ false
then_do-quiet p q next quiet rest = false_of_ne_true _ λ h.
    let (goes, late) = then_do-passes p q next quiet h in
    let none_late : any p (next q.node).deeds ≡ false = rest q.node in cc

-- A deed of a node that sees a live group.
abbrev pub IsOfGroup : (Deed → Bool) → Type 0
IsOfGroup p =
    (p Deed.bootstrap_group ≡ false)
    × (p Deed.set_group_pre_gtid_flag ≡ false)
    × ((name : Str) → p (Deed.set_group_name name) ≡ false)

mint_identity-quiet :
    (p : Deed → Bool) (n : Node) (r : Pass) (waived : Bool) (answers : Answers)
    → IsOfGroup p
    → any p (mint_identity n r waived answers).deeds ≡ false
unfolding mint_identity
mint_identity-quiet p n r false answers late = refl
mint_identity-quiet p n r true answers (a, b, late) = elim (Bool-cases r.sets_group_name) [
  | inl e ↦ rw (e, late r.fresh_name) refl
  | inr e ↦ rw (e, late r.fresh_name) refl
]

write_flag-quiet :
    (p : Deed → Bool) (left : ℕ) (sets : ℕ → Bool) (attempt : ℕ)
    → p Deed.set_group_pre_gtid_flag ≡ false
    → any p (write_flag left sets attempt) ≡ false
unfolding write_flag
write_flag-quiet p zero sets attempt e = refl
write_flag-quiet p (suc left) sets attempt e = elim (Bool-cases (sets attempt)) [
  | inl done ↦ rw (e, done) refl
  | inr again ↦ rw (e, again) (write_flag-quiet p left sets (attempt + 1) e)
]

bootstrap_stage-quiet :
    (p : Deed → Bool) (n : Node) (r : Pass)
    → IsOfGroup p
    → any p (bootstrap_stage n r).deeds ≡ false
unfolding bootstrap_stage
bootstrap_stage-quiet p n r (a, b, late) = elim (Bool-cases r.bootstraps) [
  | inr e ↦ rw (e, a) refl
  | inl e ↦ elim (Bool-cases (r.promoted && n.volume.pre_gtid)) [
    | inl flag ↦ rw (e, a, flag) (write_flag-quiet p flag_attempts r.sets_flag 0 b)
    | inr plain ↦ rw (e, a, plain) refl
  ]
]

safe_turn-quiet :
    (c : OrchestrateConfig) (p : Deed → Bool) (r : Pass) (waived : Bool) (answers : Answers)
    (n : Node) (since : ℕ)
    → IsOfGroup p
    → any p (safe_turn c r waived answers n since).deeds ≡ false
unfolding safe_turn
safe_turn-quiet c p r waived answers n since of =
    elim (Bool-cases (ltb (r.elapsed_at - since) c.dwell)) [
      | inl early ↦ rw early refl
      | inr late ↦ rw late (
          then_do-quiet p (mint_identity (record n { safe_since = some since }) r waived answers)
            (λ n1. bootstrap_stage n1 r)
            (mint_identity-quiet p (record n { safe_since = some since }) r waived answers of)
            (λ n1. bootstrap_stage-quiet p n1 r of))
    ]

on_verdict-quiet :
    (c : OrchestrateConfig) (p : Deed → Bool) (r : Pass) (waived : Bool) (answers : Answers)
    (n : Node) (o : Option BootstrapVerdict)
    → IsOfGroup p
    → any p (on_verdict c r waived answers n o).deeds ≡ false
unfolding on_verdict
on_verdict-quiet c p r waived answers n none of = refl
on_verdict-quiet c p r waived answers n (some safe_to_bootstrap) of =
    safe_turn-quiet c p r waived answers n _ of
on_verdict-quiet c p r waived answers n (some (peer_is_more_advanced host)) of = refl
on_verdict-quiet c p r waived answers n (some (defer_to_peer host)) of = refl
on_verdict-quiet c p r waived answers n (some (diverged_from host)) of = refl
on_verdict-quiet c p r waived answers n (some undecidable) of = refl
on_verdict-quiet c p r waived answers n (some join_existing_group) of = refl

pub no_group-quiet :
    (c : OrchestrateConfig) (p : Deed → Bool) (r : Pass) (may : Bool) (n : Node) (o : Option Str)
    → IsOfGroup p
    → any p (no_group_turn c r may n o).deeds ≡ false
unfolding no_group_turn
no_group-quiet c p r may n none of = refl
no_group-quiet c p r may n (some gtid) of = on_verdict-quiet c p r _ _ n _ of

active_of_online :
    (o : Option Str) (members : List MemberRow)
    → group_active_from o members ≡ false
    → is_str o (codes "ONLINE") ≡ false
unfolding group_active_from
active_of_online none members h = refl
active_of_online (some s) members h = elim (Bool-cases (str_eq s (codes "ONLINE"))) [
  | inl e ↦ cc (let x : true ≡ false = rw e at h in x)
  | inr e ↦ e
]

pub local_state-idle :
    (v : Volume) (l : Local) (u : Option Str) (ms : Option (List MemberRow)) (g : Option Str)
    (s : GrState)
    → local_gr_state_of v l u ms g ≡ some s
    → s.group_active ≡ false
    → is_str s.member_state (codes "ONLINE") ≡ false
unfolding local_gr_state_of reported
local_state-idle v l (some u) (some ms) (some g) s e idle =
    let same : reported v l u ms g ≡ s = cc in
    let still : (reported v l u ms g).group_active ≡ false = ap (λ x. x.group_active) same ∙ idle in
    subst (λ x. is_str x.member_state (codes "ONLINE") ≡ false) same
      (active_of_online (state_of (own_row u ms)) ms still)
local_state-idle v l (some u) (some ms) none s e idle = cc
local_state-idle v l (some u) none g s e idle = cc
local_state-idle v l none ms g s e idle = cc

pub noting-idle :
    (r : Pass) (n : Node) (o : Option GrState) (s : GrState)
    → o ≡ some s
    → is_str s.member_state (codes "ONLINE") ≡ false
    → note_membership r.notes_membership o n.volume ≡ n.volume
unfolding note_membership
noting-idle r n none s e idle = cc
noting-idle r n (some t) s e idle =
    let same : t ≡ s = cc in
    let quiet : is_str t.member_state (codes "ONLINE") ≡ false =
      subst (λ x. is_str x.member_state (codes "ONLINE") ≡ false) (sym same) idle in
    rw quiet refl
