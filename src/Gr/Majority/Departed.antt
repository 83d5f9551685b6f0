-- ===== src/Gr/Majority/Departed.antt =====
-- mysql-wrapper/src/gr.rs: the survivor re-forms the group only on positive proof that every
-- other member left it.
use mysql_ha.Prelude.{
  ◌*◌, ◌≤◌, ◌≡◌, refl, sym, ap, subst, ◌↔◌, ◌⊎◌, inl, inr, true, false, Option, none, some, List,
  [], ◌∷◌, arith, ltb, le→leb, Bool-cases, Option-cases, length, In, In-cons, Str, codes,
  str_eq_iff, str_eq_refl, is_str,
}
use mysql_ha.Gr.State.{PeerAnswer, not_ready, unreachable, Answers, MemberRow}
use mysql_ha.Gr.Majority.{
  force, is_reachable, reachable_count, answer_of, blocked_by, departures,
  majority_loss_recovery_verdict,
}

-- The answer that proves a member out of the group `name`: it carries the group's identity, and
-- the member is in no active group or is alone in a join attempt.
abbrev pub ProvablyOut : Str → Option PeerAnswer → Type 0
ProvablyOut name (some (PeerAnswer.state s)) =
    (s.group_name ≡ some name)
    × ((s.group_active ≡ false)
        ⊎ ((s.member_state ≡ some (codes "RECOVERING")) × (s.members_total ≤ 1)))
ProvablyOut name (some not_ready) = ⊥
ProvablyOut name (some unreachable) = ⊥
ProvablyOut name none = ⊥

is_str_eq : (o : Option Str) (s : Str) → is_str o s ≡ true → o ≡ some s
is_str_eq none s h = cc
is_str_eq (some t) s h = ap some ((str_eq_iff t s).0 h)

is_str_refl : (o : Option Str) (s : Str) → o ≡ some s → is_str o s ≡ true
is_str_refl o s h = rw (h, str_eq_refl s)

blocked_by-ProvablyOut :
    (name host : Str) (answer : Option PeerAnswer)
    → blocked_by name host answer ≡ none
    → ProvablyOut name answer
unfolding blocked_by
blocked_by-ProvablyOut name host (some (PeerAnswer.state s)) h =
    elim (Bool-cases (is_str s.group_name name)) [
      | inl same ↦ elim (Bool-cases s.group_active) [
        | inl active ↦ elim (Bool-cases (is_str s.member_state (codes "RECOVERING"))) [
          | inl recovering ↦
              let alone : s.members_total ≤ 1 = ground arith in
              (
                is_str_eq s.group_name name same,
                inr (is_str_eq s.member_state (codes "RECOVERING") recovering, alone),
              )
          | inr other ↦ ground arith
        ]
        | inr idle ↦ (is_str_eq s.group_name name same, inl idle)
      ]
      | inr other ↦ ground arith
    ]
blocked_by-ProvablyOut name host (some not_ready) h = ground arith
blocked_by-ProvablyOut name host (some unreachable) h = ground arith
blocked_by-ProvablyOut name host none h = ground arith

ProvablyOut-blocked_by :
    (name host : Str) (answer : Option PeerAnswer)
    → ProvablyOut name answer
    → blocked_by name host answer ≡ none
unfolding blocked_by
ProvablyOut-blocked_by name host (some (PeerAnswer.state s)) (same, inl idle) =
    let g = is_str_refl s.group_name name same in rw (idle, g)
ProvablyOut-blocked_by name host (some (PeerAnswer.state s)) (same, inr (recovering, alone)) =
    let g = is_str_refl s.group_name name same in
    let r = is_str_refl s.member_state (codes "RECOVERING") recovering in
    let l = le→leb s.members_total 1 alone in
    elim (Bool-cases s.group_active) [ inl active ↦ rw (active, r, l, g) | inr idle ↦ rw (idle, g) ]
ProvablyOut-blocked_by name host (some not_ready) o = absurd o
ProvablyOut-blocked_by name host (some unreachable) o = absurd o
ProvablyOut-blocked_by name host none o = absurd o

-- Every member that the view cannot reach is provably out.
abbrev pub AllOut : Str → Answers → List MemberRow → Type 0
AllOut name answers members =
    (m : MemberRow)
    → In m members
    → is_reachable m ≡ false
    → ProvablyOut name (answer_of answers m.host)

departures-AllOut :
    (name : Str) (answers : Answers) (members : List MemberRow)
    → departures name answers members ≡ force
    → AllOut name answers members
unfolding departures
departures-AllOut name answers [] h m i u = elim i [ ]
departures-AllOut name answers (x ∷ xs) h m i u = elim (Bool-cases (is_reachable x)) [
  | inl reached ↦
      let later : departures name answers xs ≡ force = ground arith in
      elim (In-cons i) [
        | inl own ↦ cc (let k : is_reachable x ≡ false = rw own at u in k)
        | inr rest ↦ departures-AllOut name answers xs later m rest u
      ]
  | inr lost ↦ elim (Option-cases (blocked_by name x.host (answer_of answers x.host))) [
    | inl e ↦
        let later : departures name answers xs ≡ force = ground arith in
        elim (In-cons i) [
          | inl own ↦
              let out = blocked_by-ProvablyOut name x.host (answer_of answers x.host) e in
              subst (λ (y : MemberRow). ProvablyOut name (answer_of answers y.host)) (sym own) out
          | inr rest ↦ departures-AllOut name answers xs later m rest u
        ]
    | inr (reason, e) ↦ ground arith
  ]
]

AllOut-departures :
    (name : Str) (answers : Answers) (members : List MemberRow)
    → AllOut name answers members
    → departures name answers members ≡ force
unfolding departures
AllOut-departures name answers [] out = refl
AllOut-departures name answers (x ∷ xs) out =
    let later = AllOut-departures name answers xs λ m i u. out m (In.there i) u in
    elim (Bool-cases (is_reachable x)) [
      | inl reached ↦ rw (reached, later)
      | inr lost ↦
          let e =
            ProvablyOut-blocked_by name x.host (answer_of answers x.host) (out x In.here lost) in
          rw (lost, e, later)
    ]

departures_of_force :
    (name : Option Str) (members : List MemberRow) (answers : Answers)
    → majority_loss_recovery_verdict name members answers ≡ force
    → (2 ≤ length members)
      × (reachable_count members ≡ 1)
      × (n : Str) × (name ≡ some n)
      × (departures n answers members ≡ force)
unfolding majority_loss_recovery_verdict
departures_of_force none members answers h = ground arith
departures_of_force (some n) members answers h =
    let many : 2 ≤ length members = ground arith in
    let one : reachable_count members ≡ 1 = ground arith in
    let forced : departures n answers members ≡ force = ground arith in (many, one, n, refl, forced)

-- The verdict is to re-form the group exactly when the view has at least two members of which
-- exactly one is reachable, the own group's identity is readable, and for each unreachable member
-- the first answer from its host carries that identity and reports no active group, or reports
-- recovery in a view of at most one member.
pub majority_loss_recovery_force_iff :
    (name : Option Str) (members : List MemberRow) (answers : Answers)
    → (majority_loss_recovery_verdict name members answers ≡ force) ↔ (
        (2 ≤ length members)
        × (reachable_count members ≡ 1)
        × (n : Str) × (name ≡ some n)
        × ((m : MemberRow)
            → In m members
            → is_reachable m ≡ false
            → ProvablyOut n (answer_of answers m.host)))
unfolding majority_loss_recovery_verdict
majority_loss_recovery_force_iff name members answers = (
  (λ h.
      let (many, one, n, e, forced) = departures_of_force name members answers h in
      (many, one, n, e, departures-AllOut n answers members forced)),
  (λ (many, one, n, e, out).
      let forced = AllOut-departures n answers members out in
      let a : ltb (length members) 2 ≡ false = ground arith in
      let b : ltb (length members) (reachable_count members * 2) ≡ false = ground arith in
      rw (a, b, one, e, forced)),
)
