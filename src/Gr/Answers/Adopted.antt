-- ===== src/Gr/Answers/Adopted.antt =====
-- mysql-wrapper/src/gr.rs: the guard of adopted data refuses a group only when every live member
-- has denied the data.
use mysql_ha.Prelude.{
  ◌≡◌, refl, sym, ap, ◌∙◌, ◌↔◌, inl, inr, Bool, true, false, not, ◌&&◌, ◌||◌, List, [], ◌∷◌, ◌++◌,
  map, append_assoc, append-nil, arith, if◌then◌else◌, Bool-cases, any, filter, In, any-false, Str,
}
use mysql_ha.Gr.State.{PeerAnswer, not_ready, unreachable, Answers, is_live}
use mysql_ha.Gr.Answers.{
  GroupPreGtidPicture, empty_picture, picture_step, picture_from, group_pre_gtid_picture, refuse,
  adopted_data_verdict,
}

-- A live member that says the group carries the data.
abbrev pub says_yes : Str × PeerAnswer → Bool
says_yes (host, PeerAnswer.state s) = s.group_active && s.pre_gtid_data
says_yes (host, not_ready) = false
says_yes (host, unreachable) = false

-- A live member that could not tell.
abbrev pub could_not_tell : Str × PeerAnswer → Bool
could_not_tell (host, PeerAnswer.state s) =
    s.group_active && not s.pre_gtid_data && s.pre_gtid_data_unknown
could_not_tell (host, not_ready) = false
could_not_tell (host, unreachable) = false

abbrev pub live_hosts : Answers → List Str
live_hosts answers = map (λ x. x.0) (filter (λ x. is_live x.1) answers)

abbrev pub unsure_hosts : Answers → List Str
unsure_hosts answers = map (λ x. x.0) (filter could_not_tell answers)

or_false : (b : Bool) → b ≡ (b || false)
or_false true = refl
or_false false = refl

or_assoc : (a b c : Bool) → ((a || b) || c) ≡ (a || (b || c))
or_assoc true b c = refl
or_assoc false b c = refl

-- The three fields after one more answer.
picture_step-fields :
    (p : GroupPreGtidPicture) (x : Str × PeerAnswer)
    → ((picture_step p x).carries_pre_gtid_data ≡ (p.carries_pre_gtid_data || says_yes x))
      × ((picture_step p x).unknown ≡ p.unknown ++ (if could_not_tell x then x.0 ∷ [] else []))
      × ((picture_step p x).live_peers ≡ p.live_peers ++ (if is_live x.1 then x.0 ∷ [] else []))
unfolding picture_step
picture_step-fields p (host, PeerAnswer.state s) = elim (Bool-cases s.group_active) [
  | inl live ↦ rw live (refl, refl, refl)
  | inr idle ↦
      rw idle (
        or_false p.carries_pre_gtid_data,
        sym (append-nil p.unknown),
        sym (append-nil p.live_peers),
      )
]
picture_step-fields p (host, not_ready) =
    (or_false p.carries_pre_gtid_data, sym (append-nil p.unknown), sym (append-nil p.live_peers))
picture_step-fields p (host, unreachable) =
    (or_false p.carries_pre_gtid_data, sym (append-nil p.unknown), sym (append-nil p.live_peers))

-- A step's part of a list followed by the rest is the list filtered with that step in front.
hosts_cons :
    (test : Str × PeerAnswer → Bool) (x : Str × PeerAnswer) (xs : Answers) (before : List Str)
    → (before ++ (if test x then x.0 ∷ [] else [])) ++ map (λ y. y.0) (filter test xs)
      ≡ before ++ map (λ y. y.0) (filter test (x ∷ xs))
hosts_cons test x xs before =
    append_assoc before (if test x then x.0 ∷ [] else []) (map (λ y. y.0) (filter test xs))
    ∙ elim (Bool-cases (test x))
        as (λ w.
          before ++ ((if test x then x.0 ∷ [] else []) ++ map (λ y. y.0) (filter test xs))
          ≡ before ++ map (λ y. y.0) (filter test (x ∷ xs))) [
            | inl e ↦ rw e refl
            | inr e ↦ rw e refl
          ]

picture_from-fields :
    (p : GroupPreGtidPicture) (answers : Answers)
    → ((picture_from p answers).carries_pre_gtid_data
        ≡ (p.carries_pre_gtid_data || any says_yes answers))
      × ((picture_from p answers).unknown ≡ p.unknown ++ unsure_hosts answers)
      × ((picture_from p answers).live_peers ≡ p.live_peers ++ live_hosts answers)
unfolding picture_from
picture_from-fields p [] =
    (or_false p.carries_pre_gtid_data, sym (append-nil p.unknown), sym (append-nil p.live_peers))
picture_from-fields p (x ∷ xs) =
    let (c, u, l) = picture_step-fields p x in
    let (cs, us, ls) = picture_from-fields (picture_step p x) xs in
    (
      cs
          ∙ ap (λ b. b || any says_yes xs) c
          ∙ or_assoc p.carries_pre_gtid_data (says_yes x) (any says_yes xs),
      us ∙ ap (λ b. b ++ unsure_hosts xs) u ∙ hosts_cons could_not_tell x xs p.unknown,
      ls ∙ ap (λ b. b ++ live_hosts xs) l ∙ hosts_cons (λ y. is_live y.1) x xs p.live_peers,
    )

-- The guard by the picture's three fields.
adopted_data_verdict_refuse :
    (picture : GroupPreGtidPicture) (peers : List Str)
    → adopted_data_verdict true false picture ≡ refuse peers
    → (picture.carries_pre_gtid_data ≡ false)
      × (picture.unknown ≡ [])
      × (picture.live_peers ≡ peers)
unfolding adopted_data_verdict
adopted_data_verdict_refuse picture peers h = ground arith

refuse_of_fields :
    (picture : GroupPreGtidPicture)
    → picture.carries_pre_gtid_data ≡ false
    → picture.unknown ≡ []
    → adopted_data_verdict true false picture ≡ refuse picture.live_peers
unfolding adopted_data_verdict
refuse_of_fields picture c u = rw (c, u) refl

-- The member denied the data: it holds none, and it could read the flag.
abbrev pub Denies : PeerAnswer → Type 0
Denies (PeerAnswer.state s) = (s.pre_gtid_data ≡ false) × (s.pre_gtid_data_unknown ≡ false)
Denies not_ready = ⊥
Denies unreachable = ⊥

Denies-of :
    (x : Str × PeerAnswer)
    → is_live x.1 ≡ true
    → says_yes x ≡ false
    → could_not_tell x ≡ false
    → Denies x.1
Denies-of (host, PeerAnswer.state s) live nope sure = ground arith
Denies-of (host, not_ready) live nope sure = cc
Denies-of (host, unreachable) live nope sure = cc

of_Denies :
    (x : Str × PeerAnswer)
    → (is_live x.1 ≡ true → Denies x.1)
    → (says_yes x ≡ false) × (could_not_tell x ≡ false)
of_Denies (host, PeerAnswer.state s) h = elim (Bool-cases s.group_active) [
  | inl live ↦ let d = h live in rw (live, d.0, d.1) (refl, refl)
  | inr idle ↦ rw idle (refl, refl)
]
of_Denies (host, not_ready) h = (refl, refl)
of_Denies (host, unreachable) h = (refl, refl)

AllDeny : Answers → Type 0
AllDeny answers =
    (host : Str) (answer : PeerAnswer)
    → In (host, answer) answers
    → is_live answer ≡ true
    → Denies answer

no_unsure_hosts :
    (answers : Answers) → unsure_hosts answers ≡ [] → any could_not_tell answers ≡ false
no_unsure_hosts [] h = refl
no_unsure_hosts (x ∷ xs) h = elim (Bool-cases (could_not_tell x)) [
  | inl e ↦ cc (let k : x.0 ∷ unsure_hosts xs ≡ [] = rw e at h in k)
  | inr e ↦ rw (e, no_unsure_hosts xs (let k : unsure_hosts xs ≡ [] = rw e at h in k))
]

no_one_unsure :
    (answers : Answers)
    → AllDeny answers
    → (any says_yes answers ≡ false) × (unsure_hosts answers ≡ [])
unfolding AllDeny
no_one_unsure [] h = (refl, refl)
no_one_unsure (x ∷ xs) h =
    let (nope, sure) = of_Denies x (h x.0 x.1 In.here) in
    let (nos, sures) = no_one_unsure xs λ host answer m live. h host answer (In.there m) live in
    (rw (nope, nos), rw (sure, sures))

-- A node that holds adopted data and was never a member refuses the group exactly when every
-- answer of a live member denies the data: it neither carries it nor failed to read the flag. The
-- refusal names those members, in the order of the answers.
pub adopted_data_refuse_iff :
    (answers : Answers) (peers : List Str)
    → (adopted_data_verdict true false (group_pre_gtid_picture answers) ≡ refuse peers) ↔ (
        ((host : Str) (answer : PeerAnswer)
          → In (host, answer) answers
          → is_live answer ≡ true
          → Denies answer)
        × (live_hosts answers ≡ peers))
unfolding AllDeny group_pre_gtid_picture
adopted_data_refuse_iff answers peers =
    let (carries, unknown, live) = picture_from-fields empty_picture answers in
    (
      (λ h.
          let (nope, sure, named) =
            adopted_data_verdict_refuse (group_pre_gtid_picture answers) peers h in
          let quiet = no_unsure_hosts answers (sym unknown ∙ sure) in
          let nos = sym carries ∙ nope in
          (
            (λ host answer m l.
                Denies-of (host, answer) l (any-false says_yes answers nos m)
                  (any-false could_not_tell answers quiet m)),
            sym live ∙ named,
          )),
      (λ (deny, named).
          let (nos, sures) = no_one_unsure answers deny in
          refuse_of_fields (group_pre_gtid_picture answers) (carries ∙ nos) (unknown ∙ sures)
          ∙ ap refuse (live ∙ named)),
    )
