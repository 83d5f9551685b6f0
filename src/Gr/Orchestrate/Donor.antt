-- ===== src/Gr/Orchestrate/Donor.antt =====
-- mysql-wrapper/src/gr.rs: the donor of a clone (`pick_donor`).
use mysql_ha.Prelude.{
  ◌≡◌, refl, ap, ◌∙◌, subst, ◌≢◌, ◌⊎◌, inl, inr, Bool, true, false, ◌||◌, Option, none, some, [],
  ◌∷◌, Bool-cases, Option-cases, any, In, Str, codes, is_str,
}
use mysql_ha.Gr.State.{GrState, PeerAnswer, not_ready, unreachable, Answers, is_live}
use mysql_ha.Gr.Orchestrate.Local.{candidate, later_max, pick_from, pick_donor}

candidate-live :
    (x : Str × PeerAnswer) (d : Str) (primary : Bool)
    → candidate x ≡ some (d, primary)
    → (s : GrState) × (x ≡ (d, PeerAnswer.state s))
      × (s.group_active ≡ true)
      × (is_str s.member_role (codes "PRIMARY") ≡ primary)
candidate-live (host, PeerAnswer.state s) d primary h = elim (Bool-cases s.group_active) [
  | inl live ↦
      let found : Option (Str × Bool) = some (host, is_str s.member_role (codes "PRIMARY")) in
      let picked : Option (Str × Bool) = some (d, primary) in
      let e : found ≡ picked = let x = rw live at h in x in (s, cc, live, cc)
  | inr idle ↦ cc (rw idle at h)
]
candidate-live (host, not_ready) d primary h = cc
candidate-live (host, unreachable) d primary h = cc

candidate-of_live : (x : Str × PeerAnswer) → is_live x.1 ≡ true → candidate x ≢ none
candidate-of_live (host, PeerAnswer.state s) h e = cc (let x = rw h at e in x)
candidate-of_live (host, not_ready) h e = cc
candidate-of_live (host, unreachable) h e = cc

later_max-cases :
    (best c : Option (Str × Bool)) (d : Str × Bool)
    → later_max best c ≡ some d
    → (best ≡ some d) ⊎ (c ≡ some d)
unfolding later_max
later_max-cases best none d h = inl h
later_max-cases none (some c) d h = inr h
later_max-cases (some (b, true)) (some (c, true)) d h = inr h
later_max-cases (some (b, true)) (some (c, false)) d h = inl h
later_max-cases (some (b, false)) (some (c, p)) d h = inr h

-- The chosen candidate is one of the given ones.
pick_from-In :
    (best : Option (Str × Bool)) (xs : Answers) (d : Str × Bool)
    → pick_from best xs ≡ some d
    → (best ≡ some d) ⊎ ((x : Str × PeerAnswer) × In x xs × (candidate x ≡ some d))
unfolding pick_from
pick_from-In best [] d h = inl h
pick_from-In best (x ∷ xs) d h = elim (pick_from-In (later_max best (candidate x)) xs d h) [
  | inl e ↦ elim (later_max-cases best (candidate x) d e) [
    | inl old ↦ inl old
    | inr new ↦ inr (x, In.here, new)
  ]
  | inr (y, m, e) ↦ inr (y, In.there m, e)
]

later_max-total : (b : Str × Bool) (c : Option (Str × Bool)) → later_max (some b) c ≢ none
unfolding later_max
later_max-total b none h = cc
later_max-total (b, true) (some (c, true)) h = cc
later_max-total (b, true) (some (c, false)) h = cc
later_max-total (b, false) (some (c, p)) h = cc

pick_from-total :
    (best : Option (Str × Bool)) (xs : Answers) → best ≢ none → pick_from best xs ≢ none
unfolding pick_from
pick_from-total best [] b h = b h
pick_from-total none (x ∷ xs) b h = absurd (b refl)
pick_from-total (some c) (x ∷ xs) b h =
    pick_from-total (later_max (some c) (candidate x)) xs (later_max-total c (candidate x)) h

later_max-none : (best c : Option (Str × Bool)) → c ≢ none → later_max best c ≢ none
unfolding later_max
later_max-none best none c h = c refl
later_max-none none (some c) n h = cc
later_max-none (some b) (some c) n h = later_max-total b (some c) h

pick_from-live :
    (best : Option (Str × Bool)) (xs : Answers)
    → any (λ a. is_live a.1) xs ≡ true
    → pick_from best xs ≢ none
unfolding pick_from
pick_from-live best [] h e = cc
pick_from-live best (x ∷ xs) h e = elim (Bool-cases (is_live x.1)) [
  | inl live ↦
      pick_from-total (later_max best (candidate x)) xs
        (later_max-none best (candidate x) (candidate-of_live x live)) e
  | inr idle ↦
      let rest : any (λ a. is_live a.1) xs ≡ true = let y = rw idle at h in y in
      pick_from-live (later_max best (candidate x)) xs rest e
]

abbrev pub is_primary_candidate : Option (Str × Bool) → Bool
is_primary_candidate none = false
is_primary_candidate (some c) = c.1

later_max-primary :
    (best c : Option (Str × Bool))
    → is_primary_candidate (later_max best c)
      ≡ (is_primary_candidate best || is_primary_candidate c)
unfolding later_max
later_max-primary none none = refl
later_max-primary (some (b, true)) none = refl
later_max-primary (some (b, false)) none = refl
later_max-primary none (some c) = refl
later_max-primary (some (b, true)) (some (c, true)) = refl
later_max-primary (some (b, true)) (some (c, false)) = refl
later_max-primary (some (b, false)) (some (c, p)) = refl

or_assoc : (a b c : Bool) → ((a || b) || c) ≡ (a || (b || c))
or_assoc true b c = refl
or_assoc false b c = refl

-- A primary is chosen exactly if there is one among the candidates.
pick_from-primary :
    (best : Option (Str × Bool)) (xs : Answers)
    → is_primary_candidate (pick_from best xs)
      ≡ (is_primary_candidate best || any (λ x. is_primary_candidate (candidate x)) xs)
unfolding pick_from
pick_from-primary none [] = refl
pick_from-primary (some (b, true)) [] = refl
pick_from-primary (some (b, false)) [] = refl
pick_from-primary best (x ∷ xs) =
    pick_from-primary (later_max best (candidate x)) xs
    ∙ ap (λ b. b || any (λ x. is_primary_candidate (candidate x)) xs)
        (later_max-primary best (candidate x))
    ∙ or_assoc (is_primary_candidate best) (is_primary_candidate (candidate x)) _

-- A live member reports the primary role.
abbrev pub reports_primary : Str × PeerAnswer → Bool
reports_primary x = is_primary_candidate (candidate x)

-- Wherever one of the answers is that of a live member, a donor is picked: a live member among the
-- answers, which reports the primary role exactly if one of the live members does.
pub pick_donor_prefers_primary :
    (answers : Answers)
    → any (λ a. is_live a.1) answers ≡ true
    → (donor : Str) × (s : GrState) × (pick_donor answers ≡ some donor)
      × In (donor, PeerAnswer.state s) answers
      × (s.group_active ≡ true)
      × (is_str s.member_role (codes "PRIMARY") ≡ any reports_primary answers)
unfolding pick_donor
pick_donor_prefers_primary answers h = elim (Option-cases (pick_from none answers)) [
  | inl e ↦ absurd (pick_from-live none answers h e)
  | inr ((d, primary), e) ↦ elim (pick_from-In none answers (d, primary) e) [
    | inl x ↦ cc
    | inr (x, m, c) ↦
        let (s, name, live, role) = candidate-live x d primary c in
        let best : primary ≡ any reports_primary answers =
          let y = rw e at (pick_from-primary none answers) in y in
        (d, s, rw (pick_donor, e) refl, subst (λ z. In z answers) name m, live, role ∙ best)
  ]
]
