-- ===== src/Gr/Gone.antt =====
-- mysql-wrapper/src/gr.rs: `GoneTracker`, how long each unreachable peer's name has been gone. The
-- map is an association list, an instant a number, and `duration_since` stops at 0 as Rust's does.
use mysql_ha.Prelude.{
  ℕ, ◌-◌, ◌≤◌, ◌≡◌, refl, sym, ap, ◌∙◌, ◌⊎◌, inl, inr, Bool, true, false, Option, none, some, List,
  [], ◌∷◌, ◌++◌, leb, if◌then◌else◌, leb→le, Bool-cases, Option-cases, false_of_ne_true, any, Str,
  str_eq, str_eq_iff,
}

pub data NameVerdict : Type 0 where
  gone exists_or_unknown : NameVerdict

abbrev pub GoneSince : Type 0
GoneSince = List (Str × ℕ)

unfoldable pub get : GoneSince → Str → Option ℕ
get [] host = none
get ((h, t) ∷ rest) host = let later = get rest host in if str_eq h host then some t else later

unfoldable pub remove : GoneSince → Str → GoneSince
remove [] host = []
remove ((h, t) ∷ rest) host =
    let later = remove rest host in if str_eq h host then later else (h, t) ∷ later

-- `entry(host).or_insert(now)`.
unfoldable pub or_insert : GoneSince → Str → ℕ → GoneSince
or_insert since host now = elim (get since host) [ none ↦ (host, now) ∷ since | some t ↦ since ]

pub record GoneTracker : Type 0 where
  pub gone_since : GoneSince

abbrev pub new_tracker : GoneTracker
new_tracker = record { gone_since = [] }

unfoldable pub observe : GoneTracker → Str → NameVerdict → ℕ → GoneTracker
observe tracker host gone now = record { gone_since = or_insert tracker.gone_since host now }
observe tracker host exists_or_unknown now = record { gone_since = remove tracker.gone_since host }

unfoldable pub observe_reachable : GoneTracker → Str → GoneTracker
observe_reachable tracker host = record { gone_since = remove tracker.gone_since host }

unfoldable pub is_waived : GoneTracker → Str → ℕ → ℕ → Bool
is_waived tracker host now dwell = elim (get tracker.gone_since host) [
  | none ↦ false
  | some since ↦ leb dwell (now - since)
]

-- What the callers report, in order.
pub data Sighting : Type 0 where
  observed : Str → NameVerdict → ℕ → Sighting
  reached : Str → Sighting

unfoldable pub sight : GoneTracker → Sighting → GoneTracker
sight tracker (observed host verdict now) = observe tracker host verdict now
sight tracker (reached host) = observe_reachable tracker host

unfoldable pub sight_all : GoneTracker → List Sighting → GoneTracker
sight_all tracker [] = tracker
sight_all tracker (x ∷ xs) = sight_all (sight tracker x) xs

-- The sighting shows that the host is there, or may be.
abbrev pub is_reset : Str → Sighting → Bool
is_reset host (observed h gone now) = false
is_reset host (observed h exists_or_unknown now) = str_eq h host
is_reset host (reached h) = str_eq h host

get-remove :
    (since : GoneSince) (h host : Str) (t : ℕ)
    → get (remove since h) host ≡ some t
    → (str_eq h host ≡ false) × (get since host ≡ some t)
unfolding get remove
get-remove [] h host t e = cc
get-remove ((k, u) ∷ rest) h host t e = elim (Bool-cases (str_eq k h)) [
  | inl same ↦
      let inner : get (remove rest h) host ≡ some t = let x = rw same at e in x in
      let (apart, found) = get-remove rest h host t inner in
      let name : k ≡ h = (str_eq_iff k h).0 same in
      let apart' : str_eq k host ≡ false = rw name apart in (apart, rw (apart', found))
  | inr other ↦ elim (Bool-cases (str_eq k host)) [
    | inl hit ↦
        let name : k ≡ host = (str_eq_iff k host).0 hit in
        let apart : str_eq h host ≡ false = false_of_ne_true _ λ eq.
          let back : str_eq k h ≡ true =
            (str_eq_iff k h).1 (name ∙ sym ((str_eq_iff h host).0 eq)) in
          cc in
        let value : some u ≡ some t = let x = rw (other, hit) at e in x in (apart, rw (hit, value))
    | inr miss ↦
        let inner : get (remove rest h) host ≡ some t = let x = rw (other, miss) at e in x in
        let (apart, found) = get-remove rest h host t inner in (apart, rw (miss, found))
  ]
]

get-or_insert :
    (since : GoneSince) (h host : Str) (now t : ℕ)
    → get (or_insert since h now) host ≡ some t
    → ((h ≡ host) × (now ≡ t)) ⊎ (get since host ≡ some t)
unfolding get or_insert
get-or_insert since h host now t e = elim (Option-cases (get since h)) [
  | inr (u, known) ↦ let x = rw (known, or_insert) at e in inr x
  | inl fresh ↦ elim (Bool-cases (str_eq h host)) [
    | inl same ↦
        let value : some now ≡ some t = let x = rw (fresh, or_insert, same) at e in x in
        inl ((str_eq_iff h host).0 same, cc)
    | inr other ↦ let x = rw (fresh, or_insert, other) at e in inr x
  ]
]

-- The clock of a host that the sightings end with was started by one of them and by none of them
-- reset since, or it ran before them and none of them reset it.
abbrev pub Uninterrupted : Str → ℕ → List Sighting → Type 0
Uninterrupted host since sightings =
    (before after : List Sighting) × (sightings ≡ before ++ observed host gone since ∷ after)
    × (any (is_reset host) after ≡ false)

sight-get :
    (tracker : GoneTracker) (x : Sighting) (host : Str) (t : ℕ)
    → get (sight tracker x).gone_since host ≡ some t
    → (x ≡ observed host gone t)
      ⊎ ((is_reset host x ≡ false) × (get tracker.gone_since host ≡ some t))
unfolding sight observe observe_reachable
sight-get tracker (observed h gone now) host t e =
    elim (get-or_insert tracker.gone_since h host now t e) [
      | inl (name, time) ↦ inl cc
      | inr old ↦ inr (refl, old)
    ]
sight-get tracker (observed h exists_or_unknown now) host t e =
    inr (get-remove tracker.gone_since h host t e)
sight-get tracker (reached h) host t e = inr (get-remove tracker.gone_since h host t e)

sight_all-get :
    (tracker : GoneTracker) (xs : List Sighting) (host : Str) (t : ℕ)
    → get (sight_all tracker xs).gone_since host ≡ some t
    → Uninterrupted host t xs
      ⊎ ((any (is_reset host) xs ≡ false) × (get tracker.gone_since host ≡ some t))
unfolding sight_all
sight_all-get tracker [] host t e = inr (refl, e)
sight_all-get tracker (x ∷ xs) host t e = elim (sight_all-get (sight tracker x) xs host t e) [
  | inl (before, after, same, quiet) ↦ inl (x ∷ before, after, ap (λ ys. x ∷ ys) same, quiet)
  | inr (quiet, old) ↦ elim (sight-get tracker x host t old) [
    | inl started ↦ inl ([], xs, ap (λ y. y ∷ xs) started, quiet)
    | inr (still, older) ↦ inr (rw (still, quiet), older)
  ]
]

-- A host that is waived after any sightings was seen gone once, at an instant at least the dwell
-- before now, and no sighting after that one reset its clock: neither an answer of the host nor a
-- lookup that was not an authoritative absence.
pub is_waived_uninterrupted :
    (xs : List Sighting) (host : Str) (now dwell : ℕ)
    → is_waived (sight_all new_tracker xs) host now dwell ≡ true
    → (since : ℕ) × (before after : List Sighting) × (xs
        ≡ before ++ observed host gone since ∷ after)
      × (any (is_reset host) after ≡ false)
      × (dwell ≤ now - since)
unfolding is_waived get
is_waived_uninterrupted xs host now dwell h =
    elim (Option-cases (get (sight_all new_tracker xs).gone_since host)) [
      | inl none_yet ↦ cc (let x : false ≡ true = rw (none_yet, is_waived) at h in x)
      | inr (since, e) ↦
          let long : leb dwell (now - since) ≡ true = rw (e, is_waived) at h in
          elim (sight_all-get new_tracker xs host since e) [
            | inl (before, after, same, quiet) ↦
                (since, before, after, same, quiet, leb→le dwell (now - since) long)
            | inr (quiet, old) ↦ cc (let x : none ≡ some since = old in x)
          ]
    ]
