-- ===== src/Archiver/Ship/Honest.antt =====
-- mysql-wrapper/src/archiver.rs: what the upload state records as uploaded has landed.
use mysql_ha.Prelude.{
  ◌≡◌, refl, sym, subst, ◌⊎◌, inl, inr, List, [], ◌∷◌, Bool-cases, last, In, In-cons, Str, contains,
}
use mysql_ha.Archiver.Ship.{
  UploadState, insert_name, Pass, Shipping, Outcome, goes_on, failed, shipping_of, record_lost,
  upload, is_settled, ship_file, ship_files, begin, ship_once,
}

-- Every name of the first list is in the second.
abbrev pub Within : List Str → List Str → Type 0
Within names others = (n : Str) → In n names → In n others

In-insert_name :
    (name : Str) (names : List Str) {n : Str}
    → In n (insert_name name names)
    → (n ≡ name) ⊎ In n names
In-insert_name name names m = elim (Bool-cases (contains names name)) [
  | inl there_ ↦ inr (rw there_ at m)
  | inr absent ↦ In-cons (rw absent at m)
]

-- Both copies of the state record as uploaded only what has landed.
abbrev pub IsHonest : Shipping → Type 0
IsHonest s = Within s.memory.uploaded s.landed × Within s.volume.uploaded s.landed

insert_name-Within :
    (name : Str) (names landed : List Str)
    → Within names landed
    → Within (insert_name name names) (name ∷ landed)
insert_name-Within name names landed w n m = elim (In-insert_name name names m) [
  | inl own ↦ subst (λ (x : Str). In x (name ∷ landed)) (sym own) In.here
  | inr old ↦ In.there (w n old)
]

Within-cons :
    (name : Str) (names landed : List Str) → Within names landed → Within names (name ∷ landed)
Within-cons name names landed w n m = In.there (w n m)

record_lost-IsHonest :
    (p : Pass) (s : Shipping) (name : Str)
    → IsHonest s
    → IsHonest (shipping_of (record_lost p s name))
unfolding record_lost
record_lost-IsHonest p s name (m, v) = elim (Bool-cases (p.write_succeeds name)) [
  | inl written ↦ rw written (m, m)
  | inr torn ↦ rw torn (m, v)
]

upload-IsHonest :
    (p : Pass) (s : Shipping) (name : Str) → IsHonest s → IsHonest (shipping_of (upload p s name))
unfolding upload
upload-IsHonest p s name (m, v) =
    let grown = insert_name-Within name s.memory.uploaded s.landed m in
    elim (Bool-cases (p.put_succeeds name)) [
      | inr refused ↦ rw refused (m, v)
      | inl put ↦ elim (Bool-cases (p.write_succeeds name)) [
        | inl written ↦ rw (put, written) (grown, grown)
        | inr torn ↦ rw (put, torn) (grown, Within-cons name s.volume.uploaded s.landed v)
      ]
    ]

ship_file-IsHonest :
    (p : Pass) (s : Shipping) (name : Str)
    → IsHonest s
    → IsHonest (shipping_of (ship_file p s name))
unfolding ship_file
ship_file-IsHonest p s name h = elim (Bool-cases (is_settled p s.memory name)) [
  | inl settled ↦ rw settled h
  | inr open_ ↦ elim (Bool-cases (p.is_file name)) [
    | inl there_ ↦ rw (open_, there_) (upload-IsHonest p s name h)
    | inr gone ↦ rw (open_, gone) (record_lost-IsHonest p s name h)
  ]
]

pub outcome-cases :
    (o : Outcome) → ((s : Shipping) × (o ≡ goes_on s)) ⊎ ((s : Shipping) × (o ≡ failed s))
outcome-cases (goes_on s) = inl (s, refl)
outcome-cases (failed s) = inr (s, refl)

ship_files-IsHonest :
    (p : Pass) (s : Shipping) (names : List Str)
    → IsHonest s
    → IsHonest (shipping_of (ship_files p s names))
unfolding ship_files
ship_files-IsHonest p s [] h = h
ship_files-IsHonest p s (name ∷ names) h = elim (outcome-cases (ship_file p s name)) [
  | inl (next, e) ↦
      let honest : IsHonest next =
        subst (λ (o : Outcome). IsHonest (shipping_of o)) e (ship_file-IsHonest p s name h) in
      rw (e, ship_files) (ship_files-IsHonest p next names honest)
  | inr (last, e) ↦
      let honest : IsHonest last =
        subst (λ (o : Outcome). IsHonest (shipping_of o)) e (ship_file-IsHonest p s name h) in
      rw (e, ship_files) honest
]

-- However a pass ends, also in the middle by a failed upload or a failed write, a name stands in the
-- uploaded ones of the state, in memory and on the volume, only if its upload has landed, provided
-- that this held of the volume before.
pub ship_once-IsHonest :
    (p : Pass) (volume : UploadState) (landed : List Str)
    → Within volume.uploaded landed
    → IsHonest (shipping_of (ship_once p volume landed))
unfolding ship_once
ship_once-IsHonest p volume landed w =
    ship_files-IsHonest p (begin volume landed) p.disk_files (w, w)
