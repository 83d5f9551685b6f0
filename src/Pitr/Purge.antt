-- ===== src/Pitr/Purge.antt =====
-- mysql-wrapper/src/pitr.rs: which local binlogs may be reclaimed (`purge_cut` and, for a group
-- primary, `purge_cut_retaining_recent`). A `BTreeSet<String>` is a list of names.
use mysql_ha.Prelude.{
  ℕ, ◌≤◌, ◌≡◌, refl, ap, ◌≢◌, ◌⊎◌, inl, inr, Bool, true, false, not, ◌&&◌, ◌||◌, Option, none, some,
  List, [], ◌∷◌, ◌++◌, arith, ltb, if◌then◌else◌, Bool-cases, Option-cases, false_of_ne_true, find,
  In, In.here, In.there, All, All-mono, find-some, find_total, Str, str_eq, contains, str_eq_iff,
  str_eq_refl,
}

-- The guard of both functions: no cut when the boundary is the first file on disk.
cut_at : List Str → Option Str → Option Str
cut_at files none = none
cut_at [] (some boundary) = some boundary
cut_at (f ∷ fs) (some boundary) = if str_eq f boundary then none else some boundary

-- The closure of `purge_cut`.
abbrev stops_purge : Str → List Str → List Str → Str → Bool
stops_purge active uploaded lost f =
    str_eq f active || (not (contains uploaded f) && not (contains lost f))

unfoldable pub purge_cut : List Str → Str → List Str → List Str → Option Str
unfolding cut_at
purge_cut files active uploaded lost = cut_at files (find (stops_purge active uploaded lost) files)

abbrev pub is_recent : Option ℕ → ℕ → Bool
is_recent none min_age = true
is_recent (some age) min_age = ltb age min_age

-- The closure of `purge_cut_retaining_recent`: whether a file stops the cut.
abbrev stops_cut : Str → List Str → List Str → (Str → Option ℕ) → ℕ → Str → Bool
stops_cut active uploaded lost age_of min_age name =
    if str_eq name active
    then true
    else if contains lost name
    then false
    else if not (contains uploaded name)
    then true
    else is_recent (age_of name) min_age

unfoldable pub purge_cut_retaining_recent :
    List Str → Str → List Str → List Str → (Str → Option ℕ) → ℕ → Option Str
unfolding cut_at
purge_cut_retaining_recent files active uploaded lost age_of min_age =
    cut_at files (find (stops_cut active uploaded lost age_of min_age) files)

-- What `PURGE BINARY LOGS TO cut` reclaims: the files in front of `cut`.
abbrev pub before : Str → List Str → List Str
before cut [] = []
before cut (f ∷ fs) = if str_eq f cut then [] else f ∷ before cut fs

module _ (p : Str → Bool) where
  find-before :
      (files : List Str) {b : Str}
      → find p files ≡ some b
      → In b files × (p b ≡ true) × All (λ f. p f ≡ false) (before b files)
  find-before [] h = cc
  find-before (f ∷ fs) {b} h = elim (Bool-cases (p f)) [
    | inl e ↦ let same : f ≡ b = ground arith in rw (← same) (here, e, rw (str_eq_refl f) tt)
    | inr e ↦
        let (m, q, rest) = find-before fs {b = b} (ground arith) in
        (
          there m,
          q,
          elim (Bool-cases (str_eq f b)) [ inl same ↦ rw same tt | inr other ↦ rw other (e, rest) ],
        )
  ]

cut_at-some :
    (files : List Str) (o : Option Str) {cut : Str}
    → cut_at files o ≡ some cut
    → (o ≡ some cut) × (files ≢ [] → before cut files ≢ [])
unfolding cut_at
cut_at-some [] none h = cc
cut_at-some (f ∷ fs) none h = cc
cut_at-some [] (some b) h = (h, λ k. absurd (k refl))
cut_at-some (f ∷ fs) (some b) h = (ground arith, λ _ q. ground arith)

-- A file that `purge_cut` may reclaim.
abbrev pub Reclaimable : Str → List Str → List Str → Str → Type 0
Reclaimable active uploaded lost f =
    (str_eq f active ≡ false) × ((contains uploaded f || contains lost f) ≡ true)

In-ne-nil : {f : Str} {files : List Str} → In f files → files ≢ []
In-ne-nil {files = []} m h = elim m [ ]
In-ne-nil {files = x ∷ xs} m h = cc

-- When `purge_cut` names a file, that file is on disk, it is the active one or was neither
-- uploaded nor lost, there is a file in front of it, and each file that the server reclaims is not
-- the active one and was uploaded or is recorded as lost.
pub purge_cut_safe :
    (files : List Str) (active : Str) (uploaded lost : List Str) (cut : Str)
    → purge_cut files active uploaded lost ≡ some cut
    → In cut files
      × (¬ Reclaimable active uploaded lost cut)
      × (before cut files ≢ [])
      × All (Reclaimable active uploaded lost) (before cut files)
unfolding purge_cut
purge_cut_safe files active uploaded lost cut h =
    let (found, some_before) = cut_at-some files _ {cut = cut} h in
    let (m, stop, rest) = find-before _ files {b = cut} found in
    (
      m,
      λ r. ground arith,
      some_before (In-ne-nil m),
      All-mono _ _ (before cut files) (λ f e. ground arith) rest,
    )

find_implied :
    (p q : Str → Bool) (files : List Str) (a : Str)
    → ((f : Str) → p f ≡ true → q f ≡ true)
    → In a files
    → p a ≡ true
    → (b : Str) × (c : Str) × (find p files ≡ some b) × (find q files ≡ some c)
find_implied p q files a imp m h = elim (Option-cases (find p files)) [
  | inl e ↦ absurd (find_total p a files m h e)
  | inr (b, e) ↦ elim (Option-cases (find q files)) [
    | inl n ↦ absurd (find_total q a files m (imp a h) n)
    | inr (c, n) ↦ (b, c, e, n)
  ]
]

-- The first stop of the stricter test stands no later than that of the laxer one.
before-prefix :
    (p q : Str → Bool) (files : List Str) {b c : Str}
    → ((f : Str) → p f ≡ true → q f ≡ true)
    → find p files ≡ some b
    → find q files ≡ some c
    → (rest : List Str) × (before b files ≡ before c files ++ rest)
before-prefix p q [] imp e n = cc
before-prefix p q (f ∷ fs) {b} {c} imp e n = elim (Bool-cases (q f)) [
  | inl stop ↦
      let same : f ≡ c = ground arith in (before b (f ∷ fs), rw (← same) (rw (str_eq_refl f) refl))
  | inr skip ↦
      let pass : p f ≡ false = false_of_ne_true _ (λ t. cc (imp f t)) in
      let (rest, r) = before-prefix p q fs {b = b} {c = c} imp (rw pass at e) (rw skip at n) in
      let (_, stop_b) = find-some p fs {a = b} (rw pass at e) in
      let (_, stop_c) = find-some q fs {a = c} (rw skip at n) in
      let fb : str_eq f b ≡ false = false_of_ne_true _ (λ t. cc ((str_eq_iff f b).0 t)) in
      let fc : str_eq f c ≡ false = false_of_ne_true _ (λ t. cc ((str_eq_iff f c).0 t)) in
      (rest, rw (fb, fc) (ap (λ l. f ∷ l) r))
]

-- A file that a group primary may reclaim: it is not the active one, and it is recorded as lost,
-- or it was uploaded and is known to be at least `min_age` old.
abbrev pub ReclaimableOld : Str → List Str → List Str → (Str → Option ℕ) → ℕ → Str → Type 0
ReclaimableOld active uploaded lost age_of min_age f =
    (str_eq f active ≡ false)
    × ((contains lost f ≡ true)
        ⊎ ((contains uploaded f ≡ true) × ((age : ℕ) × (age_of f ≡ some age) × (min_age ≤ age))))

old_of_not_stops :
    (active : Str) (uploaded lost : List Str) (age_of : Str → Option ℕ) (min_age : ℕ) (f : Str)
    → stops_cut active uploaded lost age_of min_age f ≡ false
    → ReclaimableOld active uploaded lost age_of min_age f
old_of_not_stops active uploaded lost age_of min_age f h = elim (Option-cases (age_of f)) [
  | inl e ↦ ground arith
  | inr (age, e) ↦ ground arith
]

-- The cut of a group primary reclaims only files that are lost, or uploaded and past the recovery
-- window; a file whose age cannot be read is kept.
pub purge_cut_retaining_recent_safe :
    (files : List Str) (active : Str) (uploaded lost : List Str) (age_of : Str → Option ℕ)
    (min_age : ℕ) (cut : Str)
    → purge_cut_retaining_recent files active uploaded lost age_of min_age ≡ some cut
    → In cut files
      × (before cut files ≢ [])
      × All (ReclaimableOld active uploaded lost age_of min_age) (before cut files)
unfolding purge_cut_retaining_recent
purge_cut_retaining_recent_safe files active uploaded lost age_of min_age cut h =
    let (found, some_before) = cut_at-some files _ {cut = cut} h in
    let (m, stop, rest) = find-before _ files {b = cut} found in
    (
      m,
      some_before (In-ne-nil m),
      All-mono _ _ (before cut files) (old_of_not_stops active uploaded lost age_of min_age) rest,
    )

cut_at_of_before :
    (files : List Str) (b : Str) → before b files ≢ [] → cut_at files (some b) ≡ some b
unfolding cut_at
cut_at_of_before [] b h = refl
cut_at_of_before (f ∷ fs) b h = ground arith

append-ne-nil : (xs ys zs : List Str) → zs ≡ xs ++ ys → xs ≢ [] → zs ≢ []
append-ne-nil [] ys zs e h = absurd (h refl)
append-ne-nil (x ∷ xs) ys zs e h = λ n. cc

cut_at_le :
    (p q : Str → Bool) (files : List Str) (a : Str) {cut : Str}
    → ((f : Str) → p f ≡ true → q f ≡ true)
    → In a files
    → p a ≡ true
    → cut_at files (find q files) ≡ some cut
    → (later : Str) × (rest : List Str) × (cut_at files (find p files) ≡ some later)
      × (before later files ≡ before cut files ++ rest)
cut_at_le p q files a {cut} imp m h e =
    let (found, some_before) = cut_at-some files _ {cut = cut} e in
    let (b, c, eb, ec) = find_implied p q files a imp m h in
    let (rest, r) = before-prefix p q files {b = b} {c = cut} imp eb found in
    let ahead = append-ne-nil _ rest _ r (some_before (In-ne-nil m)) in
    (b, rest, rw eb (cut_at_of_before files b ahead), r)

stops_cut_of_stops_purge :
    (active : Str) (uploaded lost : List Str) (age_of : Str → Option ℕ) (min_age : ℕ) (f : Str)
    → stops_purge active uploaded lost f ≡ true
    → stops_cut active uploaded lost age_of min_age f ≡ true
stops_cut_of_stops_purge active uploaded lost age_of min_age f e = ground arith

-- Where the active file is listed, a group primary's cut names a file only if `purge_cut` does, and
-- it reclaims a prefix of what `purge_cut` would: the recovery window only ever keeps more.
pub purge_cut_retaining_recent_le :
    (files : List Str) (active : Str) (uploaded lost : List Str) (age_of : Str → Option ℕ)
    (min_age : ℕ) (cut : Str)
    → In active files
    → purge_cut_retaining_recent files active uploaded lost age_of min_age ≡ some cut
    → (later : Str) × (rest : List Str) × (purge_cut files active uploaded lost ≡ some later)
      × (before later files ≡ before cut files ++ rest)
unfolding purge_cut purge_cut_retaining_recent
purge_cut_retaining_recent_le files active uploaded lost age_of min_age cut m h =
    cut_at_le (stops_purge active uploaded lost) (stops_cut active uploaded lost age_of min_age)
      files active (stops_cut_of_stops_purge active uploaded lost age_of min_age) m
      (rw (str_eq_refl active) refl) h
