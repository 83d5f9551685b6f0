-- ===== src/Dns/Wire.antt =====
-- mysql-wrapper/src/dns_probe.rs: a question that is sent names exactly the host that was asked for.
use mysql_ha.Prelude.{
  split, take-length-append, drop-length-append, ℕ, zero, suc, ◌+◌, ◌≤◌, ◌<◌, ◌≡◌, refl, sym, ap,
  ◌∙◌, inl, inr, true, false, ◌||◌, Option, none, some, List, [], ◌∷◌, ◌++◌, append_assoc, arith,
  ltb, ◌==◌, ltb→lt, ==_iff, Bool-cases, Option-cases, false_of_ne_true, length, take, drop,
  length-append, Str, is_empty,
}
use mysql_ha.Dns.{header, encode_labels, question_end, relative, encode_query}

-- How a resolver reads the labels of a name, up to the root label, and what stands behind it; a
-- length above 63 is no label (from 192 on it is a compression pointer), and each label uses up fuel.
unfoldable pub read_labels : ℕ → List ℕ → Option (List Str × List ℕ)
read_labels fuel [] = none
read_labels zero (n ∷ bytes) = none
read_labels (suc fuel) (n ∷ bytes) = elim (n == 0) [
  | true ↦ some ([], bytes)
  | false ↦ elim (ltb 63 n) [
    | true ↦ none
    | false ↦ elim (ltb (length bytes) n) [
      | true ↦ none
      | false ↦ elim (read_labels fuel (drop n bytes)) [
        | none ↦ none
        | some (labels, rest) ↦ some (take n bytes ∷ labels, rest)
      ]
    ]
  ]
]

abbrev pub join : List Str → Str
join [] = []
join (s ∷ []) = s
join (s ∷ t ∷ rest) = s ++ (b'.' ∷ join (t ∷ rest))

-- The bytes that labels take on the wire.
abbrev wire_length : List Str → ℕ
wire_length [] = 0
wire_length (label ∷ labels) = 1 + length label + wire_length labels

some-inj : {A : Type 0} {a b : A} → some a ≡ some b → a ≡ b
some-inj e = cc

encode_labels-inv :
    (label : Str) (labels : List Str) {w : List ℕ}
    → encode_labels (label ∷ labels) ≡ some w
    → (0 < length label)
      × (length label ≤ 63)
      × (rest : List ℕ) × (encode_labels labels ≡ some rest)
      × (length label ∷ (label ++ rest) ≡ w)
unfolding encode_labels
encode_labels-inv [] labels h = cc
encode_labels-inv (c ∷ label) labels h = elim (Bool-cases (ltb 63 (length (c ∷ label)))) [
  | inl long ↦ absurd (cc (rw (encode_labels, long) at h))
  | inr fits ↦ elim (Option-cases (encode_labels labels)) [
    | inl n ↦ absurd (cc (rw (encode_labels, fits, n) at h))
    | inr (rest, e) ↦
        (omega arith, ground arith, rest, e, some-inj (rw (encode_labels, fits, e) at h))
  ]
]

split-cons : (separator : ℕ) (s : Str) → (p : Str) × (ps : List Str) × (split separator s ≡ p ∷ ps)
unfolding split
split-cons separator [] = ([], [], refl)
split-cons separator (c ∷ s) =
    let (p, ps, e) = split-cons separator s in
    elim (Bool-cases (c == separator)) [
      | inl cut ↦ ([], split separator s, rw cut refl)
      | inr kept ↦ (c ∷ p, ps, rw (kept, e) refl)
    ]

join-onto_first : (c : ℕ) (p : Str) (ps : List Str) → join ((c ∷ p) ∷ ps) ≡ c ∷ join (p ∷ ps)
join-onto_first c p [] = refl
join-onto_first c p (q ∷ qs) = refl

join-split : (s : Str) → join (split b'.' s) ≡ s
unfolding split
join-split [] = refl
join-split (c ∷ s) =
    let (p, ps, e) = split-cons b'.' s in
    let ih : join (p ∷ ps) ≡ s = rw e at (join-split s) in
    elim (Bool-cases (c == b'.')) [
      | inl cut ↦
          let same : c ≡ b'.' = (==_iff c b'.').0 cut in
          rw (cut, e) (rw same (ap (λ (x : Str). b'.' ∷ x) ih))
      | inr kept ↦ rw (kept, e) (join-onto_first c p ps ∙ ap (λ (x : Str). c ∷ x) ih)
    ]

wire_length-onto_first :
    (c : ℕ) (p : Str) (ps : List Str) → wire_length ((c ∷ p) ∷ ps) ≡ suc (wire_length (p ∷ ps))
wire_length-onto_first c p ps = omega arith

wire_length-split : (s : Str) → wire_length (split b'.' s) ≡ suc (length s)
unfolding split
wire_length-split [] = omega arith
wire_length-split (c ∷ s) =
    let (p, ps, e) = split-cons b'.' s in
    let ih : wire_length (p ∷ ps) ≡ suc (length s) = rw e at (wire_length-split s) in
    elim (Bool-cases (c == b'.')) [
      | inl cut ↦ rw (cut, e) (omega (arith, ih))
      | inr kept ↦ rw (kept, e) (omega (arith, ih))
    ]

length-encode_labels :
    (labels : List Str) {w : List ℕ} → encode_labels labels ≡ some w → length w ≡ wire_length labels
unfolding encode_labels
length-encode_labels [] h = ap length (sym (some-inj h))
length-encode_labels (label ∷ labels) h =
    let (_, _, rest, e, same) = encode_labels-inv label labels h in
    rw (← same) (omega (arith, length-append label rest, length-encode_labels labels e))

read_labels-encode_labels :
    (fuel : ℕ) (labels : List Str) (tail : List ℕ) {w : List ℕ}
    → length labels < fuel
    → encode_labels labels ≡ some w
    → read_labels fuel (w ++ (0 ∷ tail)) ≡ some (labels, tail)
unfolding read_labels encode_labels
read_labels-encode_labels zero labels tail lt h = absurd (omega arith)
read_labels-encode_labels (suc fuel) [] tail lt h = rw (← some-inj h) refl
read_labels-encode_labels (suc fuel) (label ∷ labels) tail lt h =
    let (some_, small, rest, e, same) = encode_labels-inv label labels h in
    let bytes = (label ++ rest) ++ (0 ∷ tail) in
    let apart : bytes ≡ label ++ (rest ++ (0 ∷ tail)) = append_assoc label rest (0 ∷ tail) in
    let total = length-append label (rest ++ (0 ∷ tail)) in
    let not_root : (length label == 0) ≡ false =
      false_of_ne_true _ (λ t. absurd (let z = (==_iff _ _).0 t in omega arith)) in
    let fits : ltb (length (label ++ (rest ++ (0 ∷ tail)))) (length label) ≡ false =
      false_of_ne_true _ (λ t. absurd (let z = ltb→lt _ _ t in omega arith)) in
    let is_label : ltb 63 (length label) ≡ false =
      false_of_ne_true _ (λ t. absurd (let z = ltb→lt _ _ t in omega arith)) in
    let ih = read_labels-encode_labels fuel labels tail (omega arith) e in
    rw (← same) (
      rw apart (
        rw (not_root, is_label, read_labels)
          (rw (fits, drop-length-append label (rest ++ (0 ∷ tail)), ih)
            (rw (take-length-append label (rest ++ (0 ∷ tail))) refl))))

wire_length-le : (labels : List Str) → length labels ≤ wire_length labels
wire_length-le [] = omega arith
wire_length-le (label ∷ labels) = omega (arith, wire_length-le labels)

encode_query-inv :
    (id : ℕ) (name : Str) {packet : List ℕ}
    → encode_query id name ≡ some packet
    → (length (relative name) ≤ 255)
      × (w : List ℕ) × (encode_labels (split b'.' (relative name)) ≡ some w)
      × (header id ++ (w ++ question_end) ≡ packet)
unfolding encode_query
encode_query-inv id name h =
    elim (Bool-cases (is_empty (relative name) || ltb 255 (length (relative name)))) [
      | inl bad ↦ absurd (cc (rw (encode_query, bad) at h))
      | inr good ↦ elim (Option-cases (encode_labels (split b'.' (relative name)))) [
        | inl n ↦ absurd (cc (rw (encode_query, good, n) at h))
        | inr (w, e) ↦ (ground arith, w, e, some-inj (rw (encode_query, good, e) at h))
      ]
    ]

-- A question that is sent takes eighteen bytes more than the name, which has at most 255, and behind
-- its header a resolver, which takes a label of 1 to 63 bytes, reads labels that are the name again,
-- up to a trailing dot, and then the question for the AAAA record of class IN. That the labels fit the
-- 255 bytes of a name on the wire is not part of it.
pub encode_query_reads_back :
    (id : ℕ) (name : Str) (packet : List ℕ)
    → encode_query id name ≡ some packet
    → (length packet ≡ length (relative name) + 18)
      × (length (relative name) ≤ 255)
      × (labels : List Str) × (read_labels (length packet) (drop 12 packet)
          ≡ some (labels, 0 ∷ 28 ∷ 0 ∷ 1 ∷ []))
      × (join labels ≡ relative name)
encode_query_reads_back id name packet h =
    let (short, w, e, same) = encode_query-inv id name h in
    let labels = split b'.' (relative name) in
    let size : length w ≡ suc (length (relative name)) =
      length-encode_labels labels e ∙ wire_length-split (relative name) in
    let count = wire_length-le labels in
    let whole = length-append w question_end in
    let names = wire_length-split (relative name) in
    rw (← same) (
      omega arith,
      short,
      labels,
      read_labels-encode_labels _ labels _ (omega arith) e,
      join-split (relative name),
    )
