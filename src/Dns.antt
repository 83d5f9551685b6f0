-- ===== src/Dns.antt =====
-- mysql-wrapper/src/dns_probe.rs: the question that the probe sends (`encode_query`) and what it reads of
-- the reply (`decode_rcode`). Labels are measured in bytes, as in the source.
pub mod Wire
use mysql_ha.Prelude.{
  split, ℕ, ◌+◌, ◌/◌, ◌%◌, not, ◌||◌, Option, none, some, List, [], ◌∷◌, ◌++◌, ltb, leb,
  if◌then◌else◌, unwrap_or, length, take, get_elem?, In.here, In.there, Str, codes, str_eq,
  is_empty, strip_suffix,
}

abbrev pub to_be_bytes : ℕ → List ℕ
to_be_bytes id = id / 256 ∷ id % 256 ∷ []

abbrev pub header : ℕ → List ℕ
header id = to_be_bytes id ++ (1 ∷ 0 ∷ 0 ∷ 1 ∷ 0 ∷ 0 ∷ 0 ∷ 0 ∷ 0 ∷ 0 ∷ [])

-- The loop over the labels.
unfoldable pub encode_labels : List Str → Option (List ℕ)
encode_labels [] = some []
encode_labels (label ∷ labels) =
    if is_empty label || ltb 63 (length label) then none else elim (encode_labels labels) [
      | none ↦ none
      | some rest ↦ some (length label ∷ (label ++ rest))
    ]

-- The root label, QTYPE AAAA and QCLASS IN.
abbrev pub question_end : List ℕ
question_end = 0 ∷ 0 ∷ 28 ∷ 0 ∷ 1 ∷ []

-- The name without a trailing dot.
unfoldable pub relative : Str → Str
relative name = unwrap_or (strip_suffix (codes ".") name) name

unfoldable pub encode_query : ℕ → Str → Option (List ℕ)
encode_query id name =
    if is_empty (relative name) || ltb 255 (length (relative name))
    then none
    else elim (encode_labels (split b'.' (relative name))) [
      | none ↦ none
      | some labels ↦ some (header id ++ (labels ++ question_end))
    ]

-- `reply[i]`, where the reply is long enough.
abbrev pub byte_at : List ℕ → ℕ → ℕ
byte_at reply i = unwrap_or (get_elem? reply i) 0

-- `b & 0x80 != 0` and `b & 0x0F` of a byte are a comparison and a remainder.
unfoldable pub decode_rcode : ℕ → List ℕ → Option ℕ
decode_rcode id reply =
    if ltb (length reply) 12
    then none
    else if not (str_eq (take 2 reply) (to_be_bytes id))
    then none
    else if not (leb 128 (byte_at reply 2))
    then none
    else some (byte_at reply 3 % 16)
