-- ===== src/Pitr/Head.antt =====
-- mysql-wrapper/src/pitr.rs: the head of a binlog file (`parse_binlog_head`) and mysqld's binary GTID
-- set in it (`decode_gtid_set`). A byte is a number, an instant is its seconds since the epoch.
pub mod Slices
pub mod Sets
pub mod Prefix
pub mod RoundTrip
use mysql_ha.Prelude.{
  ℕ, zero, suc, ◌+◌, ◌-◌, ◌*◌, ◌/◌, ◌%◌, ◌^◌, Bool, true, false, ◌&&◌, Option, none, some, List, [],
  ◌∷◌, ◌++◌, ltb, leb, ◌==◌, if◌then◌else◌, length, take, drop, In.here, In.there, Str, str_eq,
}

pub data HeadError : Type 0 where
  bad_magic truncated_header impossible_length truncated_event gtids_before_format : HeadError
  no_previous_gtids truncated_set tagged_encoding truncated_uuid empty_interval : HeadError

-- `Result` with such an error.
pub data Parsed (A : Type 0) : Type 0 where
  rejected : HeadError → Parsed A
  parsed : A → Parsed A

abbrev pub on_parsed : {A B : Type 0} → (A → Parsed B) → Parsed A → Parsed B
on_parsed next (rejected e) = rejected e
on_parsed next (parsed a) = next a

-- `?` in the middle of a function.
infixl 5 ◌>>=◌
abbrev pub ◌>>=◌ : {A B : Type 0} → Parsed A → (A → Parsed B) → Parsed B
m >>= next = on_parsed next m

infixl 5 ◌>>◌
abbrev pub ◌>>◌ : {B : Type 0} → Parsed (Unit {0}) → Parsed B → Parsed B
m >> later = on_parsed (λ _. later) m

-- `anyhow::ensure!`.
abbrev pub ensure : Bool → HeadError → Parsed (Unit {0})
ensure holds e = if holds then parsed tt else rejected e

-- `bytes.get(at..at + n)`, where `None` is an error.
unfoldable pub slice : ℕ → ℕ → List ℕ → HeadError → Parsed (List ℕ)
slice at n bytes e =
    if leb (at + n) (length bytes) then parsed (take n (drop at bytes)) else rejected e

-- `from_le_bytes`.
abbrev pub from_le_bytes : List ℕ → ℕ
from_le_bytes [] = 0
from_le_bytes (b ∷ bytes) = b + 256 * from_le_bytes bytes

unfoldable pub u64_at : List ℕ → ℕ → Parsed ℕ
u64_at bytes at = do b ← slice at 8 bytes truncated_set; parsed (from_le_bytes b)

-- A number in decimal, as `{}` prints it; each digit uses up fuel, and a number has at most as many
-- digits as itself and one more.
abbrev pub digits : ℕ → ℕ → Str
digits zero n = (48 + n % 10) ∷ []
digits (suc fuel) n = elim (ltb n 10) [
  | true ↦ (48 + n) ∷ []
  | false ↦ digits fuel (n / 10) ++ ((48 + n % 10) ∷ [])
]

unfoldable pub decimal : ℕ → Str
decimal n = digits n n

-- `{b:02x}`.
abbrev pub hex_digit : ℕ → ℕ
hex_digit n = if ltb n 10 then 48 + n else 87 + n

abbrev pub hex : List ℕ → Str
hex [] = []
hex (b ∷ bytes) = hex_digit (b / 16) ∷ hex_digit (b % 16) ∷ hex bytes

unfoldable pub format_binlog_uuid : List ℕ → Str
format_binlog_uuid bytes =
    let text = hex bytes in
    take 8 text
    ++ ((b'-' ∷ take 4 (drop 8 text))
        ++ ((b'-' ∷ take 4 (drop 12 text))
            ++ ((b'-' ∷ take 4 (drop 16 text)) ++ (b'-' ∷ take 12 (drop 20 text)))))

abbrev pub interval_text : ℕ → ℕ → Str
interval_text start end =
    if end == start + 1
    then b':' ∷ decimal start
    else b':' ∷ (decimal start ++ (b'-' ∷ decimal (end - 1)))

-- The inner loop: the intervals of one server, from `at` on, onto the text so far.
unfoldable pub decode_intervals : List ℕ → ℕ → ℕ → Str → Parsed (ℕ × Str)
decode_intervals payload zero at text = parsed (at, text)
decode_intervals payload (suc n) at text = do
  start ← u64_at payload at
  end ← u64_at payload (at + 8)
  ensure (ltb start end) empty_interval
  decode_intervals payload n (at + 16) (text ++ interval_text start end)

-- The outer loop, onto the servers so far.
unfoldable pub decode_sids : List ℕ → ℕ → ℕ → List Str → Parsed (List Str)
decode_sids payload zero at sids = parsed sids
decode_sids payload (suc n) at sids = do
  uuid ← slice at 16 payload truncated_uuid
  n_intervals ← u64_at payload (at + 16)
  r ← decode_intervals payload n_intervals (at + 16 + 8) (format_binlog_uuid uuid)
  decode_sids payload n r.0 (sids ++ (r.1 ∷ []))

-- `sids.join(",")`.
abbrev pub join : List Str → Str
join [] = []
join (s ∷ []) = s
join (s ∷ t ∷ rest) = s ++ (b',' ∷ join (t ∷ rest))

unfoldable pub decode_gtid_set : List ℕ → Parsed Str
decode_gtid_set payload = do
  n_sids_field ← u64_at payload 0
  ensure (n_sids_field / 2 ^ 56 == 0) tagged_encoding
  sids ← decode_sids payload n_sids_field 8 []
  parsed (join sids)

pub record BinlogHead : Type 0 where
  pub created_at : ℕ
  pub previous_gtids : Str

abbrev pub binlog_magic : List ℕ
binlog_magic = 254 ∷ 98 ∷ 105 ∷ 110 ∷ []

abbrev pub binlog_event_header_len : ℕ
binlog_event_header_len = 19

abbrev pub format_description_event : ℕ
format_description_event = 15

abbrev pub previous_gtids_log_event : ℕ
previous_gtids_log_event = 35

abbrev pub binlog_head_event_budget : ℕ
binlog_head_event_budget = 4

-- What an event with this header's type means for the head: the head is complete, or the search goes
-- on with the instant known so far.
pub data Turn : Type 0 where
  complete : BinlogHead → Turn
  continue : Option ℕ → Turn

unfoldable pub read_event : ℕ → ℕ → List ℕ → Option ℕ → Parsed Turn
read_event type_code timestamp payload created_at =
    if type_code == format_description_event
    then parsed (continue (some timestamp))
    else if type_code == previous_gtids_log_event
    then elim created_at [
      | none ↦ rejected gtids_before_format
      | some created_at ↦ do
        previous_gtids ← decode_gtid_set payload
        parsed (complete (record { created_at = created_at; previous_gtids = previous_gtids }))
    ]
    else parsed (continue created_at)

-- The loop over the events, `budget` rounds from `offset` on.
unfoldable pub read_events : List ℕ → ℕ → ℕ → Option ℕ → Parsed BinlogHead
read_events bytes zero offset created_at = rejected no_previous_gtids
read_events bytes (suc budget) offset created_at = do
  header ← slice offset binlog_event_header_len bytes truncated_header
  let timestamp = from_le_bytes (take 4 header)
  let type_code = from_le_bytes (take 1 (drop 4 header))
  let event_len = from_le_bytes (take 4 (drop 9 header))
  ensure (leb binlog_event_header_len event_len) impossible_length
  payload ←
      slice (offset + binlog_event_header_len) (event_len - binlog_event_header_len) bytes
        truncated_event
  turn ← read_event type_code timestamp payload created_at
  elim turn [
    | complete head ↦ parsed head
    | continue created_at ↦ read_events bytes budget (offset + event_len) created_at
  ]

unfoldable pub parse_binlog_head : List ℕ → Parsed BinlogHead
parse_binlog_head bytes = do
  ensure (leb 4 (length bytes) && str_eq (take 4 bytes) binlog_magic) bad_magic
  read_events bytes binlog_head_event_budget 4 none

unfoldable pub binlog_opened_before_cutoff : ℕ → ℕ → Bool
binlog_opened_before_cutoff created_at target_millis = ltb created_at (target_millis / 1000)
