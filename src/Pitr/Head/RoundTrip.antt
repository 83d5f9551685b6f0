-- ===== src/Pitr/Head/RoundTrip.antt =====
-- mysql-wrapper/src/pitr.rs: the binlog head that mysqld writes, and what is read back.
use mysql_ha.Prelude.{
  ℕ, suc, ◌+◌, ◌-◌, ◌^◌, ◌<◌, ◌≡◌, refl, ap, ◌∙◌, subst, true, Option, none, some, List, [], ◌∷◌,
  ◌++◌, arith, leb, le→leb, length, take, drop, All, Str,
}
use mysql_ha.Pitr.Head.{
  Parsed, parsed, ◌>>=◌, from_le_bytes, decode_gtid_set, complete, continue, read_event,
  read_events, parse_binlog_head, BinlogHead, binlog_magic, binlog_event_header_len,
  truncated_event, truncated_header, format_description_event, previous_gtids_log_event,
}
use mysql_ha.Pitr.Head.Slices.{slice_at}
use mysql_ha.Pitr.Head.Sets.{
  le_bytes, from_le_bytes-le_bytes, Sid, IsSid, encode_gtid_set, gtid_text, decode_gtid_set-encode,
}

-- An event as the server writes it: header and payload.
pub record Event : Type 0 where
  pub timestamp : ℕ
  pub type_code : ℕ
  pub server_id : ℕ
  pub next_position : ℕ
  pub flags : ℕ
  pub payload : List ℕ

abbrev pub event_header : Event → List ℕ
event_header e =
    le_bytes 4 e.timestamp
    ++ ((e.type_code ∷ le_bytes 4 e.server_id)
        ++ (le_bytes 4 (binlog_event_header_len + length e.payload)
            ++ (le_bytes 4 e.next_position ++ le_bytes 2 e.flags)))

abbrev pub encode_event : Event → List ℕ
encode_event e = event_header e ++ e.payload

-- The numbers of an event fit their fields; an event has a payload.
abbrev pub IsEvent : Event → Type 0
IsEvent e =
    (e.timestamp < 2 ^ 32)
    × (0 < length e.payload)
    × (binlog_event_header_len + length e.payload < 2 ^ 32)

-- What the loop does with an event of a type, whose length it reads.
abbrev event_turn : List ℕ → ℕ → ℕ → Option ℕ → Event → ℕ → ℕ → Parsed BinlogHead
event_turn bytes budget offset created_at e type_code event_len =
    read_event type_code e.timestamp e.payload created_at >>= λ turn. elim turn [
      | complete head ↦ parsed head
      | continue created_at ↦ read_events bytes budget (offset + event_len) created_at
    ]

-- One turn of the loop on an event that stands at `offset`.
read_events-event :
    (bytes : List ℕ) (budget offset : ℕ) (created_at : Option ℕ) (e : Event) (rest : List ℕ)
    → IsEvent e
    → drop offset bytes ≡ encode_event e ++ rest
    → (drop (offset + (binlog_event_header_len + length e.payload)) bytes ≡ rest)
      × (read_events bytes (suc budget) offset created_at
          ≡ event_turn bytes budget offset created_at e e.type_code
              (binlog_event_header_len + length e.payload))
unfolding read_events
read_events-event bytes budget offset created_at e rest (ts, some_, len) here_ =
    let (h, left) =
      slice_at offset bytes (event_header e) (e.payload ++ rest) truncated_header (omega arith)
        here_ in
    let (p, left2) = slice_at (offset + 19) bytes e.payload rest truncated_event some_ left in
    let stamp = from_le_bytes-le_bytes 4 e.timestamp ts in
    let event_len = from_le_bytes-le_bytes 4 (binlog_event_header_len + length e.payload) len in
    let long : leb binlog_event_header_len (binlog_event_header_len + length e.payload) ≡ true =
      le→leb _ _ (omega arith) in
    let back : binlog_event_header_len + length e.payload - binlog_event_header_len
        ≡ length e.payload =
      omega arith in
    let code : from_le_bytes (e.type_code ∷ []) ≡ e.type_code = omega arith in
    (
      subst (λ (k : ℕ). drop k bytes ≡ rest) (omega arith) left2,
      rw (h, stamp, event_len, long)
          (rw (back, p)
            (ap
                (λ (t : ℕ).
                  event_turn bytes budget offset created_at e t
                    (from_le_bytes (take 4 (drop 9 (event_header e)))))
                code
              ∙ ap (event_turn bytes budget offset created_at e e.type_code) event_len)),
    )

-- A binlog file as the server opens it: a Format_description event and a Previous_gtids event stand in
-- front of the rest.
abbrev pub binlog_file : Event → Event → List ℕ → List ℕ
binlog_file format gtids rest =
    binlog_magic ++ (encode_event format ++ (encode_event gtids ++ rest))

read_event-format :
    (e : Event) (created_at : Option ℕ)
    → e.type_code ≡ format_description_event
    → read_event e.type_code e.timestamp e.payload created_at ≡ parsed (continue (some e.timestamp))
unfolding read_event
read_event-format e created_at code = rw code refl

read_event-gtids :
    (e : Event) (created_at : ℕ) (text : Str)
    → e.type_code ≡ previous_gtids_log_event
    → decode_gtid_set e.payload ≡ parsed text
    → read_event e.type_code e.timestamp e.payload (some created_at)
      ≡ parsed (complete (record { created_at = created_at; previous_gtids = text }))
unfolding read_event
read_event-gtids e created_at text code set = rw (code, set) refl

-- The head of a binlog file is read as it was written: the instant of its Format_description event, and
-- the text of the set that its Previous_gtids event encodes, whatever the other fields of the
-- events hold and whatever stands behind the set and behind the two events. The set has less than
-- 2^56 servers, each with a UUID of 16 bytes and intervals that are not empty and fit 64 bits, and the
-- instants and lengths of the events fit 32 bits.
pub parse_binlog_head-encode :
    (format gtids : Event) (sids : List Sid) (checksum rest : List ℕ)
    → IsEvent format
    → format.type_code ≡ format_description_event
    → IsEvent gtids
    → gtids.type_code ≡ previous_gtids_log_event
    → gtids.payload ≡ encode_gtid_set sids ++ checksum
    → length sids < 2 ^ 56
    → All IsSid sids
    → parse_binlog_head (binlog_file format gtids rest)
      ≡ parsed (record { created_at = format.timestamp; previous_gtids = gtid_text sids })
unfolding parse_binlog_head
parse_binlog_head-encode format gtids sids checksum rest hf cf hg cg payload few h =
    let bytes = binlog_file format gtids rest in
    let (left, first_) =
      read_events-event bytes 3 4 none format (encode_event gtids ++ rest) hf refl in
    let next = 4 + (binlog_event_header_len + length format.payload) in
    let (left2, second) =
      read_events-event bytes 2 next (some format.timestamp) gtids rest hg left in
    let set : decode_gtid_set gtids.payload ≡ parsed (gtid_text sids) =
      rw payload (decode_gtid_set-encode sids checksum few h) in
    let long : leb 4 (length bytes) ≡ true = le→leb 4 (length bytes) (omega arith) in
    rw (long, first_, read_event-format format none cf)
      (rw (second, read_event-gtids gtids format.timestamp (gtid_text sids) cg set) refl)
