-- ===== src/Examples/Head.antt =====
-- mysql-wrapper/src/pitr.rs, the head of a binlog, at concrete inputs.
use mysql_ha.Prelude.{ℕ, ◌≡◌, refl, List, [], ◌∷◌, ◌++◌, arith, codes}
use mysql_ha.Pitr.Head.{
  parsed, rejected, decode_gtid_set, tagged_encoding, parse_binlog_head, format_description_event,
  previous_gtids_log_event, decimal, format_binlog_uuid, u64_at, slice,
}
use mysql_ha.Pitr.Head.Sets.{Sid, encode_gtid_set, gtid_text}
use mysql_ha.Pitr.Head.RoundTrip.{Event, binlog_file, parse_binlog_head-encode}

abbrev one_server : List Sid
one_server =
    record {
      uuid = 1 ∷ 2 ∷ 3 ∷ 4 ∷ 5 ∷ 6 ∷ 7 ∷ 8 ∷ 9 ∷ 10 ∷ 11 ∷ 12 ∷ 13 ∷ 14 ∷ 15 ∷ 255 ∷ [];
      intervals = (1, 6) ∷ (8, 9) ∷ [];
    }
    ∷ []

abbrev event : ℕ → List ℕ → Event
event type_code payload = record {
  timestamp = 1700000000;
  type_code = type_code;
  server_id = 1;
  next_position = 127;
  flags = 0;
  payload = payload;
}

abbrev format_event : Event
format_event = event format_description_event (4 ∷ 0 ∷ [])

abbrev gtids_event : Event
gtids_event = event previous_gtids_log_event (encode_gtid_set one_server ++ (7 ∷ []))

one_server_text : gtid_text one_server ≡ codes "01020304-0506-0708-090a-0b0c0d0e0fff:1-5:8"
unfolding format_binlog_uuid decimal
one_server_text = refl

tagged_refused : decode_gtid_set (0 ∷ 0 ∷ 0 ∷ 0 ∷ 0 ∷ 0 ∷ 0 ∷ 1 ∷ []) ≡ rejected tagged_encoding
unfolding decode_gtid_set u64_at slice
tagged_refused = refl

parse_binlog_head-encode_example :
    parse_binlog_head (binlog_file format_event gtids_event (9 ∷ []))
    ≡ parsed (record { created_at = 1700000000; previous_gtids = gtid_text one_server })
parse_binlog_head-encode_example =
    parse_binlog_head-encode format_event gtids_event one_server (7 ∷ []) (9 ∷ [])
      (omega arith, omega arith, omega arith) refl (omega arith, omega arith, omega arith) refl refl
      (omega arith)
      ((refl, omega arith, ((omega arith, omega arith), ((omega arith, omega arith), tt))), tt)

one_head :
    parse_binlog_head (binlog_file format_event gtids_event (9 ∷ []))
    ≡ parsed (record { created_at = 1700000000; previous_gtids = gtid_text one_server })
one_head =
    parse_binlog_head-encode format_event gtids_event one_server (7 ∷ []) (9 ∷ [])
      (omega arith, omega arith, omega arith) refl (omega arith, omega arith, omega arith) refl refl
      (omega arith)
      ((refl, omega arith, ((omega arith, omega arith), ((omega arith, omega arith), tt))), tt)
