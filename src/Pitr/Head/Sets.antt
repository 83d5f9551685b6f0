-- ===== src/Pitr/Head/Sets.antt =====
-- mysql-wrapper/src/pitr.rs: the GTID set that mysqld encodes, and what is read back.
use mysql_ha.Prelude.{
  ℕ, zero, suc, ◌+◌, ◌*◌, ◌/◌, ◌%◌, ◌^◌, ◌<◌, ◌≡◌, refl, ap, ◌∙◌, subst, true, List, [], ◌∷◌, ◌++◌,
  map, append_assoc, append-nil, arith, ◌==◌, lt→ltb, ==_iff, length, drop, All, Str,
}
use mysql_ha.Pitr.Head.{
  parsed, slice, from_le_bytes, u64_at, interval_text, decode_intervals, decode_sids,
  format_binlog_uuid, join, decode_gtid_set, truncated_set, truncated_uuid,
}
use mysql_ha.Pitr.Head.Slices.{slice_at}

-- A number in `w` little-endian bytes.
abbrev pub le_bytes : ℕ → ℕ → List ℕ
le_bytes zero n = []
le_bytes (suc w) n = n % 256 ∷ le_bytes w (n / 256)

abbrev pub width : ℕ → ℕ
width zero = 1
width (suc w) = 256 * width w

pub from_le_bytes-le_bytes : (w n : ℕ) → n < width w → from_le_bytes (le_bytes w n) ≡ n
from_le_bytes-le_bytes zero n h = omega arith
from_le_bytes-le_bytes (suc w) n h =
    let small : n / 256 < width w = omega arith in
    rw (from_le_bytes-le_bytes w (n / 256) small) (omega arith)

-- One server of the set: its UUID, and the intervals as a start and an exclusive end.
pub record Sid : Type 0 where
  pub uuid : List ℕ
  pub intervals : List (ℕ × ℕ)

abbrev pub encode_intervals : List (ℕ × ℕ) → List ℕ
encode_intervals [] = []
encode_intervals ((start, end) ∷ rest) =
    le_bytes 8 start ++ (le_bytes 8 end ++ encode_intervals rest)

abbrev pub encode_sids : List Sid → List ℕ
encode_sids [] = []
encode_sids (s ∷ sids) =
    s.uuid
    ++ (le_bytes 8 (length s.intervals) ++ (encode_intervals s.intervals ++ encode_sids sids))

abbrev pub encode_gtid_set : List Sid → List ℕ
encode_gtid_set sids = le_bytes 8 (length sids) ++ encode_sids sids

-- The text of the set as mysqld takes it.
abbrev pub intervals_text : List (ℕ × ℕ) → Str
intervals_text [] = []
intervals_text ((start, end) ∷ rest) = interval_text start end ++ intervals_text rest

abbrev pub sid_text : Sid → Str
sid_text s = format_binlog_uuid s.uuid ++ intervals_text s.intervals

abbrev pub gtid_text : List Sid → Str
gtid_text sids = join (map sid_text sids)

abbrev pub IsInterval : ℕ × ℕ → Type 0
IsInterval (start, end) = (start < end) × (end < 2 ^ 64)

abbrev pub IsSid : Sid → Type 0
IsSid s = (length s.uuid ≡ 16) × (length s.intervals < 2 ^ 64) × All IsInterval s.intervals

u64_at-le_bytes :
    (payload : List ℕ) (at n : ℕ) (rest : List ℕ)
    → n < 2 ^ 64
    → drop at payload ≡ le_bytes 8 n ++ rest
    → (u64_at payload at ≡ parsed n) × (drop (at + 8) payload ≡ rest)
unfolding u64_at
u64_at-le_bytes payload at n rest h e =
    let (read, left) = slice_at at payload (le_bytes 8 n) rest truncated_set (omega arith) e in
    (rw read (ap parsed (from_le_bytes-le_bytes 8 n h)), left)

decode_intervals-encode :
    (payload : List ℕ) (at : ℕ) (intervals : List (ℕ × ℕ)) (text : Str) (rest : List ℕ)
    → All IsInterval intervals
    → drop at payload ≡ encode_intervals intervals ++ rest
    → (end : ℕ) × (decode_intervals payload (length intervals) at text
        ≡ parsed (end, text ++ intervals_text intervals))
      × (drop end payload ≡ rest)
unfolding decode_intervals
decode_intervals-encode payload at [] text rest h e = (at, rw (append-nil text) refl, e)
decode_intervals-encode payload at ((start, end) ∷ more) text rest ((lt, bound), h) e =
    let (s, left) = u64_at-le_bytes payload at start _ (omega arith) e in
    let (t, left2) = u64_at-le_bytes payload (at + 8) end _ bound left in
    let seen : drop (at + 16) payload ≡ encode_intervals more ++ rest =
      subst (λ (k : ℕ). drop k payload ≡ encode_intervals more ++ rest) (omega arith) left2 in
    let (last_, r, left3) =
      decode_intervals-encode payload (at + 16) more (text ++ interval_text start end) rest h
        seen in
    (
      last_,
      rw (s, t, lt→ltb start end lt)
          (r ∙ ap (λ (x : Str). parsed (last_, x)) (append_assoc text _ _)),
      left3,
    )

decode_sids-encode :
    (payload : List ℕ) (at : ℕ) (sids : List Sid) (done : List Str) (rest : List ℕ)
    → All IsSid sids
    → drop at payload ≡ encode_sids sids ++ rest
    → decode_sids payload (length sids) at done ≡ parsed (done ++ map sid_text sids)
unfolding decode_sids
decode_sids-encode payload at [] done rest h e = rw (append-nil done) refl
decode_sids-encode payload at (s ∷ more) done rest ((uuid_len, bound, intervals), h) e =
    let e1 : drop at payload
        ≡ s.uuid
          ++ (le_bytes 8 (length s.intervals)
              ++ (encode_intervals s.intervals ++ (encode_sids more ++ rest))) =
      e
      ∙ append_assoc s.uuid _ rest
      ∙ ap (λ (x : List ℕ). s.uuid ++ (le_bytes 8 (length s.intervals) ++ x))
          (append_assoc (encode_intervals s.intervals) (encode_sids more) rest) in
    let (u, left) = slice_at at payload s.uuid _ truncated_uuid (omega arith) e1 in
    let u16 : slice at 16 payload truncated_uuid ≡ parsed s.uuid = rw (← uuid_len) u in
    let left16 : drop (at + 16) payload
        ≡ le_bytes 8 (length s.intervals)
          ++ (encode_intervals s.intervals ++ (encode_sids more ++ rest)) =
      rw (← uuid_len) left in
    let (n, left2) = u64_at-le_bytes payload (at + 16) (length s.intervals) _ bound left16 in
    let (last_, r, left3) =
      decode_intervals-encode payload (at + 16 + 8) s.intervals (format_binlog_uuid s.uuid) _
        intervals left2 in
    rw (u16, n, r)
      (decode_sids-encode payload last_ more (done ++ (sid_text s ∷ [])) rest h left3
        ∙ ap parsed (append_assoc done (sid_text s ∷ []) (map sid_text more)))

-- A set that mysqld encodes is read back as its text, whatever stands behind it.
pub decode_gtid_set-encode :
    (sids : List Sid) (rest : List ℕ)
    → length sids < 2 ^ 56
    → All IsSid sids
    → decode_gtid_set (encode_gtid_set sids ++ rest) ≡ parsed (gtid_text sids)
unfolding decode_gtid_set
decode_gtid_set-encode sids rest few h =
    let payload = encode_gtid_set sids ++ rest in
    let (n, left) =
      u64_at-le_bytes payload 0 (length sids) (encode_sids sids ++ rest) (omega arith) refl in
    let small : (length sids / 2 ^ 56 == 0) ≡ true = (==_iff _ 0).1 (omega arith) in
    rw (n, small, decode_sids-encode payload 8 sids [] rest h left) refl
