-- ===== src/Pitr/Head/Prefix.antt =====
-- mysql-wrapper/src/pitr.rs: a head that was read from the first bytes of a file is the file's head.
use mysql_ha.Prelude.{
  ℕ, zero, suc, ◌+◌, ◌-◌, ◌≤◌, ◌≡◌, refl, ◌⊎◌, inl, inr, Bool, true, false, ◌&&◌, Option, none,
  List, ◌++◌, arith, leb, le→leb, Bool-cases, length, take, drop, length-append, str_eq,
}
use mysql_ha.Pitr.Head.{
  Parsed, parsed, rejected, HeadError, ◌>>=◌, ensure, slice, from_le_bytes, Turn, complete,
  continue, read_event, read_events, parse_binlog_head, BinlogHead, binlog_magic,
  binlog_event_header_len, truncated_event, truncated_header, binlog_head_event_budget,
}
use mysql_ha.Pitr.Head.Slices.{slice-append, take-append}

ensure-ok : (b : Bool) (e : HeadError) {u : Unit {0}} → ensure b e ≡ parsed u → b ≡ true
ensure-ok true e h = refl
ensure-ok false e h = cc

Parsed-cases :
    {A : Type 0} (m : Parsed A) → ((a : A) × (m ≡ parsed a)) ⊎ ((e : HeadError) × (m ≡ rejected e))
Parsed-cases (parsed a) = inl (a, refl)
Parsed-cases (rejected e) = inr (e, refl)

follow :
    (f g : Option ℕ → Parsed BinlogHead) (m : Parsed Turn) {head : BinlogHead}
    → ((c : Option ℕ) → f c ≡ parsed head → g c ≡ parsed head)
    → (m >>= λ turn. elim turn [ complete h ↦ parsed h | continue c ↦ f c ]) ≡ parsed head
    → (m >>= λ turn. elim turn [ complete h ↦ parsed h | continue c ↦ g c ]) ≡ parsed head
follow f g (rejected e) more h = cc
follow f g (parsed (complete k)) more h = h
follow f g (parsed (continue c)) more h = more c h

read_events-append :
    (bytes more : List ℕ) (budget offset : ℕ) (created_at : Option ℕ) {head : BinlogHead}
    → read_events bytes budget offset created_at ≡ parsed head
    → read_events (bytes ++ more) budget offset created_at ≡ parsed head
unfolding read_events
read_events-append bytes more zero offset created_at h = cc
read_events-append bytes more (suc budget) offset created_at {head} h =
    elim (Parsed-cases (slice offset binlog_event_header_len bytes truncated_header)) [
      | inr (e, failed) ↦ absurd (cc (rw (read_events, failed) at h))
      | inl (header, hs) ↦
          let event_len = from_le_bytes (take 4 (drop 9 header)) in
          let h1 = rw (read_events, hs) at h in
          let hs_more =
            slice-append offset binlog_event_header_len bytes more truncated_header hs in
          elim (Bool-cases (leb binlog_event_header_len event_len)) [
            | inr short ↦ absurd (cc (rw short at h1))
            | inl long ↦
                let h2 = rw long at h1 in
                elim (Parsed-cases (
                  slice (offset + binlog_event_header_len) (event_len - binlog_event_header_len)
                    bytes truncated_event)) [
                      | inr (e, failed) ↦ absurd (cc (rw failed at h2))
                      | inl (payload, ps) ↦
                          let h3 = rw ps at h2 in
                          let ps_more =
                            slice-append (offset + binlog_event_header_len)
                              (event_len - binlog_event_header_len) bytes more truncated_event ps in
                          rw (read_events, hs_more)
                            (rw long (
                              rw ps_more (
                                follow (read_events bytes budget (offset + event_len))
                                  (read_events (bytes ++ more) budget (offset + event_len))
                                  (read_event (from_le_bytes (take 1 (drop 4 header)))
                                    (from_le_bytes (take 4 header)) payload created_at)
                                  (λ c. read_events-append bytes more budget (offset + event_len) c)
                                  h3)))
                    ]
          ]
    ]

-- The head read from the first bytes of a file, if there is one, is what the whole file gives, however
-- much of the file was read.
pub parse_binlog_head-append :
    (bytes more : List ℕ) {head : BinlogHead}
    → parse_binlog_head bytes ≡ parsed head
    → parse_binlog_head (bytes ++ more) ≡ parsed head
unfolding parse_binlog_head
parse_binlog_head-append bytes more {head} h =
    elim (Bool-cases (leb 4 (length bytes) && str_eq (take 4 bytes) binlog_magic)) [
      | inr bad ↦ absurd (cc (rw (parse_binlog_head, bad) at h))
      | inl good ↦
          let fits : 4 ≤ length bytes = ground arith in
          let longer : leb 4 (length (bytes ++ more)) ≡ true =
            le→leb _ _ (omega (arith, length-append bytes more)) in
          let magic : str_eq (take 4 bytes) binlog_magic ≡ true = ground arith in
          let h1 = rw (parse_binlog_head, good) at h in
          rw (longer, take-append 4 bytes more fits, magic)
            (read_events-append bytes more binlog_head_event_budget 4 none h1)
    ]
