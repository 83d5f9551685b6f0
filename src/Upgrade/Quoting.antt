-- ===== src/Upgrade/Quoting.antt =====
-- mysql-wrapper/src/finish_upgrade.rs: a quoted identifier is read back as the name, whatever it holds.
use mysql_ha.Prelude.{
  ℕ, ◌≡◌, refl, inl, inr, Bool, false, Option, none, some, [], ◌∷◌, ◌++◌, append_assoc, ◌==◌,
  if◌then◌else◌, ==_iff, Bool-cases, Str,
}
use mysql_ha.Upgrade.{double_ticks, quote_identifier}

abbrev pub push : ℕ → Option (Str × Str) → Option (Str × Str)
push c none = none
push c (some (name, rest)) = some (c ∷ name, rest)

-- How the server's lexer reads an identifier behind its opening backtick, with what stands behind it:
-- a doubled backtick stands for one, a single one ends the identifier.
unfoldable pub read_quoted : Str → Option (Str × Str)
read_quoted [] = none
read_quoted (c ∷ []) = if c == b'`' then some ([], []) else none
read_quoted (c ∷ d ∷ rest) =
    let doubled = push c (read_quoted rest) in
    let plain = push c (read_quoted (d ∷ rest)) in
    if c == b'`' then if d == b'`' then doubled else some ([], d ∷ rest) else plain

unfoldable pub read_identifier : Str → Option (Str × Str)
read_identifier [] = none
read_identifier (c ∷ text) = if c == b'`' then read_quoted text else none

abbrev pub starts_with_tick : Str → Bool
starts_with_tick [] = false
starts_with_tick (c ∷ rest) = c == b'`'

read_plain :
    (c : ℕ) (text : Str) → (c == b'`') ≡ false → read_quoted (c ∷ text) ≡ push c (read_quoted text)
unfolding read_quoted
read_plain c [] h = rw h refl
read_plain c (d ∷ rest) h = rw h refl

read_end :
    (rest : Str) → starts_with_tick rest ≡ false → read_quoted (b'`' ∷ rest) ≡ some ([], rest)
unfolding read_quoted
read_end [] h = refl
read_end (d ∷ rest) h = rw h refl

read_doubled :
    (name rest : Str)
    → starts_with_tick rest ≡ false
    → read_quoted (double_ticks name ++ (b'`' ∷ rest)) ≡ some (name, rest)
unfolding read_quoted
read_doubled [] rest h = read_end rest h
read_doubled (c ∷ name) rest h = elim (Bool-cases (c == b'`')) [
  | inl tick ↦
      let same : c ≡ b'`' = (==_iff c b'`').0 tick in
      rw (tick, read_doubled name rest h) (rw same refl)
  | inr plain ↦
      rw (plain, read_plain c (double_ticks name ++ (b'`' ∷ rest)) plain, read_doubled name rest h)
        refl
]

-- A quoted name is read back as the name, whatever it holds, backticks included, and what stands
-- behind it is left for the rest of the statement, as long as that does not begin with a backtick.
pub quote_identifier_read :
    (name rest : Str)
    → starts_with_tick rest ≡ false
    → read_identifier (quote_identifier name ++ rest) ≡ some (name, rest)
unfolding quote_identifier read_identifier
quote_identifier_read name rest h =
    rw (append_assoc (double_ticks name) (b'`' ∷ []) rest) (read_doubled name rest h)
