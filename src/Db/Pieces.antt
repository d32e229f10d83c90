-- ===== src/Db/Pieces.antt =====
-- A statement of src/db/mysql_client.cpp as what its `<<` chain puts together: SQL, and values.
use flowstudy_judge.Common.{
  ℕ, suc, Bytes, bytes, Bool, true, false, ◌&&◌, ◌==◌, ℤ, pos, negsuc, to_string_ℕ, to_string_ℤ,
  to_string_ℕ-is_digit, is_digit, if-elim, ◌≡◌, refl, ap, ◌∙◌, arith, List, [], ◌∷◌, ◌++◌, Option,
  some, map, if◌then◌else◌, is_empty, all_of, append_assoc,
}
use flowstudy_judge.Db.{MySqlLib}
use flowstudy_judge.Db.Sql.{escaped_text, nullable_text}
use flowstudy_judge.Db.Lexer.{
  quote, Token, code, value, outside, is_code, emit, read, EscapesAsDocumented, read-codes,
  read-literal,
}

-- A text, and a text that is NULL where it is empty, go with the byte behind them.
pub data Piece : Type 0 where
  sql : Bytes → Piece
  number : ℤ → Piece
  row_id : ℕ → Piece
  -- NULL for 0
  row_id_or_null : ℕ → Piece
  choice : Bool → Bytes → Bytes → Piece
  text text_or_null : Bytes → ℕ → Piece

-- The SQL of a piece with no text.
abbrev sql_of : Piece → Bytes
sql_of (sql a) = a
sql_of (number n) = to_string_ℤ n
sql_of (row_id n) = to_string_ℕ n
sql_of (row_id_or_null n) = if n == 0 then bytes "NULL" else to_string_ℕ n
sql_of (choice b s t) = if b then s else t
sql_of (text v c) = []
sql_of (text_or_null v c) = []

-- What a server is to read.
abbrev tokens_of : Piece → List Token
tokens_of (text v c) = value v ∷ code c ∷ []
tokens_of (text_or_null v c) =
    if is_empty v then map code (bytes "NULL" ++ c ∷ []) else (value v ∷ code c ∷ [])
tokens_of p = map code (sql_of p)

unfoldable pub tokens : List Piece → List Token
tokens [] = []
tokens (p ∷ ps) = tokens_of p ++ tokens ps

-- Around the values there is nothing that a server reads as a literal.
abbrev is_sql : Piece → Bool
is_sql (sql a) = all_of is_code a
is_sql (number n) = true
is_sql (row_id n) = true
is_sql (row_id_or_null n) = true
is_sql (choice b s t) = all_of is_code s && all_of is_code t
is_sql (text v c) = is_code c
is_sql (text_or_null v c) = is_code c

abbrev pub all_sql : List Piece → Bool
all_sql [] = true
all_sql (p ∷ ps) = is_sql p && all_sql ps

both : (a b : Bool) → (a && b) ≡ true → (a ≡ true) × (b ≡ true)
both true b h = (refl, h)
both false b h = absurd cc

digits-is_code : (s : Bytes) → all_of is_digit s ≡ true → all_of is_code s ≡ true
digits-is_code [] h = refl
digits-is_code (c ∷ s) h = ground (arith, digits-is_code s)

to_string_ℕ-is_code : (n : ℕ) → all_of is_code (to_string_ℕ n) ≡ true
to_string_ℕ-is_code n = digits-is_code (to_string_ℕ n) (to_string_ℕ-is_digit n)

to_string_ℤ-is_code : (n : ℤ) → all_of is_code (to_string_ℤ n) ≡ true
unfolding to_string_ℤ
to_string_ℤ-is_code (pos n) = to_string_ℕ-is_code n
to_string_ℤ-is_code (negsuc n) = to_string_ℕ-is_code (suc n)

-- The SQL of these pieces is code.
sql_of-is_code : (p : Piece) → is_sql p ≡ true → all_of is_code (sql_of p) ≡ true
sql_of-is_code (sql a) h = h
sql_of-is_code (number n) h = to_string_ℤ-is_code n
sql_of-is_code (row_id n) h = to_string_ℕ-is_code n
sql_of-is_code (row_id_or_null n) h =
    if-elim (λ x. all_of is_code x ≡ true) (n == 0) refl (to_string_ℕ-is_code n)
sql_of-is_code (choice b s t) h =
    if-elim (λ x. all_of is_code x ≡ true) b (both (all_of is_code s) (all_of is_code t) h).0
      (both (all_of is_code s) (all_of is_code t) h).1
sql_of-is_code (text v c) h = refl
sql_of-is_code (text_or_null v c) h = refl

module _ (l : MySqlLib) (conn : Option l.Handle) where
  unfoldable pub render : List Piece → Bytes
  unfolding nullable_text
  render [] = []
  render (text v c ∷ ps) = quote ∷ (escaped_text l conn v ++ (quote ∷ c ∷ render ps))
  render (text_or_null v c ∷ ps) = nullable_text l conn v ++ (c ∷ render ps)
  render (p ∷ ps) = sql_of p ++ render ps

  module _ (documented : EscapesAsDocumented l conn) where
    read-text :
        (v : Bytes) (c : ℕ) (s : Bytes)
        → is_code c ≡ true
        → read outside (quote ∷ (escaped_text l conn v ++ (quote ∷ c ∷ s)))
          ≡ emit (value v ∷ code c ∷ []) (read outside s)
    read-text v c s h =
        ap (λ x. read outside (quote ∷ (x ++ (quote ∷ c ∷ s)))) (documented v)
        ∙ read-literal v c s h

    read-text_or_null :
        (v : Bytes) (c : ℕ) (s : Bytes)
        → is_code c ≡ true
        → read outside (nullable_text l conn v ++ (c ∷ s))
          ≡ emit (tokens_of (text_or_null v c)) (read outside s)
    unfolding nullable_text
    read-text_or_null [] c s h = read-codes (bytes "NULL" ++ c ∷ []) s (ground arith)
    read-text_or_null (x ∷ v) c s h =
        ap (λ y. read outside (quote ∷ y))
          (append_assoc (escaped_text l conn (x ∷ v)) (quote ∷ []) (c ∷ s))
        ∙ read-text (x ∷ v) c s h

    read-sql :
        (p : Piece) (s : Bytes)
        → is_sql p ≡ true
        → read outside (sql_of p ++ s) ≡ emit (map code (sql_of p)) (read outside s)
    read-sql p s h = read-codes (sql_of p) s (sql_of-is_code p h)

    -- A server reads the pieces as they are meant.
    pub read-render :
        (ps : List Piece) → all_sql ps ≡ true → read outside (render ps) ≡ some (tokens ps)
    unfolding read render tokens
    read-render [] h = refl
    read-render (text v c ∷ ps) h =
        let (here, there) = both (is_code c) (all_sql ps) h in
        read-text v c (render ps) here ∙ ap (emit (value v ∷ code c ∷ [])) (read-render ps there)
    read-render (text_or_null v c ∷ ps) h =
        let (here, there) = both (is_code c) (all_sql ps) h in
        read-text_or_null v c (render ps) here
        ∙ ap (emit (tokens_of (text_or_null v c))) (read-render ps there)
    read-render (p ∷ ps) h =
        let (here, there) = both (is_sql p) (all_sql ps) h in
        read-sql p (render ps) here ∙ ap (emit (map code (sql_of p))) (read-render ps there)
