-- ===== src/Db/Lexer.antt =====
-- How a MySQL server reads the texts of src/db/mysql_client.cpp, and what `mysql_real_escape_string`
-- is documented to do with a value.
use flowstudy_judge.Common.{
  ℕ, Bytes, bytes, Bool, true, false, not, ◌&&◌, ◌≡◌, refl, sym, ap, ◌∙◌, arith, List, [], ◌∷◌,
  ◌++◌, Option, none, some, map, ◌==◌, if◌then◌else◌, one_of, all_of, append_assoc, append-nil,
  Option-cases, inl, inr,
}
use flowstudy_judge.Db.{MySqlLib}

abbrev pub quote : ℕ
quote = 39

abbrev backslash : ℕ
backslash = 92

-- A statement is read as bytes of SQL, and values of string literals.
pub data Token : Type 0 where
  code : ℕ → Token
  value : Bytes → Token

-- Between literals; in a literal whose value starts so; after a backslash there; after a quote
-- there, which a second quote makes part of the value; or given up.
pub data Mode : Type 0 where
  outside : Mode
  inside escaped quoted : Bytes → Mode
  refused : Mode

-- The statements have no other quotes, no comments that start with a hash, and, since `mysql_query`
-- takes a C string, no zero byte.
abbrev pub is_code : ℕ → Bool
is_code c = not (c == 0) && not (one_of c (quote ∷ bytes "\"`#"))

-- What stands after a backslash.
abbrev unescape : ℕ → ℕ
unescape c =
    if c == b'0'
    then 0
    else if c == b'n'
    then 10
    else if c == b'r'
    then 13
    else if c == b'Z'
    then 26
    else c

abbrev leave : ℕ → Mode × List Token
leave c = if is_code c then (outside, code c ∷ []) else (refused, [])

abbrev step : Mode → ℕ → Mode × List Token
step outside c = if c == quote then (inside [], []) else leave c
step (inside v) c =
    if c == quote
    then (quoted v, [])
    else if c == backslash
    then (escaped v, [])
    else if c == 0
    then (refused, [])
    else (inside (v ++ c ∷ []), [])
step (escaped v) c = if c == 0 then (refused, []) else (inside (v ++ unescape c ∷ []), [])
step (quoted v) c =
    if c == quote then (inside (v ++ quote ∷ []), []) else ((leave c).0, value v ∷ (leave c).1)
step refused c = (refused, [])

abbrev pub emit : List Token → Option (List Token) → Option (List Token)
emit ts none = none
emit ts (some us) = some (ts ++ us)

-- The tokens of a statement, or nothing where it ends within a literal.
unfoldable pub read : Mode → Bytes → Option (List Token)
read outside [] = some []
read (quoted v) [] = some (value v ∷ [])
read _ [] = none
read mode (c ∷ s) = let (mode', ts) = step mode c in let rest = read mode' s in emit ts rest

-- Which byte stands, after a backslash, for this one.
abbrev escape_code : ℕ → Option ℕ
escape_code c =
    if c == 0
    then some b'0'
    else if c == 10
    then some b'n'
    else if c == 13
    then some b'r'
    else if c == 26
    then some b'Z'
    else if one_of c (quote ∷ backslash ∷ bytes "\"")
    then some c
    else none

abbrev escape_with : ℕ → Option ℕ → Bytes
escape_with c none = c ∷ []
escape_with c (some d) = backslash ∷ d ∷ []

abbrev escape_byte : ℕ → Bytes
escape_byte c = escape_with c (escape_code c)

abbrev pub escape_bytes : Bytes → Bytes
escape_bytes [] = []
escape_bytes (c ∷ s) = escape_byte c ++ escape_bytes s

-- The library escapes byte by byte, as its manual lists.
abbrev pub EscapesAsDocumented : (l : MySqlLib) → Option l.Handle → Type 0
EscapesAsDocumented l conn = (s : Bytes) → l.escape conn s ≡ escape_bytes s

emit-nil : (o : Option (List Token)) → emit [] o ≡ o
emit-nil none = refl
emit-nil (some ts) = refl

emit-emit : (ts us : List Token) (o : Option (List Token)) → emit ts (emit us o) ≡ emit (ts ++ us) o
emit-emit ts us none = refl
emit-emit ts us (some vs) = ap some (sym (append_assoc ts us vs))

read-code :
    (c : ℕ) (s : Bytes)
    → is_code c ≡ true
    → read outside (c ∷ s) ≡ emit (code c ∷ []) (read outside s)
unfolding read
read-code c s h = ground arith

pub read-codes :
    (a s : Bytes)
    → all_of is_code a ≡ true
    → read outside (a ++ s) ≡ emit (map code a) (read outside s)
read-codes [] s h = sym (emit-nil (read outside s))
read-codes (c ∷ a) s h =
    let here : is_code c ≡ true = ground arith in
    let there : all_of is_code a ≡ true = ground arith in
    read-code c (a ++ s) here
    ∙ ap (emit (code c ∷ [])) (read-codes a s there)
    ∙ emit-emit (code c ∷ []) (map code a) (read outside s)

unescape-escape_code : (c d : ℕ) → escape_code c ≡ some d → (d == 0 ≡ false) × (unescape d ≡ c)
unescape-escape_code c d e = ground arith

escape_code-none :
    (c : ℕ)
    → escape_code c ≡ none
    → (c == quote ≡ false) × (c == backslash ≡ false) × (c == 0 ≡ false)
escape_code-none c e = ground arith

read-plain :
    (v : Bytes) (c : ℕ) (s : Bytes)
    → escape_code c ≡ none
    → read (inside v) (c ∷ s) ≡ read (inside (v ++ c ∷ [])) s
unfolding read
read-plain v c s e =
    let (q, b, z) = escape_code-none c e in
    let on : step (inside v) c ≡ (inside (v ++ c ∷ []), []) = simp (q, b, z) in
    rw on (emit-nil (read (inside (v ++ c ∷ [])) s))

read-escaped :
    (v : Bytes) (c d : ℕ) (s : Bytes)
    → escape_code c ≡ some d
    → read (inside v) (backslash ∷ d ∷ s) ≡ read (inside (v ++ c ∷ [])) s
unfolding read
read-escaped v c d s e =
    let (z, same) = unescape-escape_code c d e in
    let on : step (escaped v) d ≡ (inside (v ++ unescape d ∷ []), []) = simp z in
    emit-nil _ ∙ rw on (emit-nil _) ∙ ap (λ x. read (inside (v ++ x ∷ [])) s) same

-- An escaped byte is read as itself.
read-escape_byte :
    (v : Bytes) (c : ℕ) (s : Bytes)
    → read (inside v) (escape_byte c ++ s) ≡ read (inside (v ++ c ∷ [])) s
read-escape_byte v c s = elim (Option-cases (escape_code c)) [
  | inl e ↦ ap (λ o. read (inside v) (escape_with c o ++ s)) e ∙ read-plain v c s e
  | inr (d, e) ↦ ap (λ o. read (inside v) (escape_with c o ++ s)) e ∙ read-escaped v c d s e
]

read-escape_bytes :
    (v w s : Bytes) → read (inside v) (escape_bytes w ++ s) ≡ read (inside (v ++ w)) s
read-escape_bytes v [] s = ap (λ x. read (inside x) s) (sym (append-nil v))
read-escape_bytes v (c ∷ w) s =
    ap (read (inside v)) (append_assoc (escape_byte c) (escape_bytes w) s)
    ∙ read-escape_byte v c (escape_bytes w ++ s)
    ∙ read-escape_bytes (v ++ c ∷ []) w s
    ∙ ap (λ x. read (inside x) s) (append_assoc v (c ∷ []) w)

read-closed :
    (v : Bytes) (c : ℕ) (s : Bytes)
    → is_code c ≡ true
    → read (inside v) (quote ∷ c ∷ s) ≡ emit (value v ∷ code c ∷ []) (read outside s)
unfolding read
read-closed v c s h =
    let on : step (quoted v) c ≡ (outside, value v ∷ code c ∷ []) = ground arith in
    rw on (emit-nil _)

-- A literal of an escaped value, with a byte of SQL behind it, is read as the value.
pub read-literal :
    (w : Bytes) (c : ℕ) (s : Bytes)
    → is_code c ≡ true
    → read outside (quote ∷ (escape_bytes w ++ (quote ∷ c ∷ s)))
      ≡ emit (value w ∷ code c ∷ []) (read outside s)
unfolding read
read-literal w c s h = emit-nil _ ∙ read-escape_bytes [] w (quote ∷ c ∷ s) ∙ read-closed w c s h
