-- ===== src/Db/Recorded/Scripted.antt =====
-- A server to try the updates of src/db/mysql_client.cpp on that keeps tables: it does what the
-- statements that it knows say.
use flowstudy_judge.Common.{
  Bytes, bytes_eq, Bool, true, false, ◌&&◌, ◌==◌, ◌≡◌, ◌∙◌, List, [], ◌∷◌, ◌++◌, foldl,
  foldl-append, none, some, if◌then◌else◌,
}
use flowstudy_judge.Db.Lexer.{Token, code, value, outside, read}
use flowstudy_judge.Db.Pieces.{Piece, tokens}
use flowstudy_judge.Db.Recorded.{Does}
use flowstudy_judge.Db.Tables.{Tables}

abbrev token_eq : Token → Token → Bool
token_eq (code c) (code d) = c == d
token_eq (code c) (value w) = false
token_eq (value v) (code d) = false
token_eq (value v) (value w) = bytes_eq v w

abbrev tokens_eq : List Token → List Token → Bool
tokens_eq [] [] = true
tokens_eq [] (u ∷ us) = false
tokens_eq (t ∷ ts) [] = false
tokens_eq (t ∷ ts) (u ∷ us) = token_eq t u && tokens_eq ts us

-- A statement that this server knows, and what it does.
abbrev pub Known : Type 0
Known = List Piece × (Tables → Tables)

abbrev pub run_known : List Known → List Token → Tables → Tables
run_known [] ts t = t
run_known ((ps, f) ∷ known) ts t = if tokens_eq ts (tokens ps) then f t else run_known known ts t

module _ (known : List Known) (before : Tables) where
  abbrev perform : Tables → Bytes → Tables
  perform t s = elim (read outside s) [ none ↦ t | some ts ↦ run_known known ts t ]

  -- The tables behind these changes, from `before` on.
  abbrev pub tables_of : List Bytes → Tables
  tables_of ss = foldl perform before ss

  pub does :
      (ps : List Piece) (f : Tables → Tables)
      → ((x : Tables) → run_known known (tokens ps) x ≡ f x)
      → Does (λ d s. d ++ s ∷ []) tables_of ps f
  does ps f known_as s d e =
      let one : perform (tables_of d) s ≡ f (tables_of d) =
        rw (e, perform) (known_as (tables_of d)) in
      foldl-append perform before d (s ∷ []) ∙ one
