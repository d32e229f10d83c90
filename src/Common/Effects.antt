-- ===== src/Common/Effects.antt =====
-- Effects: a state is passed on, an exception is thrown, or the thread waits for ever.
use mathlib.Core.Path.{◌≡◌, refl}

-- How a C++ call ends: it returns, an exception leaves it, or it blocks.
pub data Outcome (S A : Type 0) : Type 0 where
  done : A → S → Outcome S A
  threw : S → Outcome S A
  hung : S → Outcome S A

abbrev pub M : Type 0 → Type 0 → Type 0
M S A = S → Outcome S A

abbrev pub return : {S A : Type 0} → A → M S A
return a s = done a s

infixl 5 ◌>>=◌ ◌>>◌
abbrev pub ◌>>=◌ : {S A B : Type 0} → M S A → (A → M S B) → M S B
◌>>=◌ m f s = elim (m s) [ done a t ↦ f a t | threw t ↦ threw t | hung t ↦ hung t ]

abbrev pub ◌>>◌ : {S A B : Type 0} → M S A → M S B → M S B
◌>>◌ m k = ◌>>=◌ m (λ _. k)

-- A call of a library that neither throws nor blocks.
abbrev pub call : {S A : Type 0} → (S → A × S) → M S A
call f s = done (f s).0 (f s).1

-- Inversion of a sequence that returns.
pub >>=-eq-done :
    {S A B : Type 0} (m : M S A) (f : A → M S B) (s : S) {b : B} {u : S}
    → ◌>>=◌ m f s ≡ done b u
    → (a : A) × (t : S) × (m s ≡ done a t) × (f a t ≡ done b u)
>>=-eq-done {S} {A} {B} m f s {b} {u} h = go (m s) refl h
  where
    go :
        (o : Outcome S A)
        → m s ≡ o
        → (elim o as (λ _. Outcome S B) [ done a t ↦ f a t | threw t ↦ threw t | hung t ↦ hung t ])
          ≡ done b u
        → (a : A) × (t : S) × (m s ≡ done a t) × (f a t ≡ done b u)
    go (done a t) e k = (a, t, e, k)
    go (threw t) e k = cc
    go (hung t) e k = cc

-- A first step that returns hands over to the second.
pub >>=-done :
    {S A B : Type 0} (m : M S A) (f : A → M S B) (s : S) {t : S} {a : A}
    → m s ≡ done a t
    → ◌>>=◌ m f s ≡ f a t
>>=-done m f s e = rw (e, ◌>>=◌)

-- An exception of the first step leaves the whole.
pub >>=-threw :
    {S A B : Type 0} (m : M S A) (f : A → M S B) (s : S) {t : S}
    → m s ≡ threw t
    → ◌>>=◌ m f s ≡ threw t
>>=-threw m f s e = rw (e, ◌>>=◌)

pub >>=-hung :
    {S A B : Type 0} (m : M S A) (f : A → M S B) (s : S) {t : S}
    → m s ≡ hung t
    → ◌>>=◌ m f s ≡ hung t
>>=-hung m f s e = rw (e, ◌>>=◌)
