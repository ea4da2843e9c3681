-- ===== src/Wal/Lines.antt =====
-- `BufRead::lines` of the standard library, which src/wal.rs and src/server.rs read files by.
use kind.Prelude.{
  List-cases, inl, inr, ◌≢◌, ℕ, ◌≡◌, refl, ap, ◌∙◌, false, List, [], ◌∷◌, ◌++◌, Text, contains,
  nat_eq, nat_beq, arith, if◌then◌else◌,
}

abbrev cons_head : ℕ → List Text → List Text
cons_head c [] = (c ∷ []) ∷ []
cons_head c (l ∷ ls) = (c ∷ l) ∷ ls

abbrev split_step : ℕ → List Text → List Text
split_step c rest = if nat_beq c b'\n' then [] ∷ rest else cons_head c rest

-- The parts between newlines; a newline at the end starts no further line.
unfoldable pub split_lines : Text → List Text
split_lines [] = []
split_lines (c ∷ cs) = split_step c (split_lines cs)

-- A carriage return at the end of a line goes too.
unfoldable pub strip_return : Text → Text
strip_return [] = []
strip_return (c ∷ []) = if nat_beq c b'\r' then [] else c ∷ []
strip_return (c ∷ d ∷ cs) = c ∷ strip_return (d ∷ cs)

unfoldable pub strip_all : List Text → List Text
unfolding strip_return
strip_all [] = []
strip_all (l ∷ ls) = strip_return l ∷ strip_all ls

unfoldable pub lines : Text → List Text
unfolding split_lines strip_all
lines file = strip_all (split_lines file)

-- The file is empty or ends with a newline: its last write was complete.
abbrev pub IsClosed : Text → Type 0
IsClosed [] = Unit
IsClosed (c ∷ []) = c ≡ b'\n'
IsClosed (c ∷ d ∷ cs) = IsClosed (d ∷ cs)

pub IsClosed-append : (f g : Text) → IsClosed f → IsClosed g → IsClosed (f ++ g)
IsClosed-append [] g cf cg = cg
IsClosed-append (c ∷ []) [] cf cg = cf
IsClosed-append (c ∷ []) (d ∷ g) cf cg = cg
IsClosed-append (c ∷ d ∷ f) g cf cg = IsClosed-append (d ∷ f) g cf cg

pub IsClosed-line : (l : Text) → IsClosed (l ++ b'\n' ∷ [])
IsClosed-line [] = refl
IsClosed-line (c ∷ []) = refl
IsClosed-line (c ∷ d ∷ l) = IsClosed-line (d ∷ l)

strip_return_plain : (l : Text) → contains l b'\r' ≡ false → strip_return l ≡ l
unfolding strip_return contains
strip_return_plain [] h = refl
strip_return_plain (c ∷ []) h = ground arith
strip_return_plain (c ∷ d ∷ l) h = ap (◌∷◌ c) (strip_return_plain (d ∷ l) (ground arith))

split_lines-line :
    (l rest : Text)
    → contains l b'\n' ≡ false
    → split_lines (l ++ b'\n' ∷ rest) ≡ l ∷ split_lines rest
unfolding split_lines contains
split_lines-line [] rest h = refl
split_lines-line (c ∷ l) rest h = ground (arith, split_lines-line l rest)

split_step-append :
    (c : ℕ) (xs ys : List Text) → xs ≢ [] → split_step c (xs ++ ys) ≡ split_step c xs ++ ys
split_step-append c [] ys h = absurd (h refl)
split_step-append c (x ∷ xs) ys h = ground arith

split_lines-ne-nil : (c : ℕ) (cs : Text) → split_lines (c ∷ cs) ≢ []
unfolding split_lines
split_lines-ne-nil c cs = elim (List-cases (split_lines cs)) [
  | inl p ↦ λ q. ground arith
  | inr (x, xs, p) ↦ λ q. ground arith
]

split_lines-append :
    (f g : Text) → IsClosed f → split_lines (f ++ g) ≡ split_lines f ++ split_lines g
unfolding split_lines
split_lines-append [] g h = refl
split_lines-append (c ∷ []) g h = ground arith
split_lines-append (c ∷ d ∷ f) g h =
    ap (split_step c) (split_lines-append (d ∷ f) g h)
    ∙ split_step-append c (split_lines (d ∷ f)) (split_lines g) (split_lines-ne-nil d f)

strip_all-append : (xs ys : List Text) → strip_all (xs ++ ys) ≡ strip_all xs ++ strip_all ys
unfolding strip_all
strip_all-append [] ys = refl
strip_all-append (x ∷ xs) ys = ap (◌∷◌ (strip_return x)) (strip_all-append xs ys)

-- A complete file and what follows it are read one after the other.
pub lines-append : (f g : Text) → IsClosed f → lines (f ++ g) ≡ lines f ++ lines g
unfolding lines
lines-append f g h = ap strip_all (split_lines-append f g h) ∙ strip_all-append _ _

-- A line with no control character of its own is read as it was written.
pub lines-line :
    (l : Text)
    → contains l b'\n' ≡ false
    → contains l b'\r' ≡ false
    → lines (l ++ b'\n' ∷ []) ≡ l ∷ []
unfolding lines
lines-line l n r =
    ap strip_all (split_lines-line l [] n) ∙ ap (λ x. x ∷ []) (strip_return_plain l r)
