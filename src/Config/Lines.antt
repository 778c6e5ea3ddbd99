-- ===== src/Config/Lines.antt =====
-- `getline` takes apart what has been put together with the delimiter.
use mathlib.Core.List.{append_assoc, append-nil}
use malicious_mpsi.Base.{
  ℕ, ◌<◌, ◌≡◌, ◌≢◌, refl, sym, ◌∙◌, ap, List, [], ◌∷◌, ◌++◌, arith, length, All, eq→==, ne→==,
}
use malicious_mpsi.Config.{Text, last_line, get_lines}

-- The lines with the delimiter between them.
abbrev pub join : ℕ → List Text → Text
join delim [] = []
join delim (t ∷ []) = t
join delim (t ∷ u ∷ rest) = t ++ (delim ∷ join delim (u ∷ rest))

-- The delimiter does not occur.
abbrev pub IsFree : ℕ → Text → Type 0
IsFree delim t = All (λ c. c ≢ delim) t

-- The last line has characters: an empty one at the end of a stream is not read.
abbrev pub EndsFull : List Text → Type 0
EndsFull [] = Unit
EndsFull (t ∷ []) = 0 < length t
EndsFull (t ∷ u ∷ rest) = EndsFull (u ∷ rest)

line_end :
    (delim : ℕ) (line t rest : Text)
    → IsFree delim t
    → get_lines delim line (t ++ (delim ∷ rest)) ≡ (line ++ t) ∷ get_lines delim [] rest
unfolding get_lines
line_end delim line [] rest f =
    rw (eq→== delim delim refl) (ap (λ u. u ∷ get_lines delim [] rest) (sym (append-nil line)))
line_end delim line (x ∷ t) rest f = rw (ne→== x delim f.0) (
    line_end delim (line ++ (x ∷ [])) t rest f.1
    ∙ ap (λ u. u ∷ get_lines delim [] rest) (append_assoc line (x ∷ []) t))

last_of : (t : Text) → 0 < length t → last_line t ≡ t ∷ []
last_of [] h = absurd (omega arith)
last_of (c ∷ t) h = refl

stream_end :
    (delim : ℕ) (line t : Text)
    → IsFree delim t
    → 0 < length (line ++ t)
    → get_lines delim line t ≡ (line ++ t) ∷ []
unfolding get_lines
stream_end delim line [] f h = rw (append-nil line) (last_of line (rw (append-nil line) at h))
stream_end delim line (x ∷ t) f h = rw (ne→== x delim f.0) (
    stream_end delim (line ++ (x ∷ [])) t f.1 (rw (append_assoc line (x ∷ []) t) h)
    ∙ ap (λ u. u ∷ []) (append_assoc line (x ∷ []) t))

pub get_lines-join :
    (delim : ℕ) (ts : List Text)
    → All (IsFree delim) ts
    → EndsFull ts
    → get_lines delim [] (join delim ts) ≡ ts
unfolding get_lines
get_lines-join delim [] f h = refl
get_lines-join delim (t ∷ []) f h = stream_end delim [] t f.0 h
get_lines-join delim (t ∷ u ∷ rest) f h =
    line_end delim [] t (join delim (u ∷ rest)) f.0
    ∙ ap (λ r. t ∷ r) (get_lines-join delim (u ∷ rest) f.1 h)
