-- ===== src/Config/Files.antt =====
-- What a party gets from files that are written in the usual way.
use mathlib.Core.List.{append_assoc}
use malicious_mpsi.Base.{
  ℕ, zero, suc, ◌+◌, ◌-◌, ◌≤◌, ◌<◌, ◌≡◌, refl, sym, ◌∙◌, ap, ap₂, List, [], ◌∷◌, ◌++◌, map, none,
  some, arith, length, length-map, length-append, ◌⊎◌, inl, inr, store, store_of_lt, set, ltb,
  false, replicate, All, All-map, ne→==,
}
use malicious_mpsi.Config.{
  Text, stoi_all, get_values, cut_last, cut_all, set_ips, after_equals, fill_values, parameters_of,
  lines_of, read_protocol_parameters,
}
use malicious_mpsi.Config.Lines.{join, IsFree, EndsFull, get_lines-join}

-- An entry of the file of addresses: an address, and the character that ends its line.
abbrev pub line_of : Text × ℕ → Text
line_of entry = entry.0 ++ (entry.1 ∷ [])

cut_last-append : (t : Text) (c : ℕ) → cut_last (t ++ (c ∷ [])) ≡ some t
unfolding cut_last
cut_last-append [] c = refl
cut_last-append (x ∷ []) c = refl
cut_last-append (x ∷ y ∷ t) c = rw (cut_last-append (y ∷ t) c) refl

cut_all-lines : (es : List (Text × ℕ)) → cut_all (map line_of es) ≡ some (map (λ e. e.0) es)
unfolding cut_all
cut_all-lines [] = refl
cut_all-lines (e ∷ es) = rw (cut_last-append e.0 e.1, cut_all-lines es) refl

lines-EndsFull : (es : List (Text × ℕ)) → EndsFull (map line_of es)
lines-EndsFull [] = tt
lines-EndsFull (e ∷ []) = omega (arith, length-append e.0 (e.1 ∷ []))
lines-EndsFull (e ∷ f ∷ es) = lines-EndsFull (f ∷ es)

-- From a file of lines, the last of which ends with the file, `set_ips` takes each line without its
-- last character, whatever this is, and counts them.
pub set_ips_lem :
    (entries : List (Text × ℕ))
    → All (λ e. IsFree 10 (line_of e)) entries
    → set_ips (some (join 10 (map line_of entries))) ≡ some (map (λ e. e.0) entries, length entries)
unfolding set_ips
set_ips_lem es f =
    rw
      (
        get_lines-join 10 (map line_of es)
            (All-map (λ e. IsFree 10 (line_of e)) (IsFree 10) line_of es (λ e h. h) f)
            (lines-EndsFull es),
        cut_all-lines es,
      )
      (ap (λ n. some (map (λ e. e.0) es, n)) (length-map (λ e. e.0) es))

-- `get_values` returns the numbers of the texts between the commas, in their order, as `stoi` reads
-- them, and faults if `stoi` throws for one of them.
pub get_values_lem :
    (texts : List Text)
    → All (IsFree b',') texts
    → EndsFull texts
    → get_values (some (join b',' texts)) ≡ stoi_all texts
unfolding get_values
get_values_lem texts f h = ap stoi_all (get_lines-join b',' texts f h)

-- A line of the configuration.
abbrev pub setting : Text × Text → Text
setting entry = entry.0 ++ (b'=' ∷ entry.1)

after_equals-setting :
    (line name value : Text) → IsFree b'=' name → after_equals line (name ++ (b'=' ∷ value)) ≡ value
unfolding after_equals
after_equals-setting line [] value f = refl
after_equals-setting line (c ∷ name) value f =
    rw (ne→== c b'=' f.0) (after_equals-setting line name value f.1)

set_here :
    (pre rest : List Text) (v w : Text) → set (pre ++ (w ∷ rest)) (length pre) v ≡ pre ++ (v ∷ rest)
set_here [] rest v w = refl
set_here (x ∷ pre) rest v w = ap (λ t. x ∷ t) (set_here pre rest v w)

store_here :
    (pre rest : List Text) (v w : Text)
    → store (pre ++ (w ∷ rest)) (length pre) v ≡ some (pre ++ (v ∷ rest))
store_here pre rest v w =
    store_of_lt (pre ++ (w ∷ rest)) (length pre) v (omega (arith, length-append pre (w ∷ rest)))
    ∙ ap some (set_here pre rest v w)

store_full : (pre : List Text) (v : Text) → store (pre ++ []) (length pre) v ≡ none
unfolding store
store_full pre v = rw full refl
  where
    full : ltb (length pre) (length (pre ++ [])) ≡ false
    full = ground (arith, length-append pre [])

-- One more value has been stored.
shifted :
    (lines : List Text) (pre rest : List Text) (v : Text)
    → fill_values lines (suc (length pre)) (pre ++ (v ∷ rest))
      ≡ fill_values lines (length (pre ++ (v ∷ []))) ((pre ++ (v ∷ [])) ++ rest)
shifted lines pre rest v =
    ap₂ (fill_values lines) (omega (arith, length-append pre (v ∷ [])))
      (sym (append_assoc pre (v ∷ []) rest))

fill_values_fits :
    (es : List (Text × Text)) (k m : ℕ) (pre : List Text)
    → All (λ e. IsFree b'=' e.0) es
    → k ≡ length es + m
    → fill_values (map setting es) (length pre) (pre ++ replicate k [])
      ≡ some (pre ++ (map (λ e. e.1) es ++ replicate m []))
unfolding fill_values
fill_values_fits [] k m pre f h = ap (λ j. some (pre ++ replicate j [])) (omega arith)
fill_values_fits (e ∷ es) zero m pre f h = absurd (omega arith)
fill_values_fits (e ∷ es) (suc k) m pre f h =
    rw (after_equals-setting (setting e) e.0 e.1 f.0, store_here pre (replicate k []) e.1 [])
      (shifted (map setting es) pre (replicate k []) e.1
        ∙ fill_values_fits es k m (pre ++ (e.1 ∷ [])) f.1 (omega arith)
        ∙ ap some (append_assoc pre (e.1 ∷ []) _))

fill_values_over :
    (es : List (Text × Text)) (k : ℕ) (pre : List Text)
    → All (λ e. IsFree b'=' e.0) es
    → k < length es
    → fill_values (map setting es) (length pre) (pre ++ replicate k []) ≡ none
unfolding fill_values
fill_values_over [] k pre f h = absurd (omega arith)
fill_values_over (e ∷ es) zero pre f h =
    rw (store_full pre (after_equals (setting e) (setting e))) refl
fill_values_over (e ∷ es) (suc k) pre f h =
    rw (after_equals-setting (setting e) e.0 e.1 f.0, store_here pre (replicate k []) e.1 [])
      (shifted (map setting es) pre (replicate k []) e.1
        ∙ fill_values_over es k (pre ++ (e.1 ∷ [])) f.1 (omega arith))

settings-EndsFull : (es : List (Text × Text)) → EndsFull (map setting es)
settings-EndsFull [] = tt
settings-EndsFull (e ∷ []) = omega (arith, length-append e.0 (b'=' ∷ e.1))
settings-EndsFull (e ∷ f ∷ es) = settings-EndsFull (f ∷ es)

-- From a file of lines `name=value`, without `=` in a name, `read_protocol_parameters` takes the
-- values in the order of the lines, whatever the names, with empty values for lines that are missing
-- of the eight; a file of more than eight lines makes it write outside its array.
pub read_protocol_parameters_lem :
    (entries : List (Text × Text))
    → All (λ e. IsFree 10 (setting e)) entries
    → All (λ e. IsFree b'=' e.0) entries
    → ((length entries ≤ 8)
        × (read_protocol_parameters (some (join 10 (map setting entries)))
            ≡ parameters_of (map (λ e. e.1) entries ++ replicate (8 - length entries) [])))
      ⊎ ((8 < length entries)
          × (read_protocol_parameters (some (join 10 (map setting entries))) ≡ none))
unfolding read_protocol_parameters lines_of
read_protocol_parameters_lem es f g =
    let lines =
      get_lines-join 10 (map setting es)
        (All-map (λ e. IsFree 10 (setting e)) (IsFree 10) setting es (λ e h. h) f)
        (settings-EndsFull es) in
    elim (sizes (length es)) [
      | inl h ↦ inl (h, rw (lines, fill_values_fits es 8 (8 - length es) [] g (omega arith)) refl)
      | inr h ↦ inr (h, rw (lines, fill_values_over es 8 [] g h) refl)
    ]
  where
    sizes : (n : ℕ) → (n ≤ 8) ⊎ (8 < n)
    sizes n = grind arith
