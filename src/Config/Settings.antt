-- ===== src/Config/Settings.antt =====
-- What a configuration file sets.
use malicious_mpsi.Base.{
  ℕ, zero, suc, ◌+◌, ◌-◌, ◌≤◌, ◌<◌, ◌≡◌, refl, ◌∙◌, List, [], ◌∷◌, ◌++◌, map, none, some, arith,
  length, length-map, ◌⊎◌, inl, inr, replicate, All, get_or, get_elem?,
}
use malicious_mpsi.Config.{
  Text, ℤ, stoi, to_unsigned, number_at, parameters_of, read_protocol_parameters,
}
use malicious_mpsi.Config.Lines.{join, IsFree}
use malicious_mpsi.Config.Files.{setting, read_protocol_parameters_lem}

-- The value in line `i`, empty if there is no such line.
abbrev pub value : List (Text × Text) → ℕ → Text
value entries i = get_or (map (λ e. e.1) entries) i []

get_elem?-padded :
    (xs : List Text) (k i : ℕ)
    → i < length xs + k
    → get_elem? (xs ++ replicate k []) i ≡ some (get_or xs i [])
get_elem?-padded [] zero i h = absurd (omega arith)
get_elem?-padded [] (suc k) zero h = refl
get_elem?-padded [] (suc k) (suc i) h = get_elem?-padded [] k i (omega arith)
get_elem?-padded (x ∷ xs) k zero h = refl
get_elem?-padded (x ∷ xs) k (suc i) h = get_elem?-padded xs k i (omega arith)

-- `stoi` reads the first six values as these numbers.
pub record HasNumbers (entries : List (Text × Text)) (seeds nbf not num_of_ones nc nr : ℤ)
    : Type 0 where
  pub seeds_read : stoi (value entries 0) ≡ some seeds
  pub nbf_read : stoi (value entries 1) ≡ some nbf
  pub not_read : stoi (value entries 2) ≡ some not
  pub ones_read : stoi (value entries 3) ≡ some num_of_ones
  pub nc_read : stoi (value entries 4) ≡ some nc
  pub nr_read : stoi (value entries 5) ≡ some nr

number_at-padded :
    (w : ℕ) (es : List (Text × Text)) (i : ℕ) (v : ℤ)
    → i < 8
    → length es ≤ 8
    → stoi (value es i) ≡ some v
    → number_at w i (map (λ e. e.1) es ++ replicate (8 - length es) []) ≡ some (to_unsigned w v)
unfolding number_at
number_at-padded w es i v h l e =
    rw
      (
        get_elem?-padded (map (λ e. e.1) es) (8 - length es) i
            (omega (arith, length-map (λ (e : Text × Text). e.1) es)),
        e,
      )
      refl

-- From a file of at most eight lines `name=value`, without `=` in a name, `read_protocol_parameters`
-- sets, whatever the names, the numbers of seeds, of bits of the filter, of OTs, of ones, of opened OTs
-- and of ones among these from the first six lines in this order, cut to the words of the
-- parameters, and the names of the two files from lines seven and eight, empty if these are missing;
-- `stoi` must read the six numbers. A file of more than eight lines makes it write outside its array.
pub parameters_lem :
    (entries : List (Text × Text)) (seeds nbf not num_of_ones nc nr : ℤ)
    → All (λ e. IsFree 10 (setting e)) entries
    → All (λ e. IsFree b'=' e.0) entries
    → HasNumbers entries seeds nbf not num_of_ones nc nr
    → ((length entries ≤ 8)
        × (read_protocol_parameters (some (join 10 (map setting entries)))
            ≡ some (record {
              seeds = to_unsigned 32 seeds;
              nbf = to_unsigned 32 nbf;
              not = to_unsigned 64 not;
              num_of_ones = to_unsigned 32 num_of_ones;
              nc = to_unsigned 32 nc;
              nr = to_unsigned 32 nr;
              data_file = value entries 6;
              ip_file = value entries 7;
            })))
      ⊎ ((8 < length entries)
          × (read_protocol_parameters (some (join 10 (map setting entries))) ≡ none))
unfolding parameters_of
parameters_lem es seeds nbf not num_of_ones nc nr f g x =
    elim (read_protocol_parameters_lem es f g) [
      | inl (h, e) ↦
          let text = λ (i : ℕ) (l : i < 8).
            get_elem?-padded (map (λ e. e.1) es) (8 - length es) i
              (omega (arith, length-map (λ (e : Text × Text). e.1) es)) in
          inl (
            h,
            e
                ∙ rw
                    (
                      number_at-padded 32 es 0 seeds (omega arith) h x.seeds_read,
                      number_at-padded 32 es 1 nbf (omega arith) h x.nbf_read,
                      number_at-padded 64 es 2 not (omega arith) h x.not_read,
                      number_at-padded 32 es 3 num_of_ones (omega arith) h x.ones_read,
                      number_at-padded 32 es 4 nc (omega arith) h x.nc_read,
                      number_at-padded 32 es 5 nr (omega arith) h x.nr_read,
                      text 6 (omega arith),
                      text 7 (omega arith),
                    )
                    refl,
          )
      | inr y ↦ inr y
    ]
