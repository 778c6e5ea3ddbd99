-- ===== src/Start/Reading.antt =====
-- What the start of `main` makes of a configuration and the files that it names.
use malicious_mpsi.Base.{
  ℕ, ◌%◌, ◌^◌, ◌<◌, ◌≡◌, ◌≢◌, refl, sym, ◌∙◌, ap, List, [], ◌∷◌, ◌++◌, Option, some, arith, length,
  get_elem?, map, All, inl, inr, length-map, lt→ltb,
}
use malicious_mpsi.Config.{
  pos, Text, stoi_all, to_unsigned, number_at, parameters_of, read_protocol_parameters,
}
use malicious_mpsi.Config.Lines.{IsFree, EndsFull, join}
use malicious_mpsi.Config.Files.{
  line_of, setting, set_ips_lem, get_values_lem, read_protocol_parameters_lem,
}
use malicious_mpsi.Exchange.{set_ports}
use malicious_mpsi.Party.{set_common}
use malicious_mpsi.Start.{as_int, start}
use malicious_mpsi.Start.Decimal.{decimal, IsDigit, decimal-IsDigit, decimal-cases, stoi-decimal}

digits-IsFree : (d : ℕ) (cs : Text) → d < b'0' → All IsDigit cs → IsFree d cs
digits-IsFree d [] h x = tt
digits-IsFree d (c ∷ cs) h x = (λ e. omega arith, digits-IsFree d cs h x.1)

-- The numbers of a configuration, in the order of its lines.
pub record Numbers : Type 0 where
  pub seeds : ℕ
  pub nbf : ℕ
  pub not : ℕ
  pub num_of_ones : ℕ
  pub nc : ℕ
  pub max_ones : ℕ

abbrev pub AreInts : Numbers → Type 0
AreInts n =
    (n.seeds < 2 ^ 31)
    × (n.nbf < 2 ^ 31)
    × (n.not < 2 ^ 31)
    × (n.num_of_ones < 2 ^ 31)
    × (n.nc < 2 ^ 31)
    × (n.max_ones < 2 ^ 31)

-- The lines of a configuration, with any names.
abbrev pub entries_of : (ℕ → Text) → Numbers → Text → Text → List (Text × Text)
entries_of names n data_file ip_file =
    (names 0, decimal 10 n.seeds)
    ∷ (names 1, decimal 10 n.nbf)
    ∷ (names 2, decimal 10 n.not)
    ∷ (names 3, decimal 10 n.num_of_ones)
    ∷ (names 4, decimal 10 n.nc)
    ∷ (names 5, decimal 10 n.max_ones)
    ∷ (names 6, data_file)
    ∷ (names 7, ip_file)
    ∷ []

number_at_lem :
    (w i n : ℕ) (values : List Text)
    → n < 2 ^ 31
    → n % 2 ^ w ≡ n
    → get_elem? values i ≡ some (decimal 10 n)
    → number_at w i values ≡ some n
unfolding number_at to_unsigned
number_at_lem w i n values h f e = rw (e, stoi-decimal n h) (ap some f)

as_int_lem : (n : ℕ) → n < 2 ^ 31 → as_int n ≡ some n
unfolding as_int
as_int_lem n h = let e : n % 2 ^ 32 ≡ n = omega arith in rw (e, lt→ltb n (2 ^ 31) h) refl

stoi_all-decimal :
    (ns : List ℕ) → All (λ n. n < 2 ^ 31) ns → stoi_all (map (decimal 10) ns) ≡ some (map pos ns)
unfolding stoi_all
stoi_all-decimal [] h = refl
stoi_all-decimal (n ∷ ns) h = rw (stoi-decimal n h.0, stoi_all-decimal ns h.1) refl

setting-IsFree :
    (d : ℕ) (name value : Text)
    → d ≢ b'='
    → IsFree d name
    → IsFree d value
    → IsFree d (setting (name, value))
setting-IsFree d [] value h f g = (λ e. h (sym e), g)
setting-IsFree d (c ∷ name) value h f g = (f.0, setting-IsFree d name value h f.1 g)

decimal-IsFree : (d n : ℕ) → d < b'0' → IsFree d (decimal 10 n)
decimal-IsFree d n h = digits-IsFree d (decimal 10 n) h (decimal-IsDigit 10 n)

numbers-IsFree : (ns : List ℕ) → All (IsFree b',') (map (decimal 10) ns)
numbers-IsFree [] = tt
numbers-IsFree (n ∷ ns) = (decimal-IsFree b',' n (omega arith), numbers-IsFree ns)

numbers-EndsFull : (ns : List ℕ) → EndsFull (map (decimal 10) ns)
numbers-EndsFull [] = tt
numbers-EndsFull (n ∷ []) = let (c, cs, e) = decimal-cases 9 n in rw (ap length e) (omega arith)
numbers-EndsFull (n ∷ m ∷ ns) = numbers-EndsFull (m ∷ ns)

-- What `parameters_of` makes of the values of a configuration.
parameters_lem :
    (names : ℕ → Text) (n : Numbers) (data_file ip_file : Text)
    → AreInts n
    → parameters_of (map (λ e. e.1) (entries_of names n data_file ip_file) ++ [])
      ≡ some (record {
        seeds = n.seeds;
        nbf = n.nbf;
        not = n.not;
        num_of_ones = n.num_of_ones;
        nc = n.nc;
        nr = n.max_ones;
        data_file = data_file;
        ip_file = ip_file;
      })
unfolding parameters_of
parameters_lem names n data_file ip_file h =
    rw
      (
        number_at_lem 32 0 n.seeds _ h.0 (omega arith) refl,
        number_at_lem 32 1 n.nbf _ h.1 (omega arith) refl,
        number_at_lem 64 2 n.not _ h.2 (omega arith) refl,
        number_at_lem 32 3 n.num_of_ones _ h.3 (omega arith) refl,
        number_at_lem 32 4 n.nc _ h.4 (omega arith) refl,
        number_at_lem 32 5 n.max_ones _ h.5 (omega arith) refl,
      )
      refl

configuration_lem :
    (names : ℕ → Text) (n : Numbers) (data_file ip_file : Text)
    → ((i : ℕ) → IsFree 10 (names i))
    → ((i : ℕ) → IsFree b'=' (names i))
    → IsFree 10 data_file
    → IsFree 10 ip_file
    → read_protocol_parameters (some (join 10 (map setting (entries_of names n data_file ip_file))))
      ≡ parameters_of (map (λ e. e.1) (entries_of names n data_file ip_file) ++ [])
configuration_lem names n data_file ip_file f g d a =
    let number = λ (i k : ℕ).
      setting-IsFree 10 (names i) (decimal 10 k) (λ e. omega arith) (f i)
        (decimal-IsFree 10 k (omega arith)) in
    elim (read_protocol_parameters_lem (entries_of names n data_file ip_file)
      (
        number 0 n.seeds,
        (
          number 1 n.nbf,
          (
            number 2 n.not,
            (
              number 3 n.num_of_ones,
              (
                number 4 n.nc,
                (
                  number 5 n.max_ones,
                  (
                    setting-IsFree 10 (names 6) data_file (λ e. omega arith) (f 6) d,
                    (setting-IsFree 10 (names 7) ip_file (λ e. omega arith) (f 7) a, tt),
                  ),
                ),
              ),
            ),
          ),
        ),
      )
      (g 0, (g 1, (g 2, (g 3, (g 4, (g 5, (g 6, (g 7, tt))))))))) [
        | inl x ↦ x.1
        | inr x ↦ absurd (omega (arith, x.0))
      ]

-- From a configuration of eight lines `name=value` with numbers in range of `int`, a file of numbers
-- between commas and a file of addresses, `main` starts with these numbers, the items, and the
-- addresses without the last characters of their lines, whose number is that of the parties.
pub start_lem :
    (read : Text → Option Text) (names : ℕ → Text) (n : Numbers) (data_file ip_file : Text)
    (items : List ℕ) (addresses : List (Text × ℕ)) (player : ℕ)
    → AreInts n
    → ((i : ℕ) → IsFree 10 (names i))
    → ((i : ℕ) → IsFree b'=' (names i))
    → IsFree 10 data_file
    → IsFree 10 ip_file
    → All (λ k. k < 2 ^ 31) items
    → All (λ e. IsFree 10 (line_of e)) addresses
    → read data_file ≡ some (join b',' (map (decimal 10) items))
    → read ip_file ≡ some (join 10 (map line_of addresses))
    → start read (some (join 10 (map setting (entries_of names n data_file ip_file)))) player
      ≡ some (record {
        common = set_common (map pos items) (length items) n.nbf n.not n.nc 16 n.max_ones n.seeds;
        num_of_ones = n.num_of_ones;
        ips = map (λ e. e.0) addresses;
        parties = length addresses;
        ports = set_ports player (length addresses);
      })
unfolding start
start_lem read names n data_file ip_file items addresses player h f g d a ints free e k =
    rw
      (
        configuration_lem names n data_file ip_file f g d a
            ∙ parameters_lem names n data_file ip_file h,
        e,
        k,
        get_values_lem (map (decimal 10) items) (numbers-IsFree items) (numbers-EndsFull items)
            ∙ stoi_all-decimal items ints,
        set_ips_lem addresses free,
        as_int_lem n.nbf h.1,
        as_int_lem n.not h.2,
        as_int_lem n.nc h.4,
        as_int_lem n.max_ones h.5,
        as_int_lem n.seeds h.0,
        as_int_lem n.num_of_ones h.3,
        length-map pos items,
      )
      refl
