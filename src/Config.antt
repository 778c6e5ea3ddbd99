-- ===== src/Config.antt =====
-- The text files that a party reads: `set_ips`, `read_protocol_parameters` and `get_values` in
-- simple/src/Functions.cpp, with the parts of the C++ library that they use: `getline`, `stoi`, `find`
-- and `substr`. A text is the list of its bytes. An exception, which nothing catches, is a fault.
pub mod Lines
pub mod Files
pub mod Settings
use malicious_mpsi.Base.{
  ℕ, zero, suc, ◌+◌, ◌-◌, ◌*◌, ◌%◌, ◌^◌, ◌≡◌, Bool, true, false, ◌&&◌, ◌||◌, List, [], ◌∷◌, ◌++◌,
  Option, none, some, length, get_elem?, store, replicate, ltb, leb, ◌==◌, if◌then◌else◌, ◌>>=◌,
}

abbrev pub Text : Type 0
Text = List ℕ

-- The integers, over native numbers.
pub data ℤ : Type 0 where
  pos : ℕ → ℤ
  negsuc : ℕ → ℤ

-- At the end of the stream: a call of `getline` that reads nothing there fails.
abbrev pub last_line : Text → List Text
last_line [] = []
last_line (c ∷ cs) = (c ∷ cs) ∷ []

-- `while(getline(stream,line,delim))`: the lines. `line` is what has been read of the next one.
unfoldable pub get_lines : ℕ → Text → Text → List Text
get_lines delim line [] = last_line line
get_lines delim line (x ∷ rest) =
    if x == delim then line ∷ get_lines delim [] rest else get_lines delim (line ++ (x ∷ [])) rest

-- `isspace`
unfoldable pub is_space : ℕ → Bool
is_space c = c == 32 || (leb 9 c && leb c 13)

unfoldable pub is_digit : ℕ → Bool
is_digit c = leb b'0' c && leb c b'9'

unfoldable pub skip_spaces : Text → Text
skip_spaces [] = []
skip_spaces (c ∷ cs) = let rest = skip_spaces cs in if is_space c then rest else c ∷ cs

-- The number that the digits at the front have, behind the digits of `n`.
unfoldable pub read_digits : ℕ → Text → ℕ
read_digits n [] = n
read_digits n (c ∷ cs) =
    let more = read_digits (10 * n + (c - b'0')) cs in if is_digit c then more else n

-- Without a digit `stoi` throws `invalid_argument`, out of range of `int` it throws `out_of_range`.
unfoldable pub unsigned_part : Text → Option ℕ
unsigned_part [] = none
unsigned_part (c ∷ cs) = if is_digit c then some (read_digits 0 (c ∷ cs)) else none

unfoldable pub as_positive : Text → Option ℤ
as_positive t = do n ← unsigned_part t; if ltb n (2 ^ 31) then some (pos n) else none

unfoldable pub as_negative : Text → Option ℤ
as_negative t = do
  n ← unsigned_part t
  if leb n (2 ^ 31) then some (if n == 0 then pos 0 else negsuc (n - 1)) else none

unfoldable pub signed_part : Text → Option ℤ
signed_part [] = none
signed_part (c ∷ cs) =
    if c == b'-' then as_negative cs else if c == b'+' then as_positive cs else as_positive (c ∷ cs)

unfoldable pub stoi : Text → Option ℤ
stoi t = signed_part (skip_spaces t)

-- The conversion of an `int` to an unsigned integer of `w` bits.
unfoldable pub to_unsigned : ℕ → ℤ → ℕ
to_unsigned w (pos n) = n % 2 ^ w
to_unsigned w (negsuc n) = 2 ^ w - 1 - n % 2 ^ w

unfoldable pub stoi_all : List Text → Option (List ℤ)
stoi_all [] = some []
stoi_all (t ∷ ts) = do v ← stoi t; vs ← stoi_all ts; some (v ∷ vs)

-- `get_values`. From a file that cannot be opened nothing is read.
unfoldable pub get_values : Option Text → Option (List ℤ)
get_values none = some []
get_values (some text) = stoi_all (get_lines b',' [] text)

-- `line.resize(line.size()-1)`, which throws for an empty line: the size wraps around.
unfoldable pub cut_last : Text → Option Text
cut_last [] = none
cut_last (c ∷ []) = some []
cut_last (c ∷ d ∷ cs) = do t ← cut_last (d ∷ cs); some (c ∷ t)

unfoldable pub cut_all : List Text → Option (List Text)
cut_all [] = some []
cut_all (line ∷ lines) = do ip ← cut_last line; ips ← cut_all lines; some (ip ∷ ips)

-- `set_ips`: the addresses, and the number of parties.
unfoldable pub set_ips : Option Text → Option (List Text × ℕ)
set_ips none = some ([], 0)
set_ips (some text) = do ips ← cut_all (get_lines 10 [] text); some (ips, length ips)

-- `line.substr(line.find("=")+1)`: what follows the first `=`, the whole line if there is none.
unfoldable pub after_equals : Text → Text → Text
after_equals line [] = line
after_equals line (c ∷ cs) = let rest = after_equals line cs in if c == b'=' then cs else rest

-- The loop over the lines: `values[counter++]`, in an array of 8 strings.
unfoldable pub fill_values : List Text → ℕ → List Text → Option (List Text)
fill_values [] counter values = some values
fill_values (line ∷ lines) counter values = do
  stored ← store values counter (after_equals line line)
  fill_values lines (suc counter) stored

pub record Parameters : Type 0 where
  pub seeds : ℕ
  pub nbf : ℕ
  pub not : ℕ
  pub num_of_ones : ℕ
  pub nc : ℕ
  pub nr : ℕ
  pub data_file : Text
  pub ip_file : Text

-- `*seeds=stoi(values[0])` and the others.
unfoldable pub number_at : ℕ → ℕ → List Text → Option ℕ
number_at w i values = do t ← get_elem? values i; v ← stoi t; some (to_unsigned w v)

unfoldable pub parameters_of : List Text → Option Parameters
parameters_of values = do
  seeds ← number_at 32 0 values
  nbf ← number_at 32 1 values
  not ← number_at 64 2 values
  num_of_ones ← number_at 32 3 values
  nc ← number_at 32 4 values
  nr ← number_at 32 5 values
  data_file ← get_elem? values 6
  ip_file ← get_elem? values 7
  some (record {
    seeds = seeds;
    nbf = nbf;
    not = not;
    num_of_ones = num_of_ones;
    nc = nc;
    nr = nr;
    data_file = data_file;
    ip_file = ip_file;
  })

unfoldable pub lines_of : Option Text → List Text
lines_of none = []
lines_of (some text) = get_lines 10 [] text

unfoldable pub read_protocol_parameters : Option Text → Option Parameters
read_protocol_parameters file = do
  values ← fill_values (lines_of file) 0 (replicate 8 [])
  parameters_of values
