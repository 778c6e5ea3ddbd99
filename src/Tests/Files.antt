-- ===== src/Tests/Files.antt =====
-- Small configuration files.
use mathlib.Core.Bool.{false≢true}
use malicious_mpsi.Base.{
  All, ℕ, ◌≤◌, ◌<◌, ◌≡◌, ◌⊎◌, refl, List, [], ◌∷◌, some, none, arith, length, map, ◌==◌, false,
  eq→==, sym, ◌∙◌, Gives,
}
use malicious_mpsi.Config.{
  Text, stoi_all, read_protocol_parameters, to_unsigned, pos, stoi, skip_spaces, signed_part,
  as_positive, as_negative, unsigned_part, read_digits, is_space, is_digit, negsuc,
}
use malicious_mpsi.Config.Lines.{join, IsFree}
use malicious_mpsi.Config.Files.{setting}
use malicious_mpsi.Config.Settings.{HasNumbers, parameters_lem}
use malicious_mpsi.Exchange.{ot_receiver, ot_sender}
use malicious_mpsi.Exchange.Ports.{HaveOwnPorts, ot_addresses_lem}

-- `12`, ` -7` and `+3x`
abbrev texts : List Text
texts = (b'1' ∷ b'2' ∷ []) ∷ (b' ' ∷ b'-' ∷ b'7' ∷ []) ∷ (b'+' ∷ b'3' ∷ b'x' ∷ []) ∷ []

read_texts : stoi_all texts ≡ some (pos 12 ∷ negsuc 6 ∷ pos 3 ∷ [])
unfolding stoi_all stoi skip_spaces signed_part as_positive as_negative unsigned_part read_digits
    is_space is_digit
read_texts = refl

-- The test that no character is the delimiter.
abbrev Differs : ℕ → List ℕ → Type 0
Differs d [] = Unit
Differs d (c ∷ cs) = ((c == d) ≡ false) × Differs d cs

differs : (d : ℕ) (t : Text) → Differs d t → IsFree d t
differs d [] h = tt
differs d (c ∷ cs) h = (λ e. false≢true (sym h.0 ∙ eq→== c d e), differs d cs h.1)

-- Two addresses; the first line ends with a carriage return, the second one with the file.
abbrev addresses : List (Text × ℕ)
addresses = (b'1' ∷ b'0' ∷ [], 13) ∷ (b'1' ∷ [], b'7') ∷ []

-- `k=7`, `k=12`, `k=7`, `k=-7`, `k=0`, `k=3`, and `k=a=`.
abbrev settings : List (Text × Text)
settings =
    (b'k' ∷ [], b'7' ∷ [])
    ∷ (b'k' ∷ [], b'1' ∷ b'2' ∷ [])
    ∷ (b'k' ∷ [], b'7' ∷ [])
    ∷ (b'k' ∷ [], b'-' ∷ b'7' ∷ [])
    ∷ (b'k' ∷ [], b'0' ∷ [])
    ∷ (b'k' ∷ [], b'3' ∷ [])
    ∷ (b'k' ∷ [], b'a' ∷ b'=' ∷ [])
    ∷ []

settings-HasNumbers : HasNumbers settings (pos 7) (pos 12) (pos 7) (negsuc 6) (pos 0) (pos 3)
unfolding stoi skip_spaces signed_part as_positive as_negative unsigned_part read_digits is_space
    is_digit
settings-HasNumbers = record {
  seeds_read = refl;
  nbf_read = refl;
  not_read = refl;
  ones_read = refl;
  nc_read = refl;
  nr_read = refl;
}

settings-IsFree : All (λ e. IsFree 10 (setting e)) settings
settings-IsFree = omega arith

names-IsFree : All (λ e. IsFree b'=' e.0) settings
names-IsFree = omega arith

parameters_example :
    ((length settings ≤ 8)
      × (read_protocol_parameters (some (join 10 (map setting settings)))
          ≡ some (record {
            seeds = to_unsigned 32 (pos 7);
            nbf = to_unsigned 32 (pos 12);
            not = to_unsigned 64 (pos 7);
            num_of_ones = to_unsigned 32 (negsuc 6);
            nc = to_unsigned 32 (pos 0);
            nr = to_unsigned 32 (pos 3);
            data_file = b'a' ∷ b'=' ∷ [];
            ip_file = [];
          })))
    ⊎ ((8 < length settings)
        × (read_protocol_parameters (some (join 10 (map setting settings))) ≡ none))
parameters_example =
    parameters_lem settings (pos 7) (pos 12) (pos 7) (negsuc 6) (pos 0) (pos 3) settings-IsFree
      names-IsFree settings-HasNumbers

abbrev hosts : List ℕ
hosts = 100 ∷ 101 ∷ 102 ∷ []

ot_addresses_example :
    (ot_receiver hosts 0 1 ≡ ot_sender hosts 1 0)
    × (ot_receiver hosts 1 0 ≡ ot_sender hosts 0 1)
    × Gives
        (λ down.
          Gives
            (λ up.
              Gives
                (λ down'. Gives (HaveOwnPorts (length hosts) down up down') (ot_receiver hosts 2 0))
                (ot_receiver hosts 0 2))
            (ot_receiver hosts 1 0))
        (ot_receiver hosts 0 1)
ot_addresses_example =
    ot_addresses_lem hosts 1 2 (λ e. absurd (omega arith)) (λ e. absurd (omega arith))
      (λ e. absurd (omega arith)) (omega arith) (omega arith)
