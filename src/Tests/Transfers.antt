-- ===== src/Tests/Transfers.antt =====
-- Messages over sockets that take and give two bytes at a time.
use malicious_mpsi.Base.{
  ℕ, ◌≤◌, ◌<◌, ◌≡◌, refl, sym, List, [], ◌∷◌, ◌++◌, arith, length, take, drop, length-take, ltb,
  if◌then◌else◌, Gives,
}
use malicious_mpsi.Transfer.{System, write_all, read_all}
use malicious_mpsi.Transfer.Whole.{
  take-append-drop, Delivers, Supplies, write_all_lem, read_all_lem,
}

abbrev at_most_two : ℕ → ℕ
at_most_two n = if ltb n 2 then n else 2

two_le : (n : ℕ) → at_most_two n ≤ n
two_le n = ground arith

two_pos : (n : ℕ) → 0 < n → 0 < at_most_two n
two_pos n h = ground arith

two_le_any : (n m : ℕ) → n ≤ m → at_most_two n ≤ m
two_le_any n m h = omega (arith, two_le n)

-- A socket is the bytes in it.
instance abbrev pub pairs_of_bytes : System
pairs_of_bytes = record {
  Socket = List ℕ;
  write = λ bytes s. (at_most_two (length bytes), s ++ take (at_most_two (length bytes)) bytes);
  read = λ n s. (at_most_two n, take (at_most_two n) s, drop (at_most_two n) s);
}

pub pairs-Delivers : Delivers (λ s. s)
pairs-Delivers = record {
  progress = λ bytes s h. two_pos (length bytes) h;
  at_most = λ bytes s. two_le (length bytes);
  passed = λ bytes s. refl;
}

pub pairs-Supplies : Supplies (λ s. s)
pairs-Supplies = record {
  progress = λ n s h l. two_pos n h;
  at_most = λ n s l. two_le n;
  count = λ n s l. length-take (at_most_two n) s (two_le_any n (length s) l);
  order = λ n s l. sym (take-append-drop (at_most_two n) s);
}

abbrev message : List ℕ
message = 9 ∷ 8 ∷ 7 ∷ 6 ∷ 5 ∷ []

abbrev earlier : List ℕ
earlier = 1 ∷ []

write_all_example :
    Gives (λ r. (r.0 ≡ 5) × (r.1 ≡ earlier ++ message)) (write_all message 5 earlier)
write_all_example = write_all_lem (λ s. s) pairs-Delivers message 5 refl (omega arith) earlier

read_all_example :
    Gives (λ r. (r.0 ≡ 3) × (length r.1 ≡ 3) × (message ≡ r.1 ++ r.2)) (read_all 3 message)
read_all_example = read_all_lem (λ s. s) pairs-Supplies 3 (omega arith) message (omega arith)
