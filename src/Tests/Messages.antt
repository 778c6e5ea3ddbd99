-- ===== src/Tests/Messages.antt =====
-- Messages of an exchange.
use malicious_mpsi.Base.{ℕ, ◌≡◌, refl, List, [], ◌∷◌, ◌++◌, some, arith, length, insert}
use malicious_mpsi.Samples.{nibbles, counter, masking, in_bytes, nibble}
use malicious_mpsi.Approt.{set_sub_group}
use malicious_mpsi.SubGroup.{
  get_sub_group, draw_group, members_of, draw_members, residue, ciphertexts_size,
}
use malicious_mpsi.Bloom.{ecb_enc_blocks}
use malicious_mpsi.Random.{gen_block, word_of}
use malicious_mpsi.Wire.{send_func, recv_func, send_sub_group, recv_group, send_big_r, recv_big_r}
use malicious_mpsi.Wire.Trips.{
  recv_func-send_func, recv_group-send_sub_group, recv_big_r-send_big_r,
}

abbrev function : List ℕ
function = 70000 ∷ 3 ∷ 258 ∷ []

recv_func_example :
    (recv_func 3 ((send_func function).0 ++ (9 ∷ []))
      ≡ some (function, (send_func function).1, 9 ∷ []))
    × ((send_func function).1 ≡ length (send_func function).0)
recv_func_example =
    recv_func-send_func function 3 (9 ∷ []) refl (omega arith, (omega arith, (omega arith, tt)))

recv_big_r_example :
    (recv_big_r ((send_big_r function (nibble 11)).0 ++ [])
      ≡ some (function, nibble 11, (send_big_r function (nibble 11)).1, []))
    × ((send_big_r function (nibble 11)).1 ≡ length (send_big_r function (nibble 11)).0)
recv_big_r_example =
    recv_big_r-send_big_r function (nibble 11) [] (omega arith)
      (omega arith, (omega arith, (omega arith, tt)))

drawn_group : set_sub_group 5 2 7 ≡ some (0 ∷ 3 ∷ [], nibble 12, 9)
unfolding set_sub_group get_sub_group draw_group members_of draw_members residue ciphertexts_size
    ecb_enc_blocks gen_block word_of insert
drawn_group = refl

recv_group_example :
    (recv_group 5 ((send_sub_group 2 (nibble 12)).0 ++ (1 ∷ []))
      ≡ some (0 ∷ 3 ∷ [], (send_sub_group 2 (nibble 12)).1, 1 ∷ []))
    × ((send_sub_group 2 (nibble 12)).1 ≡ length (send_sub_group 2 (nibble 12)).0)
recv_group_example =
    recv_group-send_sub_group 5 2 7 9 (0 ∷ 3 ∷ []) (nibble 12) (1 ∷ []) (omega arith) drawn_group
