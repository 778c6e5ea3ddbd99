-- ===== src/Approt/Offline.antt =====
-- The offline phase of one direction of an exchange, with its messages: `set_sub_group`,
-- `send_sub_group`, `recv_C`, the receiver, `send_R_r`, `recv_R` and the check of the sender, in the
-- order in which `offline_apport_sender` and `offline_apport_receiver` call them.
use malicious_mpsi.Base.{ℕ, List, Option, some, ◌>>=◌}
use malicious_mpsi.Block.{Blocks, Block}
use malicious_mpsi.Random.{Random, Crypto}
use malicious_mpsi.Bloom.{Cipher}
use malicious_mpsi.Approt.{
  Session, going, aborting, Prepared, set_sub_group, offline_apport_receiver, offline_apport_sender,
}
use malicious_mpsi.Wire.{Layout, send_sub_group, recv_group, send_big_r, recv_big_r}

module _ ⦃b : Blocks⦄ ⦃r : Random⦄ ⦃c : Cipher⦄ ⦃l : Layout⦄ where
  -- What the receiver sends, and what the sender does with it.
  unfoldable pub answer : ℕ → ℕ → List (Block × Block) → Prepared → Option (Session Prepared)
  answer nc max_ones strings p = do
    (big_r, r, count, rest) ← recv_big_r (send_big_r p.opened.big_r p.opened.r).0
    s ← offline_apport_sender nc max_ones strings big_r r
    some (elim s [ going _ ↦ going p | aborting ↦ aborting ])

  -- The two parties from the point where the OTs have given `strings` and `received`. The sender
  -- draws from `crypt_s`, and the receiver from `crypt_r`.
  unfoldable pub offline_apport :
      ℕ
      → ℕ
      → ℕ
      → ℕ
      → List ℕ
      → List Block
      → List (Block × Block)
      → Crypto
      → Crypto
      → Option (Session Prepared)
  offline_apport nbf not nc max_ones bitvector received strings crypt_s crypt_r = do
    (mine, seed, crypt_s') ← set_sub_group not nc crypt_s
    (sub_group, count, rest) ← recv_group not (send_sub_group nc seed).0
    o ← offline_apport_receiver nbf not sub_group bitvector received crypt_r
    elim o [ going p ↦ answer nc max_ones strings p | aborting ↦ some aborting ]
