-- ===== src/Sockets/Calls.antt =====
-- `init_receiver` returns as soon as a `connect` succeeds.
use malicious_mpsi.Base.{ℕ, zero, suc, ◌<◌, ◌≡◌, refl, Bool, true, false, none, some, arith}
use malicious_mpsi.Config.{ℤ, Text}
use malicious_mpsi.Sockets.{
  SystemCalls, World, is_negative, port_16, connect_loop, init_receiver, returned, exited,
}

module _ ⦃c : SystemCalls⦄ where
  -- The state after `k` calls of `connect`.
  abbrev pub after_calls : ℕ → ℤ → Text → ℕ → World → World
  after_calls zero sock ip port w = w
  after_calls (suc k) sock ip port w = after_calls k sock ip port (c.connect sock ip port w).1

  -- Whether the call after `k` others fails.
  abbrev pub fails : ℕ → ℤ → Text → ℕ → World → Bool
  fails k sock ip port w = is_negative (c.connect sock ip port (after_calls k sock ip port w)).0

  connect_loop_lem :
      (k fuel : ℕ) (sock : ℤ) (ip : Text) (port : ℕ) (w : World)
      → k < fuel
      → ((j : ℕ) → j < k → fails j sock ip port w ≡ true)
      → fails k sock ip port w ≡ false
      → connect_loop fuel sock ip port w ≡ some (after_calls (suc k) sock ip port w)
  unfolding connect_loop
  connect_loop_lem k zero sock ip port w h f s = absurd (omega arith)
  connect_loop_lem zero (suc fuel) sock ip port w h f s = rw s refl
  connect_loop_lem (suc k) (suc fuel) sock ip port w h f s =
      rw (f 0 (omega arith))
        (connect_loop_lem k fuel sock ip port _ (omega arith) (λ j l. f (suc j) (omega arith)) s)

  never_connects :
      (fuel : ℕ) (sock : ℤ) (ip : Text) (port : ℕ) (w : World)
      → ((j : ℕ) → j < fuel → fails j sock ip port w ≡ true)
      → connect_loop fuel sock ip port w ≡ none
  unfolding connect_loop
  never_connects zero sock ip port w f = refl
  never_connects (suc fuel) sock ip port w f =
      rw (f 0 (omega arith)) (never_connects fuel sock ip port _ (λ j l. f (suc j) (omega arith)))

  -- Without a socket the process exits, and closes what it has not opened.
  no_socket :
      (ip : Text) (port fuel : ℕ) (w : World)
      → is_negative (c.socket w).0 ≡ true
      → init_receiver fuel ip port w
        ≡ some (exited (c.close (c.socket w).0 (c.report (c.socket w).1)))
  unfolding init_receiver
  no_socket ip port fuel w e = rw e refl

  -- With a socket, `init_receiver` returns after the first `connect` that succeeds, with any fuel
  -- above the number `k` of those that fail before it, and with no less; the port that it connects to
  -- is cut to 16 bits. It does not exit, however often `connect` fails.
  pub init_receiver_lem :
      (ip : Text) (port k fuel : ℕ) (w : World)
      → is_negative (c.socket w).0 ≡ false
      → k < fuel
      → ((j : ℕ) → j < k → fails j (c.socket w).0 ip (port_16 port) (c.socket w).1 ≡ true)
      → fails k (c.socket w).0 ip (port_16 port) (c.socket w).1 ≡ false
      → (init_receiver fuel ip port w
          ≡ some (
              returned
                (record { sock = (c.socket w).0; cli_ip = ip; cli_port = port_16 port })
                (after_calls (suc k) (c.socket w).0 ip (port_16 port) (c.socket w).1)))
        × (init_receiver k ip port w ≡ none)
  unfolding init_receiver
  init_receiver_lem ip port k fuel w e h f s = (
    rw (e, connect_loop_lem k fuel _ ip (port_16 port) _ h f s) refl,
    rw (e, never_connects k _ ip (port_16 port) _ f) refl,
  )
