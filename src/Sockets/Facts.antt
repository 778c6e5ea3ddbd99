-- ===== src/Sockets/Facts.antt =====
-- What sockets are after the calls of `init_sender` and `init_receiver`, over what POSIX says of the
-- system calls.
use malicious_mpsi.Base.{
  ℕ, zero, suc, ◌≡◌, refl, subst, Bool, true, false, inl, inr, some, Bool-cases,
}
use mathlib.Core.Option.{some-injective, none-ne-some}
use malicious_mpsi.Config.{ℤ, Text}
use malicious_mpsi.Sockets.{
  SystemCalls, World, is_negative, port_16, report_if, init_sender, connect_loop,
}

-- What can be said of a socket.
pub data Fact : Type 0 where
  -- It has the port.
  bound : ℤ → ℕ → Fact
  -- It takes connections to the port.
  listening : ℤ → ℕ → Fact
  -- It is connected to a process that has connected to the port.
  serving : ℤ → ℕ → Fact
  -- It is connected to the port of the address.
  connected : ℤ → Text → ℕ → Fact

module _ ⦃c : SystemCalls⦄ where
  -- A call leaves what holds of the sockets.
  abbrev pub Keeps : (World → Fact → Type 0) → World → World → Type 0
  Keeps Holds w w' = (f : Fact) → Holds w f → Holds w' f

  -- What the calls do when they succeed; `Holds w` is what holds of the sockets in the state `w`.
  pub record Network (Holds : World → Fact → Type 0) : Type 0 where
    pub binds :
        (sock : ℤ) (port : ℕ) (w : World)
        → is_negative (c.bind sock port w).0 ≡ false
        → Holds (c.bind sock port w).1 (bound sock port)
    pub listens :
        (sock : ℤ) (port : ℕ) (w : World)
        → Holds w (bound sock port)
        → Holds (c.listen sock w) (listening sock port)
    pub accepts :
        (sock : ℤ) (port : ℕ) (w : World)
        → Holds w (listening sock port)
        → is_negative (c.accept sock w).0 ≡ false
        → Holds (c.accept sock w).1 (serving (c.accept sock w).0 port)
    pub connects :
        (sock : ℤ) (ip : Text) (port : ℕ) (w : World)
        → is_negative (c.connect sock ip port w).0 ≡ false
        → Holds (c.connect sock ip port w).1 (connected sock ip port)
    pub socket_keeps : (w : World) → Keeps Holds w (c.socket w).1
    pub bind_keeps : (sock : ℤ) (port : ℕ) (w : World) → Keeps Holds w (c.bind sock port w).1
    pub listen_keeps : (sock : ℤ) (w : World) → Keeps Holds w (c.listen sock w)
    pub accept_keeps : (sock : ℤ) (w : World) → Keeps Holds w (c.accept sock w).1
    pub connect_keeps :
        (sock : ℤ) (ip : Text) (port : ℕ) (w : World) → Keeps Holds w (c.connect sock ip port w).1
    pub report_keeps : (w : World) → Keeps Holds w (c.report w)

  -- The server's calls succeed: its port is free, and a client comes.
  pub record IsWelcoming : Type 0 where
    pub can_bind : (sock : ℤ) (port : ℕ) (w : World) → is_negative (c.bind sock port w).0 ≡ false
    pub can_accept : (sock : ℤ) (w : World) → is_negative (c.accept sock w).0 ≡ false

  module _ (Holds : World → Fact → Type 0) (n : Network Holds) where
    report_if-Keeps : (bad : Bool) (w : World) → Keeps Holds w (report_if bad w)
    unfolding report_if
    report_if-Keeps true w f h = n.report_keeps w f h
    report_if-Keeps false w f h = h

    -- The socket is connected to a process that has connected to the port.
    pub init_sender-Holds :
        IsWelcoming
        → (port : ℕ) (w : World)
        → (((init_sender port w).0.serv_port ≡ port_16 port)
            × Holds
                (init_sender port w).1
                (serving (init_sender port w).0.connect_sock (port_16 port)))
          × Keeps Holds w (init_sender port w).1
    unfolding init_sender
    init_sender-Holds x port w =
        let (sock, w1) = c.socket w in
        let r1 = report_if (is_negative sock) w1 in
        let (result, w2) = c.bind sock (port_16 port) r1 in
        let r2 = report_if (is_negative result) w2 in
        (
          (
            refl,
            n.accepts sock (port_16 port) (c.listen sock r2)
                (n.listens sock (port_16 port) r2 (
                  report_if-Keeps (is_negative result) w2 _
                    (n.binds sock (port_16 port) r1 (x.can_bind sock (port_16 port) r1))))
                (x.can_accept sock (c.listen sock r2)),
          ),
          λ f h. n.accept_keeps sock _ f (
              n.listen_keeps sock r2 f (
                report_if-Keeps (is_negative result) w2 f (
                  n.bind_keeps sock (port_16 port) r1 f
                    (report_if-Keeps (is_negative sock) w1 f (n.socket_keeps w f h))))),
        )

    -- The loop ends when the socket is connected.
    pub connect_loop-Holds :
        (fuel : ℕ) (sock : ℤ) (ip : Text) (port : ℕ) (w w' : World)
        → connect_loop fuel sock ip port w ≡ some w'
        → Holds w' (connected sock ip port) × Keeps Holds w w'
    unfolding connect_loop
    connect_loop-Holds zero sock ip port w w' e = absurd (none-ne-some w' e)
    connect_loop-Holds (suc fuel) sock ip port w w' e =
        elim (Bool-cases (is_negative (c.connect sock ip port w).0)) [
          | inl bad ↦
              let (h, k) = connect_loop-Holds fuel sock ip port _ w' (rw bad at e) in
              (h, λ f x. k f (n.connect_keeps sock ip port w f x))
          | inr good ↦
              let same = some-injective _ _ (rw good at e) in
              (
                subst (λ u. Holds u (connected sock ip port)) same (n.connects sock ip port w good),
                subst (Keeps Holds w) same (n.connect_keeps sock ip port w),
              )
        ]
