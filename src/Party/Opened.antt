-- ===== src/Party/Opened.antt =====
-- The sockets that the constructor of Pi opens.
use mathlib.Core.List.{append_assoc, append-nil}
use malicious_mpsi.Base.{
  ℕ, zero, suc, ◌+◌, ◌≤◌, ◌<◌, ◌≡◌, refl, sym, subst, ◌∙◌, ap, List, [], ◌∷◌, ◌++◌, Option, some,
  arith, false, length, get_elem?,
}
use malicious_mpsi.Config.{ℤ, Text}
use malicious_mpsi.Sockets.{
  SystemCalls, World, Sender, Receiver, Run, returned, and_then, is_negative, port_16, init_sender,
  init_receiver, connect_loop,
}
use malicious_mpsi.Sockets.Facts.{
  Fact, serving, connected, Keeps, Network, IsWelcoming, init_sender-Holds, connect_loop-Holds,
}
use malicious_mpsi.Party.{open_receivers, open_senders}

module _ {A : Type 0} where
  -- The entries of a list, from place `i` on, each with what it should be.
  abbrev pub From : (ℕ → A → Type 0) → ℕ → List A → Type 0
  From P i [] = Unit
  From P i (x ∷ xs) = P i x × From P (suc i) xs

  pub From-at :
      (P : ℕ → A → Type 0) (i k : ℕ) (xs : List A)
      → From P i xs
      → k < length xs
      → (x : A) × (get_elem? xs k ≡ some x) × P (i + k) x
  From-at P i k [] f h = absurd (omega arith)
  From-at P i zero (x ∷ xs) f h = (x, refl, subst (λ j. P j x) (omega arith) f.0)
  From-at P i (suc k) (x ∷ xs) f h =
      let (y, e, p) = From-at P (suc i) k xs f.1 (omega arith) in
      (y, e, subst (λ j. P j y) (omega arith) p)

  pub From-map :
      (P Q : ℕ → A → Type 0) (i : ℕ) (xs : List A)
      → ((j : ℕ) (x : A) → P j x → Q j x)
      → From P i xs
      → From Q i xs
  From-map P Q i [] h f = tt
  From-map P Q i (x ∷ xs) h f = (h i x f.0, From-map P Q (suc i) xs h f.1)

  -- `ys` is `xs` with `n` more entries.
  abbrev pub Extends : (ℕ → A → Type 0) → ℕ → ℕ → List A → List A → Type 0
  Extends P i n xs ys = (new : List A) × (ys ≡ xs ++ new) × (length new ≡ n) × From P i new

  Extends-nothing : (P : ℕ → A → Type 0) (i : ℕ) (xs : List A) → Extends P i 0 xs xs
  Extends-nothing P i xs = ([], sym (append-nil xs), refl, tt)

  Extends-one :
      (P : ℕ → A → Type 0) (i n : ℕ) (xs ys : List A) (x : A)
      → P i x
      → Extends P (suc i) n (xs ++ (x ∷ [])) ys
      → Extends P i (suc n) xs ys
  Extends-one P i n xs ys x p (new, e, l, f) =
      (x ∷ new, e ∙ append_assoc xs (x ∷ []) new, ap suc l, (p, f))

  pub Extends-empty :
      (P : ℕ → A → Type 0) (i n : ℕ) (ys : List A)
      → Extends P i n [] ys
      → (length ys ≡ n) × From P i ys
  Extends-empty P i n ys (new, e, l, f) = (ap length e ∙ l, subst (From P i) (sym e) f)

pub entry : {A : Type 0} (xs : List A) (i : ℕ) → i < length xs → (a : A) × (get_elem? xs i ≡ some a)
entry [] i h = absurd (omega arith)
entry (x ∷ xs) zero h = (x, refl)
entry (x ∷ xs) (suc i) h = entry xs i (omega arith)

module _ ⦃c : SystemCalls⦄ where
  -- The function returns, with a result and a state of which `P` holds.
  pub data Returns {A : Type 0} (P : A → World → Type 0) : Option (Run A) → Type 0 where
    returns : {a : A} {w : World} → P a w → Returns P (some (returned a w))

  pub Returns-and_then :
      {A : Type 0} {B : Type 0} {P : A → World → Type 0} {Q : B → World → Type 0}
      {r : Option (Run A)} {f : A → World → Option (Run B)}
      → Returns P r
      → ((a : A) (w : World) → P a w → Returns Q (f a w))
      → Returns Q (and_then r f)
  unfolding and_then
  Returns-and_then (returns p) h = h _ _ p

  Returns-map :
      {A : Type 0} {P : A → World → Type 0} {Q : A → World → Type 0} {r : Option (Run A)}
      → Returns P r
      → ((a : A) (w : World) → P a w → Q a w)
      → Returns Q r
  Returns-map (returns p) h = returns (h _ _ p)

  -- The system has sockets to give, and of each loop of calls of `connect` one of the first `fuel`
  -- succeeds.
  pub record IsServing (fuel : ℕ) : Type 0 where
    pub gives_sockets : (w : World) → is_negative (c.socket w).0 ≡ false
    pub connects :
        (sock : ℤ) (ip : Text) (port : ℕ) (w : World)
        → (w' : World) × (connect_loop fuel sock ip port w ≡ some w')

  module _ (Holds : World → Fact → Type 0) where
    -- The receiver is connected to party `q`, by the port in the party's own table.
    abbrev pub DialledTo : List Text → List (ℕ × ℕ) → World → ℕ → Receiver → Type 0
    DialledTo ips ports w q recv =
        (ip : Text) × (port : ℕ × ℕ) × (get_elem? ips q ≡ some ip)
        × (get_elem? ports q ≡ some port)
        × Holds w (connected recv.sock ip (port_16 port.1))

    -- The sender is connected to a process that has connected to the port for party `q`.
    abbrev pub ServesFor : List (ℕ × ℕ) → World → ℕ → Sender → Type 0
    ServesFor ports w q s =
        (port : ℕ × ℕ) × (get_elem? ports q ≡ some port)
        × Holds w (serving s.connect_sock (port_16 port.0))

    module _ (net : Network Holds) (fuel : ℕ) (up : IsServing fuel) (welcome : IsWelcoming) where
      pub init_receiver-Returns :
          (ip : Text) (port : ℕ) (w : World)
          → Returns
              (λ recv w'. Holds w' (connected recv.sock ip (port_16 port)) × Keeps Holds w w')
              (init_receiver fuel ip port w)
      unfolding init_receiver
      init_receiver-Returns ip port w =
          let (w', e) = up.connects (c.socket w).0 ip (port_16 port) (c.socket w).1 in
          let (h, k) = connect_loop-Holds Holds net fuel _ ip (port_16 port) _ w' e in
          rw (up.gives_sockets w, e) (returns (h, λ f x. k f (net.socket_keeps w f x)))

      module _ (ips : List Text) (ports : List (ℕ × ℕ)) where
        pub open_receivers-Extends :
            (p n : ℕ) (receivers : List Receiver) (w : World)
            → p + n ≤ length ips
            → p + n ≤ length ports
            → Returns
                (λ ys w'. Extends (DialledTo ips ports w') p n receivers ys × Keeps Holds w w')
                (open_receivers fuel ips ports p n receivers w)
        unfolding open_receivers
        open_receivers-Extends p zero receivers w h l =
            returns (Extends-nothing (DialledTo ips ports w) p receivers, λ f x. x)
        open_receivers-Extends p (suc n) receivers w h l =
            let (ip, e) = entry ips p (omega arith) in
            let (port, k) = entry ports p (omega arith) in
            rw (e, k)
              (Returns-and_then (init_receiver-Returns ip port.1 w) λ recv w1 x.
                Returns-map
                  (open_receivers-Extends (suc p) n (receivers ++ (recv ∷ [])) w1 (omega arith)
                    (omega arith))
                  λ ys w2 y. (
                    Extends-one (DialledTo ips ports w2) p n receivers ys recv
                        (ip, port, e, k, y.1 _ x.0) y.0,
                    λ f z. y.1 f (x.1 f z),
                  ))

      pub open_senders-Extends :
          (ports : List (ℕ × ℕ)) (p n : ℕ) (senders : List Sender) (w : World)
          → p + n ≤ length ports
          → Returns
              (λ ys w'. Extends (ServesFor ports w') p n senders ys × Keeps Holds w w')
              (open_senders ports p n senders w)
      unfolding open_senders
      open_senders-Extends ports p zero senders w l =
          returns (Extends-nothing (ServesFor ports w) p senders, λ f x. x)
      open_senders-Extends ports p (suc n) senders w l =
          let (port, k) = entry ports p (omega arith) in
          let x = init_sender-Holds Holds net welcome port.0 w in
          rw k (
            Returns-map
              (open_senders-Extends ports (suc p) n (senders ++ ((init_sender port.0 w).0 ∷ []))
                (init_sender port.0 w).1 (omega arith))
              λ ys w2 y. (
                Extends-one (ServesFor ports w2) p n senders ys (init_sender port.0 w).0
                    (port, k, y.1 _ x.0.1) y.0,
                λ f z. y.1 f (x.1 f z),
              ))
