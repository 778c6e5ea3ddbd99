-- ===== src/Setup.antt =====
-- The sockets of a session: the threads `creating_p0_instance` that `main` starts for P0, with the
-- constructor of P0, and the constructor of Pi. Each blocks in `accept` or repeats `connect`, and the
-- parties run in any order.
pub mod Valid
pub mod Live
pub mod Count
use malicious_mpsi.Base.{ℕ, zero, suc, ◌<◌, ◌≤◌, ◌≡◌, some, get_elem?, ltb, if◌then◌else◌, ◌==◌}
use malicious_mpsi.Exchange.{set_ports}

-- Where a thread is: in `init_receiver` for the socket to party `p`, in `init_sender` for party `q`
-- before `listen` or after it, or at its end.
pub data Place : Type 0 where
  reaching : ℕ → Place
  offering : ℕ → Place
  taking : ℕ → Place
  finished : Place

-- `for (int p=player+1;p<parties;p++)`, at `q`.
unfoldable pub serve : ℕ → ℕ → Place
serve parties q = if ltb q parties then offering q else finished

-- `for (int p=1;p<player;p++)` after the socket to party `p`; P0's comes first.
unfoldable pub reached_party : ℕ → ℕ → ℕ → Place
reached_party parties player p =
    if ltb (suc p) player then reaching (suc p) else serve parties (suc player)

-- The place of each Pi, and of the thread of P0 for each Pi.
pub record System : Type 0 where
  pub pi : ℕ → Place
  pub p0 : ℕ → Place

unfoldable pub initial : System
initial = record { pi = λ _. reaching 0; p0 = λ i. offering i }

unfoldable pub put : (ℕ → Place) → ℕ → Place → ℕ → Place
put f i x j = if j == i then x else f j

-- A thread listens for party `q` once it has come past `listen`. It does not close the socket.
abbrev pub HasOffered : ℕ → Place → Type 0
HasOffered q (reaching p) = ⊥
HasOffered q (offering j) = q < j
HasOffered q (taking j) = q ≤ j
HasOffered q finished = Unit

-- The `connect` to party `p` has succeeded.
abbrev pub HasReached : ℕ → Place → Type 0
HasReached p (reaching j) = p < j
HasReached p (offering j) = Unit
HasReached p (taking j) = Unit
HasReached p finished = Unit

-- Party `p` listens for party `i`: of P0, the thread for `i` does.
abbrev pub Listens : System → ℕ → ℕ → Type 0
Listens s zero i = HasOffered i (s.p0 i)
Listens s (suc p) i = HasOffered i (s.pi (suc p))

-- The port on which party `p` listens for party `i`, `ports[i][0]`, is the one that `i` connects to,
-- `ports[p][1]` of its own table.
abbrev pub SamePort : ℕ → ℕ → ℕ → Type 0
SamePort parties p i =
    (a : ℕ × ℕ) × (b : ℕ × ℕ) × (get_elem? (set_ports p parties) i ≡ some a)
    × (get_elem? (set_ports i parties) p ≡ some b)
    × (a.0 ≡ b.1)

pub data Step (parties : ℕ) (s : System) : System → Type 0 where
  dial :
      (i p : ℕ)
      → 0 < i
      → i < parties
      → s.pi i ≡ reaching p
      → Listens s p i
      → SamePort parties p i
      → Step parties s (record s { pi = put s.pi i (reached_party parties i p) })
  offer :
      (i q : ℕ)
      → 0 < i
      → i < parties
      → s.pi i ≡ offering q
      → Step parties s (record s { pi = put s.pi i (taking q) })
  accept :
      (i q : ℕ)
      → 0 < i
      → i < parties
      → s.pi i ≡ taking q
      → HasReached i (s.pi q)
      → Step parties s (record s { pi = put s.pi i (serve parties (suc q)) })
  offer_p0 :
      (i : ℕ)
      → 0 < i
      → i < parties
      → s.p0 i ≡ offering i
      → Step parties s (record s { p0 = put s.p0 i (taking i) })
  accept_p0 :
      (i : ℕ)
      → 0 < i
      → i < parties
      → s.p0 i ≡ taking i
      → HasReached 0 (s.pi i)
      → Step parties s (record s { p0 = put s.p0 i finished })

-- The states after `n` steps.
pub data Steps (parties : ℕ) (s : System) : ℕ → System → Type 0 where
  here : Steps parties s zero s
  later :
      {n : ℕ} {t u : System} → Steps parties s n t → Step parties t u → Steps parties s (suc n) u

-- All constructors have returned.
abbrev pub IsDone : ℕ → System → Type 0
IsDone parties s = (i : ℕ) → 0 < i → i < parties → (s.pi i ≡ finished) × (s.p0 i ≡ finished)
