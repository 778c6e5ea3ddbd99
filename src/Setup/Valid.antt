-- ===== src/Setup/Valid.antt =====
-- The places that the threads of a session can be at.
use malicious_mpsi.Base.{
  ℕ, suc, ◌<◌, ◌≡◌, refl, sym, subst, inl, inr, arith, ltb, Bool-cases, ltb→lt, eq-cases, ne→==,
  eq→==,
}
use malicious_mpsi.Setup.{
  Place, reaching, offering, taking, finished, serve, reached_party, System, initial, put, Step,
  dial, offer, accept, offer_p0, accept_p0, Steps, here, later,
}

-- Party `i` connects to lower parties, and listens for higher ones.
abbrev pub IsPlace : ℕ → ℕ → Place → Type 0
IsPlace parties i (reaching p) = p < i
IsPlace parties i (offering q) = (i < q) × (q < parties)
IsPlace parties i (taking q) = (i < q) × (q < parties)
IsPlace parties i finished = Unit

-- A thread of P0 serves its own party.
abbrev pub IsPlaceP0 : ℕ → Place → Type 0
IsPlaceP0 i (reaching p) = ⊥
IsPlaceP0 i (offering q) = q ≡ i
IsPlaceP0 i (taking q) = q ≡ i
IsPlaceP0 i finished = Unit

pub record IsValid (parties : ℕ) (s : System) : Type 0 where
  pub parties_at : (i : ℕ) → 0 < i → IsPlace parties i (s.pi i)
  pub threads_at : (i : ℕ) → IsPlaceP0 i (s.p0 i)

pub serve-IsPlace : (parties i q : ℕ) → i < q → IsPlace parties i (serve parties q)
unfolding serve
serve-IsPlace parties i q h = elim (Bool-cases (ltb q parties)) [
  | inl e ↦ rw e (h, ltb→lt q parties e)
  | inr e ↦ rw e tt
]

pub reached_party-IsPlace : (parties i p : ℕ) → IsPlace parties i (reached_party parties i p)
unfolding reached_party
reached_party-IsPlace parties i p = elim (Bool-cases (ltb (suc p) i)) [
  | inl e ↦ rw e (ltb→lt (suc p) i e)
  | inr e ↦ rw e (serve-IsPlace parties i (suc i) (omega arith))
]

-- A change at one place keeps what holds of all.
put_keeps :
    (P : ℕ → Place → Type 0) (f : ℕ → Place) (i : ℕ) (x : Place)
    → P i x
    → (j : ℕ) → P j (f j)
    → P j (put f i x j)
unfolding put
put_keeps P f i x h j k = elim (eq-cases j i) [
  | inl e ↦ rw (eq→== j i e) (subst (λ t. P t x) (sym e) h)
  | inr e ↦ rw (ne→== j i e) k
]

Step-IsValid :
    {parties : ℕ} {s t : System} → IsValid parties s → Step parties s t → IsValid parties t
Step-IsValid {parties} {s} v (dial i p h l e x w) = record {
  parties_at = λ j k.
      put_keeps (IsPlace parties) s.pi i _ (reached_party-IsPlace parties i p) j (v.parties_at j k);
  threads_at = v.threads_at;
}
Step-IsValid {parties} {s} v (offer i q h l e) = record {
  parties_at = λ j k.
      put_keeps (IsPlace parties) s.pi i (taking q) (subst (IsPlace parties i) e (v.parties_at i h))
        j (v.parties_at j k);
  threads_at = v.threads_at;
}
Step-IsValid {parties} {s} v (accept i q h l e x) = record {
  parties_at = λ j k.
      let higher : IsPlace parties i (taking q) = subst (IsPlace parties i) e (v.parties_at i h) in
      put_keeps (IsPlace parties) s.pi i _ (serve-IsPlace parties i (suc q) (omega arith)) j
        (v.parties_at j k);
  threads_at = v.threads_at;
}
Step-IsValid {parties} {s} v (offer_p0 i h l e) = record {
  parties_at = v.parties_at;
  threads_at = λ j. put_keeps IsPlaceP0 s.p0 i (taking i) refl j (v.threads_at j);
}
Step-IsValid {parties} {s} v (accept_p0 i h l e x) = record {
  parties_at = v.parties_at;
  threads_at = λ j. put_keeps IsPlaceP0 s.p0 i finished tt j (v.threads_at j);
}

pub Steps-IsValid : {parties n : ℕ} {s : System} → Steps parties initial n s → IsValid parties s
unfolding initial
Steps-IsValid here = record { parties_at = λ i h. h; threads_at = λ i. refl }
Steps-IsValid (later r x) = Step-IsValid (Steps-IsValid r) x
