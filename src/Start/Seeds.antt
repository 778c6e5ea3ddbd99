-- ===== src/Start/Seeds.antt =====
-- Which random sources of a session have the same seed.
use malicious_mpsi.Base.{
  ℕ, ◌+◌, ◌≤◌, ◌<◌, ◌≡◌, ◌≢◌, refl, sym, ◌∙◌, ap, true, List, ◌++◌, arith, length, get_or, set,
  get_or-set_ne, eq-cases, ◌==◌, eq→==, ne→==, get_or-append_left, if◌then◌else◌, ◌↔◌, ◌⊎◌, inl,
  inr,
}
use malicious_mpsi.Start.{const_seeds, const_seeds_p0}
use malicious_mpsi.Start.Distinct.{all_differ, all_differ_at, get_or-append_right}

-- The sources that the processes of a session make: P0's for its seed and commitment, P0's for its
-- instance with a party, and a party's.
pub data Source : Type 0 where
  of_p0 : Source
  of_instance : ℕ → Source
  of_party : ℕ → Source

-- `m_cConstSeed[0]`, `m_cConstSeed_p0[i]` and `m_cConstSeed[player]`
unfoldable pub seed_of : Source → ℕ
unfolding const_seeds const_seeds_p0
seed_of of_p0 = get_or const_seeds 0 0
seed_of (of_instance i) = get_or const_seeds_p0 i 0
seed_of (of_party i) = get_or const_seeds i 0

abbrev pub InSession : ℕ → Source → Type 0
InSession parties of_p0 = Unit
InSession parties (of_instance i) = (0 < i) × (i < parties)
InSession parties (of_party i) = (0 < i) × (i < parties)

abbrev table : List ℕ
table = const_seeds ++ const_seeds_p0

-- The seeds but one are different.
table_differs : all_differ (set table 15 0) ≡ true
unfolding const_seeds const_seeds_p0
table_differs = refl

table_size : length (set table 15 0) ≡ 130
unfolding const_seeds const_seeds_p0
table_size = refl

seeds_size : length const_seeds ≡ 65
unfolding const_seeds
seeds_size = refl

-- Where a seed stands in the table; that of party 15 stands where P0's does.
table_place : Source → ℕ
table_place of_p0 = 0
table_place (of_instance i) = 65 + i
table_place (of_party i) = if i == 15 then 0 else i

place_kept : (i : ℕ) → i ≢ 15 → get_or (set table 15 0) i 0 ≡ get_or table i 0
place_kept i h = get_or-set_ne table 15 i 0 0 h

first_seed : get_or const_seeds 0 0 ≡ get_or (set table 15 0) 0 0
unfolding const_seeds const_seeds_p0
first_seed = refl

shared_seed : get_or const_seeds 15 0 ≡ get_or (set table 15 0) 0 0
unfolding const_seeds const_seeds_p0
shared_seed = refl

seed_at :
    (parties : ℕ) (s : Source)
    → parties ≤ 65
    → InSession parties s
    → seed_of s ≡ get_or (set table 15 0) (table_place s) 0
unfolding table_place seed_of
seed_at parties of_p0 h x = first_seed
seed_at parties (of_instance i) h x = sym (
    place_kept (65 + i) (λ e. omega arith)
    ∙ ap (λ n. get_or table (n + i) 0) (sym seeds_size)
    ∙ get_or-append_right const_seeds const_seeds_p0 i 0)
seed_at parties (of_party i) h x = elim (eq-cases i 15) [
  | inl e ↦ rw (eq→== i 15 e) (ap (λ j. get_or const_seeds j 0) e ∙ shared_seed)
  | inr ne ↦ rw (ne→== i 15 ne) (
      sym (
        place_kept i ne
        ∙ get_or-append_left const_seeds const_seeds_p0 i 0 (omega (arith, seeds_size))))
]

-- P0's source for its seed and that of party 15.
abbrev pub Shared : Source → Source → Type 0
Shared s t = (s ≡ of_p0) × (t ≡ of_party 15)

party_place :
    (i : ℕ)
    → ((i ≡ 15) × (table_place (of_party i) ≡ 0)) ⊎ ((i ≢ 15) × (table_place (of_party i) ≡ i))
unfolding table_place
party_place i = elim (eq-cases i 15) [
  | inl e ↦ inl (e, rw (eq→== i 15 e) refl)
  | inr ne ↦ inr (ne, rw (ne→== i 15 ne) refl)
]

instance_place : (i : ℕ) → table_place (of_instance i) ≡ 65 + i
unfolding table_place
instance_place i = refl

p0_place : table_place of_p0 ≡ 0
unfolding table_place
p0_place = refl

place_same :
    (parties : ℕ) (s t : Source)
    → parties ≤ 65
    → InSession parties s
    → InSession parties t
    → table_place s ≡ table_place t
    → (s ≡ t) ⊎ (Shared s t ⊎ Shared t s)
place_same parties of_p0 of_p0 h x y e = inl refl
place_same parties of_p0 (of_instance j) h x y e =
    absurd (omega (arith, p0_place, instance_place j))
place_same parties of_p0 (of_party j) h x y e = elim (party_place j) [
  | inl q ↦ inr (inl (refl, ap of_party q.0))
  | inr q ↦ absurd (omega (arith, p0_place, q.1))
]
place_same parties (of_instance i) of_p0 h x y e =
    absurd (omega (arith, p0_place, instance_place i))
place_same parties (of_instance i) (of_instance j) h x y e =
    inl (ap of_instance (omega (arith, instance_place i, instance_place j)))
place_same parties (of_instance i) (of_party j) h x y e = elim (party_place j) [
  | inl q ↦ absurd (omega (arith, instance_place i, q.1))
  | inr q ↦ absurd (omega (arith, instance_place i, q.1))
]
place_same parties (of_party i) of_p0 h x y e = elim (party_place i) [
  | inl q ↦ inr (inr (refl, ap of_party q.0))
  | inr q ↦ absurd (omega (arith, p0_place, q.1))
]
place_same parties (of_party i) (of_instance j) h x y e = elim (party_place i) [
  | inl q ↦ absurd (omega (arith, instance_place j, q.1))
  | inr q ↦ absurd (omega (arith, instance_place j, q.1))
]
place_same parties (of_party i) (of_party j) h x y e = elim (party_place i) [
  | inl p ↦ elim (party_place j) [
    | inl q ↦ inl (ap of_party (p.0 ∙ sym q.0))
    | inr q ↦ absurd (omega (arith, p.1, q.1))
  ]
  | inr p ↦ elim (party_place j) [
    | inl q ↦ absurd (omega (arith, p.1, q.1))
    | inr q ↦ inl (ap of_party (omega (arith, p.1, q.1)))
  ]
]

place_lt : (parties : ℕ) (s : Source) → parties ≤ 65 → InSession parties s → table_place s < 130
place_lt parties of_p0 h x = omega (arith, p0_place)
place_lt parties (of_instance i) h x = omega (arith, instance_place i)
place_lt parties (of_party i) h x = elim (party_place i) [
  | inl q ↦ omega (arith, q.1)
  | inr q ↦ omega (arith, q.1)
]

table_at :
    (i j : ℕ)
    → i < 130
    → j < 130
    → get_or (set table 15 0) i 0 ≡ get_or (set table 15 0) j 0
    → i ≡ j
table_at i j h l e = elim (order i j) [
  | inl less ↦ absurd (all_differ_at _ i j table_differs less (omega (arith, table_size)) e)
  | inr rest ↦ elim rest [
    | inl same ↦ same
    | inr more ↦ absurd (all_differ_at _ j i table_differs more (omega (arith, table_size)) (sym e))
  ]
]
  where
    order : (a b : ℕ) → (a < b) ⊎ ((a ≡ b) ⊎ (b < a))
    order a b = ground arith

twice : seed_of of_p0 ≡ seed_of (of_party 15)
unfolding seed_of
twice = first_seed ∙ sym shared_seed

-- Of the random sources that the processes of a session of at most 65 parties make, no two have the
-- same seed, with one exception: the source from which P0 draws its seed and commitment has the seed
-- of party 15.
pub seeds_lem :
    (parties : ℕ) (s t : Source)
    → parties ≤ 65
    → InSession parties s
    → InSession parties t
    → s ≢ t
    → (seed_of s ≡ seed_of t) ↔ (Shared s t ⊎ Shared t s)
seeds_lem parties s t h x y ne = (
  λ e.
      elim (place_same parties s t h x y (
        table_at (table_place s) (table_place t) (place_lt parties s h x) (place_lt parties t h y)
          (sym (seed_at parties s h x) ∙ e ∙ seed_at parties t h y))) [
            | inl same ↦ absurd (ne same)
            | inr shared ↦ shared
          ],
  λ z. elim z [ inl q ↦ collide s t q | inr q ↦ sym (collide t s q) ],
)
  where
    collide : (s t : Source) → Shared s t → seed_of s ≡ seed_of t
    collide s t q = ap seed_of q.0 ∙ twice ∙ ap seed_of (sym q.1)
