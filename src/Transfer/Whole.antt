-- ===== src/Transfer/Whole.antt =====
-- A message is written and read whole, whatever the sizes of the partial transfers.
use mathlib.Core.List.{append_assoc, append-nil}
use malicious_mpsi.Base.{
  ℕ, zero, suc, ◌+◌, ◌-◌, ◌^◌, ◌≤◌, ◌<◌, ◌≡◌, refl, sym, ap, ap₂, ◌∙◌, List, [], ◌∷◌, ◌++◌, arith,
  length, take, drop, drop-drop, length-drop, length-append, eq-cases, eq→==, ne→==, inl, inr,
  Gives, gives, Gives-map,
}
use malicious_mpsi.Transfer.{System, sub_64, add_64, write_loop, write_all, read_loop, read_all}

take-full : (xs : List ℕ) → take (length xs) xs ≡ xs
take-full [] = refl
take-full (x ∷ xs) = ap (λ t. x ∷ t) (take-full xs)

pub take-append-drop : (n : ℕ) (xs : List ℕ) → take n xs ++ drop n xs ≡ xs
take-append-drop zero xs = refl
take-append-drop (suc n) [] = refl
take-append-drop (suc n) (x ∷ xs) = ap (λ t. x ∷ t) (take-append-drop n xs)

drop_past : (n : ℕ) (xs : List ℕ) → length xs ≤ n → drop n xs ≡ []
drop_past zero [] h = refl
drop_past (suc n) [] h = refl
drop_past zero (x ∷ xs) h = absurd (omega arith)
drop_past (suc n) (x ∷ xs) h = drop_past n xs (omega arith)

shift : (size left n : ℕ) → n ≤ left → left ≤ size → size - (left - n) ≡ size - left + n
shift size left n p q = omega arith

-- Within the word the arithmetic is that of the numbers.
pub sub_64-eq : (a b : ℕ) → a < 2 ^ 64 → b ≤ a → sub_64 a b ≡ a - b
unfolding sub_64
sub_64-eq a b h l = omega arith

pub add_64-eq : (a b : ℕ) → a + b < 2 ^ 64 → add_64 a b ≡ a + b
unfolding add_64
add_64-eq a b h = omega arith

module _ ⦃y : System⦄ where
  -- What `write` promises: it takes at least one byte and at most all, and passes them on.
  pub record Delivers (delivered : y.Socket → List ℕ) : Type 0 where
    pub progress : (bytes : List ℕ) (s : y.Socket) → 0 < length bytes → 0 < (y.write bytes s).0
    pub at_most : (bytes : List ℕ) (s : y.Socket) → (y.write bytes s).0 ≤ length bytes
    pub passed :
        (bytes : List ℕ) (s : y.Socket)
        → delivered (y.write bytes s).1 ≡ delivered s ++ take (y.write bytes s).0 bytes

  module _ (delivered : y.Socket → List ℕ) (d : Delivers delivered) (msg : List ℕ) (size : ℕ)
      (whole : length msg ≡ size) (word : size < 2 ^ 64) where
    at_end :
        (left : ℕ) (s : y.Socket) → left ≡ 0 → delivered s ≡ delivered s ++ drop (size - left) msg
    at_end left s z =
        sym (append-nil (delivered s))
        ∙ ap (λ t. delivered s ++ t) (sym (drop_past (size - left) msg (omega (arith, whole))))

    next :
        (left n : ℕ)
        → n ≤ left
        → left ≤ size
        → drop (size - (left - n)) msg ≡ drop n (drop (size - left) msg)
    next left n p q =
        ap (λ k. drop k msg) (shift size left n p q) ∙ sym (drop-drop (size - left) n msg)

    write_loop_lem :
        (fuel left sum : ℕ) (s : y.Socket)
        → left ≤ fuel
        → left ≤ size
        → sum + left ≡ size
        → Gives
            (λ r. (r.0 ≡ size) × (delivered r.1 ≡ delivered s ++ drop (size - left) msg))
            (write_loop fuel msg size left sum s)
    unfolding write_loop
    write_loop_lem zero left sum s f l e =
        rw (eq→== left 0 (omega arith)) (gives (omega arith, at_end left s (omega arith)))
    write_loop_lem (suc fuel) left sum s f l e = elim (eq-cases left 0) [
      | inl z ↦ rw (eq→== left 0 z) (gives (omega arith, at_end left s (omega arith)))
      | inr z ↦
          let rest = drop (size - left) msg in
          let long : length rest ≡ left = omega (arith, length-drop (size - left) msg, whole) in
          let offered : take left rest ≡ rest = ap (λ k. take k rest) (sym long) ∙ take-full rest in
          let n = (y.write rest s).0 in
          let some_bytes : 0 < n = d.progress rest s (omega arith) in
          let most : n ≤ left = omega (arith, d.at_most rest s) in
          rw (ne→== left 0 z) (
            rw offered (
              rw (sub_64-eq left n (omega arith) most, add_64-eq sum n (omega arith))
                (Gives-map
                  (write_loop_lem fuel (left - n) (sum + n) (y.write rest s).1 (omega arith)
                    (omega arith) (omega arith))
                  λ r x. (
                    x.0,
                    x.1
                        ∙ ap₂ (λ u v. u ++ v) (d.passed rest s) (next left n most l)
                        ∙ append_assoc (delivered s) (take n rest) (drop n rest)
                        ∙ ap (λ t. delivered s ++ t) (take-append-drop n rest),
                  ))))
    ]

    -- A message of fewer than 2 ^ 64 bytes is passed on whole and in order, and its size returned,
    -- over a socket whose calls take at least one byte each.
    pub write_all_lem :
        (s : y.Socket)
        → Gives (λ r. (r.0 ≡ size) × (delivered r.1 ≡ delivered s ++ msg)) (write_all msg size s)
    unfolding write_all
    write_all_lem s =
        Gives-map (write_loop_lem size size 0 s (omega arith) (omega arith) (omega arith))
          λ r x. (x.0, x.1 ∙ ap (λ k. delivered s ++ drop k msg) none_done)
      where
        none_done : size - size ≡ 0
        none_done = omega arith

  -- What `read` promises while bytes are on their way: at least one and at most as many as asked
  -- for, the next ones in order.
  pub record Supplies (unread : y.Socket → List ℕ) : Type 0 where
    pub progress : (n : ℕ) (s : y.Socket) → 0 < n → n ≤ length (unread s) → 0 < (y.read n s).0
    pub at_most : (n : ℕ) (s : y.Socket) → n ≤ length (unread s) → (y.read n s).0 ≤ n
    pub count :
        (n : ℕ) (s : y.Socket) → n ≤ length (unread s) → length (y.read n s).1 ≡ (y.read n s).0
    pub order :
        (n : ℕ) (s : y.Socket)
        → n ≤ length (unread s)
        → unread s ≡ (y.read n s).1 ++ unread (y.read n s).2

  module _ (unread : y.Socket → List ℕ) (u : Supplies unread) (size : ℕ)
      (word : size < 2 ^ 64) where
    read_loop_lem :
        (fuel left sum : ℕ) (got : List ℕ) (s : y.Socket)
        → left ≤ fuel
        → left ≤ length (unread s)
        → sum + left ≡ size
        → length got ≡ sum
        → Gives
            (λ r. (r.0 ≡ size) × (length r.1 ≡ size) × (got ++ unread s ≡ r.1 ++ unread r.2))
            (read_loop fuel left sum got s)
    unfolding read_loop
    read_loop_lem zero left sum got s f l e g =
        rw (eq→== left 0 (omega arith)) (gives (omega arith, omega arith, refl))
    read_loop_lem (suc fuel) left sum got s f l e g = elim (eq-cases left 0) [
      | inl z ↦ rw (eq→== left 0 z) (gives (omega arith, omega arith, refl))
      | inr z ↦
          let n = (y.read left s).0 in
          let bytes = (y.read left s).1 in
          let s' = (y.read left s).2 in
          let some_bytes : 0 < n = u.progress left s (omega arith) l in
          let most : n ≤ left = u.at_most left s l in
          let split : length (unread s) ≡ length bytes + length (unread s') =
            ap length (u.order left s l) ∙ length-append bytes (unread s') in
          rw (ne→== left 0 z) (
            rw (sub_64-eq left n (omega arith) most, add_64-eq sum n (omega arith))
              (Gives-map
                (read_loop_lem fuel (left - n) (sum + n) (got ++ bytes) s' (omega arith)
                  (omega (arith, u.count left s l)) (omega arith)
                  (omega (arith, length-append got bytes, u.count left s l)))
                λ r x. (
                  x.0,
                  x.1,
                  ap (λ t. got ++ t) (u.order left s l)
                      ∙ sym (append_assoc got bytes (unread s'))
                      ∙ x.2,
                )))
    ]

    -- If `size` bytes, fewer than 2 ^ 64, are on their way, the buffer gets exactly the next `size`
    -- bytes in order, the others stay, and the size is returned.
    pub read_all_lem :
        (s : y.Socket)
        → size ≤ length (unread s)
        → Gives
            (λ r. (r.0 ≡ size) × (length r.1 ≡ size) × (unread s ≡ r.1 ++ unread r.2))
            (read_all size s)
    unfolding read_all
    read_all_lem s l = read_loop_lem size size 0 [] s (omega arith) l (omega arith) refl
