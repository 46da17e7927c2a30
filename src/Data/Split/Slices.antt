-- ===== src/Data/Split/Slices.antt =====
-- Cutting sorted rows: the parts make up the whole, in order, and what a description of them tells.
use real_time_risk_fraud_eng.Prelude.{
  ℕ, zero, suc, ◌+◌, ◌-◌, ◌≤◌, ◌<◌, ◌≡◌, refl, ap, ◌∙◌, sym, true, List, [], ◌∷◌, ◌++◌, arith,
  length, All, ltb, Bool-cases, inl, inr, if◌then◌else◌,
}
use real_time_risk_fraud_eng.Prelude.Int.{ℤ, leb_ℤ}
use real_time_risk_fraud_eng.Result.{ok, ok_injective}
use real_time_risk_fraud_eng.Float.{Arithmetic}
use real_time_risk_fraud_eng.Data.Split.{
  Row, Split, take, drop, iloc, lowest_from, highest_from, column_min, column_max, whole, described,
  lte,
}

-- Integers in nondecreasing order.
abbrev pub Ordered : List ℤ → Type 0
Ordered [] = Unit
Ordered (x ∷ xs) = All (λ y. leb_ℤ x y ≡ true) xs × Ordered xs

module _ {X : Type 0} where
  take-drop : (n : ℕ) (xs : List X) → take n xs ++ drop n xs ≡ xs
  unfolding take drop
  take-drop zero xs = refl
  take-drop (suc n) [] = refl
  take-drop (suc n) (x ∷ xs) = ap (λ l. x ∷ l) (take-drop n xs)

  drop-drop : (m n k : ℕ) (xs : List X) → m + n ≡ k → drop n (drop m xs) ≡ drop k xs
  unfolding drop
  drop-drop zero n k xs h = ground (arith, h)
  drop-drop (suc m) zero k [] h = ground (arith, h)
  drop-drop (suc m) (suc n) zero [] h = refl
  drop-drop (suc m) (suc n) (suc k) [] h = refl
  drop-drop (suc m) n zero (x ∷ xs) h = ground (arith, h)
  drop-drop (suc m) n (suc k) (x ∷ xs) h = drop-drop m n k xs (omega (arith, h))

  iloc_empty : (a b : ℕ) (xs : List X) → b ≤ a → iloc a b xs ≡ []
  unfolding iloc take
  iloc_empty a b xs h = rw (the_difference a b h) refl
    where
      the_difference : (a b : ℕ) → b ≤ a → b - a ≡ 0
      the_difference a b h = omega (arith, h)

  pub length-take : (n : ℕ) (xs : List X) → n ≤ length xs → length (take n xs) ≡ n
  unfolding take
  length-take zero xs h = refl
  length-take (suc n) [] h = ground (arith, h)
  length-take (suc n) (x ∷ xs) h = ap suc (length-take n xs (omega (arith, h)))

  pub length-drop : (n : ℕ) (xs : List X) → n ≤ length xs → length (drop n xs) + n ≡ length xs
  unfolding drop
  length-drop zero xs h = omega arith
  length-drop (suc n) [] h = ground (arith, h)
  length-drop (suc n) (x ∷ xs) h = omega (arith, length-drop n xs (omega (arith, h)))

  pub length-iloc : (a b : ℕ) (xs : List X) → a ≤ b → b ≤ length xs → length (iloc a b xs) + a ≡ b
  unfolding iloc
  length-iloc a b xs h k =
      let rest = length-drop a xs (omega (arith, h, k)) in
      omega (arith, h, length-take (b - a) (drop a xs) (omega (arith, h, k, rest)))

  pub ordered_cut : (a b : ℕ) (xs : List X) → 0 < length (iloc a b xs) → a ≤ b
  ordered_cut a b xs h = elim (Bool-cases (ltb b a)) [
    | inl less ↦ ground (arith, less, rw (iloc_empty a b xs (ground (arith, less))) at h)
    | inr more ↦ ground (arith, more)
  ]

  -- The three parts of a list that is cut at two positions in order.
  pub parts : (a b : ℕ) (xs : List X) → a ≤ b → take a xs ++ (iloc a b xs ++ drop b xs) ≡ xs
  unfolding iloc
  parts a b xs h =
      ap (λ l. take a xs ++ l)
        (ap (λ l. take (b - a) (drop a xs) ++ l) (sym (drop-drop a (b - a) b xs (omega (arith, h))))
          ∙ take-drop (b - a) (drop a xs))
      ∙ take-drop a xs

lowest_from_bound :
    (z m : ℤ) (ts : List ℤ)
    → leb_ℤ z m ≡ true
    → All (λ t. leb_ℤ z t ≡ true) ts
    → leb_ℤ z (lowest_from m ts) ≡ true
unfolding lowest_from
lowest_from_bound z m [] h k = h
lowest_from_bound z m (t ∷ ts) h k =
    lowest_from_bound z (if leb_ℤ m t then m else t) ts (ground (arith, h, k.0)) k.1

highest_from_bound :
    (z m : ℤ) (ts : List ℤ)
    → leb_ℤ m z ≡ true
    → All (λ t. leb_ℤ t z ≡ true) ts
    → leb_ℤ (highest_from m ts) z ≡ true
unfolding highest_from
highest_from_bound z m [] h k = h
highest_from_bound z m (t ∷ ts) h k =
    highest_from_bound z (if leb_ℤ t m then m else t) ts (ground (arith, h, k.0)) k.1

after :
    (x y : ℤ) (xs ys : List ℤ)
    → All (λ t. leb_ℤ x t ≡ true) (xs ++ y ∷ ys)
    → leb_ℤ x (lowest_from y ys) ≡ true
after x y [] ys h = lowest_from_bound x y ys h.0 h.1
after x y (t ∷ xs) ys h = after x y xs ys h.1

all_after :
    (y : ℤ) (xs ys : List ℤ)
    → Ordered (xs ++ y ∷ ys)
    → All (λ t. leb_ℤ t (lowest_from y ys) ≡ true) xs
all_after y [] ys o = tt
all_after y (x ∷ xs) ys o = (after x y xs ys o.0, all_after y xs ys o.1)

-- Of two consecutive parts of ordered times the largest of the first is not above the smallest of the
-- second.
pub lte_of_Ordered :
    (x : ℤ) (xs : List ℤ) (y : ℤ) (ys : List ℤ)
    → Ordered (x ∷ xs ++ y ∷ ys)
    → lte (column_max (x ∷ xs)) (column_min (y ∷ ys)) ≡ true
unfolding lte column_max column_min
lte_of_Ordered x xs y ys o =
    highest_from_bound (lowest_from y ys) x xs (after x y xs ys o.0) (all_after y xs ys o.1)

pub Ordered-left : (xs ys : List ℤ) → Ordered (xs ++ ys) → Ordered xs
Ordered-left [] ys o = tt
Ordered-left (x ∷ xs) ys o = (All-left _ xs ys o.0, Ordered-left xs ys o.1)
  where
    All-left : (Q : ℤ → Type 0) (xs ys : List ℤ) → All Q (xs ++ ys) → All Q xs
    All-left Q [] ys h = tt
    All-left Q (x ∷ xs) ys h = (h.0, All-left Q xs ys h.1)

pub Ordered-right : (xs ys : List ℤ) → Ordered (xs ++ ys) → Ordered ys
Ordered-right [] ys o = o
Ordered-right (x ∷ xs) ys o = Ordered-right xs ys o.1

module _ {I : Type 0} (A : Arithmetic) (sort_values : List (Row I) → List (Row I)) where
  -- A description that returns is of three parts with rows.
  pub described_ok :
      (n : ℕ) (a b : ℤ) (train val test : List (Row I)) (s : Split I)
      → described A sort_values n a b train val test ≡ ok s
      → (s.train ≡ train)
        × (s.val ≡ val)
        × (s.test ≡ test)
        × (0 < length train)
        × (0 < length val)
        × (0 < length test)
  unfolding described whole column_min column_max
  described_ok n a b [] val test s h = ground (arith, h)
  described_ok n a b (x ∷ xs) [] test s h = ground (arith, h)
  described_ok n a b (x ∷ xs) (y ∷ ys) [] s h = ground (arith, h)
  described_ok n a b (x ∷ xs) (y ∷ ys) (z ∷ zs) s h =
      let same = sym (ok_injective h) in
      (
        ap (λ (t : Split I). t.train) same,
        ap (λ (t : Split I). t.val) same,
        ap (λ (t : Split I). t.test) same,
        omega arith,
        omega arith,
        omega arith,
      )

  -- A description of three parts with rows returns.
  pub described_returns :
      (n : ℕ) (a b : ℤ) (train val test : List (Row I))
      → 0 < length train
      → 0 < length val
      → 0 < length test
      → (s : Split I) × (described A sort_values n a b train val test ≡ ok s)
        × (s.train ≡ train)
        × (s.val ≡ val)
  unfolding described whole column_min column_max
  described_returns n a b [] val test h k l = ground (arith, h)
  described_returns n a b (x ∷ xs) [] test h k l = ground (arith, k)
  described_returns n a b (x ∷ xs) (y ∷ ys) [] h k l = ground (arith, l)
  described_returns n a b (x ∷ xs) (y ∷ ys) (z ∷ zs) h k l = (_, refl, refl, refl)
