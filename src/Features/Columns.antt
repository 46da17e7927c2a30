-- ===== src/Features/Columns.antt =====
-- Columns of a frame as lists of one length: elementwise operations, an element by its position, and what
-- pandas documents for the transformations of a grouped column (`scan`).
use real_time_risk_fraud_eng.Prelude.{
  ℕ, zero, suc, ◌≡◌, refl, Option, none, some, List, [], ◌∷◌, ◌++◌, map, arith, length, ◌<◌,
  if◌then◌else◌,
}
use mathlib.Core.List.{append-nil, append_assoc}
use real_time_risk_fraud_eng.Prelude.Keys.{Hashable, ◌==◌}

module _ {ℓ} {X : Type ℓ} where
  -- xs[i]
  abbrev pub get_elem? : List X → ℕ → Option X
  get_elem? [] i = none
  get_elem? (x ∷ xs) zero = some x
  get_elem? (x ∷ xs) (suc i) = get_elem? xs i

  pub get_elem?_exists : (xs : List X) (i : ℕ) → i < length xs → (x : X) × (get_elem? xs i ≡ some x)
  get_elem?_exists [] i h = ground (arith, h)
  get_elem?_exists (x ∷ xs) zero h = (x, refl)
  get_elem?_exists (x ∷ xs) (suc i) h = get_elem?_exists xs i (omega (arith, h))

  pub get_elem?-append_length :
      (xs : List X) (x : X) (ys : List X) → get_elem? (xs ++ x ∷ ys) (length xs) ≡ some x
  get_elem?-append_length [] x ys = refl
  get_elem?-append_length (y ∷ xs) x ys = get_elem?-append_length xs x ys

module _ {ℓ κ μ} {X : Type ℓ} {Y : Type κ} {Z : Type μ} where
  -- An elementwise operation on two columns of one length.
  unfoldable pub zip_with : (X → Y → Z) → List X → List Y → List Z
  zip_with f [] ys = []
  zip_with f (x ∷ xs) [] = []
  zip_with f (x ∷ xs) (y ∷ ys) = f x y ∷ zip_with f xs ys

  pub length-zip_with :
      (f : X → Y → Z) (n : ℕ) (xs : List X) (ys : List Y)
      → length xs ≡ n
      → length ys ≡ n
      → length (zip_with f xs ys) ≡ n
  unfolding zip_with
  length-zip_with f n [] ys h k = h
  length-zip_with f n (x ∷ xs) [] h k = k
  length-zip_with f zero (x ∷ xs) (y ∷ ys) h k = ground (arith, h)
  length-zip_with f (suc n) (x ∷ xs) (y ∷ ys) h k =
      omega (arith, length-zip_with f n xs ys (omega (arith, h)) (omega (arith, k)))

  pub get_elem?-zip_with :
      (f : X → Y → Z) (xs : List X) (ys : List Y) (i : ℕ) (x : X) (y : Y)
      → get_elem? xs i ≡ some x
      → get_elem? ys i ≡ some y
      → get_elem? (zip_with f xs ys) i ≡ some (f x y)
  unfolding zip_with
  get_elem?-zip_with f [] ys i x y h k = ground arith
  get_elem?-zip_with f (a ∷ xs) [] i x y h k = ground arith
  get_elem?-zip_with f (a ∷ xs) (b ∷ ys) zero x y h k = ground arith
  get_elem?-zip_with f (a ∷ xs) (b ∷ ys) (suc i) x y h k = get_elem?-zip_with f xs ys i x y h k

module _ {ℓ κ} {X : Type ℓ} {Y : Type κ} where
  pub get_elem?-map :
      (f : X → Y) (xs : List X) (i : ℕ) (x : X)
      → get_elem? xs i ≡ some x
      → get_elem? (map f xs) i ≡ some (f x)
  get_elem?-map f [] i x h = ground arith
  get_elem?-map f (a ∷ xs) zero x h = ground arith
  get_elem?-map f (a ∷ xs) (suc i) x h = get_elem?-map f xs i x h

-- A column beside the column that it is grouped by.
abbrev pub Keyed : Type 0 → Type 0 → Type 0
Keyed K X = List (K × X)

unfoldable pub pair : {K X : Type 0} → K → X → K × X
pair k x = (k, x)

module _ {K : Type 0} ⦃e : Hashable K⦄ where
  -- The values of one group, in the order of the rows.
  unfoldable pub group : {X : Type 0} → K → Keyed K X → List X
  group k [] = []
  group k ((j, x) ∷ d) = if j == k then x ∷ group k d else group k d

  pub group-append :
      {X : Type 0} (k : K) (c d : Keyed K X) → group k (c ++ d) ≡ group k c ++ group k d
  unfolding group
  group-append k [] d = refl
  group-append k ((j, x) ∷ c) d = ground (arith, group-append k c d)

  pub group-snoc :
      {X : Type 0} (k j : K) (x : X) (d : Keyed K X)
      → group k (d ++ (j, x) ∷ []) ≡ (if j == k then group k d ++ x ∷ [] else group k d)
  unfolding group
  group-snoc k j x [] = ground arith
  group-snoc k j x ((i, y) ∷ d) = ground (arith, group-snoc k j x d)

  module _ {X Y : Type 0} (f : List X → X → Y) where
    unfoldable pub scan_from : Keyed K X → Keyed K X → List Y
    unfolding group
    scan_from seen [] = []
    scan_from seen ((k, x) ∷ d) = f (group k seen) x ∷ scan_from (seen ++ (k, x) ∷ []) d

    -- The value of each row from the earlier values of its group and its own.
    unfoldable pub scan : Keyed K X → List Y
    unfolding scan_from
    scan = scan_from []

    length-scan_from : (seen d : Keyed K X) → length (scan_from seen d) ≡ length d
    unfolding scan_from
    length-scan_from seen [] = refl
    length-scan_from seen ((k, x) ∷ d) = rw (length-scan_from (seen ++ (k, x) ∷ []) d) refl

    pub length-scan : (d : Keyed K X) → length (scan d) ≡ length d
    unfolding scan
    length-scan = length-scan_from []

    scan_from_at :
        (seen pre : Keyed K X) (k : K) (x : X) (post : Keyed K X)
        → get_elem? (scan_from seen (pre ++ (k, x) ∷ post)) (length pre)
          ≡ some (f (group k (seen ++ pre)) x)
    unfolding scan_from
    scan_from_at seen [] k x post = rw (append-nil seen) refl
    scan_from_at seen ((j, y) ∷ pre) k x post =
        rw (← append_assoc seen ((j, y) ∷ []) pre) (scan_from_at (seen ++ (j, y) ∷ []) pre k x post)

    pub scan_at :
        (pre : Keyed K X) (k : K) (x : X) (post : Keyed K X)
        → get_elem? (scan (pre ++ (k, x) ∷ post)) (length pre) ≡ some (f (group k pre) x)
    unfolding scan
    scan_at = scan_from_at []
