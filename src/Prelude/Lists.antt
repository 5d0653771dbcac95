-- ===== src/Prelude/Lists.antt =====
-- Lists measured and indexed by native numbers, and predicates on lists by recursion.
use Prim.Native.Nat.{ℕ, zero, suc, ◌+◌, ◌-◌}
use mathlib.Core.Path.{◌≡◌, refl, ap}
use mathlib.Core.List.{List, [], ◌∷◌, ◌++◌}
use mathlib.Core.Option.{Option, none, some}
use mathlib.Core.Logic.{◌⊎◌, inl, inr}
use native.Mathlib.Omega.{arith}

module _ {ℓ} {A : Type ℓ} where
  abbrev pub length : List A → ℕ
  length [] = 0
  length (x ∷ xs) = suc (length xs)

  abbrev pub get_elem? : List A → ℕ → Option A
  get_elem? [] i = none
  get_elem? (x ∷ xs) zero = some x
  get_elem? (x ∷ xs) (suc i) = get_elem? xs i

  abbrev pub drop : ℕ → List A → List A
  drop zero xs = xs
  drop (suc n) [] = []
  drop (suc n) (x ∷ xs) = drop n xs

  -- The last element, `xs[len(xs)-1]`, where there is one.
  abbrev pub last? : List A → Option A
  last? [] = none
  last? (x ∷ []) = some x
  last? (x ∷ y ∷ xs) = last? (y ∷ xs)

  -- `xs[len(xs)-1] = v`; nothing where the list is empty.
  abbrev pub set_last : List A → A → List A
  set_last [] v = []
  set_last (x ∷ []) v = v ∷ []
  set_last (x ∷ y ∷ xs) v = x ∷ set_last (y ∷ xs) v

  abbrev pub All {κ} : (A → Type κ) → List A → Type κ
  All P [] = Unit
  All P (x ∷ xs) = P x × All P xs

  -- Some element has the property.
  abbrev pub Any : (A → Type 0) → List A → Type 0
  Any P [] = ⊥
  Any P (x ∷ xs) = P x ⊎ Any P xs

  pub length-append : (xs ys : List A) → length (xs ++ ys) ≡ length xs + length ys
  length-append [] ys = omega arith
  length-append (x ∷ xs) ys = omega (arith, length-append xs ys)

  pub length-drop : (n : ℕ) (xs : List A) → length (drop n xs) ≡ length xs - n
  length-drop zero xs = omega arith
  length-drop (suc n) [] = omega arith
  length-drop (suc n) (x ∷ xs) = omega (arith, length-drop n xs)

  pub length-set_last : (xs : List A) (v : A) → length (set_last xs v) ≡ length xs
  length-set_last [] v = refl
  length-set_last (x ∷ []) v = refl
  length-set_last (x ∷ y ∷ xs) v = ap suc (length-set_last (y ∷ xs) v)

module _ {ℓ} {A : Type ℓ} where
  pub All-map {κ μ} :
      {P : A → Type κ} {Q : A → Type μ} (f : (x : A) → P x → Q x) (xs : List A)
      → All P xs
      → All Q xs
  All-map f [] h = tt
  All-map f (x ∷ xs) (h, hs) = (f x h, All-map f xs hs)

  pub Any-map : {P Q : A → Type 0} (f : (x : A) → P x → Q x) (xs : List A) → Any P xs → Any Q xs
  Any-map f [] h = h
  Any-map f (x ∷ xs) (inl h) = inl (f x h)
  Any-map f (x ∷ xs) (inr h) = inr (Any-map f xs h)
