-- ===== src/Base/Lists.antt =====
-- Lists measured by native numbers, filters by a Boolean test, and predicates over the entries.
use Prim.Native.Nat.{ℕ, zero, suc, ◌+◌, ◌≤◌}
use mathlib.Core.Option.{Option, none, some}
use mathlib.Core.Path.{◌≡◌}
use mathlib.Core.Logic.{◌⊎◌, ◌↔◌, inl, inr}
use mathlib.Core.Bool.{Bool}
use mathlib.Core.List.{List, [], ◌∷◌, ◌++◌}
use native.Mathlib.Omega.{arith}
use mqmgateway.Base.Tests.{if◌then◌else◌}

module _ {ℓ} {A : Type ℓ} where
  abbrev pub length : List A → ℕ
  length [] = 0
  length (x ∷ xs) = suc (length xs)

  pub length-append : (xs ys : List A) → length (xs ++ ys) ≡ length xs + length ys
  length-append [] ys = omega arith
  length-append (x ∷ xs) ys = omega (arith, length-append xs ys)

  -- The entries that pass a test, in their order.
  abbrev pub keep : (A → Bool) → List A → List A
  keep p [] = []
  keep p (x ∷ xs) = if p x then x ∷ keep p xs else keep p xs

  -- Every entry satisfies a predicate.
  abbrev pub All {κ} : (A → Type κ) → List A → Type κ
  All P [] = Unit
  All P (x ∷ xs) = P x × All P xs

  -- Some entry satisfies a predicate.
  abbrev pub Any : (A → Type 0) → List A → Type 0
  Any P [] = ⊥
  Any P (x ∷ xs) = P x ⊎ Any P xs

  -- A relation holds between every entry and all that follow it.
  abbrev pub Pairs : (A → A → Type 0) → List A → Type 0
  Pairs R [] = Unit
  Pairs R (x ∷ xs) = All (R x) xs × Pairs R xs

  pub Any-append_left : (P : A → Type 0) (xs ys : List A) → Any P xs → Any P (xs ++ ys)
  Any-append_left P [] ys h = elim h [ ]
  Any-append_left P (x ∷ xs) ys (inl p) = inl p
  Any-append_left P (x ∷ xs) ys (inr p) = inr (Any-append_left P xs ys p)

  pub Any-append_right : (P : A → Type 0) (xs ys : List A) → Any P ys → Any P (xs ++ ys)
  Any-append_right P [] ys p = p
  Any-append_right P (x ∷ xs) ys p = inr (Any-append_right P xs ys p)

  pub Any-append_cases : (P : A → Type 0) (xs ys : List A) → Any P (xs ++ ys) → Any P xs ⊎ Any P ys
  Any-append_cases P [] ys p = inr p
  Any-append_cases P (x ∷ xs) ys (inl p) = inl (inl p)
  Any-append_cases P (x ∷ xs) ys (inr p) = ground (arith, Any-append_cases P xs ys p)

  pub All-append {κ} : (P : A → Type κ) (xs ys : List A) → All P xs → All P ys → All P (xs ++ ys)
  All-append P [] ys hx hy = hy
  All-append P (x ∷ xs) ys hx hy = (hx.0, All-append P xs ys hx.1 hy)

  pub All-mono {κ κ'} :
      {P : A → Type κ} {Q : A → Type κ'} (f : (x : A) → P x → Q x) (xs : List A)
      → All P xs
      → All Q xs
  All-mono f [] h = tt
  All-mono f (x ∷ xs) h = (f x h.0, All-mono f xs h.1)

  pub All-zip {κ κ'} :
      (P : A → Type κ) (Q : A → Type κ') (xs : List A)
      → All P xs
      → All Q xs
      → All (λ x. P x × Q x) xs
  All-zip P Q [] h k = tt
  All-zip P Q (x ∷ xs) h k = ((h.0, k.0), All-zip P Q xs h.1 k.1)

  -- An entry for which `Q` holds, in a list all of whose entries satisfy `P`.
  pub All-Any :
      (P Q R : A → Type 0)
      → ((x : A) → P x → Q x → R x)
      → (xs : List A) → All P xs
      → Any Q xs
      → Any R xs
  All-Any P Q R f [] h q = elim q [ ]
  All-Any P Q R f (x ∷ xs) h (inl q) = inl (f x h.0 q)
  All-Any P Q R f (x ∷ xs) h (inr q) = inr (All-Any P Q R f xs h.1 q)

  pub Any-none : (xs : List A) → Any (λ _. ⊥) xs → ⊥
  Any-none [] h = h
  Any-none (x ∷ xs) (inl h) = h
  Any-none (x ∷ xs) (inr h) = Any-none xs h

  pub Any-mono : (P Q : A → Type 0) → ((x : A) → P x → Q x) → (xs : List A) → Any P xs → Any Q xs
  Any-mono P Q f [] q = elim q [ ]
  Any-mono P Q f (x ∷ xs) (inl q) = inl (f x q)
  Any-mono P Q f (x ∷ xs) (inr q) = inr (Any-mono P Q f xs q)

  pub Pairs-append :
      (R : A → A → Type 0) (xs ys : List A)
      → Pairs R xs
      → Pairs R ys
      → All (λ x. All (R x) ys) xs
      → Pairs R (xs ++ ys)
  Pairs-append R [] ys h k b = k
  Pairs-append R (x ∷ xs) ys h k b =
      (All-append (R x) xs ys h.0 b.0, Pairs-append R xs ys h.1 k b.1)

  -- A relation between the entries follows from one that holds for all of them and two others.
  pub Pairs-mono :
      (P : A → Type 0) (R S : A → A → Type 0)
      → ((x y : A) → P x → P y → R x y → S x y)
      → (xs : List A) → All P xs
      → Pairs R xs
      → Pairs S xs
  Pairs-mono P R S f [] h r = tt
  Pairs-mono P R S f (x ∷ xs) h r = (
    All-mono (λ y (k : P y × R x y). f x y h.0 k.0 k.1) xs (All-zip P (R x) xs h.1 r.0),
    Pairs-mono P R S f xs h.1 r.1,
  )

  pub Pairs-zip :
      (R S : A → A → Type 0) (xs : List A)
      → Pairs R xs
      → Pairs S xs
      → Pairs (λ x y. R x y × S x y) xs
  Pairs-zip R S [] h k = tt
  Pairs-zip R S (x ∷ xs) h k = (All-zip (R x) (S x) xs h.0 k.0, Pairs-zip R S xs h.1 k.1)

  abbrev pub get_elem? : List A → ℕ → Option A
  get_elem? [] i = none
  get_elem? (x ∷ xs) zero = some x
  get_elem? (x ∷ xs) (suc i) = get_elem? xs i

  pub Any-snoc : (P : A → Type 0) (xs : List A) (x : A) → Any P (xs ++ x ∷ []) ↔ (Any P xs ⊎ P x)
  Any-snoc P xs x = (
    (λ h. ground (arith, Any-append_cases P xs (x ∷ []) h)),
    (λ h. elim h [
      | inl old ↦ Any-append_left P xs (x ∷ []) old
      | inr new ↦ Any-append_right P xs (x ∷ []) (inl new)
    ]),
  )

  pub get_elem?-lt : (xs : List A) (i : ℕ) {x : A} → get_elem? xs i ≡ some x → suc i ≤ length xs
  get_elem?-lt [] i h = cc
  get_elem?-lt (y ∷ xs) zero h = omega arith
  get_elem?-lt (y ∷ xs) (suc i) h = omega (arith, get_elem?-lt xs i h)

  -- One entry or another, or the opposite of all.
  pub All-or-Any : (P Q : A → Type 0) → ((x : A) → P x ⊎ Q x) → (xs : List A) → All P xs ⊎ Any Q xs
  All-or-Any P Q f [] = inl tt
  All-or-Any P Q f (x ∷ xs) = ground (arith, f x, All-or-Any P Q f xs)
