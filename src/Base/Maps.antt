-- ===== src/Base/Maps.antt =====
-- `std::map<int, V>` as an association list in ascending order of its keys.
use Prim.Native.Nat.{ℕ, suc, ◌+◌, ◌≤◌}
use native.Mathlib.Omega.{arith}
use mathlib.Core.Path.{◌≡◌, refl, subst, sym, ap}
use mathlib.Core.Logic.{◌↔◌, ◌⊎◌, inl, inr}
use mqmgateway.Base.Lists.{All, Any, All-mono}
use mathlib.Core.Option.{Option, none, some}
use mathlib.Core.List.{List, [], ◌∷◌}
use mqmgateway.Base.Tests.{ltb, ◌==◌, if◌then◌else◌, Bool-cases, ==_iff}

module _ {ℓ} {V : Type ℓ} where
  -- `m[k]`, which adds the default value under a missing key, followed by a change of the entry.
  abbrev pub update : ℕ → V → (V → V) → List (ℕ × V) → List (ℕ × V)
  update k d f [] = (k, f d) ∷ []
  update k d f ((j, v) ∷ m) =
      if k == j
      then (j, f v) ∷ m
      else (if ltb k j then (k, f d) ∷ (j, v) ∷ m else (j, v) ∷ update k d f m)

  abbrev pub find : ℕ → List (ℕ × V) → Option V
  find k [] = none
  find k ((j, v) ∷ m) = if j == k then some v else find k m

  -- The keys ascend, and are above `n`.
  abbrev pub Ascends : ℕ → List (ℕ × V) → Type 0
  Ascends n [] = Unit
  Ascends n ((j, v) ∷ m) = (n ≤ j) × Ascends (suc j) m

  -- What an entry of the map has, after `update`: what one had before, and what `f` adds.
  pub update_iff :
      (U : ℕ × V → Type 0) (N : Type 0) (k : ℕ) (d : V) (f : V → V)
      → ((v : V) → U (k, f v) ↔ (U (k, v) ⊎ N))
      → ¬ U (k, d)
      → (m : List (ℕ × V)) → Any U (update k d f m) ↔ (Any U m ⊎ N)
  update_iff U N k d f step none_in [] =
      ((λ h. ground (arith, step d)), (λ h. ground (arith, step d)))
  update_iff U N k d f step none_in ((j, v) ∷ m) =
      let ih = update_iff U N k d f step none_in m in
      elim (Bool-cases (k == j)) [
        | inl e ↦
            let q = (==_iff k j).0 e in
            let here = subst (λ x. U (x, f v) ↔ (U (x, v) ⊎ N)) q (step v) in
            rw e ((λ h. ground (arith, here.0)), (λ h. ground (arith, here.1)))
        | inr e ↦ rw e ((λ h. ground (arith, step d, ih.0)), (λ h. ground (arith, step d, ih.1)))
      ]

  -- What holds of every entry before, and what follows from it of the entry that is changed and of
  -- the others.
  pub update-All_from :
      (Q R : ℕ × V → Type 0) (k : ℕ) (d : V) (f : V → V)
      → ((v : V) → Q (k, v) → R (k, f v))
      → R (k, f d)
      → ((e : ℕ × V) → Q e → R e)
      → (m : List (ℕ × V)) → All Q m
      → All R (update k d f m)
  update-All_from Q R k d f step start others [] h = (start, tt)
  update-All_from Q R k d f step start others ((j, v) ∷ m) h = elim (Bool-cases (k == j)) [
    | inl e ↦
        let q = (==_iff k j).0 e in
        rw e (
          subst (λ x. R (x, f v)) q (step v (subst (λ x. Q (x, v)) (sym q) h.0)),
          All-mono others m h.1,
        )
    | inr e ↦ rw e (elim (Bool-cases (ltb k j)) [
      | inl l ↦ rw l (start, (others (j, v) h.0, All-mono others m h.1))
      | inr l ↦ rw l (others (j, v) h.0, update-All_from Q R k d f step start others m h.1)
    ])
  ]

  pub update-All :
      (Q : ℕ × V → Type 0) (k : ℕ) (d : V) (f : V → V)
      → ((v : V) → Q (k, v) → Q (k, f v))
      → Q (k, d)
      → (m : List (ℕ × V)) → All Q m
      → All Q (update k d f m)
  update-All Q k d f step start = update-All_from Q Q k d f step (step d start) (λ e h. h)

  pub update-Ascends :
      (n k : ℕ) (d : V) (f : V → V) (m : List (ℕ × V))
      → n ≤ k
      → Ascends n m
      → Ascends n (update k d f m)
  update-Ascends n k d f [] h a = (h, tt)
  update-Ascends n k d f ((j, v) ∷ m) h a = ground (arith, update-Ascends (suc j) k d f m)

  pub Ascends-mono : (k n : ℕ) (m : List (ℕ × V)) → Ascends n m → k ≤ n → Ascends k m
  Ascends-mono k n [] a h = tt
  Ascends-mono k n ((j, v) ∷ m) a h = (omega (arith, a.0), a.1)

  pub find_below : (n s : ℕ) (m : List (ℕ × V)) → Ascends n m → suc s ≤ n → find s m ≡ none
  find_below n s [] a h = refl
  find_below n s ((j, v) ∷ m) a h = ground (arith, find_below (suc j) s m a.1)

  -- The value at a key, or the default.
  abbrev pub value_at : ℕ → V → List (ℕ × V) → V
  value_at k d m = elim (find k m) [ none ↦ d | some v ↦ v ]

  pub find-update :
      (n k s : ℕ) (d : V) (f : V → V) (m : List (ℕ × V))
      → Ascends n m
      → find s (update k d f m) ≡ (if k == s then some (f (value_at k d m)) else find s m)
  find-update n k s d f [] a = ground arith
  find-update n k s d f ((j, v) ∷ m) a =
      ground (arith, find-update (suc j) k s d f m a.1, find_below (suc j) k m a.1)

  -- The sum of a measure over the values.
  abbrev pub total : (V → ℕ) → List (ℕ × V) → ℕ
  total w [] = 0
  total w ((j, v) ∷ m) = w v + total w m

  pub total-update :
      (w : V → ℕ) (n k : ℕ) (d : V) (f : V → V) (m : List (ℕ × V))
      → Ascends n m
      → w d ≡ 0
      → total w (update k d f m) + w (value_at k d m) ≡ total w m + w (f (value_at k d m))
  total-update w n k d f [] a z = omega arith
  total-update w n k d f ((j, v) ∷ m) a z =
      ground (arith, total-update w (suc j) k d f m a.1, find_below (suc j) k m a.1)

  pub find-le-total :
      (w : V → ℕ) (k : ℕ) (m : List (ℕ × V)) {v : V} → find k m ≡ some v → w v ≤ total w m
  find-le-total w k [] e = cc
  find-le-total w k ((j, u) ∷ m) {v} e = elim (Bool-cases (j == k)) [
    | inl p ↦ let q : u ≡ v = ground arith in omega (arith, ap w q)
    | inr p ↦ omega (arith, find-le-total w k m {v = v} (ground arith))
  ]
