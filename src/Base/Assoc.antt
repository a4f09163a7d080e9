-- ===== src/Base/Assoc.antt =====
-- Accounts by key, as association lists, with the sum of a measure over all of them.
use Prim.Native.Nat.{ℕ, ◌+◌}
use mathlib.Core.Path.{◌≡◌, refl, subst}
use mathlib.Core.Logic.{inl, inr}
use mathlib.Core.Bool.{Bool, true, false}
use mathlib.Core.Option.{Option, none, some}
use mathlib.Core.List.{List, [], ◌∷◌}
use native.Mathlib.Omega.{arith}
use dlmm_auto_sell_assets_in.Base.Tests.{Bool-cases, ==→≡, ◌==◌, if◌then◌else◌}

abbrev pub Assoc : Type 0 → Type 0
Assoc V = List (ℕ × V)

module _ {V : Type 0} where
  abbrev pub lookup : ℕ → Assoc V → Option V
  lookup k [] = none
  lookup k ((j, v) ∷ m) = if k == j then some v else lookup k m

  abbrev pub is_vacant : ℕ → Assoc V → Bool
  is_vacant k m = elim (lookup k m) [ none ↦ true | some v ↦ false ]

  abbrev pub insert : ℕ → V → Assoc V → Assoc V
  insert k v [] = (k, v) ∷ []
  insert k v (e ∷ m) = if k == e.0 then (k, v) ∷ m else e ∷ insert k v m

  abbrev pub erase : ℕ → Assoc V → Assoc V
  erase k [] = []
  erase k (e ∷ m) = if k == e.0 then m else e ∷ erase k m

  abbrev pub sum_by : (V → ℕ) → Assoc V → ℕ
  sum_by f [] = 0
  sum_by f ((k, v) ∷ m) = f v + sum_by f m

  -- A property of every value.
  abbrev pub Each : (V → Type 0) → Assoc V → Type 0
  Each P [] = Unit
  Each P ((k, v) ∷ m) = P v × Each P m

  pub Each-lookup :
      (P : V → Type 0) (k : ℕ) (v : V) (m : Assoc V) → Each P m → lookup k m ≡ some v → P v
  Each-lookup P k v [] h e = ground arith
  Each-lookup P k v ((j, w) ∷ m) h e = elim (Bool-cases (k == j)) [
    | inl here ↦ (let q : w ≡ v = ground arith in subst P q h.0)
    | inr later ↦ Each-lookup P k v m h.1 (rw later at e)
  ]

  pub sum_by-insert :
      (f : V → ℕ) (k : ℕ) (old v : V) (m : Assoc V)
      → lookup k m ≡ some old
      → sum_by f (insert k v m) + f old ≡ sum_by f m + f v
  sum_by-insert f k old v [] e = ground arith
  sum_by-insert f k old v ((j, w) ∷ m) e = ground (arith, sum_by-insert f k old v m)

  pub sum_by-insert_new :
      (f : V → ℕ) (k : ℕ) (v : V) (m : Assoc V)
      → lookup k m ≡ none
      → sum_by f (insert k v m) ≡ sum_by f m + f v
  sum_by-insert_new f k v [] e = ground arith
  sum_by-insert_new f k v ((j, w) ∷ m) e = ground (arith, sum_by-insert_new f k v m)

  pub sum_by-erase :
      (f : V → ℕ) (k : ℕ) (old : V) (m : Assoc V)
      → lookup k m ≡ some old
      → sum_by f (erase k m) + f old ≡ sum_by f m
  sum_by-erase f k old [] e = ground arith
  sum_by-erase f k old ((j, w) ∷ m) e = ground (arith, sum_by-erase f k old m)

  pub Each-insert :
      (P : V → Type 0) (k : ℕ) (v : V) (m : Assoc V) → P v → Each P m → Each P (insert k v m)
  Each-insert P k v [] p h = (p, tt)
  Each-insert P k v ((j, w) ∷ m) p h = elim (Bool-cases (k == j)) [
    | inl here ↦ rw here (p, h.1)
    | inr later ↦ rw later (h.0, Each-insert P k v m p h.1)
  ]

  pub Each-erase : (P : V → Type 0) (k : ℕ) (m : Assoc V) → Each P m → Each P (erase k m)
  Each-erase P k [] h = tt
  Each-erase P k ((j, w) ∷ m) h = elim (Bool-cases (k == j)) [
    | inl here ↦ rw here h.1
    | inr later ↦ rw later (h.0, Each-erase P k m h.1)
  ]

  pub Each-map : (P Q : V → Type 0) (m : Assoc V) → ((v : V) → P v → Q v) → Each P m → Each Q m
  Each-map P Q [] f h = tt
  Each-map P Q ((j, w) ∷ m) f h = (f w h.0, Each-map P Q m f h.1)

  pub lookup-insert :
      (j k : ℕ) (v : V) (m : Assoc V)
      → lookup j (insert k v m) ≡ (if j == k then some v else lookup j m)
  lookup-insert j k v [] = refl
  lookup-insert j k v ((i, w) ∷ m) = elim (Bool-cases (k == i)) [
    | inl here ↦ let same : k ≡ i = ==→≡ k i here in rw here (ground arith)
    | inr later ↦ rw later (ground (arith, lookup-insert j k v m))
  ]
