-- ===== src/Base/Bytes.antt =====
-- Byte strings as lists of numbers below 256: slices, overwriting, and little-endian words.
use Prim.Native.Nat.{ℕ, zero, suc, ◌+◌, ◌*◌, ◌/◌, ◌%◌, ◌^◌, ◌<◌}
use mathlib.Core.Path.{◌≡◌, refl, ap, sym, ◌∙◌}
use mathlib.Core.Bool.{Bool, true, false, ◌&&◌}
use mathlib.Core.Option.{some}
use mathlib.Core.List.{List, [], ◌∷◌, ◌++◌, append_assoc}
use native.Mathlib.Nat.{pow-suc}
use native.Mathlib.Omega.{arith}
use dlmm_auto_sell_assets_in.Base.Tests.{◌==◌}
use dlmm_auto_sell_assets_in.Base.Lists.{length, get_elem?, set}

module _ {ℓ} {A : Type ℓ} where
  abbrev pub take : ℕ → List A → List A
  take zero xs = []
  take (suc n) [] = []
  take (suc n) (x ∷ xs) = x ∷ take n xs

  abbrev pub drop : ℕ → List A → List A
  drop zero xs = xs
  drop (suc n) [] = []
  drop (suc n) (x ∷ xs) = drop n xs

  -- `copy_from_slice` on the range that begins at `offset` and is as long as `bytes`.
  abbrev pub splice : ℕ → List A → List A → List A
  splice offset bytes xs = take offset xs ++ (bytes ++ drop (length bytes) (drop offset xs))

  pub length-append : (xs ys : List A) → length (xs ++ ys) ≡ length xs + length ys
  length-append [] ys = omega arith
  length-append (x ∷ xs) ys = omega (arith, length-append xs ys)

  pub take-append : (n : ℕ) (xs ys : List A) → length xs ≡ n → take n (xs ++ ys) ≡ xs
  take-append zero [] ys h = refl
  take-append zero (x ∷ xs) ys h = absurd (omega arith)
  take-append (suc n) [] ys h = absurd (omega arith)
  take-append (suc n) (x ∷ xs) ys h = ap (λ t. x ∷ t) (take-append n xs ys (omega arith))

  pub drop-append : (n : ℕ) (xs ys : List A) → length xs ≡ n → drop n (xs ++ ys) ≡ ys
  drop-append zero [] ys h = refl
  drop-append zero (x ∷ xs) ys h = absurd (omega arith)
  drop-append (suc n) [] ys h = absurd (omega arith)
  drop-append (suc n) (x ∷ xs) ys h = drop-append n xs ys (omega arith)

  -- Overwriting a part of a concatenation.
  pub splice-append :
      (n : ℕ) (xs old new ys : List A)
      → length xs ≡ n
      → length old ≡ length new
      → splice n new (xs ++ (old ++ ys)) ≡ xs ++ (new ++ ys)
  splice-append n xs old new ys h k =
      rw
        (
          take-append n xs (old ++ ys) h,
          drop-append n xs (old ++ ys) h,
          drop-append (length new) old ys k,
        )
        refl

  pub get_elem?-append :
      (n : ℕ) (xs ys : List A) (y : A) → length xs ≡ n → get_elem? (xs ++ (y ∷ ys)) n ≡ some y
  get_elem?-append zero [] ys y h = refl
  get_elem?-append zero (x ∷ xs) ys y h = absurd (omega arith)
  get_elem?-append (suc n) [] ys y h = absurd (omega arith)
  get_elem?-append (suc n) (x ∷ xs) ys y h = get_elem?-append n xs ys y (omega arith)

  pub set-append :
      (n : ℕ) (xs ys : List A) (y v : A) → length xs ≡ n → set (xs ++ (y ∷ ys)) n v ≡ xs ++ (v ∷ ys)
  set-append zero [] ys y v h = refl
  set-append zero (x ∷ xs) ys y v h = absurd (omega arith)
  set-append (suc n) [] ys y v h = absurd (omega arith)
  set-append (suc n) (x ∷ xs) ys y v h = ap (λ t. x ∷ t) (set-append n xs ys y v (omega arith))

  pub get_elem?-lt : (xs : List A) (i : ℕ) → i < length xs → (a : A) × (get_elem? xs i ≡ some a)
  get_elem?-lt [] i h = absurd (omega arith)
  get_elem?-lt (x ∷ xs) zero h = (x, refl)
  get_elem?-lt (x ∷ xs) (suc i) h = get_elem?-lt xs i (omega arith)

  pub get_elem?-set :
      (xs : List A) (i : ℕ) (v : A) → i < length xs → get_elem? (set xs i v) i ≡ some v
  get_elem?-set [] i v h = absurd (omega arith)
  get_elem?-set (x ∷ xs) zero v h = refl
  get_elem?-set (x ∷ xs) (suc i) v h = get_elem?-set xs i v (omega arith)

  -- What stands before the range stays.
  pub get_elem?-splice :
      (offset i : ℕ) (bytes xs : List A)
      → i < offset
      → i < length xs
      → get_elem? (splice offset bytes xs) i ≡ get_elem? xs i
  get_elem?-splice zero i bytes xs h k = absurd (omega arith)
  get_elem?-splice (suc offset) i bytes [] h k = absurd (omega arith)
  get_elem?-splice (suc offset) zero bytes (x ∷ xs) h k = refl
  get_elem?-splice (suc offset) (suc i) bytes (x ∷ xs) h k =
      get_elem?-splice offset i bytes xs (omega arith) (omega arith)

-- `n.to_le_bytes()`, for a word of so many bytes.
abbrev pub le_bytes : ℕ → ℕ → List ℕ
le_bytes zero n = []
le_bytes (suc count) n = n % 256 ∷ le_bytes count (n / 256)

abbrev pub from_le_bytes : List ℕ → ℕ
from_le_bytes [] = 0
from_le_bytes (b ∷ bytes) = b + 256 * from_le_bytes bytes

pub length-le_bytes : (count n : ℕ) → length (le_bytes count n) ≡ count
length-le_bytes zero n = refl
length-le_bytes (suc count) n = ap suc (length-le_bytes count (n / 256))

pub from_le_bytes-le_bytes : (count n : ℕ) → n < 256 ^ count → from_le_bytes (le_bytes count n) ≡ n
from_le_bytes-le_bytes zero n h = omega arith
from_le_bytes-le_bytes (suc count) n h =
    let quotient : n / 256 < 256 ^ count = omega (arith, pow-suc 256 count) in
    omega (arith, from_le_bytes-le_bytes count (n / 256) quotient)

-- `==` on byte slices.
abbrev pub eq_bytes : List ℕ → List ℕ → Bool
eq_bytes [] [] = true
eq_bytes [] (c ∷ cs) = false
eq_bytes (b ∷ bs) [] = false
eq_bytes (b ∷ bs) (c ∷ cs) = b == c && eq_bytes bs cs

pub eq_bytes_refl : (bs : List ℕ) → eq_bytes bs bs ≡ true
eq_bytes_refl [] = refl
eq_bytes_refl (b ∷ bs) = ground (arith, eq_bytes_refl bs)

-- One element overwritten, and a range some way behind it.
pub splice-set {ℓ} :
    {A : Type ℓ} (n m : ℕ) (xs between old new ys : List A) (y v : A)
    → length xs ≡ n
    → length xs + length (v ∷ between) ≡ m
    → length old ≡ length new
    → splice m new (set (xs ++ (y ∷ (between ++ (old ++ ys)))) n v)
      ≡ xs ++ (v ∷ (between ++ (new ++ ys)))
splice-set n m xs between old new ys y v h k l =
    ap (splice m new) (
      set-append n xs (between ++ (old ++ ys)) y v h
      ∙ sym (append_assoc xs (v ∷ between) (old ++ ys)))
    ∙ splice-append m (xs ++ (v ∷ between)) old new ys (length-append xs (v ∷ between) ∙ k) l
    ∙ append_assoc xs (v ∷ between) (new ++ ys)
