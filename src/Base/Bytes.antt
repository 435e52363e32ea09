-- ===== src/Base/Bytes.antt =====
-- Byte slices as lists of numbers: `take` and `skip` for sub-slices, and the two integer layouts of
-- the code, `u32::to_le_bytes` and `u16::to_be_bytes`.
use Prim.Native.Nat.{ℕ, zero, suc, ◌+◌, ◌*◌, ◌/◌, ◌%◌, ◌^◌, ◌≤◌, ◌<◌}
use mathlib.Core.Path.{◌≡◌, refl, ap}
use mathlib.Core.List.{List, [], ◌∷◌, ◌++◌}
use native.Mathlib.Omega.{arith}
use agent_scale.Base.Lists.{length}

abbrev pub IsByte : ℕ → Type 0
IsByte b = b < 256

module _ {ℓ} {A : Type ℓ} where
  unfoldable pub take : ℕ → List A → List A
  take zero xs = []
  take (suc n) [] = []
  take (suc n) (x ∷ xs) = x ∷ take n xs

  unfoldable pub skip : ℕ → List A → List A
  skip zero xs = xs
  skip (suc n) [] = []
  skip (suc n) (x ∷ xs) = skip n xs

  pub length-append : (xs ys : List A) → length (xs ++ ys) ≡ length xs + length ys
  unfolding length
  length-append [] ys = omega arith
  length-append (x ∷ xs) ys = omega (arith, length-append xs ys)

  pub append_assoc : (xs ys zs : List A) → ((xs ++ ys) ++ zs) ≡ (xs ++ (ys ++ zs))
  append_assoc [] ys zs = refl
  append_assoc (x ∷ xs) ys zs = ap (λ l. x ∷ l) (append_assoc xs ys zs)

  pub append_nil : (xs : List A) → (xs ++ []) ≡ xs
  append_nil [] = refl
  append_nil (x ∷ xs) = ap (λ l. x ∷ l) (append_nil xs)

  pub take-append : (xs ys : List A) → take (length xs) (xs ++ ys) ≡ xs
  unfolding take length
  take-append [] ys = refl
  take-append (x ∷ xs) ys = ap (λ l. x ∷ l) (take-append xs ys)

  pub skip-append : (xs ys : List A) → skip (length xs) (xs ++ ys) ≡ ys
  unfolding skip length
  skip-append [] ys = refl
  skip-append (x ∷ xs) ys = skip-append xs ys

  pub append-take-skip : (n : ℕ) (xs : List A) → (take n xs ++ skip n xs) ≡ xs
  unfolding take skip
  append-take-skip zero xs = refl
  append-take-skip (suc n) [] = refl
  append-take-skip (suc n) (x ∷ xs) = ap (λ l. x ∷ l) (append-take-skip n xs)

  pub length-take : (n : ℕ) (xs : List A) → n ≤ length xs → length (take n xs) ≡ n
  unfolding take length
  length-take zero xs h = refl
  length-take (suc n) [] h = absurd (omega arith)
  length-take (suc n) (x ∷ xs) h = omega (arith, length-take n xs)

-- `u32::to_le_bytes`, by position.
abbrev pub le_byte_0 : ℕ → ℕ
le_byte_0 n = n % 256

abbrev pub le_byte_1 : ℕ → ℕ
le_byte_1 n = n / 256 % 256

abbrev pub le_byte_2 : ℕ → ℕ
le_byte_2 n = n / 65536 % 256

abbrev pub le_byte_3 : ℕ → ℕ
le_byte_3 n = n / 16777216 % 256

-- `u32::from_le_bytes`.
abbrev pub from_le_bytes : ℕ → ℕ → ℕ → ℕ → ℕ
from_le_bytes a b c d = a + 256 * b + 65536 * c + 16777216 * d

-- `u16::to_be_bytes` and back.
abbrev pub be_high : ℕ → ℕ
be_high n = n / 256

abbrev pub be_low : ℕ → ℕ
be_low n = n % 256

abbrev pub from_be_bytes : ℕ → ℕ → ℕ
from_be_bytes a b = 256 * a + b

pub from_le_bytes-le_bytes :
    (n : ℕ) → n < 2 ^ 32 → from_le_bytes (le_byte_0 n) (le_byte_1 n) (le_byte_2 n) (le_byte_3 n) ≡ n
from_le_bytes-le_bytes n h = omega arith

pub le_bytes-from_le_bytes :
    (a b c d : ℕ)
    → IsByte a
    → IsByte b
    → IsByte c
    → IsByte d
    → (le_byte_0 (from_le_bytes a b c d) ≡ a)
      × (le_byte_1 (from_le_bytes a b c d) ≡ b)
      × (le_byte_2 (from_le_bytes a b c d) ≡ c)
      × (le_byte_3 (from_le_bytes a b c d) ≡ d)
le_bytes-from_le_bytes a b c d ha hb hc hd = (omega arith, omega arith, omega arith, omega arith)

pub from_be_bytes-be_bytes : (n : ℕ) → from_be_bytes (be_high n) (be_low n) ≡ n
from_be_bytes-be_bytes n = omega arith

pub be_bytes-from_be_bytes :
    (a b : ℕ) → IsByte b → (be_high (from_be_bytes a b) ≡ a) × (be_low (from_be_bytes a b) ≡ b)
be_bytes-from_be_bytes a b h = (omega arith, omega arith)
