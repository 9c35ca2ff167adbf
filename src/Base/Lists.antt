-- ===== src/Base/Lists.antt =====
-- Lists indexed by native numbers, and functions changed at a point.
use Prim.Native.Nat.{ℕ, zero, suc, ◌+◌}
use mathlib.Core.Path.{◌≡◌}
use mathlib.Core.Logic.{◌≢◌}
use mathlib.Core.List.{List, [], ◌∷◌, ◌++◌}
use native.Mathlib.Omega.{arith}
use Prim.Native.Char.{code}
use Prim.Native.String.{String}
use qrisc_v.Base.Test.{◌==◌, if◌then◌else◌, ==_refl, ==_ne}

module _ {ℓ} {A : Type ℓ} where
  abbrev pub length : List A → ℕ
  length [] = 0
  length (x ∷ xs) = suc (length xs)

  pub length-append : (xs ys : List A) → length (xs ++ ys) ≡ length xs + length ys
  length-append [] ys = omega arith
  length-append (x ∷ xs) ys = omega (arith, length-append xs ys)

  abbrev pub get_or : List A → ℕ → A → A
  get_or [] i d = d
  get_or (x ∷ xs) zero d = x
  get_or (x ∷ xs) (suc i) d = get_or xs i d

  -- `f` with the value at `k` replaced.
  abbrev pub update : (ℕ → A) → ℕ → A → ℕ → A
  update f k v j = if j == k then v else f j

  pub update_self : (f : ℕ → A) (k : ℕ) (v : A) → update f k v k ≡ v
  update_self f k v = rw (==_refl k)

  pub update_ne : (f : ℕ → A) (k j : ℕ) (v : A) → j ≢ k → update f k v j ≡ f j
  update_ne f k j v ne = rw (==_ne j k ne)

-- Every member of a list has a property.
abbrev pub All {ℓ κ} : {A : Type ℓ} → (A → Type κ) → List A → Type κ
All P [] = Unit
All P (x ∷ xs) = P x × All P xs

pub All-append {ℓ κ} :
    {A : Type ℓ} (P : A → Type κ) (xs ys : List A) → All P xs → All P ys → All P (xs ++ ys)
All-append P [] ys p q = q
All-append P (x ∷ xs) ys p q = (p.0, All-append P xs ys p.1 q)

-- The character codes of a text.
abbrev pub codes : String → List ℕ
codes String.[] = []
codes (String.◌∷◌ c s) = code c ∷ codes s
