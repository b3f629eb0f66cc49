-- ===== src/Prelude/Slices.antt =====
-- The entries of an array as a list.
use Prim.Native.Nat.{ℕ, zero, suc, ◌+◌, ◌≤◌, ◌<◌}
use mathlib.Core.Path.{◌≡◌, refl, ap, ap₂, ◌∙◌}
use mathlib.Core.List.{List, [], ◌∷◌, ◌++◌}
use native.Mathlib.Omega.{arith}
use cortex_m3_rtos.Prelude.Tests.{ltb, if◌then◌else◌}

module _ {ℓ} {A : Type ℓ} where
  -- The entries `f i`, `f (i + 1)`, …, `n` of them.
  abbrev pub slice : (ℕ → A) → ℕ → ℕ → List A
  slice f i zero = []
  slice f i (suc n) = f i ∷ slice f (suc i) n

  abbrev pub remove_at : ℕ → List A → List A
  remove_at p [] = []
  remove_at zero (x ∷ xs) = xs
  remove_at (suc p) (x ∷ xs) = x ∷ remove_at p xs

  pub slice-ext :
      (f g : ℕ → A) (i n : ℕ)
      → ((k : ℕ) → i ≤ k → k < i + n → f k ≡ g k)
      → slice f i n ≡ slice g i n
  slice-ext f g i zero h = refl
  slice-ext f g i (suc n) h =
      ap₂ ◌∷◌ (h i (omega arith) (omega arith))
        (slice-ext f g (suc i) n (λ k p q. h k (omega arith) (omega arith)))

  -- The last entry apart.
  pub slice-suc : (f : ℕ → A) (i n : ℕ) → slice f i (suc n) ≡ slice f i n ++ (f (i + n) ∷ [])
  slice-suc f i zero = ap (λ k. f k ∷ []) (omega arith)
  slice-suc f i (suc n) =
      ap (◌∷◌ (f i))
        (slice-suc f (suc i) n ∙ ap (λ k. slice f (suc i) n ++ (f k ∷ [])) (omega arith))

  pub slice-shift : (f : ℕ → A) (i n : ℕ) → slice (λ k. f (k + 1)) i n ≡ slice f (suc i) n
  slice-shift f i zero = refl
  slice-shift f i (suc n) = ap₂ ◌∷◌ (ap f (omega arith)) (slice-shift f (suc i) n)

  -- Skipping index `m` takes the entry of that index out.
  pub slice-skip :
      (f : ℕ → A) (i p n m : ℕ)
      → p ≤ n
      → m ≡ i + p
      → slice (λ k. if ltb k m then f k else f (k + 1)) i n ≡ remove_at p (slice f i (suc n))
  slice-skip f i zero n m h e =
      slice-ext _ (λ k. f (k + 1)) i n (λ k p q. ground arith) ∙ slice-shift f i n
  slice-skip f i (suc p) zero m h e = absurd (omega arith)
  slice-skip f i (suc p) (suc n) m h e =
      ap₂ ◌∷◌ (ground arith) (slice-skip f (suc i) p n m (omega arith) (omega arith))
