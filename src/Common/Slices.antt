-- ===== src/Common/Slices.antt =====
-- `p[lo..hi]`, and how it reads a message that is put together from fields.
use Prim.Native.Nat.{ℕ, zero, suc, ◌+◌, ◌-◌, ◌≤◌}
use mathlib.Core.Path.{◌≡◌, refl, sym, ap, ◌∙◌}
use mathlib.Core.List.{List, [], ◌∷◌, ◌++◌}
use native.Mathlib.Omega.{arith}
use usb_over_tailscale.Common.Lists.{
  length, take, drop, take-append, drop-append, length-drop, take-append-drop,
}

module _ {ℓ} {A : Type ℓ} where
  -- Every use in the source stands behind a test of the length.
  abbrev pub slice : ℕ → ℕ → List A → List A
  slice lo hi xs = take (hi - lo) (drop lo xs)

  -- Skipping a field of `n` elements.
  pub drop-append_add :
      (xs ys : List A) (n k m : ℕ) → length xs ≡ n → m ≡ n + k → drop m (xs ++ ys) ≡ drop k ys
  drop-append_add [] ys n k m h e = let e' : m ≡ k = omega arith in rw e' refl
  drop-append_add (x ∷ xs) ys n k zero h e = absurd (omega arith)
  drop-append_add (x ∷ xs) ys n k (suc m) h e =
      drop-append_add xs ys (n - 1) k m (omega arith) (omega arith)

  -- The field of `n` elements at the offset `lo`.
  pub slice-field :
      (xs ys zs : List A) (lo hi : ℕ)
      → length xs ≡ lo
      → lo + length ys ≡ hi
      → slice lo hi (xs ++ (ys ++ zs)) ≡ ys
  slice-field xs ys zs lo hi h k =
      ap (take (hi - lo)) (drop-append lo xs (ys ++ zs) h)
      ∙ take-append (hi - lo) ys zs (omega arith)

  -- Reading inside a list that has been made longer.
  pub take-prefix : (n : ℕ) (xs ys : List A) → n ≤ length xs → take n (xs ++ ys) ≡ take n xs
  take-prefix zero xs ys h = refl
  take-prefix (suc n) [] ys h = absurd (omega arith)
  take-prefix (suc n) (x ∷ xs) ys h = ap (◌∷◌ x) (take-prefix n xs ys (omega arith))

  pub drop-prefix : (n : ℕ) (xs ys : List A) → n ≤ length xs → drop n (xs ++ ys) ≡ drop n xs ++ ys
  drop-prefix zero xs ys h = refl
  drop-prefix (suc n) [] ys h = absurd (omega arith)
  drop-prefix (suc n) (x ∷ xs) ys h = drop-prefix n xs ys (omega arith)

  pub slice-prefix :
      (lo hi : ℕ) (xs ys : List A)
      → lo ≤ hi
      → hi ≤ length xs
      → slice lo hi (xs ++ ys) ≡ slice lo hi xs
  slice-prefix lo hi xs ys h k =
      ap (take (hi - lo)) (drop-prefix lo xs ys (omega arith))
      ∙ take-prefix (hi - lo) (drop lo xs) ys (omega (arith, length-drop lo xs))

  -- A list with a known beginning of at most its length begins with it.
  pub begins :
      (xs ys fs rest : List A)
      → xs ++ ys ≡ fs ++ rest
      → length fs ≤ length xs
      → (zs : List A) × (xs ≡ fs ++ zs) × (zs ++ ys ≡ rest)
  begins xs ys fs rest e h = (
    drop (length fs) xs,
    sym (take-append-drop (length fs) xs)
        ∙ ap (λ zs. zs ++ drop (length fs) xs)
            (sym (take-prefix (length fs) xs ys h)
              ∙ (ap (take (length fs)) e ∙ take-append (length fs) fs rest refl)),
    sym (drop-prefix (length fs) xs ys h)
        ∙ (ap (drop (length fs)) e ∙ drop-append (length fs) fs rest refl),
  )
