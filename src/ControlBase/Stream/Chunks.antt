-- ===== src/ControlBase/Stream/Chunks.antt =====
-- The chunks that `write` of crates/tsnode/src/controlbase.rs cuts a buffer into.
use usb_over_tailscale.Common.{
  ℕ, zero, suc, ◌+◌, ◌≤◌, ◌≡◌, refl, ap, ◌∙◌, List, ◌∷◌, [], ◌++◌, All, length, take, drop,
  length-take, length-drop, take-append-drop, arith,
}
use usb_over_tailscale.Crypto.{concat}
use usb_over_tailscale.ControlBase.{max_plaintext}
use usb_over_tailscale.ControlBase.Records.{chunks_on}

-- A chunk that `write` makes.
abbrev pub IsChunk : List ℕ → Type 0
IsChunk chunk = (1 ≤ length chunk) × (length chunk ≤ max_plaintext)

pub chunks_on-IsChunk : (fuel : ℕ) (buf : List ℕ) → All IsChunk (chunks_on fuel max_plaintext buf)
chunks_on-IsChunk zero buf = tt
chunks_on-IsChunk (suc fuel) [] = tt
chunks_on-IsChunk (suc fuel) (b ∷ bs) = (
  (
    omega (arith, length-take max_plaintext (b ∷ bs)),
    omega (arith, length-take max_plaintext (b ∷ bs)),
  ),
  chunks_on-IsChunk fuel (drop max_plaintext (b ∷ bs)),
)

-- The chunks make up the buffer, so the fuel is enough.
pub concat-chunks_on :
    (fuel : ℕ) (buf : List ℕ) → length buf ≤ fuel → concat (chunks_on fuel max_plaintext buf) ≡ buf
concat-chunks_on zero [] h = refl
concat-chunks_on zero (b ∷ bs) h = absurd (omega arith)
concat-chunks_on (suc fuel) [] h = refl
concat-chunks_on (suc fuel) (b ∷ bs) h =
    ap (λ xs. take max_plaintext (b ∷ bs) ++ xs)
      (concat-chunks_on fuel (drop max_plaintext (b ∷ bs))
        (omega (arith, length-drop max_plaintext (b ∷ bs))))
    ∙ take-append-drop max_plaintext (b ∷ bs)

pub drop-drop : (a b m : ℕ) (xs : List ℕ) → m ≡ a + b → drop m xs ≡ drop b (drop a xs)
drop-drop zero b m xs e = ap (λ n. drop n xs) (omega arith)
drop-drop (suc a) b zero xs e = absurd (omega arith)
drop-drop (suc a) zero (suc m) [] e = refl
drop-drop (suc a) (suc b) (suc m) [] e = refl
drop-drop (suc a) b (suc m) (x ∷ xs) e = drop-drop a b m xs (omega arith)

pub drop-past : (n : ℕ) (xs : List ℕ) → length xs ≤ n → drop n xs ≡ []
drop-past zero [] h = refl
drop-past zero (x ∷ xs) h = absurd (omega arith)
drop-past (suc n) [] h = refl
drop-past (suc n) (x ∷ xs) h = drop-past n xs (omega arith)
