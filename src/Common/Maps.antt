-- ===== src/Common/Maps.antt =====
-- HashMap as an association list, and as a function where nothing goes through its entries.
use usb_over_tailscale.Common.{
  ℕ, List, [], ◌∷◌, Option, none, some, Bool, true, false, ◌==◌, ==_iff, bytes_eq, bytes_eq→eq,
  bytes_eq_refl, if◌then◌else◌, ◌≡◌, refl, ◌↔◌, ◌∙◌, sym, inl, inr, ◌⊎◌, arith, Bool-cases,
}

pub record Key (K : Type 0) : Type 0 where
  pub beq : K → K → Bool
  pub beq_iff : (a b : K) → (beq a b ≡ true) ↔ (a ≡ b)

pub bytes_eq_iff : (a b : List ℕ) → (bytes_eq a b ≡ true) ↔ (a ≡ b)
bytes_eq_iff a b = (bytes_eq→eq a b, λ e. rw e (bytes_eq_refl b))

instance abbrev pub number_key : Key ℕ
number_key = record { beq = ◌==◌; beq_iff = ==_iff }

instance abbrev pub bytes_key : Key (List ℕ)
bytes_key = record { beq = bytes_eq; beq_iff = bytes_eq_iff }

module _ {K : Type 0} ⦃e : Key K⦄ where
  pub beq_refl : (k : K) → e.beq k k ≡ true
  beq_refl k = (e.beq_iff k k).1 refl

  beq_congr : (i j k : K) → e.beq i j ≡ true → e.beq i k ≡ e.beq j k
  beq_congr i j k h = rw ((e.beq_iff i j).0 h) refl

  -- What is one key and not another, the two are not one.
  beq_apart : (i j k : K) → e.beq i k ≡ false → e.beq i j ≡ true → e.beq k j ≡ false
  beq_apart i j k h g = elim (Bool-cases (e.beq k j)) [
    | inl q ↦ cc (h, (e.beq_iff i k).1 ((e.beq_iff i j).0 g ∙ sym ((e.beq_iff k j).0 q)))
    | inr q ↦ q
  ]

module _ {K : Type 0} {V : Type 0} ⦃e : Key K⦄ where
  unfoldable pub lookup : K → List (K × V) → Option V
  lookup k [] = none
  lookup k ((j, v) ∷ m) = if e.beq j k then some v else lookup k m

  unfoldable pub insert : K → V → List (K × V) → List (K × V)
  insert k v [] = (k, v) ∷ []
  insert k v ((j, w) ∷ m) = if e.beq j k then (k, v) ∷ m else (j, w) ∷ insert k v m

  unfoldable pub remove : K → List (K × V) → List (K × V)
  remove k [] = []
  remove k ((j, w) ∷ m) = let rest = remove k m in if e.beq j k then rest else (j, w) ∷ rest

  -- `entry(k).or_default()`, `contains_key`
  abbrev pub has_key : K → List (K × V) → Bool
  has_key k m = elim (lookup k m) [ none ↦ false | some _ ↦ true ]

  pub lookup-insert :
      (k j : K) (v : V) (m : List (K × V))
      → lookup j (insert k v m) ≡ (if e.beq k j then some v else lookup j m)
  unfolding lookup insert
  lookup-insert k j v [] = refl
  lookup-insert k j v ((i, w) ∷ m) = elim (Bool-cases (e.beq i k)) [
    | inl same ↦ rw (same, beq_congr i k j same) (ground arith)
    | inr other ↦ rw other (elim (Bool-cases (e.beq i j)) [
      | inl h ↦ rw (h, beq_apart i j k other h)
      | inr h ↦ rw h (lookup-insert k j v m)
    ])
  ]

  pub lookup-insert_self : (k : K) (v : V) (m : List (K × V)) → lookup k (insert k v m) ≡ some v
  lookup-insert_self k v m = rw (lookup-insert k k v m, beq_refl k)

  pub lookup-remove :
      (k j : K) (m : List (K × V))
      → lookup j (remove k m) ≡ (if e.beq k j then none else lookup j m)
  unfolding lookup remove
  lookup-remove k j [] = ground arith
  lookup-remove k j ((i, w) ∷ m) = elim (Bool-cases (e.beq i k)) [
    | inl same ↦ rw (same, beq_congr i k j same) (ground (arith, lookup-remove k j m))
    | inr other ↦ rw other (elim (Bool-cases (e.beq i j)) [
      | inl h ↦ rw (h, beq_apart i j k other h)
      | inr h ↦ rw h (lookup-remove k j m)
    ])
  ]

-- The keys in the order of the entries, `keys()`.
abbrev pub keys : {K V : Type 0} → List (K × V) → List K
keys [] = []
keys ((k, v) ∷ m) = k ∷ keys m

-- A map that is only asked by its keys.
module _ {K : Type 0} {V : Type 0} ⦃e : Key K⦄ where
  abbrev pub put : K → V → (K → Option V) → K → Option V
  put k v m j = if e.beq k j then some v else m j

  abbrev pub erase : K → (K → Option V) → K → Option V
  erase k m j = if e.beq k j then none else m j

  abbrev pub retained : (K → V → Bool) → (K → Option V) → K → Option V
  retained f m j = elim (m j) [ none ↦ none | some v ↦ if f j v then some v else none ]

-- Where an entry comes from.
module _ {K : Type 0} {V : Type 0} ⦃e : Key K⦄ where
  pub put-some :
      (k : K) (v : V) (m : K → Option V) (j : K) {w : V}
      → put k v m j ≡ some w
      → ((k ≡ j) × (v ≡ w)) ⊎ ((e.beq k j ≡ false) × (m j ≡ some w))
  put-some k v m j h = elim (Bool-cases (e.beq k j)) [
    | inl same ↦ inl ((e.beq_iff k j).0 same, cc (rw same at h))
    | inr other ↦ inr (other, rw other at h)
  ]

  pub erase-some :
      (k : K) (m : K → Option V) (j : K) {w : V}
      → erase k m j ≡ some w
      → (e.beq k j ≡ false) × (m j ≡ some w)
  erase-some k m j h = elim (Bool-cases (e.beq k j)) [
    | inl same ↦ cc (rw same at h)
    | inr other ↦ (other, rw other at h)
  ]

  pub retained-some :
      (f : K → V → Bool) (m : K → Option V) (j : K) {w : V}
      → retained f m j ≡ some w
      → (f j w ≡ true) × (m j ≡ some w)
  retained-some f m j h = ground arith
