-- ===== src/Common/Keys.antt =====
-- Lists of entries with a number for a key: search, removal and replacement by key.
use Prim.Native.Nat.{ℕ}
use mathlib.Core.Path.{◌≡◌, refl}
use mathlib.Core.Logic.{inl, inr}
use mathlib.Core.Bool.{Bool, true, false, not}
use mathlib.Core.List.{List, [], ◌∷◌, ◌++◌}
use native.Mathlib.Omega.{arith}
use rmw_cyclonedds_c.Common.Tests.{ltb, ◌==◌, if◌then◌else◌, Bool-cases}
use rmw_cyclonedds_c.Common.Lists.{length, set, filter, find_index, erase_at, any, All}

module _ {ℓ} {A : Type ℓ} where
  -- The index found is inside the list exactly if some entry passes.
  pub ltb-find_index : (p : A → Bool) (xs : List A) → ltb (find_index p xs) (length xs) ≡ any p xs
  ltb-find_index p [] = refl
  ltb-find_index p (x ∷ xs) = ground (arith, ltb-find_index p xs)

  pub any-append :
      (p : A → Bool) (xs ys : List A) → any p (xs ++ ys) ≡ (if any p xs then true else any p ys)
  any-append p [] ys = refl
  any-append p (x ∷ xs) ys = ground (arith, any-append p xs ys)

  any-filter : (p q : A → Bool) (xs : List A) → any p xs ≡ false → any p (filter q xs) ≡ false
  any-filter p q [] h = refl
  any-filter p q (x ∷ xs) h = ground (arith, any-filter p q xs)

module _ {ℓ} {A : Type ℓ} (key : A → ℕ) where
  -- Some entry has the key `k`.
  abbrev pub has_key : ℕ → List A → Bool
  has_key k = any (λ x. key x == k)

  -- The entries that have another key.
  abbrev pub without : ℕ → List A → List A
  without k = filter (λ x. not (key x == k))

  abbrev pub index_of : ℕ → List A → ℕ
  index_of k = find_index (λ x. key x == k)

  -- No key stands twice.
  abbrev pub Distinct : List A → Type 0
  Distinct [] = Unit
  Distinct (x ∷ xs) = (has_key (key x) xs ≡ false) × Distinct xs

  -- The entry with the key of `e` is replaced by `e`, which otherwise goes to the end.
  abbrev pub put : A → List A → List A
  put e [] = e ∷ []
  put e (x ∷ xs) = if key x == key e then e ∷ xs else x ∷ put e xs

  pub without_absent : (k : ℕ) (xs : List A) → has_key k xs ≡ false → without k xs ≡ xs
  without_absent k [] h = refl
  without_absent k (x ∷ xs) h = ground (arith, without_absent k xs)

  pub has_key-without : (k : ℕ) (xs : List A) → has_key k (without k xs) ≡ false
  has_key-without k [] = refl
  has_key-without k (x ∷ xs) = ground (arith, has_key-without k xs)

  pub has_key-without_ne :
      (j k : ℕ) (xs : List A) → (j == k) ≡ false → has_key j (without k xs) ≡ has_key j xs
  has_key-without_ne j k [] h = refl
  has_key-without_ne j k (x ∷ xs) h = ground (arith, has_key-without_ne j k xs)

  -- Where no key stands twice, to erase the first entry with a key is to erase all of them.
  pub erase_at-index_of :
      (k : ℕ) (xs : List A) → Distinct xs → erase_at (index_of k xs) xs ≡ without k xs
  erase_at-index_of k [] d = refl
  erase_at-index_of k (x ∷ xs) d = ground (arith, erase_at-index_of k xs d.1, without_absent k xs)

  pub filter-Distinct : (p : A → Bool) (xs : List A) → Distinct xs → Distinct (filter p xs)
  filter-Distinct p [] d = tt
  filter-Distinct p (x ∷ xs) d =
      ground (arith, filter-Distinct p xs d.1, any-filter (λ y. key y == key x) p xs d.0)

  has_key-put_ne :
      (k : ℕ) (e : A) (xs : List A) → (key e == k) ≡ false → has_key k (put e xs) ≡ has_key k xs
  has_key-put_ne k e [] h = ground arith
  has_key-put_ne k e (x ∷ xs) h = ground (arith, has_key-put_ne k e xs h)

  pub put-Distinct : (e : A) (xs : List A) → Distinct xs → Distinct (put e xs)
  put-Distinct e [] d = (refl, tt)
  put-Distinct e (x ∷ xs) d = ground (arith, put-Distinct e xs d.1, has_key-put_ne (key x) e xs)

  pub put_absent : (e : A) (xs : List A) → has_key (key e) xs ≡ false → put e xs ≡ xs ++ (e ∷ [])
  put_absent e [] h = refl
  put_absent e (x ∷ xs) h = ground (arith, put_absent e xs)

  pub put_present :
      (e : A) (xs : List A) → has_key (key e) xs ≡ true → put e xs ≡ set xs (index_of (key e) xs) e
  put_present e [] h = ground arith
  put_present e (x ∷ xs) h = ground (arith, put_present e xs)

  pub All-put {κ} : (P : A → Type κ) (e : A) (xs : List A) → P e → All P xs → All P (put e xs)
  All-put P e [] p h = (p, h)
  All-put P e (x ∷ xs) p h = elim (Bool-cases (key x == key e)) [
    | inl t ↦ rw t (p, h.1)
    | inr t ↦ rw t (h.0, All-put P e xs p h.1)
  ]
