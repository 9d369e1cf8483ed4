-- ===== src/Table.antt =====
-- SQL tables as lists of rows: the WHERE clauses of the statements that the code runs.
pub mod Order
pub mod Mapped
pub mod Single
use mathlib.Core.Option
use social.Prelude.{
  not, ℕ, zero, suc, ◌+◌, ◌≤◌, ◌≡◌, refl, Bool, true, false, Option, none, some, List, [], ◌∷◌,
  ◌++◌, arith, if◌then◌else◌, length, All, Mem, ◌↔◌, here, there, mem-cons, ap, Bool-cases, inl,
  inr,
}

module _ {ℓ} {A : Type ℓ} where
  -- SELECT … WHERE test
  unfoldable pub select : (A → Bool) → List A → List A
  select test [] = []
  select test (x ∷ xs) = let rest = select test xs in if test x then x ∷ rest else rest

  -- SELECT … WHERE test, the first row
  unfoldable pub find? : (A → Bool) → List A → Option A
  find? test [] = none
  find? test (x ∷ xs) = let rest = find? test xs in if test x then some x else rest

  -- SELECT COUNT(*) … WHERE test
  unfoldable pub count : (A → Bool) → List A → ℕ
  count test [] = 0
  count test (x ∷ xs) = let rest = count test xs in if test x then suc rest else rest

  -- UPDATE … SET f WHERE test
  unfoldable pub update : (A → Bool) → (A → A) → List A → List A
  update test f [] = []
  update test f (x ∷ xs) = (if test x then f x else x) ∷ update test f xs

  -- DELETE … WHERE test
  unfoldable pub delete : (A → Bool) → List A → List A
  delete test [] = []
  delete test (x ∷ xs) = let rest = delete test xs in if test x then rest else x ∷ rest

  pub select-All : (test : A → Bool) (xs : List A) → All (λ x. test x ≡ true) (select test xs)
  unfolding select
  select-All test [] = tt
  select-All test (x ∷ xs) = elim (Bool-cases (test x)) [
    | inl e ↦ rw e (e, select-All test xs)
    | inr e ↦ rw e (select-All test xs)
  ]

  pub length-update :
      (test : A → Bool) (f : A → A) (xs : List A) → length (update test f xs) ≡ length xs
  unfolding update
  length-update test f [] = refl
  length-update test f (x ∷ xs) = omega (arith, length-update test f xs)

  pub find?-holds : (test : A → Bool) (xs : List A) (a : A) → find? test xs ≡ some a → test a ≡ true
  unfolding find?
  find?-holds test [] a h = ground arith
  find?-holds test (x ∷ xs) a h = elim (Bool-cases (test x)) [
    | inl e ↦ ground arith
    | inr e ↦ find?-holds test xs a (ground arith)
  ]

  pub find?-mem : (test : A → Bool) (xs : List A) (a : A) → find? test xs ≡ some a → Mem a xs
  unfolding find?
  find?-mem test [] a h = absurd (ground arith)
  find?-mem test (x ∷ xs) a h = elim (Bool-cases (test x)) [
    | inl e ↦ here (ground arith)
    | inr e ↦ there (find?-mem test xs a (ground arith))
  ]

  pub find?-none : (test : A → Bool) (xs : List A) → count test xs ≡ 0 → find? test xs ≡ none
  unfolding find? count
  find?-none test [] h = refl
  find?-none test (x ∷ xs) h = ground (arith, find?-none test xs)

  pub count-none : (test : A → Bool) (xs : List A) → find? test xs ≡ none → count test xs ≡ 0
  unfolding find? count
  count-none test [] h = refl
  count-none test (x ∷ xs) h = ground (arith, count-none test xs)

  pub count-delete : (test : A → Bool) (xs : List A) → count test (delete test xs) ≡ 0
  unfolding count delete
  count-delete test [] = refl
  count-delete test (x ∷ xs) = ground (arith, count-delete test xs)

  pub count-append :
      (test : A → Bool) (xs ys : List A) → count test (xs ++ ys) ≡ count test xs + count test ys
  unfolding count
  count-append test [] ys = omega arith
  count-append test (x ∷ xs) ys = ground (arith, count-append test xs ys)

  pub find?-append :
      (test : A → Bool) (xs : List A) (y : A)
      → find? test (xs ++ y ∷ [])
        ≡ elim (find? test xs) [ some a ↦ some a | none ↦ if test y then some y else none ]
  unfolding find?
  find?-append test [] y = refl
  find?-append test (x ∷ xs) y = ground (arith, find?-append test xs y)

  pub mem-select :
      (test : A → Bool) (a : A) (xs : List A)
      → Mem a (select test xs) ↔ (Mem a xs × (test a ≡ true))
  unfolding select
  mem-select test a [] = (λ m. elim m [ ], λ m. elim m.0 [ ])
  mem-select test a (x ∷ xs) = elim (Bool-cases (test x)) [
    | inl e ↦ rw e (
      (λ m. elim (mem-cons m) [
        | inl p ↦ (here p, rw p e)
        | inr n ↦ let (i, t) = (mem-select test a xs).0 n in (there i, t)
      ]),
      (λ (m, t). elim (mem-cons m) [
        | inl p ↦ here p
        | inr n ↦ there ((mem-select test a xs).1 (n, t))
      ]),
    )
    | inr e ↦ rw e (
      (λ m. let (i, t) = (mem-select test a xs).0 m in (there i, t)),
      (λ (m, t). elim (mem-cons m) [
        | inl p ↦ absurd (ground (arith, ap test p))
        | inr n ↦ (mem-select test a xs).1 (n, t)
      ]),
    )
  ]

  pub delete-select :
      (test : A → Bool) (xs : List A) → delete test xs ≡ select (λ x. not (test x)) xs
  unfolding select delete
  delete-select test [] = refl
  delete-select test (x ∷ xs) = ground (arith, delete-select test xs)

  pub count-one : (test : A → Bool) (x : A) → count test (x ∷ []) ≡ (if test x then 1 else 0)
  unfolding count
  count-one test x = ground arith

  pub count-delete_le :
      (seek test : A → Bool) (xs : List A) → count seek (delete test xs) ≤ count seek xs
  unfolding count delete
  count-delete_le seek test [] = omega arith
  count-delete_le seek test (x ∷ xs) = ground (arith, count-delete_le seek test xs)

  pub length-delete_le : (test : A → Bool) (xs : List A) → length (delete test xs) ≤ length xs
  unfolding delete
  length-delete_le test [] = omega arith
  length-delete_le test (x ∷ xs) = ground (arith, length-delete_le test xs)

  -- A row that the test spares.
  pub find?-update_other :
      (seek test : A → Bool) (f : A → A) (xs : List A)
      → ((x : A) → test x ≡ true → seek x ≡ false)
      → ((x : A) → test x ≡ true → seek (f x) ≡ false)
      → find? seek (update test f xs) ≡ find? seek xs
  unfolding find? update
  find?-update_other seek test f [] h k = refl
  find?-update_other seek test f (x ∷ xs) h k =
      ground (arith, h x, k x, find?-update_other seek test f xs h k)

  -- The row that an update by key reaches.
  pub find?-update_self :
      (test : A → Bool) (f : A → A) (xs : List A)
      → ((x : A) → test x ≡ true → test (f x) ≡ true)
      → find? test (update test f xs) ≡ Option.map f (find? test xs)
  unfolding find? update
  find?-update_self test f [] k = refl
  find?-update_self test f (x ∷ xs) k = ground (arith, k x, find?-update_self test f xs k)

  pub count-update :
      (test seek : A → Bool) (f : A → A) (xs : List A)
      → ((x : A) → test x ≡ true → seek (f x) ≡ seek x)
      → count seek (update test f xs) ≡ count seek xs
  unfolding count update
  count-update test seek f [] h = refl
  count-update test seek f (x ∷ xs) h = ground (arith, h x, count-update test seek f xs h)

  pub count-delete_other :
      (test seek : A → Bool) (xs : List A)
      → ((x : A) → test x ≡ true → seek x ≡ false)
      → count seek (delete test xs) ≡ count seek xs
  unfolding count delete
  count-delete_other test seek [] h = refl
  count-delete_other test seek (x ∷ xs) h = ground (arith, h x, count-delete_other test seek xs h)

  pub All-count_zero :
      (test : A → Bool) (xs : List A) → count test xs ≡ 0 → All (λ x. test x ≡ false) xs
  unfolding count
  All-count_zero test [] h = tt
  All-count_zero test (x ∷ xs) h = elim (Bool-cases (test x)) [
    | inl e ↦ absurd (ground arith)
    | inr e ↦ (e, All-count_zero test xs (ground arith))
  ]

  pub delete_none : (test : A → Bool) (xs : List A) → count test xs ≡ 0 → delete test xs ≡ xs
  unfolding count delete
  delete_none test [] h = refl
  delete_none test (x ∷ xs) h = ground (arith, delete_none test xs)

module _ {ℓ κ} {A : Type ℓ} (P : A → Type κ) where
  pub All-select : (test : A → Bool) (xs : List A) → All P xs → All P (select test xs)
  unfolding select
  All-select test [] h = tt
  All-select test (x ∷ xs) h = elim (Bool-cases (test x)) [
    | inl e ↦ rw e (h.0, All-select test xs h.1)
    | inr e ↦ rw e (All-select test xs h.1)
  ]

  pub All-delete : (test : A → Bool) (xs : List A) → All P xs → All P (delete test xs)
  unfolding delete
  All-delete test [] h = tt
  All-delete test (x ∷ xs) h = elim (Bool-cases (test x)) [
    | inl e ↦ rw e (All-delete test xs h.1)
    | inr e ↦ rw e (h.0, All-delete test xs h.1)
  ]

  pub All-update :
      (test : A → Bool) (f : A → A) (xs : List A)
      → ((x : A) → test x ≡ true → P x → P (f x))
      → All P xs
      → All P (update test f xs)
  unfolding update
  All-update test f [] k h = tt
  All-update test f (x ∷ xs) k h = elim (Bool-cases (test x)) [
    | inl e ↦ rw e (k x e h.0, All-update test f xs k h.1)
    | inr e ↦ rw e (h.0, All-update test f xs k h.1)
  ]

module _ {ℓ κ} {A : Type ℓ} (P : A → Type κ) where
  -- After an update, the rows that the test selects are images of the update.
  pub update-selected :
      {Q : A → Type κ} (test : A → Bool) (f : A → A) (xs : List A)
      → All (λ x. test x ≡ true → Q x) xs
      → ((x : A) → Q x → P (f x))
      → All (λ x. test x ≡ true → P x) (update test f xs)
  unfolding update
  update-selected test f [] q h = tt
  update-selected test f (x ∷ xs) q h =
      let rest = update-selected test f xs q.1 h in
      elim (Bool-cases (test x)) [
        | inl e ↦ rw e ((λ _. h x (q.0 e)), rest)
        | inr e ↦ rw e ((λ t. absurd (cc)), rest)
      ]
