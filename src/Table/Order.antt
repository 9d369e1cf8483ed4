-- ===== src/Table/Order.antt =====
-- ORDER BY: a stable sort of the rows by a comparison.
use social.Prelude.{
  ◌≡◌, refl, Bool, true, false, List, [], ◌∷◌, if◌then◌else◌, All, All-map, Mem, here, there,
  Bool-cases, inl, inr, ◌↔◌, ◌⊎◌, mem-cons, suc, length, ap, ◌∙◌,
}

module _ {ℓ} {A : Type ℓ} where
  unfoldable pub insert_by : (A → A → Bool) → A → List A → List A
  insert_by before x [] = x ∷ []
  insert_by before x (y ∷ ys) =
      let rest = insert_by before x ys in if before x y then x ∷ y ∷ ys else y ∷ rest

  unfoldable pub order_by : (A → A → Bool) → List A → List A
  unfolding insert_by
  order_by before [] = []
  order_by before (x ∷ xs) = insert_by before x (order_by before xs)

  -- Each row comes before all that stand behind it.
  abbrev pub IsOrdered : (A → A → Bool) → List A → Type ℓ
  IsOrdered before [] = Unit
  IsOrdered before (x ∷ xs) = All (λ y. before x y ≡ true) xs × IsOrdered before xs

module _ {ℓ} {A : Type ℓ} (before : A → A → Bool) where
  mem_of_insert_by : (a x : A) (ys : List A) → Mem a (insert_by before x ys) → (a ≡ x) ⊎ Mem a ys
  unfolding insert_by
  mem_of_insert_by a x [] m = mem-cons m
  mem_of_insert_by a x (y ∷ ys) m = elim (Bool-cases (before x y)) [
    | inl e ↦ mem-cons (rw e at m)
    | inr e ↦ elim (mem-cons (rw e at m)) [
      | inl p ↦ inr (here p)
      | inr n ↦ elim (mem_of_insert_by a x ys n) [ inl p ↦ inl p | inr q ↦ inr (there q) ]
    ]
  ]

  mem-insert_by_of : (a x : A) (ys : List A) → (a ≡ x) ⊎ Mem a ys → Mem a (insert_by before x ys)
  unfolding insert_by
  mem-insert_by_of a x [] (inl p) = here p
  mem-insert_by_of a x [] (inr m) = elim m [ ]
  mem-insert_by_of a x (y ∷ ys) h = elim (Bool-cases (before x y)) [
    | inl e ↦ rw e (elim h [ inl p ↦ here p | inr m ↦ there m ])
    | inr e ↦ rw e (elim h [
      | inl p ↦ there (mem-insert_by_of a x ys (inl p))
      | inr m ↦ elim (mem-cons m) [
        | inl p ↦ here p
        | inr n ↦ there (mem-insert_by_of a x ys (inr n))
      ]
    ])
  ]

  pub mem-order_by : (a : A) (xs : List A) → Mem a (order_by before xs) ↔ Mem a xs
  unfolding order_by
  mem-order_by a [] = (λ m. m, λ m. m)
  mem-order_by a (x ∷ xs) = (
    (λ m. elim (mem_of_insert_by a x (order_by before xs) m) [
      | inl p ↦ here p
      | inr n ↦ there ((mem-order_by a xs).0 n)
    ]),
    (λ m.
        mem-insert_by_of a x (order_by before xs)
          (elim (mem-cons m) [ inl p ↦ inl p | inr n ↦ inr ((mem-order_by a xs).1 n) ])),
  )

  length-insert_by : (x : A) (ys : List A) → length (insert_by before x ys) ≡ suc (length ys)
  unfolding insert_by
  length-insert_by x [] = refl
  length-insert_by x (y ∷ ys) = elim (Bool-cases (before x y)) [
    | inl e ↦ rw e
    | inr e ↦ rw e (ap suc (length-insert_by x ys))
  ]

  pub length-order_by : (xs : List A) → length (order_by before xs) ≡ length xs
  unfolding order_by
  length-order_by [] = refl
  length-order_by (x ∷ xs) = length-insert_by x (order_by before xs) ∙ ap suc (length-order_by xs)

  module _ {κ} (P : A → Type κ) where
    All-insert_by : (x : A) (ys : List A) → P x → All P ys → All P (insert_by before x ys)
    unfolding insert_by
    All-insert_by x [] p h = (p, tt)
    All-insert_by x (y ∷ ys) p h = elim (Bool-cases (before x y)) [
      | inl e ↦ rw e (p, (h.0, h.1))
      | inr e ↦ rw e (h.0, All-insert_by x ys p h.1)
    ]

    pub All-order_by : (xs : List A) → All P xs → All P (order_by before xs)
    unfolding order_by
    All-order_by [] h = tt
    All-order_by (x ∷ xs) h = All-insert_by x (order_by before xs) h.0 (All-order_by xs h.1)

-- A comparison that puts any two rows in an order, consistently.
pub record IsOrder {ℓ} {A : Type ℓ} (before : A → A → Bool) : Type ℓ where
  pub total : (x y : A) → before x y ≡ false → before y x ≡ true
  pub trans : (x y z : A) → before x y ≡ true → before y z ≡ true → before x z ≡ true

module _ {ℓ} {A : Type ℓ} (before : A → A → Bool) (o : IsOrder before) where
  open o use {total, trans}

  insert_by-IsOrdered :
      (x : A) (ys : List A) → IsOrdered before ys → IsOrdered before (insert_by before x ys)
  unfolding insert_by
  insert_by-IsOrdered x [] h = (tt, tt)
  insert_by-IsOrdered x (y ∷ ys) h = elim (Bool-cases (before x y)) [
    | inl e ↦ rw e ((e, All-map (λ z q. trans x y z e q) ys h.0), h)
    | inr e ↦ rw e (
      All-insert_by before (λ z. before y z ≡ true) x ys (total x y e) h.0,
      insert_by-IsOrdered x ys h.1,
    )
  ]

  pub order_by-IsOrdered : (xs : List A) → IsOrdered before (order_by before xs)
  unfolding order_by
  order_by-IsOrdered [] = tt
  order_by-IsOrdered (x ∷ xs) = insert_by-IsOrdered x (order_by before xs) (order_by-IsOrdered xs)

-- Each row stands in the relation to all that stand behind it.
module _ {ℓ κ} {A : Type ℓ} (R : A → A → Type κ) where
  abbrev pub Pairwise : List A → Type κ
  Pairwise [] = Unit
  Pairwise (x ∷ xs) = All (R x) xs × Pairwise xs

  pub IsOrdered-Pairwise :
      (before : A → A → Bool)
      → ((x y : A) → before x y ≡ true → R x y)
      → (xs : List A) → IsOrdered before xs
      → Pairwise xs
  IsOrdered-Pairwise before f [] h = tt
  IsOrdered-Pairwise before f (x ∷ xs) h =
      (All-map (f x) xs h.0, IsOrdered-Pairwise before f xs h.1)
