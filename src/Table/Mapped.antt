-- ===== src/Table/Mapped.antt =====
-- A function of the rows commutes with the clauses of a statement.
use social.Prelude.{Bool, List, [], ◌∷◌, ◌++◌, ◌≡◌, inl, inr, refl, ap, ◌∙◌, Bool-cases, map}
use social.Table.{select, update}
use social.Table.Order.{insert_by, order_by}

module _ {ℓ κ} {A : Type ℓ} {B : Type κ} where
  pub map-update :
      (h : A → B) (test : A → Bool) (f g : A → A) (xs : List A)
      → ((x : A) → h (f x) ≡ h (g x))
      → map h (update test f xs) ≡ map h (update test g xs)
  unfolding update
  map-update h test f g [] k = refl
  map-update h test f g (x ∷ xs) k = elim (Bool-cases (test x)) [
    | inl e ↦ rw e (rw (k x) (ap (λ ys. h (g x) ∷ ys) (map-update h test f g xs k)))
    | inr e ↦ rw e (ap (λ ys. h x ∷ ys) (map-update h test f g xs k))
  ]

  pub map-snoc :
      (h : A → B) (xs : List A) (x y : A) → h x ≡ h y → map h (xs ++ x ∷ []) ≡ map h (xs ++ y ∷ [])
  map-snoc h [] x y k = ap (λ z. z ∷ []) k
  map-snoc h (z ∷ xs) x y k = ap (λ ys. h z ∷ ys) (map-snoc h xs x y k)

  pub map-insert_by :
      (h : A → B) (before : A → A → Bool) (late : B → B → Bool) (x : A) (ys : List A)
      → ((a b : A) → before a b ≡ late (h a) (h b))
      → map h (insert_by before x ys) ≡ insert_by late (h x) (map h ys)
  unfolding insert_by
  map-insert_by h before late x [] k = refl
  map-insert_by h before late x (y ∷ ys) k = elim (Bool-cases (late (h x) (h y))) [
    | inl e ↦ rw (k x y) (rw e refl)
    | inr e ↦ rw (k x y) (rw e (ap (λ zs. h y ∷ zs) (map-insert_by h before late x ys k)))
  ]

  pub map-order_by :
      (h : A → B) (before : A → A → Bool) (late : B → B → Bool) (xs : List A)
      → ((a b : A) → before a b ≡ late (h a) (h b))
      → map h (order_by before xs) ≡ order_by late (map h xs)
  unfolding order_by
  map-order_by h before late [] k = refl
  map-order_by h before late (x ∷ xs) k =
      map-insert_by h before late x (order_by before xs) k
      ∙ ap (insert_by late (h x)) (map-order_by h before late xs k)

  pub map-select :
      (h : A → B) (test : A → Bool) (late : B → Bool) (xs : List A)
      → ((a : A) → test a ≡ late (h a))
      → map h (select test xs) ≡ select late (map h xs)
  unfolding select
  map-select h test late [] k = refl
  map-select h test late (x ∷ xs) k = elim (Bool-cases (late (h x))) [
    | inl e ↦ rw (k x) (rw e (ap (λ ys. h x ∷ ys) (map-select h test late xs k)))
    | inr e ↦ rw (k x) (rw e (map-select h test late xs k))
  ]
