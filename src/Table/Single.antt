-- ===== src/Table/Single.antt =====
-- A row of a table that is the only one with its key.
use social.Prelude.{
  ◌<◌, ◌++◌, Bool, true, false, String, List, [], ◌∷◌, ◌≡◌, ap, subst, All, All-append, arith,
  eq_iff, str_eq,
}
use social.Table.{
  count, count-append, count-update, update, All-update, delete, count-delete_other, All-delete,
}

module _ {A : Type 0} (key : A → String) where
  abbrev has_key : String → A → Bool
  has_key id x = str_eq (key x) id

  -- The row is there, and every row with its key is that row.
  abbrev pub Single : A → List A → Type 0
  Single a xs = (0 < count (has_key (key a)) xs) × All (λ x. has_key (key a) x ≡ true → x ≡ a) xs

  clash :
      (a x : A) (xs : List A)
      → count (has_key (key x)) xs ≡ 0
      → has_key (key a) x ≡ true
      → 0 < count (has_key (key a)) xs
      → ⊥
  clash a x xs new e some_there =
      let same : key x ≡ key a = (eq_iff (key x) (key a)).0 e in
      let gone : count (has_key (key a)) xs ≡ 0 =
        subst (λ id. count (has_key id) xs ≡ 0) same new in
      omega (arith, gone, some_there)

  -- A row with a new key is put in.
  pub Single-append :
      (a x : A) (xs : List A)
      → count (has_key (key x)) xs ≡ 0
      → Single a xs
      → Single a (xs ++ x ∷ [])
  Single-append a x xs new h = (
    omega (arith, h.0, count-append (has_key (key a)) xs (x ∷ [])),
    All-append (λ y. has_key (key a) y ≡ true → y ≡ a) xs (x ∷ []) h.1
        (λ e. absurd (clash a x xs new e h.0), tt),
  )

  other_key :
      (a x y : A) → has_key (key a) x ≡ false → has_key (key x) y ≡ true → has_key (key a) y ≡ false
  other_key a x y h e =
      ground (arith, eq_iff (key x) (key a), eq_iff (key y) (key x), eq_iff (key y) (key a))

  pub same_key : (a x y : A) → key y ≡ key x → has_key (key a) y ≡ has_key (key a) x
  same_key a x y e = ap (λ id. str_eq id (key a)) e

  -- Another row is updated.
  pub Single-update :
      (a x : A) (f : A → A) (xs : List A)
      → has_key (key a) x ≡ false
      → ((y : A) → key (f y) ≡ key y)
      → Single a xs
      → Single a (update (has_key (key x)) f xs)
  Single-update a x f xs other keys h = (
    rw (count-update (has_key (key x)) (has_key (key a)) f xs (λ y e. same_key a y (f y) (keys y)))
        h.0,
    All-update (λ y. has_key (key a) y ≡ true → y ≡ a) (has_key (key x)) f xs
        (λ y e same g.
          absurd
            (let unlike = other_key a x y other e in let like = same_key a y (f y) (keys y) in cc))
        h.1,
  )

  other_row :
      (a y : A) (id : String)
      → str_eq (key a) id ≡ false
      → has_key id y ≡ true
      → has_key (key a) y ≡ false
  other_row a y id h e =
      ground (arith, eq_iff (key a) id, eq_iff (key y) id, eq_iff (key y) (key a))

  -- The rows of another key are deleted.
  pub Single-delete :
      (a : A) (id : String) (xs : List A)
      → str_eq (key a) id ≡ false
      → Single a xs
      → Single a (delete (has_key id) xs)
  Single-delete a id xs other h = (
    rw (count-delete_other (has_key id) (has_key (key a)) xs (λ y e. other_row a y id other e)) h.0,
    All-delete (λ y. has_key (key a) y ≡ true → y ≡ a) (has_key id) xs h.1,
  )
