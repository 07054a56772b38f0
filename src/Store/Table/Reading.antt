-- ===== src/Store/Table/Reading.antt =====
-- What a query with WHERE and ORDER BY reads.
use aegis_runtime.Store.Database.{PersistenceError, read_all}
use aegis_runtime.Store.Table.{put_asc, order_asc}
use aegis_runtime.Prelude.{
  ℕ, ◌≤◌, ◌≡◌, refl, sym, ◌∙◌, ap, List, [], ◌∷◌, Bool, true, leb, select, In, here, there, All,
  All-In, All-of-In, Result, ok, >>=-eq-ok, arith, Bool-cases, inl, inr,
}

module _ {ℓ} {R : Type ℓ} where
  In-map-tail : {r x : R} {xs ys : List R} → (In r xs → In r ys) → In r (x ∷ xs) → In r (x ∷ ys)
  In-map-tail f (here e) = here e
  In-map-tail f (there m) = there (f m)

  In-swap : {r x y : R} {xs : List R} → In r (x ∷ y ∷ xs) → In r (y ∷ x ∷ xs)
  In-swap (here e) = there (here e)
  In-swap (there (here e)) = here e
  In-swap (there (there m)) = there (there m)

  In-select→ : (p : R → Bool) (rs : List R) (r : R) → In r (select p rs) → In r rs × (p r ≡ true)
  In-select→ p [] r m = elim m [ ]
  In-select→ p (x ∷ xs) r m = elim (Bool-cases (p x)) [
    | inr out ↦ let (k, h) = In-select→ p xs r (rw out at m) in (there k, h)
    | inl kept ↦ first (λ k. In-select→ p xs r k) (rw kept at m) kept
  ]
    where
      first :
          (In r (select p xs) → In r xs × (p r ≡ true))
          → In r (x ∷ select p xs)
          → p x ≡ true
          → In r (x ∷ xs) × (p r ≡ true)
      first tail (here e) h = (here e, ap p e ∙ h)
      first tail (there k) h = let (n, g) = tail k in (there n, g)

  In-select← : (p : R → Bool) (rs : List R) (r : R) → In r rs → p r ≡ true → In r (select p rs)
  In-select← p [] r m h = elim m [ ]
  In-select← p (x ∷ xs) r (here e) h = let kept : p x ≡ true = sym (ap p e) ∙ h in rw kept (here e)
  In-select← p (x ∷ xs) r (there m) h = elim (Bool-cases (p x)) [
    | inl kept ↦ rw kept (there (In-select← p xs r m h))
    | inr out ↦ rw out (In-select← p xs r m h)
  ]

  module _ (key : R → ℕ) where
    In-put→ : (y : R) (xs : List R) (r : R) → In r (put_asc key y xs) → In r (y ∷ xs)
    In-put→ y [] r m = m
    In-put→ y (x ∷ xs) r m = elim (Bool-cases (leb (key y) (key x))) [
      | inl le ↦ rw le at m
      | inr gt ↦ In-swap (In-map-tail (λ k. In-put→ y xs r k) (rw gt at m))
    ]

    In-put← : (y : R) (xs : List R) (r : R) → In r (y ∷ xs) → In r (put_asc key y xs)
    In-put← y [] r m = m
    In-put← y (x ∷ xs) r m = elim (Bool-cases (leb (key y) (key x))) [
      | inl le ↦ rw le m
      | inr gt ↦ rw gt (In-map-tail (λ k. In-put← y xs r k) (In-swap m))
    ]

    In-order→ : (rs : List R) (r : R) → In r (order_asc key rs) → In r rs
    In-order→ [] r m = m
    In-order→ (x ∷ xs) r m = In-map-tail (λ k. In-order→ xs r k) (In-put→ x (order_asc key xs) r m)

    In-order← : (rs : List R) (r : R) → In r rs → In r (order_asc key rs)
    In-order← [] r m = m
    In-order← (x ∷ xs) r m = In-put← x (order_asc key xs) r (In-map-tail (λ k. In-order← xs r k) m)

    -- Each key is at most the later ones.
    abbrev pub IsAscending : List R → Type 0
    IsAscending [] = Unit
    IsAscending (x ∷ xs) = All (λ y. key x ≤ key y) xs × IsAscending xs

    All-put :
        (k : ℕ) (y : R) (xs : List R)
        → k ≤ key y
        → All (λ z. k ≤ key z) xs
        → All (λ z. k ≤ key z) (put_asc key y xs)
    All-put k y [] le h = (le, tt)
    All-put k y (x ∷ xs) le h = elim (Bool-cases (leb (key y) (key x))) [
      | inl small ↦ rw small (le, h)
      | inr big ↦ rw big (h.0, All-put k y xs le h.1)
    ]

    All-weaken : (j k : ℕ) (xs : List R) → j ≤ k → All (λ z. k ≤ key z) xs → All (λ z. j ≤ key z) xs
    All-weaken j k [] le h = tt
    All-weaken j k (x ∷ xs) le h = (omega (arith, le, h.0), All-weaken j k xs le h.1)

    IsAscending-put : (y : R) (xs : List R) → IsAscending xs → IsAscending (put_asc key y xs)
    IsAscending-put y [] s = (tt, tt)
    IsAscending-put y (x ∷ xs) s = elim (Bool-cases (leb (key y) (key x))) [
      | inl le ↦
          let small : key y ≤ key x = ground (arith, le) in
          rw le ((small, All-weaken (key y) (key x) xs small s.0), s)
      | inr gt ↦
          let big : key x ≤ key y = ground (arith, gt) in
          rw gt (All-put (key x) y xs big s.0, IsAscending-put y xs s.1)
    ]

    pub order-IsAscending : (rs : List R) → IsAscending (order_asc key rs)
    order-IsAscending [] = tt
    order-IsAscending (x ∷ xs) = IsAscending-put x (order_asc key xs) (order-IsAscending xs)

    pub In-query→ :
        (p : R → Bool) (rs : List R) (r : R)
        → In r (order_asc key (select p rs))
        → In r rs × (p r ≡ true)
    In-query→ p rs r m = In-select→ p rs r (In-order→ (select p rs) r m)

    pub In-query← :
        (p : R → Bool) (rs : List R) (r : R)
        → In r rs
        → p r ≡ true
        → In r (order_asc key (select p rs))
    In-query← p rs r m h = In-order← (select p rs) r (In-select← p rs r m h)

-- What a reading loop that met no error has read.
module _ {R A : Type 0} (f : R → Result PersistenceError A) where
  pub read_all→ :
      (rs : List R) (as' : List A) (a : A)
      → read_all f rs ≡ ok as'
      → In a as'
      → (r : R) × In r rs × (f r ≡ ok a)
  read_all→ [] as' a e m = elim (rw (← nothing) at m) [ ]
    where
      nothing : [] ≡ as'
      nothing = ground arith
  read_all→ (r ∷ rs) as' a e m =
      let (b, one, rest) = >>=-eq-ok (f r) _ e in
      let (bs, more, done) = >>=-eq-ok (read_all f rs) _ rest in
      let same : as' ≡ b ∷ bs = ground (arith, done) in
      split b bs one (λ n. read_all→ rs bs a more n) (rw same at m)
    where
      split :
          (b : A) (bs : List A)
          → f r ≡ ok b
          → (In a bs → (r : R) × In r rs × (f r ≡ ok a))
          → In a (b ∷ bs)
          → (x : R) × In x (r ∷ rs) × (f x ≡ ok a)
      split b bs one tail (here at) = (r, here refl, one ∙ ap ok (sym at))
      split b bs one tail (there n) = let (x, k, g) = tail n in (x, there k, g)

  pub read_all← :
      (rs : List R) (as' : List A) (r : R)
      → read_all f rs ≡ ok as'
      → In r rs
      → (a : A) × In a as' × (f r ≡ ok a)
  read_all← [] as' r e m = elim m [ ]
  read_all← (x ∷ rs) as' r e m =
      let (b, one, rest) = >>=-eq-ok (f x) _ e in
      let (bs, more, done) = >>=-eq-ok (read_all f rs) _ rest in
      let same : as' ≡ b ∷ bs = ground (arith, done) in
      rw same (split b bs one (λ n. read_all← rs bs r more n) m)
    where
      split :
          (b : A) (bs : List A)
          → f x ≡ ok b
          → (In r rs → (a : A) × In a bs × (f r ≡ ok a))
          → In r (x ∷ rs)
          → (a : A) × In a (b ∷ bs) × (f r ≡ ok a)
      split b bs one tail (here at) = (b, here refl, ap f at ∙ one)
      split b bs one tail (there n) = let (a, k, g) = tail n in (a, there k, g)

  -- Keys that reading keeps stay in order.
  pub read_all-IsAscending :
      (key : R → ℕ) (time : A → ℕ)
      → ((r : R) (a : A) → f r ≡ ok a → time a ≡ key r)
      → (rs : List R) (as' : List A) → read_all f rs ≡ ok as'
      → IsAscending key rs
      → IsAscending time as'
  read_all-IsAscending key time same [] as' e s = rw (← nothing) tt
    where
      nothing : [] ≡ as'
      nothing = ground arith
  read_all-IsAscending key time same (r ∷ rs) as' e s =
      let (b, one, rest) = >>=-eq-ok (f r) _ e in
      let (bs, more, done) = >>=-eq-ok (read_all f rs) _ rest in
      let later : All (λ a. time b ≤ time a) bs = All-of-In bs λ a m.
        let (x, k, g) = read_all→ rs bs a more m in
        omega (arith, same r b one, same x a g, All-In (λ y. key r ≤ key y) s.0 k) in
      let at : as' ≡ b ∷ bs = ground (arith, done) in
      rw at ((later, read_all-IsAscending key time same rs bs more s.1))
