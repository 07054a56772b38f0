-- ===== src/Store/Table/Laws.antt =====
-- Laws of tables with a primary key.
use aegis_runtime.Store.Table.{update_where}
use aegis_runtime.Prelude.{
  String, ◌≡◌, refl, List, [], ◌∷◌, ◌++◌, map, Bool, true, false, str_eq, contains, any, find, none,
  some, arith, Bool-cases, inl, inr, if◌then◌else◌,
}

module _ {ℓ} {R : Type ℓ} where
  -- An update that keeps the keys keeps the list of keys.
  pub keys-update_where :
      (key : R → String) (p : R → Bool) (f : R → R)
      → ((r : R) → p r ≡ true → key (f r) ≡ key r)
      → (rs : List R) → map key (update_where p f rs) ≡ map key rs
  keys-update_where key p f same [] = refl
  keys-update_where key p f same (r ∷ rs) = elim (Bool-cases (p r)) [
    | inl hit ↦ ground (arith, hit, same r hit, keys-update_where key p f same rs)
    | inr miss ↦ ground (arith, miss, keys-update_where key p f same rs)
  ]

  -- The first row of a kind after an insertion at the end.
  pub find-snoc :
      (p : R → Bool) (rs : List R) (r : R)
      → find p (rs ++ r ∷ [])
        ≡ (elim (find p rs) [ some x ↦ some x | none ↦ if p r then some r else none ])
  find-snoc p [] r = refl
  find-snoc p (x ∷ xs) r = ground (arith, find-snoc p xs r)

  pub find-none : (p : R → Bool) (rs : List R) → any p rs ≡ false → find p rs ≡ none
  find-none p [] h = refl
  find-none p (x ∷ xs) h = ground (arith, find-none p xs)

  pub find-any : (p : R → Bool) (rs : List R) (r : R) → find p rs ≡ some r → any p rs ≡ true
  find-any p [] r h = absurd (ground arith)
  find-any p (x ∷ xs) r h = ground (arith, find-any p xs r)

  -- The first row of a kind after an update that leaves the kind of each row as it is.
  pub find-update_where :
      (p q : R → Bool) (f : R → R)
      → ((r : R) → q r ≡ true → p (f r) ≡ p r)
      → (rs : List R)
      → find p (update_where q f rs)
        ≡ (elim (find p rs) [ none ↦ none | some r ↦ some (if q r then f r else r) ])
  find-update_where p q f same [] = refl
  find-update_where p q f same (r ∷ rs) = elim (Bool-cases (q r)) [
    | inl hit ↦ ground (arith, hit, same r hit, find-update_where p q f same rs)
    | inr miss ↦ ground (arith, miss, find-update_where p q f same rs)
  ]

  pub any-contains :
      (key : R → String) (id : String) (rs : List R)
      → any (λ r. str_eq (key r) id) rs ≡ contains (map key rs) id
  any-contains key id [] = refl
  any-contains key id (r ∷ rs) = ground (arith, any-contains key id rs)
