-- ===== src/Store/Table.antt =====
-- What the SQL of src/persistence/sqlite/ does to a table whose primary key is `id`: a table is the
-- list of its rows in the order of their rowids. SQLite leaves open which of several equal rows comes
-- first under an ORDER BY; here they keep the order of their rowids.
pub mod Laws
pub mod Reading
use aegis_runtime.Prelude.{
  ℕ, String, List, [], ◌∷◌, ◌++◌, Bool, true, false, str_eq, leb, any, select, map, if◌then◌else◌,
}

module _ {ℓ} {R : Type ℓ} where
  -- `UPDATE … SET f WHERE p`
  abbrev pub update_where : (R → Bool) → (R → R) → List R → List R
  update_where p f rs = map (λ r. if p r then f r else r) rs

  -- `ORDER BY key ASC`
  abbrev pub put_asc : (R → ℕ) → R → List R → List R
  put_asc key r [] = r ∷ []
  put_asc key r (x ∷ xs) =
      let rest = put_asc key r xs in if leb (key r) (key x) then r ∷ x ∷ xs else x ∷ rest

  abbrev pub order_asc : (R → ℕ) → List R → List R
  order_asc key [] = []
  order_asc key (r ∷ rs) = put_asc key r (order_asc key rs)

  -- `ORDER BY key DESC`
  abbrev pub put_desc : (R → ℕ) → R → List R → List R
  put_desc key r [] = r ∷ []
  put_desc key r (x ∷ xs) =
      let rest = put_desc key r xs in if leb (key x) (key r) then r ∷ x ∷ xs else x ∷ rest

  abbrev pub order_desc : (R → ℕ) → List R → List R
  order_desc key [] = []
  order_desc key (r ∷ rs) = put_desc key r (order_desc key rs)
