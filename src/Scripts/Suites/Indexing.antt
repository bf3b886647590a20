-- ===== src/Scripts/Suites/Indexing.antt =====
-- js-scripts/app.js: the checks of indices.
use wwfsdb.Base.{List, [], ◌∷◌}
use wwfsdb.Js.Value.{str, object, array}
use wwfsdb.Js.Runtime.{Runtime}
use wwfsdb.Scripts.Suite.{Test, no_options, without_key, expect, succeeds, fails}

-- `runIndexingTests`
unfoldable pub indexing_tests : (R : Runtime) → List (Test R.Num)
indexing_tests R =
    (succeeds "CREATE INDEX ON suppliers (name);" no_options)
    ∷ (fails "CREATE INDEX ON suppliers (name);" no_options)
    ∷ (fails "CREATE INDEX ON suppliers (non_existent_column);" no_options)
    ∷ (expect "SELECT supplier_id FROM suppliers WHERE name = 'Supplier A'"
        (array ((object (("supplier_id", str "sup1") ∷ [])) ∷ [])) without_key)
    ∷ (succeeds "INSERT INTO suppliers VALUES ('sup3', 'Supplier C', 'contact@supplierc.com', 3);"
        no_options)
    ∷ (expect "SELECT supplier_id FROM suppliers WHERE name = 'Supplier C'"
        (array ((object (("supplier_id", str "sup3") ∷ [])) ∷ [])) without_key)
    ∷ (succeeds "UPDATE suppliers SET name = 'Supplier C Updated' WHERE supplier_id = 'sup3';"
        no_options)
    ∷ (expect "SELECT supplier_id FROM suppliers WHERE name = 'Supplier C Updated'"
        (array ((object (("supplier_id", str "sup3") ∷ [])) ∷ [])) without_key)
    ∷ (expect "SELECT * FROM suppliers WHERE name = 'Supplier C'" (array []) without_key)
    ∷ (succeeds "DELETE FROM suppliers WHERE name = 'Supplier A';" no_options)
    ∷ (expect "SELECT * FROM suppliers WHERE name = 'Supplier A'" (array []) without_key)
    ∷ []
