-- ===== src/Scripts/Suites/Regression.antt =====
-- js-scripts/app.js: the checks of the basic statements.
use wwfsdb.Base.{List, [], ◌∷◌}
use wwfsdb.Js.Value.{str, object, array}
use wwfsdb.Js.Runtime.{Runtime}
use wwfsdb.Scripts.Suite.{Test, no_options, without_key, expect, succeeds, literal}

-- `runRegressionTests`
unfoldable pub regression_tests : (R : Runtime) → List (Test R.Num)
regression_tests R =
    (succeeds "INSERT INTO suppliers VALUES ('sup1', 'Supplier A', 'contact@suppliera.com', 4);"
      no_options)
    ∷ (succeeds
        "INSERT INTO products VALUES ('prod1', 'Product One', 'High-quality gadget', 19.99, 'sup1');"
        no_options)
    ∷ (expect "SELECT * FROM suppliers WHERE supplier_id = 'sup1'"
        (array (
          (object (
            ("suppliers.contact_email", str "contact@suppliera.com")
            ∷ ("suppliers.name", str "Supplier A")
            ∷ ("suppliers.rating", literal R "4")
            ∷ ("suppliers.supplier_id", str "sup1")
            ∷ []))
          ∷ []))
        without_key)
    ∷ (expect "SELECT name, unit_cost FROM products WHERE product_id = 'prod1'"
        (array
          ((object (("name", str "Product One") ∷ ("unit_cost", literal R "19.99") ∷ [])) ∷ []))
        without_key)
    ∷ (succeeds "UPDATE products SET unit_cost = 25.50 WHERE product_id = 'prod1'" no_options)
    ∷ (expect "SELECT unit_cost FROM products WHERE product_id = 'prod1'"
        (array ((object (("unit_cost", literal R "25.50") ∷ [])) ∷ [])) without_key)
    ∷ (expect "SELECT * FROM products WHERE unit_cost > 20"
        (array (
          (object (
            ("products.description", str "High-quality gadget")
            ∷ ("products.name", str "Product One")
            ∷ ("products.product_id", str "prod1")
            ∷ ("products.supplier_id", str "sup1")
            ∷ ("products.unit_cost", literal R "25.50")
            ∷ []))
          ∷ []))
        without_key)
    ∷ (succeeds "INSERT INTO suppliers VALUES ('sup2', 'Supplier B', 'contact@supplierb.com', 5);"
        no_options)
    ∷ (expect "SELECT name FROM suppliers WHERE rating > 4"
        (array ((object (("name", str "Supplier B") ∷ [])) ∷ [])) without_key)
    ∷ (succeeds "DELETE FROM suppliers WHERE supplier_id = 'sup2'" no_options)
    ∷ (expect "SELECT * FROM suppliers WHERE supplier_id = 'sup2'" (array []) without_key)
    ∷ []
