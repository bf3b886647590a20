-- ===== src/Scripts/Suites/Joins.antt =====
-- js-scripts/app.js: the checks of joins.
use wwfsdb.Base.{List, [], ◌∷◌}
use wwfsdb.Js.Value.{null, str, object, array}
use wwfsdb.Js.Runtime.{Runtime}
use wwfsdb.Scripts.Suite.{Test, no_options, expect, succeeds, fails, literal}

-- `runJoinTests`
unfoldable pub join_tests : (R : Runtime) → List (Test R.Num)
join_tests R =
    (succeeds "DELETE FROM products WHERE 1=1;" no_options)
    ∷ (succeeds "DELETE FROM suppliers WHERE 1=1;" no_options)
    ∷ (succeeds "INSERT INTO suppliers VALUES ('sup1', 'Join Supplier A', 'jsa@test.com', 5);"
        no_options)
    ∷ (succeeds "INSERT INTO suppliers VALUES ('sup2', 'Join Supplier B', 'jsb@test.com', 4);"
        no_options)
    ∷ (succeeds "INSERT INTO suppliers VALUES ('sup3', 'Join Supplier C', 'jsc@test.com', 3);"
        no_options)
    ∷ (succeeds "INSERT INTO products VALUES ('prod1', 'Join Product 1', 'From A', 10.0, 'sup1');"
        no_options)
    ∷ (succeeds "INSERT INTO products VALUES ('prod2', 'Join Product 2', 'From A', 20.0, 'sup1');"
        no_options)
    ∷ (succeeds "INSERT INTO products VALUES ('prod3', 'Join Product 3', 'From B', 30.0, 'sup2');"
        no_options)
    ∷ (expect
        "SELECT suppliers.name, products.name FROM suppliers JOIN products ON suppliers.supplier_id = products.supplier_id;"
        (array (
          (object (
            ("suppliers.name", str "Join Supplier A")
            ∷ ("products.name", str "Join Product 1")
            ∷ []))
          ∷ (object (
              ("suppliers.name", str "Join Supplier A")
              ∷ ("products.name", str "Join Product 2")
              ∷ []))
          ∷ (object (
              ("suppliers.name", str "Join Supplier B")
              ∷ ("products.name", str "Join Product 3")
              ∷ []))
          ∷ []))
        no_options)
    ∷ (expect
        "SELECT * FROM suppliers JOIN products ON suppliers.supplier_id = products.supplier_id WHERE products.unit_cost > 15;"
        (array (
          (object (
            ("suppliers.supplier_id", str "sup1")
            ∷ ("suppliers.name", str "Join Supplier A")
            ∷ ("suppliers.contact_email", str "jsa@test.com")
            ∷ ("suppliers.rating", literal R "5")
            ∷ ("products.product_id", str "prod2")
            ∷ ("products.name", str "Join Product 2")
            ∷ ("products.description", str "From A")
            ∷ ("products.unit_cost", literal R "20.0")
            ∷ ("products.supplier_id", str "sup1")
            ∷ []))
          ∷ (object (
              ("suppliers.supplier_id", str "sup2")
              ∷ ("suppliers.name", str "Join Supplier B")
              ∷ ("suppliers.contact_email", str "jsb@test.com")
              ∷ ("suppliers.rating", literal R "4")
              ∷ ("products.product_id", str "prod3")
              ∷ ("products.name", str "Join Product 3")
              ∷ ("products.description", str "From B")
              ∷ ("products.unit_cost", literal R "30.0")
              ∷ ("products.supplier_id", str "sup2")
              ∷ []))
          ∷ []))
        no_options)
    ∷ (expect
        "SELECT suppliers.name, products.name FROM suppliers LEFT JOIN products ON suppliers.supplier_id = products.supplier_id;"
        (array (
          (object (
            ("suppliers.name", str "Join Supplier A")
            ∷ ("products.name", str "Join Product 1")
            ∷ []))
          ∷ (object (
              ("suppliers.name", str "Join Supplier A")
              ∷ ("products.name", str "Join Product 2")
              ∷ []))
          ∷ (object (
              ("suppliers.name", str "Join Supplier B")
              ∷ ("products.name", str "Join Product 3")
              ∷ []))
          ∷ (object (("suppliers.name", str "Join Supplier C") ∷ ("products.name", null) ∷ []))
          ∷ []))
        no_options)
    ∷ (fails
        "SELECT name FROM suppliers JOIN products ON suppliers.supplier_id = products.supplier_id;"
        no_options)
    ∷ []
