-- ===== src/Scripts/Suites/DataTypes.antt =====
-- js-scripts/app.js: the checks of the types of the columns.
use wwfsdb.Base.{true, false, List, [], ◌∷◌}
use wwfsdb.Js.Value.{bool, str, object, array}
use wwfsdb.Js.Runtime.{Runtime}
use wwfsdb.Scripts.Suite.{Test, no_options, without_key, expect, succeeds, fails, literal}

-- `runDataTypeTests`
unfoldable pub data_type_tests : (R : Runtime) → List (Test R.Num)
data_type_tests R =
    (succeeds "INSERT INTO data_types_test VALUES (1, 'Item A', 99.99, true);" no_options)
    ∷ (succeeds "INSERT INTO data_types_test VALUES (2, 'Item B', 120.50, false);" no_options)
    ∷ (succeeds "INSERT INTO data_types_test VALUES (3, 'Item C', -50, TRUE);" no_options)
    ∷ (fails "INSERT INTO data_types_test VALUES ('abc', 'Item D', 1.0, true);" no_options)
    ∷ (fails "INSERT INTO data_types_test VALUES (4, 'Item E', 'xyz', true);" no_options)
    ∷ (fails "INSERT INTO data_types_test VALUES (5, 'Item F', 1.0, 'not-a-bool');" no_options)
    ∷ (expect "SELECT * FROM data_types_test WHERE id = 1"
        (array (
          (object (
            ("data_types_test.id", literal R "1")
            ∷ ("data_types_test.label", str "Item A")
            ∷ ("data_types_test.price", literal R "99.99")
            ∷ ("data_types_test.is_active", bool true)
            ∷ []))
          ∷ []))
        without_key)
    ∷ (succeeds "UPDATE data_types_test SET price = 10.50 WHERE id = 1;" no_options)
    ∷ (expect "SELECT price FROM data_types_test WHERE id = 1"
        (array ((object (("price", literal R "10.50") ∷ [])) ∷ [])) without_key)
    ∷ (succeeds "UPDATE data_types_test SET is_active = false WHERE id = 1;" no_options)
    ∷ (expect "SELECT is_active FROM data_types_test WHERE id = 1"
        (array ((object (("is_active", bool false) ∷ [])) ∷ [])) without_key)
    ∷ (succeeds "UPDATE data_types_test SET price = 20.75 WHERE id = 2;" no_options)
    ∷ (expect "SELECT price FROM data_types_test WHERE id = 2"
        (array ((object (("price", literal R "20.75") ∷ [])) ∷ [])) without_key)
    ∷ (succeeds "UPDATE data_types_test SET is_active = true WHERE id = 2;" no_options)
    ∷ (expect "SELECT is_active FROM data_types_test WHERE id = 2"
        (array ((object (("is_active", bool true) ∷ [])) ∷ [])) without_key)
    ∷ (succeeds "UPDATE data_types_test SET id = 10 WHERE id = 1;" no_options)
    ∷ (expect "SELECT id FROM data_types_test WHERE id = 10"
        (array ((object (("id", literal R "10") ∷ [])) ∷ [])) without_key)
    ∷ (fails "UPDATE data_types_test SET id = 'not-an-int' WHERE label = 'Item B';" no_options)
    ∷ (fails "UPDATE data_types_test SET price = 'expensive' WHERE label = 'Item B';" no_options)
    ∷ (fails "UPDATE data_types_test SET is_active = 'maybe' WHERE label = 'Item B';" no_options)
    ∷ (expect "SELECT id FROM data_types_test WHERE price > 100" (array []) without_key)
    ∷ (expect "SELECT id FROM data_types_test WHERE price < 0"
        (array ((object (("id", literal R "3") ∷ [])) ∷ [])) without_key)
    ∷ (expect "SELECT id FROM data_types_test WHERE is_active = true"
        (array (
          (object (("id", literal R "1000") ∷ []))
          ∷ (object (("id", literal R "2") ∷ []))
          ∷ (object (("id", literal R "3") ∷ []))
          ∷ []))
        without_key)
    ∷ (expect "SELECT id FROM data_types_test WHERE is_active = false"
        (array ((object (("id", literal R "10") ∷ [])) ∷ [])) without_key)
    ∷ []
