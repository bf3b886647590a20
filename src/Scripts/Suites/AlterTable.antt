-- ===== src/Scripts/Suites/AlterTable.antt =====
-- js-scripts/app.js: the checks of changes to a table.
use wwfsdb.Base.{List, [], ◌∷◌}
use wwfsdb.Js.Value.{null, str, object, array}
use wwfsdb.Js.Runtime.{Runtime}
use wwfsdb.Scripts.Suite.{Test, no_options, expect, succeeds, fails, literal}

-- `runAlterTableTests`
unfoldable pub alter_table_tests : (R : Runtime) → List (Test R.Num)
alter_table_tests R =
    (succeeds "CREATE TABLE alter_test (id INT, name VARCHAR(50));" no_options)
    ∷ (succeeds "INSERT INTO alter_test VALUES (1, 'initial_name');" no_options)
    ∷ (succeeds "ALTER TABLE alter_test ADD COLUMN status VARCHAR(20);" no_options)
    ∷ (succeeds "INSERT INTO alter_test VALUES (2, 'new_row', 'active');" no_options)
    ∷ (succeeds "UPDATE alter_test SET status = 'inactive' WHERE id = 1;" no_options)
    ∷ (expect "SELECT id, status FROM alter_test"
        (array (
          (object (("id", literal R "1") ∷ ("status", str "inactive") ∷ []))
          ∷ (object (("id", literal R "2") ∷ ("status", str "active") ∷ []))
          ∷ []))
        no_options)
    ∷ (succeeds "ALTER TABLE alter_test RENAME COLUMN name TO full_name;" no_options)
    ∷ (expect "SELECT id, full_name FROM alter_test WHERE id = 1"
        (array ((object (("id", literal R "1") ∷ ("full_name", null) ∷ [])) ∷ [])) no_options)
    ∷ (succeeds "UPDATE alter_test SET full_name = 'name_updated' WHERE id = 1;" no_options)
    ∷ (expect "SELECT id, full_name FROM alter_test WHERE id = 1"
        (array ((object (("id", literal R "1") ∷ ("full_name", str "name_updated") ∷ [])) ∷ []))
        no_options)
    ∷ (succeeds "ALTER TABLE alter_test DROP COLUMN status;" no_options)
    ∷ (fails "SELECT id, status FROM alter_test WHERE id = 1;" no_options)
    ∷ (expect "SELECT id, full_name FROM alter_test WHERE id = 1"
        (array ((object (("id", literal R "1") ∷ ("full_name", str "name_updated") ∷ [])) ∷ []))
        no_options)
    ∷ []
