-- ===== src/Scripts/Suites/Auth.antt =====
-- js-scripts/app.js: the checks of who may write, and of the types of the columns.
use wwfsdb.Base.{List, [], ◌∷◌}
use wwfsdb.Js.Value.{str, object, array}
use wwfsdb.Js.Runtime.{Runtime}
use wwfsdb.Scripts.Suite.{Test, no_options, without_key, with_key, expect, succeeds, fails, literal}

-- `runAuthTests`
unfoldable pub auth_tests : (R : Runtime) → List (Test R.Num)
auth_tests R =
    (fails "INSERT INTO data_types_test VALUES (998, 'Auth Test 1', 1.0, true);" without_key)
    ∷ (fails "INSERT INTO data_types_test VALUES (999, 'Auth Test 2', 1.0, true);"
        (with_key (str "aaaaaaaaaaaaaaaaaaaaaaaaaaaaaaaaaaaaaaaaaaaaaaaaaaaaaaaaaaaaaaaa")))
    ∷ (succeeds "INSERT INTO data_types_test VALUES (1000, 'Auth Test 3', 1.0, true);" no_options)
    ∷ (expect "SELECT id FROM data_types_test WHERE id = 1000"
        (array ((object (("id", literal R "1000") ∷ [])) ∷ [])) without_key)
    ∷ []
