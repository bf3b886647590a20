-- ===== src/Scripts/Suites/Whitespace.antt =====
-- js-scripts/app.js: the checks of white space and comments.
use wwfsdb.Base.{String, List, [], ◌∷◌, ◌++◌, map}
use wwfsdb.Js.Value.{str, object, array}
use wwfsdb.Js.Runtime.{Runtime}
use wwfsdb.Scripts.Suite.{Test, no_options, expect, succeeds, literal}

abbrev multiline_query : String
multiline_query =
    "\n        INSERT INTO comment_test \n        VALUES \n            (1, \n             'Multiline Test', \n             123.45);"

abbrev indented_queries : List String
indented_queries =
    "INSERT INTO comment_test VALUES\n            (4, 'Tab Indent', 10.0);"
    ∷ "   INSERT INTO comment_test VALUES\n              (5, 'Space Indent', 20.0);"
    ∷ "INSERT INTO comment_test VALUES \n             (6, 'Continuation Line', 30.0);" ∷ []

-- `runWhitespaceAndCommentTests`
unfoldable pub whitespace_and_comment_tests : (R : Runtime) → List (Test R.Num)
whitespace_and_comment_tests R =
    (succeeds "CREATE TABLE comment_test (id INT, name VARCHAR(50), value FLOAT);" no_options)
    ∷ (succeeds multiline_query no_options)
    ∷ (expect
        "SELECT \n             id, \n             name, \n             value \n         FROM comment_test \n         WHERE id = 1;"
        (array (
          (object (
            ("id", literal R "1")
            ∷ ("name", str "Multiline Test")
            ∷ ("value", literal R "123.45")
            ∷ []))
          ∷ []))
        no_options)
    ∷ (succeeds
        "INSERT INTO comment_test -- This is a comment\n                                VALUES (2, 'Comment Test', 99.99);"
        no_options)
    ∷ (expect
        "SELECT id /* inline comment */, name FROM comment_test WHERE value > 100; -- This finds values > 100"
        (array ((object (("id", literal R "1") ∷ ("name", str "Multiline Test") ∷ [])) ∷ []))
        no_options)
    ∷ (succeeds
        "INSERT INTO comment_test VALUES /* multiline\n    comment\n    spanning\n    lines */ (3, 'Multiline Comment Test', 75.25);"
        no_options)
    ∷ (expect "SELECT name FROM comment_test WHERE id = 3;"
        (array ((object (("name", str "Multiline Comment Test") ∷ [])) ∷ [])) no_options)
    ∷ (map (λ query. succeeds query no_options) indented_queries
        ++ ((expect "SELECT COUNT(*) FROM comment_test;"
              (array ((object (("COUNT(*)", literal R "6") ∷ [])) ∷ [])) no_options)
            ∷ (succeeds
                "\n        -- This is a complex test combining various formatting features\n        INSERT INTO comment_test VALUES \n               (7, \n               'Complex Format' /* inline comment */,\n               42.0); -- end of line comment"
                no_options)
            ∷ (expect "SELECT name, value FROM comment_test WHERE id = 7; -- with comment"
                (array (
                  (object (("name", str "Complex Format") ∷ ("value", literal R "42.0") ∷ []))
                  ∷ []))
                no_options)
            ∷ []))
