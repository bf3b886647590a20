-- ===== src/Scripts/Suites/Literals.antt =====
-- js-scripts/app.js: the checks of literals.
use wwfsdb.Base.{List, [], ◌∷◌}
use wwfsdb.Js.Value.{str, object, array}
use wwfsdb.Js.Runtime.{Runtime}
use wwfsdb.Scripts.Suite.{Test, no_options, expect, succeeds, literal}

-- `runAdvancedLiteralTests`
unfoldable pub advanced_literal_tests : (R : Runtime) → List (Test R.Num)
advanced_literal_tests R =
    (succeeds
      "CREATE TABLE literal_test (\n        id INT, \n        name VARCHAR(50),\n        hex_value INT,\n        bin_value INT,\n        sci_value FLOAT,\n        unicode_name VARCHAR(50)\n    );"
      no_options)
    ∷ (succeeds
        "INSERT INTO literal_test VALUES \n        (1, 'Sci Notation Test', 0xFF, 0b1010, 1.23e-4, 'αβγ_delta');"
        no_options)
    ∷ (expect "SELECT sci_value FROM literal_test WHERE id = 1;"
        (array ((object (("sci_value", literal R "0.000123") ∷ [])) ∷ [])) no_options)
    ∷ (succeeds
        "INSERT INTO literal_test VALUES \n        (2, 'Hex Test', 0x1A2F, 0b1111, 2.5E+5, 'ñame_ü');"
        no_options)
    ∷ (expect "SELECT hex_value FROM literal_test WHERE id = 2;"
        (array ((object (("hex_value", literal R "6703") ∷ [])) ∷ [])) no_options)
    ∷ (succeeds
        "INSERT INTO literal_test VALUES \n        (3, 'Binary Test', 0XFF, 0B11111111, 3.14e10, 'unicode_θ');"
        no_options)
    ∷ (expect "SELECT bin_value FROM literal_test WHERE id = 3;"
        (array ((object (("bin_value", literal R "255") ∷ [])) ∷ [])) no_options)
    ∷ (succeeds
        "INSERT INTO literal_test VALUES \n        (4, 'Unicode Test: αβγ_δ', 0x0, 0b0, 1.0, 'café_Москва');"
        no_options)
    ∷ (expect "SELECT name FROM literal_test WHERE id = 4;"
        (array ((object (("name", str "Unicode Test: αβγ_δ") ∷ [])) ∷ [])) no_options)
    ∷ (succeeds
        "\n        -- Complex test with mixed literal formats\n        INSERT INTO literal_test VALUES \n               (5, \n               'Mixed Format Test' /* inline comment */,\n               0xDEADBEEF,    -- hex literal\n               0b10101010,    -- binary literal\n               6.022e23,      -- scientific notation\n               'unicode_ñ_ü_θ'); -- Unicode string\n    "
        no_options)
    ∷ (expect "SELECT hex_value, bin_value, sci_value FROM literal_test WHERE id = 5;"
        (array (
          (object (
            ("hex_value", literal R "3735928559")
            ∷ ("bin_value", literal R "170")
            ∷ ("sci_value", literal R "6.022e23")
            ∷ []))
          ∷ []))
        no_options)
    ∷ (succeeds "CREATE TABLE \"DATE\" (id INT, \"TIME\" VARCHAR(50), \"TIMESTAMP\" FLOAT);"
        no_options)
    ∷ (succeeds "INSERT INTO \"DATE\" VALUES (1, '2023-01-01 12:00:00', 1672567200.0);" no_options)
    ∷ (expect "SELECT \"TIME\" FROM \"DATE\" WHERE id = 1;"
        (array ((object (("TIME", str "2023-01-01 12:00:00") ∷ [])) ∷ [])) no_options)
    ∷ (succeeds "DROP TABLE \"DATE\";" no_options)
    ∷ []
