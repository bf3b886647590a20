-- ===== src/Scripts/Suites/Queries.antt =====
-- js-scripts/app.js: the checks of orders, limits, groups and aggregates.
use wwfsdb.Base.{String, List, [], ◌∷◌, ◌++◌, map}
use wwfsdb.Js.Value.{str, object, array}
use wwfsdb.Js.Convert.{join}
use wwfsdb.Js.Runtime.{Runtime}
use wwfsdb.Scripts.Suite.{Test, no_options, expect, expect_ordered, succeeds, literal}

abbrev sales_data : List String
sales_data =
    "(1, 'electronics', 'north', 120.50, 2)" ∷ "(2, 'books', 'south', 15.00, 3)"
    ∷ "(3, 'electronics', 'north', 75.00, 1)" ∷ "(4, 'clothing', 'west', 45.99, 5)"
    ∷ "(5, 'books', 'north', 25.00, 2)" ∷ "(6, 'clothing', 'south', 80.25, 2)"
    ∷ "(7, 'electronics', 'west', 250.00, 1)" ∷ "(8, 'books', 'south', 10.00, 1)" ∷ []

-- `runAdvancedQueryTests`
unfoldable pub advanced_query_tests : (R : Runtime) → List (Test R.Num)
advanced_query_tests R =
    (succeeds
      "CREATE TABLE sales (id INT, category VARCHAR(50), region VARCHAR(50), amount FLOAT, quantity INT);"
      no_options)
    ∷ (map (λ row. succeeds (join "" ("INSERT INTO sales VALUES " ∷ row ∷ ";" ∷ [])) no_options)
          sales_data
        ++ ((expect_ordered "SELECT id FROM sales ORDER BY amount DESC;"
              (array (
                (object (("id", literal R "7") ∷ []))
                ∷ (object (("id", literal R "1") ∷ []))
                ∷ (object (("id", literal R "6") ∷ []))
                ∷ (object (("id", literal R "3") ∷ []))
                ∷ (object (("id", literal R "4") ∷ []))
                ∷ (object (("id", literal R "5") ∷ []))
                ∷ (object (("id", literal R "2") ∷ []))
                ∷ (object (("id", literal R "8") ∷ []))
                ∷ []))
              no_options)
            ∷ (expect_ordered "SELECT id FROM sales ORDER BY category ASC, amount DESC;"
                (array (
                  (object (("id", literal R "5") ∷ []))
                  ∷ (object (("id", literal R "2") ∷ []))
                  ∷ (object (("id", literal R "8") ∷ []))
                  ∷ (object (("id", literal R "6") ∷ []))
                  ∷ (object (("id", literal R "4") ∷ []))
                  ∷ (object (("id", literal R "7") ∷ []))
                  ∷ (object (("id", literal R "1") ∷ []))
                  ∷ (object (("id", literal R "3") ∷ []))
                  ∷ []))
                no_options)
            ∷ (expect_ordered "SELECT id FROM sales ORDER BY amount DESC LIMIT 3;"
                (array (
                  (object (("id", literal R "7") ∷ []))
                  ∷ (object (("id", literal R "1") ∷ []))
                  ∷ (object (("id", literal R "6") ∷ []))
                  ∷ []))
                no_options)
            ∷ (expect_ordered "SELECT id FROM sales ORDER BY amount DESC OFFSET 2;"
                (array (
                  (object (("id", literal R "6") ∷ []))
                  ∷ (object (("id", literal R "3") ∷ []))
                  ∷ (object (("id", literal R "4") ∷ []))
                  ∷ (object (("id", literal R "5") ∷ []))
                  ∷ (object (("id", literal R "2") ∷ []))
                  ∷ (object (("id", literal R "8") ∷ []))
                  ∷ []))
                no_options)
            ∷ (expect_ordered "SELECT id FROM sales ORDER BY amount DESC LIMIT 2 OFFSET 3;"
                (array (
                  (object (("id", literal R "3") ∷ []))
                  ∷ (object (("id", literal R "4") ∷ []))
                  ∷ []))
                no_options)
            ∷ (expect "SELECT COUNT(*) FROM sales;"
                (array ((object (("COUNT(*)", literal R "8") ∷ [])) ∷ [])) no_options)
            ∷ (expect "SELECT SUM(quantity) FROM sales;"
                (array ((object (("SUM(quantity)", literal R "17") ∷ [])) ∷ [])) no_options)
            ∷ (expect "SELECT AVG(amount) FROM sales;"
                (array ((object (("AVG(amount)", literal R "77.7175") ∷ [])) ∷ [])) no_options)
            ∷ (expect "SELECT MIN(amount) FROM sales;"
                (array ((object (("MIN(amount)", literal R "10.00") ∷ [])) ∷ [])) no_options)
            ∷ (expect "SELECT MAX(amount) FROM sales;"
                (array ((object (("MAX(amount)", literal R "250.00") ∷ [])) ∷ [])) no_options)
            ∷ (expect_ordered
                "SELECT category, COUNT(*) FROM sales GROUP BY category ORDER BY category ASC;"
                (array (
                  (object (("category", str "books") ∷ ("COUNT(*)", literal R "3") ∷ []))
                  ∷ (object (("category", str "clothing") ∷ ("COUNT(*)", literal R "2") ∷ []))
                  ∷ (object (("category", str "electronics") ∷ ("COUNT(*)", literal R "3") ∷ []))
                  ∷ []))
                no_options)
            ∷ (expect_ordered
                "SELECT region, SUM(amount) FROM sales GROUP BY region ORDER BY region ASC;"
                (array (
                  (object (("region", str "north") ∷ ("SUM(amount)", literal R "220.5") ∷ []))
                  ∷ (object (("region", str "south") ∷ ("SUM(amount)", literal R "105.25") ∷ []))
                  ∷ (object (("region", str "west") ∷ ("SUM(amount)", literal R "295.99") ∷ []))
                  ∷ []))
                no_options)
            ∷ (expect_ordered
                "SELECT category, AVG(quantity) FROM sales GROUP BY category ORDER BY category ASC;"
                (array (
                  (object (("category", str "books") ∷ ("AVG(quantity)", literal R "2") ∷ []))
                  ∷ (object
                      (("category", str "clothing") ∷ ("AVG(quantity)", literal R "3.5") ∷ []))
                  ∷ (object (
                      ("category", str "electronics")
                      ∷ ("AVG(quantity)", literal R "1.3333333333333333")
                      ∷ []))
                  ∷ []))
                no_options)
            ∷ (expect_ordered
                "SELECT region, MIN(amount), MAX(amount) FROM sales GROUP BY region ORDER BY region ASC;"
                (array (
                  (object (
                    ("region", str "north")
                    ∷ ("MIN(amount)", literal R "25.00")
                    ∷ ("MAX(amount)", literal R "120.50")
                    ∷ []))
                  ∷ (object (
                      ("region", str "south")
                      ∷ ("MIN(amount)", literal R "10.00")
                      ∷ ("MAX(amount)", literal R "80.25")
                      ∷ []))
                  ∷ (object (
                      ("region", str "west")
                      ∷ ("MIN(amount)", literal R "45.99")
                      ∷ ("MAX(amount)", literal R "250.00")
                      ∷ []))
                  ∷ []))
                no_options)
            ∷ []))
