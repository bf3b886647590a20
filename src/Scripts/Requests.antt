-- ===== src/Scripts/Requests.antt =====
-- What the test script posts over its whole run.
use wwfsdb.Js.Runtime.{Runtime}
