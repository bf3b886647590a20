-- ===== src/Market/Page/Tables.antt =====
-- What the lists of the page show.
use wwfsdb.Base.{◌≡◌, refl, ap, sym, ◌∙◌, String, false, List, [], ◌∷◌, map, arith}
use wwfsdb.Js.Value.{
  Value, Exn, type_error, Fields, obj, get_field, keys, array, ok, throw, traverse, Result,
}
use wwfsdb.Js.Runtime.{Runtime}
use wwfsdb.Js.Action.{World}
use wwfsdb.Http.{Response}
use wwfsdb.Pages.Settling.{items-array_items}
use wwfsdb.Market.Client.{read_request}
use wwfsdb.Market.Client.Outcome.{read_answer}
use wwfsdb.Market.Routes.{Route, MarketRequest, error_message, server_error, market_handle}
use wwfsdb.Market.Routes.Columns.{is_post, select_rows}
use wwfsdb.Market.Routes.Relay.{relay, market_handle-get}
use wwfsdb.Market.Page.{
  ListView, table, failed, cell_text, row_cells, make_table, caught, list_view,
}

module _ (R : Runtime) (engine_message : Exn → String)
    (odd : List (Value R.Num) → Result ListView) where
  open R use {Num}

  -- The line of a row below the headers.
  abbrev pub line_of : List String → Fields Num → List String
  line_of headers fs = map (λ header. cell_text R engine_message odd (get_field header fs)) headers

  row_cells_lem :
      (headers : List String) (fs : Fields Num)
      → row_cells R engine_message odd headers (obj fs) ≡ ok (line_of headers fs)
  row_cells_lem [] fs = refl
  row_cells_lem (header ∷ headers) fs = rw (row_cells, row_cells_lem headers fs)

  lines_lem :
      (headers : List String) (fss : List (Fields Num))
      → traverse (row_cells R engine_message odd headers) (map obj fss)
        ≡ ok (map (line_of headers) fss)
  lines_lem headers [] = refl
  lines_lem headers (fs ∷ fss) = rw (traverse, row_cells_lem headers fs, lines_lem headers fss)

  table_lem :
      (headers : List String) (fss : List (Fields Num))
      → make_table R engine_message odd headers (map obj fss)
        ≡ ok (table headers (map (line_of headers) fss))
  table_lem headers fss = rw (lines_lem headers fss)

-- An answer of rows that are objects, one at least, is shown as a table: its headers are the columns of
-- the first row, and each row has a line with the text of its value for each header, in order.
pub list_view-table :
    (R : Runtime) (engine_message : Exn → String) (odd : List (Value R.Num) → Result ListView)
    (fs : Fields R.Num) (fss : List (Fields R.Num))
    → list_view R engine_message odd (ok (array (map obj (fs ∷ fss))))
      ≡ table (keys fs) (map (line_of R engine_message odd (keys fs)) (fs ∷ fss))
unfolding list_view
list_view-table R engine_message odd fs fss = ap (caught R engine_message odd) (
    ap (λ rows. make_table R engine_message odd (keys fs) (obj fs ∷ rows))
      (items-array_items (map obj fss))
    ∙ table_lem R engine_message odd (keys fs) (fs ∷ fss))

-- When the database refuses the read of a `GET` route, or cannot be reached, the page's list shows the
-- engine's message for a property of `undefined`, whatever message the route has answered with.
pub list_view-market_handle :
    (R : Runtime) (engine_message : Exn → String) (odd : List (Value R.Num) → Result ListView)
    (route : Route) (request : MarketRequest R.Num) (w : World R.Server) (e : Exn)
    (r : Response R.Num)
    → is_post route ≡ false
    → read_answer R (R.post (read_request (select_rows route request.params_id)) w.server).0
      ≡ throw e
    → (market_handle R engine_message route request w).0 ≡ ok r
    → (r.status ≡ 500)
      × (list_view R engine_message odd (ok r.body) ≡ failed (engine_message type_error))
unfolding list_view error_message
list_view-market_handle R engine_message odd route request w e r h refused answered =
    let i = market_handle-get R engine_message route request w h in
    let same : ok (server_error R engine_message e) ≡ ok r =
      sym (i.result ∙ ap (λ o. ok (relay R engine_message o)) refused) ∙ answered in
    let response : server_error R engine_message e ≡ r = ground arith in
    rw (← response) (refl, refl)
