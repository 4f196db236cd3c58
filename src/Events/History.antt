-- ===== src/Events/History.antt =====
-- HistoryRows of internal/app/events/callregistry.go, and the loop of handleHistoryExport in
-- internal/app/history.go. The store's List is an argument: `none` is its error. The limit of a page
-- is positive, as both handlers have it.
use Prim.Native.String.{String}
use text.Mathlib.Text.{◌==◌}
use wa_calls.Base.{
  ℕ, zero, suc, ◌+◌, ◌-◌, Bool, true, false, ◌&&◌, Option, none, some, List, [], ◌++◌, map,
  if◌then◌else◌, ltb, leb, length, take, get_elem?, and_then,
}
use wa_calls.Events.Registry.{CallStatus, CallRecord, StoredCall}

pub record HistoryCursor : Type 0 where
  pub ended_at : ℕ
  pub call_id : String

abbrev pub no_cursor : HistoryCursor
no_cursor = record { ended_at = 0; call_id = "" }

-- `next == (core.HistoryCursor{})`
abbrev pub is_no_cursor : HistoryCursor → Bool
is_no_cursor c = leb c.ended_at 0 && (c.call_id == "")

abbrev pub cursor_of : StoredCall → HistoryCursor
cursor_of r = record { ended_at = r.ended_at; call_id = r.call_id }

abbrev pub row_of_stored : StoredCall → CallRecord
row_of_stored r = record {
  session_id = r.session_id;
  call_id = r.call_id;
  owner = r.owner;
  direction = r.direction;
  peer = r.peer;
  peer_name = "";
  peer_photo_url = "";
  started_at = r.started_at;
  status = CallStatus.ended;
  ended_at = some r.ended_at;
  end_reason = r.end_reason;
}

abbrev pub last_cursor : Option StoredCall → HistoryCursor
last_cursor none = no_cursor
last_cursor (some r) = cursor_of r

-- The page that HistoryRows cuts from the limit + 1 records it asked for.
abbrev pub page_of : ℕ → List StoredCall → List CallRecord × HistoryCursor
page_of limit recs =
    if ltb limit (length recs)
    then (
      map row_of_stored (take limit recs),
      last_cursor (get_elem? (take limit recs) (limit - 1)),
    )
    else (map row_of_stored recs, no_cursor)

abbrev pub StoreList : Type 0
StoreList = String → ℕ → HistoryCursor → Option (List StoredCall)

unfoldable pub history_rows :
    Bool → StoreList → String → ℕ → HistoryCursor → Option (List CallRecord × HistoryCursor)
history_rows false list session_id limit before = some ([], no_cursor)
history_rows true list session_id limit before =
    and_then (list session_id (limit + 1) before) (λ recs. some (page_of limit recs))

abbrev pub history_export_page_size : ℕ
history_export_page_size = 500

-- What a round of the export's loop makes of its test and of the next page: the rows written.
abbrev pub written :
    List CallRecord
    → Bool
    → Option (List CallRecord × HistoryCursor)
    → (List CallRecord × HistoryCursor → Option (List CallRecord))
    → Option (List CallRecord)
written rows true answer loop = some rows
written rows false none loop = some rows
written rows false (some page) loop = and_then (loop page) (λ more. some (rows ++ more))

-- The loop of the export: an error of the store ends it.
unfoldable pub export_from :
    ℕ → Bool → StoreList → String → ℕ → List CallRecord × HistoryCursor → Option (List CallRecord)
export_from zero has_records list session_id limit (rows, next) = none
export_from (suc n) has_records list session_id limit (rows, next) =
    written rows (is_no_cursor next) (history_rows has_records list session_id limit next)
      (λ page. export_from n has_records list session_id limit page)

-- `none` is also the answer 500, where the first page fails.
unfoldable pub history_export : ℕ → Bool → StoreList → String → Option (List CallRecord)
history_export n has_records list session_id =
    and_then (history_rows has_records list session_id history_export_page_size no_cursor)
      (export_from n has_records list session_id history_export_page_size)
