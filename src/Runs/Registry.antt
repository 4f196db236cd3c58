-- ===== src/Runs/Registry.antt =====
-- The registry of calls on a few requests, and the export of a short history.
use Prim.Native.String.{String}
use text.Mathlib.TextEquality.{eq_iff}
use wa_calls.Base.{
  ℕ, ◌≡◌, refl, ap, true, false, none, some, List, [], ◌∷◌, ◌++◌, arith, take, drop, get_or, subst,
  length, length-append, if◌then◌else◌,
}
use wa_calls.Core.{CallState}
use wa_calls.Events.Registry.{
  CallStatus, CallRecord, StoredCall, Broker, upsert_call, get_call, set_owner, owner_active_call,
  end_call, set_call_photo,
}
use wa_calls.Events.Clients.{accept_call, on_incoming, on_state_change, dial_call, start_group_call}
use wa_calls.Events.Ownership.{IsExclusive}
use wa_calls.Events.Requests.{Request, serve_all, serve_all-IsExclusive}
use wa_calls.Events.Claims.{Claims, owner_in, set_owner-Claims, set_owner-twice}
use wa_calls.Events.History.{is_no_cursor, cursor_of, row_of_stored, StoreList, history_export}
use wa_calls.Events.Export.{history_export_complete}

program : Unit {0}
unfolding upsert_call get_call set_owner owner_active_call end_call set_call_photo accept_call
    on_incoming on_state_change dial_call start_group_call
program = tt

abbrev record_of : String → CallRecord
record_of id = record {
  session_id = "line";
  call_id = id;
  owner = none;
  direction = "inbound";
  peer = "peer";
  peer_name = "";
  peer_photo_url = "";
  started_at = 5;
  status = CallStatus.ringing;
  ended_at = none;
  end_reason = "";
}

abbrev idle : Broker
idle = record {
  calls = [];
  has_records = true;
  has_callback = false;
  has_webhooks = true;
  queued = 0;
  sent = [];
}

-- Two calls ring; ann accepts the first, and is refused the second.
abbrev requests : List Request
requests =
    Request.incoming (record_of "a") false
    ∷ Request.incoming (record_of "b") true
    ∷ Request.accept true "line" "a" "ann"
    ∷ Request.state_change CallState.active (record_of "a") "" 7 true
    ∷ Request.accept true "line" "b" "ann"
    ∷ Request.start_group "bob" (record_of "g") ("3" ∷ "4" ∷ []) false "group"
    ∷ []

requests_run :
    (owner_in (get_call (serve_all idle requests) "a") ≡ some "ann")
    × (owner_in (get_call (serve_all idle requests) "b") ≡ none)
unfolding program
requests_run = (refl, refl)

serve_all-IsExclusive_example : IsExclusive (serve_all idle requests).calls
unfolding program
serve_all-IsExclusive_example =
    serve_all-IsExclusive idle requests (refl, (refl, (tt, (refl, (tt, ((refl, refl), tt)))))) tt

abbrev ringing_pair : Broker
ringing_pair = record idle { calls = ("a", record_of "a") ∷ ("b", record_of "b") ∷ [] }

set_owner-Claims_example :
    let (answer, b) = set_owner ringing_pair "b" "ann" in Claims ringing_pair "b" "ann" answer b
set_owner-Claims_example = set_owner-Claims ringing_pair "b" "ann" refl

set_owner-twice_example :
    let (first, b1) = set_owner ringing_pair "a" "ann" in
    let (second, b2) = set_owner b1 "b" "ann" in
    (first ≡ true)
    × (second ≡ true)
    × (owner_in (get_call b2 "a") ≡ some "ann")
    × (owner_in (get_call b2 "b") ≡ some "ann")
unfolding get_call
set_owner-twice_example =
    set_owner-twice ringing_pair "a" "b" "ann" (record_of "a") (record_of "b")
      (λ e. absurd (ground (arith, (eq_iff "a" "b").1 e))) refl refl refl refl refl

abbrev old_call : StoredCall
old_call = record {
  call_id = "a";
  session_id = "line";
  owner = some "ann";
  direction = "inbound";
  peer = "peer";
  started_at = 5;
  ended_at = 9;
  end_reason = "timeout";
}

-- A store with one record.
abbrev one_record : StoreList
one_record session_id n before =
    if is_no_cursor before then some (take n (old_call ∷ [])) else some (take n [])

after_the_record :
    (n : ℕ) (front : List StoredCall) (r : StoredCall) (back : List StoredCall)
    → (old_call ∷ []) ≡ front ++ (r ∷ back)
    → one_record "line" n (cursor_of r) ≡ some (take n back)
after_the_record n [] r back e =
    let rest : [] ≡ back = ap (drop 1) e in
    let same : old_call ≡ r = ap (λ xs. get_or xs 0 old_call) e in
    subst (λ v. one_record "line" n (cursor_of v) ≡ some (take n back)) same
      (subst (λ xs. some (take n []) ≡ some (take n xs)) rest refl)
after_the_record n (x ∷ front) r back e =
    absurd (omega (arith, length-append front (r ∷ back), ap length e))

history_export_complete_example :
    history_export 2 true one_record "line" ≡ some (row_of_stored old_call ∷ [])
history_export_complete_example =
    history_export_complete one_record "line" (old_call ∷ [])
      (record { first = λ n. refl; after = after_the_record }) (refl, tt)
