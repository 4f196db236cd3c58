-- ===== src/Runs/Clients.antt =====
-- The theorems on the client of calls, at concrete histories.
use Prim.Native.String.{String}
use text.Mathlib.TextEquality.{eq_iff}
use wa_calls.Base.{◌≡◌, true, none, some, List, [], ◌∷◌, arith, replicate}
use wa_calls.Core.{audio, video, EndCallReason}
use wa_calls.Call.Deadline.{default_timeouts}
use wa_calls.Call.Manager.Signals.{Offer}
use wa_calls.Call.Manager.Histories.{Happening}
use wa_calls.Call.Client.{Client, new_client, deliver, is_full}
use wa_calls.Call.Client.Histories.{Event, serve, serve_all}
use wa_calls.Call.Client.Others.{serve-Leaves}
use wa_calls.Events.Dict.{lookup}
use wa_calls.Runs.Manager.{example_env, acked}

abbrev offer : String → Offer
offer id = record {
  call_id = id;
  creator = "";
  media = video;
  attribute_relays = [];
  structured = acked;
}

abbrev day : List Event
day =
    Event.offer_comes (offer "in") "2:1@s.whatsapp.net" (some (some (replicate 32 5))) 4
    ∷ Event.starts "out" "3@s.whatsapp.net" (replicate 32 9) audio (some []) true 5 9
    ∷ Event.offer_comes (offer "late") "4@s.whatsapp.net" (some none) 10
    ∷ Event.accepts_call "in" true 11
    ∷ Event.happens "in" (Happening.relay_connects 12)
    ∷ Event.ends "in" (some EndCallReason.user_ended) 20
    ∷ Event.removes "in"
    ∷ []

abbrev busy_client : Client
busy_client = serve_all example_env default_timeouts (new_client 2) day

serve-Leaves_example :
    lookup "out" (serve example_env default_timeouts busy_client (Event.ends "in" none 30)).calls
    ≡ lookup "out" busy_client.calls
serve-Leaves_example =
    serve-Leaves example_env default_timeouts busy_client (Event.ends "in" none 30) "out"
      (λ e. absurd (ground (arith, (eq_iff "in" "out").1 e)))
