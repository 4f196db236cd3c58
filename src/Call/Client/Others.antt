-- ===== src/Call/Client/Others.antt =====
-- What happens to one call leaves the others.
use Prim.Native.String.{String}
use text.Mathlib.Text.{◌==◌}
use wa_calls.Base.{ℕ, ◌≡◌, ◌≢◌, refl, ◌∙◌, Option, none, some, List, if_cases}
use wa_calls.Call.Deadline.{Timeouts}
use wa_calls.Call.Manager.State.{CallManager}
use wa_calls.Call.Manager.Keys.{Env}
use wa_calls.Call.Manager.Locally.{CallError}
use wa_calls.Call.Manager.Signals.{Offer}
use wa_calls.Call.Client.{
  Client, remove, deliver, deliver_to, ask, asked_of, is_full, handle_offer, known_or_new,
  decrypted_offer, start_call, placed_or_not,
}
use wa_calls.Call.Client.Histories.{Event, serve}
use wa_calls.Events.Dict.{lookup, insert, lookup-insert_ne, lookup-without_ne}

-- The calls that an event is for.
abbrev pub IsAbout : Event → String → Type 0
IsAbout (Event.offer_comes o peer key now) j = o.call_id ≡ j
IsAbout (Event.starts id peer key media built answered now later) j = id ≡ j
IsAbout (Event.accept_comes id peer rekey msg_id b now) j = id ≡ j
IsAbout (Event.transport_comes id relays parsed b) j = id ≡ j
IsAbout (Event.latency_comes id parsed) j = id ≡ j
IsAbout (Event.terminate_comes id sender why now) j = id ≡ j
IsAbout (Event.video_comes id stanza_id from state b) j = id ≡ j
IsAbout (Event.video_starts id b) j = id ≡ j
IsAbout (Event.video_stops id b) j = id ≡ j
IsAbout (Event.accepts_call id built now) j = id ≡ j
IsAbout (Event.sets_up id call d) j = id ≡ j
IsAbout (Event.holds id now) j = id ≡ j
IsAbout (Event.resumes id now) j = id ≡ j
IsAbout (Event.rejects id why now) j = id ≡ j
IsAbout (Event.ends id why now) j = id ≡ j
IsAbout (Event.removes id) j = id ≡ j
IsAbout Event.drains j = Unit
IsAbout (Event.happens id h) j = id ≡ j

abbrev Leaves : String → Client → Client → Type 0
Leaves j c c' = lookup j c'.calls ≡ lookup j c.calls

deliver-Leaves :
    (c : Client) (id j : String) (f : CallManager → CallManager)
    → id ≢ j
    → Leaves j c (deliver c id f)
unfolding deliver
deliver-Leaves c id j f ne = go (lookup id c.calls)
  where
    go : (o : Option CallManager) → Leaves j c (deliver_to c id f o)
    go none = refl
    go (some m) = lookup-insert_ne id j (f m) c.calls ne

ask-Leaves :
    (c : Client) (id j : String) (f : CallManager → CallManager × Option CallError)
    → id ≢ j
    → Leaves j c (ask c id f).0
ask-Leaves c id j f ne = go (lookup id c.calls)
  where
    go : (o : Option CallManager) → Leaves j c (asked_of c id f o).0
    go none = refl
    go (some m) = lookup-insert_ne id j (f m).0 c.calls ne

module _ (env : Env) (t : Timeouts) where
  offer-Leaves :
      (c : Client) (o : Offer) (peer : String) (key : Option (Option (List ℕ))) (now : ℕ)
      (j : String)
      → o.call_id ≢ j
      → Leaves j c (handle_offer env c o peer key now)
  unfolding handle_offer
  offer-Leaves c o peer key now j ne =
      if_cases (Leaves j c) (o.call_id == "") c _ (λ _. refl)
        (λ _. known (lookup o.call_id c.calls))
    where
      decrypted : (k : Option (Option (List ℕ))) → Leaves j c (decrypted_offer env c o peer k now)
      decrypted none = refl
      decrypted (some k) = lookup-insert_ne o.call_id j _ c.calls ne

      known : (m : Option CallManager) → Leaves j c (known_or_new env c o peer key now m)
      known (some m) = refl
      known none = if_cases (Leaves j c) (is_full c) _ _ (λ _. refl) (λ _. decrypted key)

  placed_or_not-Leaves :
      (c : Client) (id j : String) (r : CallManager × Option CallError)
      → id ≢ j
      → Leaves j c (placed_or_not env c id r).0
  unfolding remove
  placed_or_not-Leaves c id j (m, none) ne = lookup-insert_ne id j m c.calls ne
  placed_or_not-Leaves c id j (m, some e) ne =
      lookup-without_ne id j (insert id m c.calls) ne ∙ lookup-insert_ne id j m c.calls ne

  -- What happens to a call, an offer, a command, a stanza or its removal, leaves the manager of every
  -- other call as it is.
  pub serve-Leaves :
      (c : Client) (e : Event) (j : String)
      → ¬ IsAbout e j
      → lookup j (serve env t c e).calls ≡ lookup j c.calls
  unfolding start_call remove
  serve-Leaves c (Event.offer_comes o peer key now) j ne = offer-Leaves c o peer key now j ne
  serve-Leaves c (Event.starts id peer key media built answered now later) j ne =
      placed_or_not-Leaves c id j _ ne
  serve-Leaves c (Event.accept_comes id peer rekey msg_id b now) j ne = deliver-Leaves c id j _ ne
  serve-Leaves c (Event.transport_comes id relays parsed b) j ne = deliver-Leaves c id j _ ne
  serve-Leaves c (Event.latency_comes id parsed) j ne = deliver-Leaves c id j _ ne
  serve-Leaves c (Event.terminate_comes id sender why now) j ne = deliver-Leaves c id j _ ne
  serve-Leaves c (Event.video_comes id stanza_id from state b) j ne =
      if_cases (Leaves j c) (id == "") c _ (λ _. refl) (λ _. deliver-Leaves c id j _ ne)
  serve-Leaves c (Event.video_starts id b) j ne = ask-Leaves c id j _ ne
  serve-Leaves c (Event.video_stops id b) j ne = ask-Leaves c id j _ ne
  serve-Leaves c (Event.accepts_call id built now) j ne = ask-Leaves c id j _ ne
  serve-Leaves c (Event.sets_up id call d) j ne = deliver-Leaves c id j _ ne
  serve-Leaves c (Event.holds id now) j ne = ask-Leaves c id j _ ne
  serve-Leaves c (Event.resumes id now) j ne = ask-Leaves c id j _ ne
  serve-Leaves c (Event.rejects id why now) j ne = ask-Leaves c id j _ ne
  serve-Leaves c (Event.ends id why now) j ne = deliver-Leaves c id j _ ne
  serve-Leaves c (Event.removes id) j ne = lookup-without_ne id j c.calls ne
  serve-Leaves c Event.drains j ne = absurd (ne tt)
  serve-Leaves c (Event.happens id h) j ne = deliver-Leaves c id j _ ne
