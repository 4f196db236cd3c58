-- ===== src/Events/Requests.antt =====
-- Any sequence of requests on the registry, each served whole before the next.
use Prim.Native.String.{String}
use text.Mathlib.Text.{◌==◌}
use text.Mathlib.TextEquality.{eq_iff}
use wa_calls.Base.{
  ℕ, ◌≡◌, ◌⊎◌, inl, inr, refl, Bool, true, false, Option, none, some, List, [], ◌∷◌, arith,
  Bool-cases, subst, sym,
}
use wa_calls.Core.{CallState}
use wa_calls.Events.Dict.{lookup, without}
use wa_calls.Events.Registry.{
  CallStatus, CallRecord, Broker, is_over, claim, upsert_call, first_active, get_call,
  set_call_photo, set_owner, owner_active_call, end_call, photo_for,
}
use wa_calls.Events.Clients.{
  accept_call, claimed, on_state_change, over_or_changed, refreshed, map_status, on_incoming,
  dial_call, start_group_call,
}
use wa_calls.Events.Ownership.{
  IsLive, IsFree, IsExclusive, first_active-IsFree, lookup-IsFree, insert-IsExclusive,
  upsert_call-IsExclusive, end_call-IsExclusive,
}

pub data Request : Type 0 where
  incoming : CallRecord → (is_video : Bool) → Request
  state_change : CallState → CallRecord → (reason : String) → ℕ → (inserted : Bool) → Request
  dial : (owner : String) → CallRecord → Request
  start_group :
      (owner : String)
      → CallRecord
      → (phones : List String) → (is_video : Bool) → (group_jid : String) → Request
  accept : (has_call : Bool) → (session_id id owner : String) → Request
  end_of : (id reason : String) → ℕ → (inserted : Bool) → Request
  photo : (id url : String) → Request

abbrev pub serve : Broker → Request → Broker
serve b (Request.incoming r is_video) = on_incoming b r is_video
serve b (Request.state_change s r reason now inserted) = on_state_change b s r reason now inserted
serve b (Request.dial owner r) = (dial_call b owner r).1
serve b (Request.start_group owner r phones is_video group_jid) =
    start_group_call b owner r phones is_video group_jid
serve b (Request.accept has_call session_id id owner) =
    (accept_call b has_call session_id id owner).1
serve b (Request.end_of id reason now inserted) = end_call b id reason now inserted
serve b (Request.photo id url) = set_call_photo b id url

abbrev pub serve_all : Broker → List Request → Broker
serve_all b [] = b
serve_all b (q ∷ qs) = serve_all (serve b q) qs

-- The calls that a request brings in have an id, and a group call is started by a client on no other
-- call, which its handler does not check.
abbrev pub IsTimely : Broker → Request → Type 0
IsTimely b (Request.incoming r is_video) = (r.call_id == "") ≡ false
IsTimely b (Request.state_change s r reason now inserted) = (r.call_id == "") ≡ false
IsTimely b (Request.dial owner r) = (r.call_id == "") ≡ false
IsTimely b (Request.start_group owner r phones is_video group_jid) =
    ((r.call_id == "") ≡ false) × (owner_active_call b owner ≡ "")
IsTimely b _ = Unit

abbrev pub AllTimely : Broker → List Request → Type 0
AllTimely b [] = Unit
AllTimely b (q ∷ qs) = IsTimely b q × AllTimely (serve b q) qs

module _ (b : Broker) (h : IsExclusive b.calls) where
  on_incoming-IsExclusive :
      (r : CallRecord) (is_video : Bool)
      → ((r.call_id == "") ≡ false)
      → IsExclusive (on_incoming b r is_video).calls
  unfolding on_incoming
  on_incoming-IsExclusive r is_video n = upsert_call-IsExclusive b _ h (n, refl, refl) tt

  refreshed-IsExclusive :
      (r : CallRecord) (o : Option CallRecord)
      → lookup r.call_id b.calls ≡ o
      → ((r.call_id == "") ≡ false)
      → (is_over r.status ≡ false)
      → (r.owner ≡ none)
      → IsExclusive (upsert_call b (refreshed o r)).calls
  refreshed-IsExclusive r none e n l u =
      upsert_call-IsExclusive b r h (n, l, refl)
        (subst (λ q. IsFree q (without r.call_id b.calls)) (sym u) tt)
  refreshed-IsExclusive r (some c) e n l u =
      upsert_call-IsExclusive b _ h (n, l, refl) (lookup-IsFree r.call_id c b.calls h e).1

  known-IsExclusive :
      (r : CallRecord) (s : CallStatus)
      → ((r.call_id == "") ≡ false)
      → (is_over s ≡ false)
      → (r.owner ≡ none)
      → IsExclusive
          (upsert_call b (refreshed (get_call b r.call_id) (record r { status = s }))).calls
  unfolding get_call
  known-IsExclusive r s n l u =
      refreshed-IsExclusive (record r { status = s }) (lookup r.call_id b.calls) refl n l u

  on_state_change-IsExclusive :
      (s : CallState) (r : CallRecord) (reason : String) (now : ℕ) (inserted : Bool)
      → ((r.call_id == "") ≡ false)
      → IsExclusive (on_state_change b s r reason now inserted).calls
  unfolding on_state_change
  on_state_change-IsExclusive s r reason now inserted n = go s
    where
      r' : CallRecord
      r' = record r { owner = none }

      go :
          (s : CallState)
          → IsExclusive
              (over_or_changed s (end_call b r.call_id reason now inserted) (
                upsert_call b
                  (refreshed (get_call b r.call_id) (record r' { status = map_status s })))).calls
      go CallState.ended = end_call-IsExclusive b r.call_id reason now inserted h
      go CallState.initiating = known-IsExclusive r' _ n refl refl
      go CallState.ringing = known-IsExclusive r' _ n refl refl
      go CallState.incoming_ringing = known-IsExclusive r' _ n refl refl
      go CallState.connecting = known-IsExclusive r' _ n refl refl
      go CallState.active = known-IsExclusive r' _ n refl refl
      go CallState.on_hold = known-IsExclusive r' _ n refl refl
      go CallState.reconnecting = known-IsExclusive r' _ n refl refl

  dial_call-IsExclusive :
      (owner : String) (r : CallRecord)
      → ((r.call_id == "") ≡ false)
      → IsExclusive (dial_call b owner r).1.calls
  unfolding dial_call owner_active_call
  dial_call-IsExclusive owner r n = elim (Bool-cases (owner == "")) [
    | inl p ↦ ground (
      arith,
      upsert_call-IsExclusive b (record r { owner = none; status = CallStatus.ringing }) h
          (n, refl, refl) tt,
    )
    | inr p ↦ elim (Bool-cases (first_active owner b.calls == "")) [
      | inl q ↦
          let free =
            first_active-IsFree owner r.call_id b.calls h
              (inl ((eq_iff (first_active owner b.calls) "").0 q)) in
          ground (
            arith,
            q,
            upsert_call-IsExclusive b (record r { owner = some owner; status = CallStatus.ringing })
                h (n, refl, refl) free,
          )
      | inr q ↦ ground (arith, q, h)
    ]
  ]

  start_group_call-IsExclusive :
      (owner : String) (r : CallRecord) (phones : List String) (is_video : Bool)
      (group_jid : String)
      → ((r.call_id == "") ≡ false)
      → owner_active_call b owner ≡ ""
      → IsExclusive (start_group_call b owner r phones is_video group_jid).calls
  unfolding start_group_call owner_active_call
  start_group_call-IsExclusive owner r phones is_video group_jid n f =
      elim (Bool-cases (owner == "")) [
        | inl p ↦ ground (
          arith,
          upsert_call-IsExclusive b
              (record r { owner = none; peer_name = group_jid; status = CallStatus.ringing }) h
              (n, refl, refl) tt,
        )
        | inr p ↦
            let free = first_active-IsFree owner r.call_id b.calls h (inl (ground (arith, p, f))) in
            ground (
              arith,
              upsert_call-IsExclusive b
                  (record r {
                    owner = some owner;
                    peer_name = group_jid;
                    status = CallStatus.ringing;
                  })
                  h (n, refl, refl) free,
            )
      ]

  claim-IsExclusive :
      (id owner : String) (o : Option CallRecord)
      → lookup id b.calls ≡ o
      → (first_active owner b.calls ≡ "") ⊎ (first_active owner b.calls ≡ id)
      → IsExclusive (claim b id owner o).1.calls
  claim-IsExclusive id owner none e f = h
  claim-IsExclusive id owner (some c) e f =
      let taken =
        insert-IsExclusive id (record c { owner = some owner }) b.calls h
          (lookup-IsFree id c b.calls h e).0 (first_active-IsFree owner id b.calls h f) in
      ground (arith, h, taken)

  claimed-calls :
      (session_id id owner : String) (r : Bool × Broker)
      → (claimed b session_id id owner r).1.calls ≡ r.1.calls
  claimed-calls session_id id owner (true, b') = refl
  claimed-calls session_id id owner (false, b') = refl

  accept_call-IsExclusive :
      (has_call : Bool) (session_id id owner : String)
      → IsExclusive (accept_call b has_call session_id id owner).1.calls
  unfolding accept_call owner_active_call set_owner
  accept_call-IsExclusive has_call session_id id owner = elim (Bool-cases (owner == "")) [
    | inl p ↦ ground (arith, p, h)
    | inr p ↦ elim (Bool-cases (first_active owner b.calls == "")) [
      | inl q ↦ taken p (inl ((eq_iff (first_active owner b.calls) "").0 q))
      | inr q ↦ elim (Bool-cases (first_active owner b.calls == id)) [
        | inl s ↦ taken p (inr ((eq_iff (first_active owner b.calls) id).0 s))
        | inr s ↦ ground (arith, p, q, s, h)
      ]
    ]
  ]
    where
      taken :
          ((owner == "") ≡ false)
          → (first_active owner b.calls ≡ "") ⊎ (first_active owner b.calls ≡ id)
          → IsExclusive (accept_call b has_call session_id id owner).1.calls
      taken p f = ground (
        arith,
        p,
        h,
        claim-IsExclusive id owner (lookup id b.calls) refl f,
        claimed-calls session_id id owner (claim b id owner (lookup id b.calls)),
      )

  set_call_photo-IsExclusive : (id url : String) → IsExclusive (set_call_photo b id url).calls
  unfolding set_call_photo get_call
  set_call_photo-IsExclusive id url = go (lookup id b.calls) refl
    where
      go : (o : Option CallRecord) → lookup id b.calls ≡ o → IsExclusive (photo_for b url o).calls
      go none e = h
      go (some c) e =
          let (live, free) = lookup-IsFree id c b.calls h e in
          let here : id ≡ c.call_id = sym live.2 in
          ground (
            arith,
            h,
            upsert_call-IsExclusive b (record c { peer_photo_url = url }) h
                (subst (λ k. IsLive (k, c)) here live)
                (subst (λ k. IsFree c.owner (without k b.calls)) here free),
          )

serve-IsExclusive :
    (b : Broker) (q : Request) → IsTimely b q → IsExclusive b.calls → IsExclusive (serve b q).calls
serve-IsExclusive b (Request.incoming r is_video) n h = on_incoming-IsExclusive b h r is_video n
serve-IsExclusive b (Request.state_change s r reason now inserted) n h =
    on_state_change-IsExclusive b h s r reason now inserted n
serve-IsExclusive b (Request.dial owner r) n h = dial_call-IsExclusive b h owner r n
serve-IsExclusive b (Request.start_group owner r phones is_video group_jid) n h =
    start_group_call-IsExclusive b h owner r phones is_video group_jid n.0 n.1
serve-IsExclusive b (Request.accept has_call session_id id owner) n h =
    accept_call-IsExclusive b h has_call session_id id owner
serve-IsExclusive b (Request.end_of id reason now inserted) n h =
    end_call-IsExclusive b id reason now inserted h
serve-IsExclusive b (Request.photo id url) n h = set_call_photo-IsExclusive b h id url

-- On a registry in which every call is under its own id and not over and no two calls have the same
-- owner, this is so after any sequence of requests, each served whole before the next, that bring in
-- calls with an id and in which a group call is started only by a client that owns no other.
pub serve_all-IsExclusive :
    (b : Broker) (qs : List Request)
    → AllTimely b qs
    → IsExclusive b.calls
    → IsExclusive (serve_all b qs).calls
serve_all-IsExclusive b [] n h = h
serve_all-IsExclusive b (q ∷ qs) n h =
    serve_all-IsExclusive (serve b q) qs n.1 (serve-IsExclusive b q n.0 h)
