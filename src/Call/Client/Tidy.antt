-- ===== src/Call/Client/Tidy.antt =====
-- What keeps a client within its limit, and its calls that are over without sessions.
use Prim.Native.String.{String}
use wa_calls.Base.{
  if◌then◌else◌, ℕ, ◌≤◌, ◌<◌, ◌≡◌, refl, Bool, true, false, Option, none, some, arith, All,
  if_cases,
}
use wa_calls.Call.Manager.State.{CallManager}
use wa_calls.Call.Manager.Quiet.{IsQuiet}
use wa_calls.Call.Manager.Locally.{CallError}
use wa_calls.Call.Client.{asked_of, Client, put, remove, count, deliver, deliver_to, ask, is_full}
use wa_calls.Events.Dict.{lookup, without-All, length-without, length-without_known, lookup-All}

abbrev pub IsQuietCall : String × CallManager → Type 0
IsQuietCall (id, m) = IsQuiet m

pub record IsTidy (n : ℕ) (c : Client) : Type 0 where
  pub limit : c.max_calls ≡ n
  pub bounded : 0 < n → count c ≤ n
  pub quiet : All IsQuietCall c.calls

pub put-known_IsTidy :
    (n : ℕ) (c : Client) (id : String) (m m' : CallManager)
    → IsTidy n c
    → lookup id c.calls ≡ some m
    → IsQuiet m'
    → IsTidy n (put c id m')
unfolding count
put-known_IsTidy n c id m m' v e q = record {
  limit = v.limit;
  bounded = λ pos. ground (arith, v.bounded pos, length-without_known id m c.calls e);
  quiet = (q, without-All IsQuietCall id c.calls v.quiet);
}

pub put-new_IsTidy :
    (n : ℕ) (c : Client) (id : String) (m' : CallManager)
    → IsTidy n c
    → is_full c ≡ false
    → IsQuiet m'
    → IsTidy n (put c id m')
unfolding count
put-new_IsTidy n c id m' v e q = record {
  limit = v.limit;
  bounded = λ pos. ground (arith, v.limit, length-without id c.calls);
  quiet = (q, without-All IsQuietCall id c.calls v.quiet);
}

pub remove-IsTidy : (n : ℕ) (c : Client) (id : String) → IsTidy n c → IsTidy n (remove c id)
unfolding remove count
remove-IsTidy n c id v = record {
  limit = v.limit;
  bounded = λ pos. ground (arith, v.bounded pos, length-without id c.calls);
  quiet = without-All IsQuietCall id c.calls v.quiet;
}

pub if_IsTidy :
    (n : ℕ) (b : Bool) (c c' : Client)
    → (b ≡ true → IsTidy n c)
    → (b ≡ false → IsTidy n c')
    → IsTidy n (if b then c else c')
if_IsTidy n b c c' f g = if_cases (λ (x : Client). IsTidy n x) b c c' f g

-- What is delivered to a call keeps the client tidy if it keeps the manager quiet.
pub deliver-IsTidy :
    (n : ℕ) (c : Client) (id : String) (f : CallManager → CallManager)
    → IsTidy n c
    → ((m : CallManager) → lookup id c.calls ≡ some m → IsQuiet m → IsQuiet (f m))
    → IsTidy n (deliver c id f)
unfolding deliver
deliver-IsTidy n c id f v keeps = go (lookup id c.calls) refl
  where
    go : (o : Option CallManager) → lookup id c.calls ≡ o → IsTidy n (deliver_to c id f o)
    go none e = v
    go (some m) e =
        put-known_IsTidy n c id m (f m) v e
          (keeps m e (lookup-All IsQuietCall id m c.calls v.quiet e))

pub ask-IsTidy :
    (n : ℕ) (c : Client) (id : String) (f : CallManager → CallManager × Option CallError)
    → IsTidy n c
    → ((m : CallManager) → IsQuiet m → IsQuiet (f m).0)
    → IsTidy n (ask c id f).0
ask-IsTidy n c id f v keeps = go (lookup id c.calls) refl
  where
    go : (o : Option CallManager) → lookup id c.calls ≡ o → IsTidy n (asked_of c id f o).0
    go none e = v
    go (some m) e =
        put-known_IsTidy n c id m (f m).0 v e
          (keeps m (lookup-All IsQuietCall id m c.calls v.quiet e))
