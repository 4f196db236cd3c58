-- ===== src/Events/Ownership.antt =====
-- Who owns which call: no client owns two live calls, whatever sequence of requests is served.
use Prim.Native.String.{String}
use text.Mathlib.Text.{◌==◌}
use text.Mathlib.TextEquality.{eq_iff}
use wa_calls.Base.{
  ℕ, ◌≡◌, ◌⊎◌, inl, inr, refl, Bool, true, false, Option, none, some, [], ◌∷◌, arith, All,
  Bool-cases, subst,
}
use mathlib.Core.Option.{some-injective}
use wa_calls.Events.Dict.{Dict, lookup, without, insert, without-All, lookup-All}
use wa_calls.Events.Registry.{
  CallRecord, Broker, is_owned_by, is_over, first_active, upsert_call, end_call, finish,
}

-- An entry of the registry: it has the id of its call, which is not empty, and the call is not over.
abbrev pub IsLive : String × CallRecord → Type 0
IsLive (k, c) = ((k == "") ≡ false) × (is_over c.status ≡ false) × (c.call_id ≡ k)

-- Entries whose owner is another than this one; a call that nobody owns excludes nothing.
abbrev pub IsFree : Option String → Dict CallRecord → Type 0
IsFree none d = Unit
IsFree (some o) d = All (λ e. is_owned_by e.1.owner o ≡ false) d

abbrev pub IsExclusive : Dict CallRecord → Type 0
IsExclusive [] = Unit
IsExclusive ((k, c) ∷ d) = IsLive (k, c) × (IsFree c.owner d × IsExclusive d)

pub without-IsFree :
    (o : Option String) (k : String) (d : Dict CallRecord) → IsFree o d → IsFree o (without k d)
without-IsFree none k d h = tt
without-IsFree (some o) k d h = without-All (λ e. is_owned_by e.1.owner o ≡ false) k d h

pub without-IsExclusive :
    (k : String) (d : Dict CallRecord) → IsExclusive d → IsExclusive (without k d)
without-IsExclusive k [] h = tt
without-IsExclusive k ((j, c) ∷ d) h =
    ground (arith, without-IsFree c.owner k d h.1.0, without-IsExclusive k d h.1.1)

owned-IsFree :
    (owner : Option String) (o : String) (d : Dict CallRecord)
    → is_owned_by owner o ≡ true
    → IsFree owner d
    → IsFree (some o) d
owned-IsFree none o d e h = absurd (ground arith)
owned-IsFree (some p) o d e h = subst (λ q. IsFree (some q) d) ((eq_iff p o).0 e) h

found_self : (j k : String) → ((j == "") ≡ false) → (j ≡ "") ⊎ (j ≡ k) → (j == k) ≡ true
found_self j k n (inl e) = ground (arith, eq_iff j "")
found_self j k n (inr e) = (eq_iff j k).1 e

-- Where the search finds nobody, or the call `k`, every other call is free of the owner.
pub first_active-IsFree :
    (o k : String) (d : Dict CallRecord)
    → IsExclusive d
    → (first_active o d ≡ "") ⊎ (first_active o d ≡ k)
    → IsFree (some o) (without k d)
first_active-IsFree o k [] h e = tt
first_active-IsFree o k ((j, c) ∷ d) h e = elim (Bool-cases (is_owned_by c.owner o)) [
  | inl p ↦
      let found : first_active o ((j, c) ∷ d) ≡ j = ground (arith, h.0.1) in
      let same : (j == k) ≡ true = found_self j k h.0.0 (rw (← found) e) in
      let free = without-IsFree (some o) k d (owned-IsFree c.owner o d p h.1.0) in
      ground (arith, same, free)
  | inr p ↦
      let next : first_active o ((j, c) ∷ d) ≡ first_active o d = ground arith in
      let free = first_active-IsFree o k d h.1.1 (rw (← next) e) in ground (arith, p, free)
]

owned_symmetric :
    (p q : Option String) (d : Dict CallRecord) (c : CallRecord)
    → c.owner ≡ q
    → ((o : String) → p ≡ some o → is_owned_by c.owner o ≡ false)
    → (o : String) → q ≡ some o
    → is_owned_by p o ≡ false
owned_symmetric none q d c e h o f = refl
owned_symmetric (some p) q d c e h o f = ground (arith, h p refl, eq_iff p o, eq_iff o p)

lookup-owned :
    (o k : String) (c : CallRecord) (d : Dict CallRecord)
    → IsFree (some o) d
    → lookup k d ≡ some c
    → is_owned_by c.owner o ≡ false
lookup-owned o k c d f e = lookup-All (λ e. is_owned_by e.1.owner o ≡ false) k c d f e

others-IsFree :
    (j k : String) (w c : CallRecord) (d : Dict CallRecord)
    → IsFree w.owner d
    → lookup k d ≡ some c
    → IsFree c.owner (without k d)
    → IsFree c.owner ((j, w) ∷ without k d)
others-IsFree j k w c d f e g = go c.owner refl g
  where
    go :
        (q : Option String) → c.owner ≡ q → IsFree q (without k d) → IsFree q ((j, w) ∷ without k d)
    go none p g = tt
    go (some o) p g = (
      owned_symmetric w.owner (some o) d c p
          (λ o' e'. lookup-owned o' k c d (subst (λ q. IsFree q d) e' f) e) o refl,
      g,
    )

-- A call that is in the registry is the only one of its owner.
pub lookup-IsFree :
    (k : String) (c : CallRecord) (d : Dict CallRecord)
    → IsExclusive d
    → lookup k d ≡ some c
    → IsLive (k, c) × IsFree c.owner (without k d)
lookup-IsFree k c [] h e = absurd (ground arith)
lookup-IsFree k c ((j, w) ∷ d) h e = elim (Bool-cases (j == k)) [
  | inl p ↦
      let same : w ≡ c = some-injective w c (ground (arith, p)) in
      let here : j ≡ k = (eq_iff j k).0 p in
      let kept : IsFree w.owner (without k d) = without-IsFree w.owner k d h.1.0 in
      ground (
        arith,
        p,
        subst (λ v. IsLive (j, v)) same h.0,
        subst (λ v. IsFree v.owner (without k d)) same kept,
      )
  | inr p ↦
      let below : lookup k d ≡ some c = ground (arith, p, e) in
      let (live, free) = lookup-IsFree k c d h.1.1 below in
      ground (arith, p, live, free, others-IsFree j k w c d h.1.0 below free)
]

pub insert-IsExclusive :
    (k : String) (c : CallRecord) (d : Dict CallRecord)
    → IsExclusive d
    → IsLive (k, c)
    → IsFree c.owner (without k d)
    → IsExclusive (insert k c d)
insert-IsExclusive k c d h l f = (l, (f, without-IsExclusive k d h))

upsert_call-calls :
    (b : Broker) (r : CallRecord) → (upsert_call b r).calls ≡ insert r.call_id r b.calls
unfolding upsert_call
upsert_call-calls b r = ground arith

pub upsert_call-IsExclusive :
    (b : Broker) (r : CallRecord)
    → IsExclusive b.calls
    → IsLive (r.call_id, r)
    → IsFree r.owner (without r.call_id b.calls)
    → IsExclusive (upsert_call b r).calls
upsert_call-IsExclusive b r h l f =
    rw (upsert_call-calls b r) (insert-IsExclusive r.call_id r b.calls h l f)

pub end_call-IsExclusive :
    (b : Broker) (id reason : String) (now : ℕ) (inserted : Bool)
    → IsExclusive b.calls
    → IsExclusive (end_call b id reason now inserted).calls
unfolding end_call
end_call-IsExclusive b id reason now inserted h = go (lookup id b.calls)
  where
    go : (o : Option CallRecord) → IsExclusive (finish b id reason now inserted o).calls
    go none = h
    go (some c) = ground (arith, without-IsExclusive id b.calls h)
