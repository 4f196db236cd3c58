-- ===== src/Events/Claims.antt =====
-- One call, or two, from the registry's side: claiming it and ending it.
use Prim.Native.String.{String}
use text.Mathlib.Text.{◌==◌}
use text.Mathlib.TextEquality.{eq_iff}
use wa_calls.Base.{
  ℕ, ◌≡◌, ◌≢◌, ◌⊎◌, inl, inr, ◌↔◌, refl, ap, sym, ◌∙◌, Bool, true, false, ◌&&◌, not, Option, none,
  some, arith, Bool-cases,
}
use mathlib.Core.Option.{some-injective}
use wa_calls.Events.Dict.{
  lookup, without, lookup-without_self, lookup-without_ne, lookup-insert_self, lookup-insert_ne,
}
use wa_calls.Events.Registry.{
  CallRecord, Broker, is_owned_by, is_claimed, claim, set_owner, get_call, end_call, finish,
}

-- The owner that a call has, if it is in the registry and somebody has claimed it.
abbrev pub owner_in : Option CallRecord → Option String
owner_in none = none
owner_in (some c) = c.owner

abbrev pub with_owner : String → Option CallRecord → Option CallRecord
with_owner owner none = none
with_owner owner (some c) = some (record c { owner = some owner })

-- SetOwner for an owner with a name: what it answers, what it does to the call, and that every other
-- call stays as it is.
pub record Claims (b : Broker) (id owner : String) (answer : Bool) (b' : Broker) : Type 0 where
  pub granted : (answer ≡ true) ↔ (
      (get_call b id ≢ none)
      × ((owner_in (get_call b id) ≡ none) ⊎ (owner_in (get_call b id) ≡ some owner)))
  pub taken : answer ≡ true → get_call b' id ≡ with_owner owner (get_call b id)
  pub refused : answer ≡ false → b' ≡ b
  pub others : (j : String) → id ≢ j → get_call b' j ≡ get_call b j

some_owner : (o owner : String) → ((not (o == owner)) ≡ false) ↔ (some o ≡ some owner)
some_owner o owner = (
  λ h. ap some ((eq_iff o owner).0 (ground arith)),
  λ e. ground (arith, (eq_iff o owner).1 (some-injective o owner e)),
)

may_claim :
    (q : Option String) (owner : String)
    → ((is_claimed q && not (is_owned_by q owner)) ≡ false) ↔ ((q ≡ none) ⊎ (q ≡ some owner))
may_claim none owner = (λ h. inl refl, λ h. refl)
may_claim (some o) owner = (
  λ h. inr ((some_owner o owner).0 h),
  λ h. elim h [ inl e ↦ absurd (ground arith) | inr e ↦ (some_owner o owner).1 e ],
)

claim-Claims :
    (b : Broker) (id owner : String) (o : Option CallRecord)
    → lookup id b.calls ≡ o
    → let (answer, b') = claim b id owner o in Claims b id owner answer b'
unfolding get_call
claim-Claims b id owner none e = record {
  granted = ground (arith, e);
  taken = λ p. absurd (ground arith);
  refused = λ p. refl;
  others = λ j n. refl;
}
claim-Claims b id owner (some c) e =
    elim (Bool-cases (is_claimed c.owner && not (is_owned_by c.owner owner))) [
      | inl p ↦ rw p (record {
        granted = rw e (
          λ q. absurd (ground arith),
          λ h. absurd (ground (arith, p, (may_claim c.owner owner).1 h.1)),
        );
        taken = λ q. absurd (ground arith);
        refused = λ q. refl;
        others = λ j n. refl;
      })
      | inr p ↦ rw p (record {
        granted =
            rw e (λ q. (λ n. absurd (ground arith), (may_claim c.owner owner).0 p), λ h. refl);
        taken = λ q. rw e (lookup-insert_self id _ b.calls);
        refused = λ q. absurd (ground arith);
        others = λ j n. lookup-insert_ne id j _ b.calls n;
      })
    ]

-- SetOwner for an owner with a name grants a call exactly where the call is in the registry and is
-- nobody's or the owner's. A call that is granted has the owner, and keeps its other fields; a refusal
-- changes nothing; no other call changes.
pub set_owner-Claims :
    (b : Broker) (id owner : String)
    → ((owner == "") ≡ false)
    → let (answer, b') = set_owner b id owner in Claims b id owner answer b'
unfolding set_owner
set_owner-Claims b id owner n = rw n (claim-Claims b id owner (lookup id b.calls) refl)

finish-none :
    (b : Broker) (id reason : String) (now : ℕ) (inserted : Bool) (o : Option CallRecord)
    → o ≡ none
    → finish b id reason now inserted o ≡ b
finish-none b id reason now inserted none e = refl
finish-none b id reason now inserted (some c) e = absurd (ground arith)

finish-lookup :
    (b : Broker) (id reason : String) (now : ℕ) (inserted : Bool) (o : Option CallRecord)
    → lookup id b.calls ≡ o
    → let d = (finish b id reason now inserted o).calls in
      (lookup id d ≡ none) × ((j : String) → id ≢ j → lookup j d ≡ lookup j b.calls)
finish-lookup b id reason now inserted none e = (e, λ j n. refl)
finish-lookup b id reason now inserted (some c) e =
    let d = (finish b id reason now inserted (some c)).calls in
    let same : d ≡ without id b.calls = ground arith in
    rw same (lookup-without_self id b.calls, λ j n. lookup-without_ne id j b.calls n)

-- The registry after EndCall does not have the call, and has every other call as before; a second
-- EndCall of the same id, at any time, sends nothing and changes nothing.
pub end_call-once :
    (b : Broker) (id reason reason' : String) (now now' : ℕ) (inserted inserted' : Bool)
    → let b' = end_call b id reason now inserted in
      (get_call b' id ≡ none)
      × ((j : String) → id ≢ j → get_call b' j ≡ get_call b j)
      × (end_call b' id reason' now' inserted' ≡ b')
unfolding end_call get_call
end_call-once b id reason reason' now now' inserted inserted' =
    let (gone, kept) = finish-lookup b id reason now inserted (lookup id b.calls) refl in
    (gone, kept, finish-none _ id reason' now' inserted' _ gone)

-- SetOwner does not look at a client's other calls: of two calls that nobody owns it grants one client
-- both, and the client owns both afterwards.
pub set_owner-twice :
    (b : Broker) (i j owner : String) (c d : CallRecord)
    → i ≢ j
    → ((owner == "") ≡ false)
    → get_call b i ≡ some c
    → get_call b j ≡ some d
    → c.owner ≡ none
    → d.owner ≡ none
    → let (first, b1) = set_owner b i owner in
      let (second, b2) = set_owner b1 j owner in
      (first ≡ true)
      × (second ≡ true)
      × (owner_in (get_call b2 i) ≡ some owner)
      × (owner_in (get_call b2 j) ≡ some owner)
unfolding get_call
set_owner-twice b i j owner c d ne n e f p q =
    let b1 = (set_owner b i owner).1 in
    let b2 = (set_owner b1 j owner).1 in
    let s = set_owner-Claims b i owner n in
    let t = set_owner-Claims b1 j owner n in
    let unowned : (q : Option CallRecord)
        → (v : CallRecord) → q ≡ some v
        → v.owner ≡ none
        → owner_in q ≡ none =
      λ q v same none_yet. rw same none_yet in
    let known : (q : Option CallRecord) → (v : CallRecord) → q ≡ some v → q ≢ none =
      λ q v same gone. absurd (ground arith) in
    let f1 : get_call b1 j ≡ some d = s.others j ne ∙ f in
    let first = s.granted.1 (known _ c e, inl (unowned _ c e p)) in
    let second = t.granted.1 (known _ d f1, inl (unowned _ d f1 q)) in
    let at_i : get_call b2 i ≡ some (record c { owner = some owner }) =
      t.others i (λ g. ne (sym g)) ∙ (s.taken first ∙ ap (with_owner owner) e) in
    let at_j : get_call b2 j ≡ some (record d { owner = some owner }) =
      t.taken second ∙ ap (with_owner owner) f1 in
    (first, second, ap owner_in at_i, ap owner_in at_j)
