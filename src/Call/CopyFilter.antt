-- ===== src/Call/CopyFilter.antt =====
-- The filter of relay copies in onRelayData against the list of the keys that it let through.
use wa_calls.Base.{
  ℕ, zero, suc, ◌+◌, ◌-◌, ◌≤◌, ◌<◌, ◌≡◌, refl, ap, sym, ◌∙◌, Bool, true, false, List, [], ◌∷◌, ◌++◌,
  arith, if◌then◌else◌, ◌==◌, get_or, set, replicate, length, drop, append_assoc, append-nil,
  length-append, drop_all, length-replicate, Bool-cases, inl, inr, subst,
}
use wa_calls.Call.Receive.{CopyFilter, new_copy_filter, remember, has, forget}

-- The last n keys of a list.
abbrev pub recent : ℕ → List ℕ → List ℕ
recent n acc = drop (length acc - n) acc

-- What a filter that forgets nothing but the keys before the last n lets through.
abbrev pub let_through : ℕ → List ℕ → ℕ → List ℕ
let_through n acc k = if has k (recent n acc) then acc else acc ++ (k ∷ [])

abbrev pub let_through_all : ℕ → List ℕ → List ℕ → List ℕ
let_through_all n acc [] = acc
let_through_all n acc (k ∷ ks) = let_through_all n (let_through n acc k) ks

abbrev pub offer_key : CopyFilter → ℕ → CopyFilter
offer_key f k = if has k f.dedup then f else remember f k

abbrev pub offer_keys : CopyFilter → List ℕ → CopyFilter
offer_keys f [] = f
offer_keys f (k ∷ ks) = offer_keys (offer_key f k) ks

has-append : (j : ℕ) (xs ys : List ℕ) → has j (xs ++ ys) ≡ (if has j xs then true else has j ys)
has-append j [] ys = refl
has-append j (x ∷ xs) ys = ground (arith, has-append j xs ys)

has-forget : (j k : ℕ) (xs : List ℕ) → has j (forget k xs) ≡ (if k == j then false else has j xs)
has-forget j k [] = ground arith
has-forget j k (x ∷ xs) = ground (arith, has-forget j k xs)

abbrev IsDistinct : List ℕ → Type 0
IsDistinct [] = Unit
IsDistinct (x ∷ xs) = (has x xs ≡ false) × IsDistinct xs

snoc-IsDistinct :
    (xs : List ℕ) (k : ℕ) → IsDistinct xs → has k xs ≡ false → IsDistinct (xs ++ (k ∷ []))
snoc-IsDistinct [] k d h = (refl, tt)
snoc-IsDistinct (x ∷ xs) k d h =
    let fresh : has x (xs ++ (k ∷ [])) ≡ false = ground (arith, d.0, h, has-append x xs (k ∷ [])) in
    (fresh, snoc-IsDistinct xs k d.1 (ground (arith, h)))

-- The set of the filter has the keys of a list without repetitions.
record IsSetOf (d w : List ℕ) : Type 0 where
  same : (j : ℕ) → has j d ≡ has j w
  distinct : IsDistinct w

snoc-IsSetOf :
    (d w : List ℕ) (k : ℕ) → IsSetOf d w → has k d ≡ false → IsSetOf (k ∷ d) (w ++ (k ∷ []))
snoc-IsSetOf d w k s h = record {
  same = λ j. ground (arith, s.same j, has-append j w (k ∷ []));
  distinct = snoc-IsDistinct w k s.distinct (sym (s.same k) ∙ h);
}

forget-IsSetOf : (d w : List ℕ) (b : ℕ) → IsSetOf d (b ∷ w) → IsSetOf (forget b d) w
forget-IsSetOf d w b s = record {
  same = λ j. ground (arith, s.same j, s.distinct.0, has-forget j b d);
  distinct = s.distinct.1;
}

drop-next : (m b : ℕ) (xs ys r : List ℕ) → drop m xs ≡ b ∷ r → drop (suc m) (xs ++ ys) ≡ r ++ ys
drop-next zero b [] ys r h = absurd (ground arith)
drop-next zero b (x ∷ xs) ys r h = ground arith
drop-next (suc m) b [] ys r h = absurd (ground arith)
drop-next (suc m) b (x ∷ xs) ys r h = drop-next m b xs ys r h

set-append :
    (xs : List ℕ) (b k : ℕ) (ys : List ℕ) → set (xs ++ (b ∷ ys)) (length xs) k ≡ xs ++ (k ∷ ys)
set-append [] b k ys = refl
set-append (x ∷ xs) b k ys = ap (◌∷◌ x) (set-append xs b k ys)

get_or-append : (xs : List ℕ) (b : ℕ) (ys : List ℕ) → get_or (xs ++ (b ∷ ys)) (length xs) 0 ≡ b
get_or-append [] b ys = refl
get_or-append (x ∷ xs) b ys = get_or-append xs b ys

-- The keys of a ring, the oldest first: `front` was written in this lap, `back` in the one before.
abbrev laps : Bool → List ℕ → List ℕ → List ℕ
laps true front back = back ++ front
laps false front back = front

-- The filter with a ring of n keys after it let the keys of `acc` through.
record Stands (n : ℕ) (f : CopyFilter) (acc front back : List ℕ) : Type 0 where
  ring : f.ring ≡ front ++ back
  at : f.idx ≡ length front
  whole : length front + length back ≡ n
  room : 0 < length back
  keys : recent n acc ≡ laps f.filled front back
  enough : f.filled ≡ true → n ≤ length acc
  young : f.filled ≡ false → acc ≡ front
  known : IsSetOf f.dedup (recent n acc)

abbrev IsRecent : ℕ → CopyFilter → List ℕ → Type 0
IsRecent n f acc = (front : List ℕ) × (back : List ℕ) × Stands n f acc front back

-- The set after the oldest key has gone, if the ring is full.
abbrev kept : Bool → ℕ → List ℕ → List ℕ
kept filled b d = if filled then forget b d else d

abbrev rest_of : Bool → List ℕ → List ℕ → List ℕ
rest_of true front back = back ++ front
rest_of false front back = front

kept-IsSetOf :
    (filled : Bool) (front : List ℕ) (b : ℕ) (back d : List ℕ)
    → IsSetOf d (laps filled front (b ∷ back))
    → IsSetOf (kept filled b d) (rest_of filled front back)
kept-IsSetOf true front b back d s = forget-IsSetOf d (back ++ front) b s
kept-IsSetOf false front b back d s = s

kept-fresh :
    (filled : Bool) (b k : ℕ) (d : List ℕ) → has k d ≡ false → has k (kept filled b d) ≡ false
kept-fresh true b k d h = ground (arith, h, has-forget k b d)
kept-fresh false b k d h = h

recent-next :
    (n k b : ℕ) (filled : Bool) (acc front back : List ℕ)
    → length front + suc (length back) ≡ n
    → recent n acc ≡ laps filled front (b ∷ back)
    → (filled ≡ true → n ≤ length acc)
    → (filled ≡ false → acc ≡ front)
    → recent n (acc ++ (k ∷ [])) ≡ rest_of filled front back ++ (k ∷ [])
recent-next n k b true acc front back w e enough young =
    let more : length (acc ++ (k ∷ [])) - n ≡ suc (length acc - n) =
      omega (arith, length-append acc (k ∷ []), enough refl) in
    ap (λ m. drop m (acc ++ (k ∷ []))) more
    ∙ drop-next (length acc - n) b acc (k ∷ []) (back ++ front) e
recent-next n k b false acc front back w e enough young =
    let few : length (front ++ (k ∷ [])) - n ≡ 0 = omega (arith, length-append front (k ∷ [])) in
    subst (λ l. recent n (l ++ (k ∷ [])) ≡ front ++ (k ∷ [])) (sym (young refl))
      (ap (λ m. drop m (front ++ (k ∷ []))) few)

lap_keys :
    (filled : Bool) (front : List ℕ) (k : ℕ)
    → rest_of filled front [] ++ (k ∷ []) ≡ (front ++ (k ∷ [])) ++ []
lap_keys true front k = sym (append-nil (front ++ (k ∷ [])))
lap_keys false front k = sym (append-nil (front ++ (k ∷ [])))

lap_enough :
    (filled : Bool) (n k : ℕ) (acc front : List ℕ)
    → length front + 1 ≡ n
    → (filled ≡ true → n ≤ length acc)
    → (filled ≡ false → acc ≡ front)
    → n ≤ length (acc ++ (k ∷ []))
lap_enough true n k acc front w enough young =
    omega (arith, length-append acc (k ∷ []), enough refl)
lap_enough false n k acc front w enough young =
    omega (arith, length-append acc (k ∷ []), ap length (young refl))

next_keys :
    (filled : Bool) (front back : List ℕ) (k : ℕ)
    → rest_of filled front back ++ (k ∷ []) ≡ laps filled (front ++ (k ∷ [])) back
next_keys true front back k = append_assoc back front (k ∷ [])
next_keys false front back k = refl

abbrev filter_of : List ℕ → List ℕ → ℕ → Bool → CopyFilter
filter_of d ring idx filled = record { dedup = d; ring = ring; idx = idx; filled = filled }

module _ (n k b : ℕ) (filled : Bool) (acc front d : List ℕ) (fresh : has k d ≡ false)
    (enough : filled ≡ true → n ≤ length acc) (young : filled ≡ false → acc ≡ front) where
  -- The set after the key, and the keys that it has.
  known_after :
      (back : List ℕ)
      → length front + suc (length back) ≡ n
      → recent n acc ≡ laps filled front (b ∷ back)
      → IsSetOf d (recent n acc)
      → IsSetOf (k ∷ kept filled b d) (recent n (acc ++ (k ∷ [])))
  known_after back w e s =
      let next = recent-next n k b filled acc front back w e enough young in
      let old : IsSetOf d (laps filled front (b ∷ back)) = subst (IsSetOf d) e s in
      subst (IsSetOf (k ∷ kept filled b d)) (sym next) (
        snoc-IsSetOf (kept filled b d) (rest_of filled front back) k
          (kept-IsSetOf filled front b back d old) (kept-fresh filled b k d fresh))

  -- The ring ends with this key: the next lap begins.
  lap-IsRecent :
      length front + 1 ≡ n
      → recent n acc ≡ laps filled front (b ∷ [])
      → IsSetOf d (recent n acc)
      → IsRecent n (filter_of (k ∷ kept filled b d) (front ++ (k ∷ [])) 0 true) (acc ++ (k ∷ []))
  lap-IsRecent w e s = (
    [],
    front ++ (k ∷ []),
    record {
      ring = refl;
      at = refl;
      whole = omega (arith, length-append front (k ∷ []));
      room = omega (arith, length-append front (k ∷ []));
      keys = recent-next n k b filled acc front [] w e enough young ∙ lap_keys filled front k;
      enough = λ _. lap_enough filled n k acc front w enough young;
      young = λ h. absurd (ground arith);
      known = known_after [] w e s;
    },
  )

  step-IsRecent :
      (c : ℕ) (back : List ℕ)
      → length front + suc (suc (length back)) ≡ n
      → recent n acc ≡ laps filled front (b ∷ c ∷ back)
      → IsSetOf d (recent n acc)
      → IsRecent n
          (filter_of (k ∷ kept filled b d) (front ++ (k ∷ c ∷ back)) (length front + 1) filled)
          (acc ++ (k ∷ []))
  step-IsRecent c back w e s = (
    front ++ (k ∷ []),
    c ∷ back,
    record {
      ring = sym (append_assoc front (k ∷ []) (c ∷ back));
      at = omega (arith, length-append front (k ∷ []));
      whole = omega (arith, length-append front (k ∷ []));
      room = omega arith;
      keys =
          recent-next n k b filled acc front (c ∷ back) w e enough young
          ∙ next_keys filled front (c ∷ back) k;
      enough = λ h. omega (arith, length-append acc (k ∷ []), enough h);
      young = λ h. ap (λ l. l ++ (k ∷ [])) (young h);
      known = known_after (c ∷ back) w e s;
    },
  )

remember-IsRecent :
    (n : ℕ) (f : CopyFilter) (acc : List ℕ) (k : ℕ)
    → IsRecent n f acc
    → has k f.dedup ≡ false
    → IsRecent n (remember f k) (acc ++ (k ∷ []))
remember-IsRecent n f acc k (front, [], r) fresh = absurd (omega (arith, r.room))
remember-IsRecent n f acc k (front, b ∷ [], r) fresh =
    let lap =
      lap-IsRecent n k b f.filled acc front f.dedup fresh r.enough r.young (omega (arith, r.whole))
        r.keys r.known in
    let last : (length front + 1 == length (front ++ (k ∷ []))) ≡ true =
      ground (arith, length-append front (k ∷ [])) in
    rw (r.ring, r.at, set-append front b k [], get_or-append front b [], last) lap
remember-IsRecent n f acc k (front, b ∷ c ∷ back, r) fresh =
    let step =
      step-IsRecent n k b f.filled acc front f.dedup fresh r.enough r.young c back
        (omega (arith, r.whole)) r.keys r.known in
    let more : (length front + 1 == length (front ++ (k ∷ c ∷ back))) ≡ false =
      ground (arith, length-append front (k ∷ c ∷ back)) in
    rw (r.ring, r.at, set-append front b k (c ∷ back), get_or-append front b (c ∷ back), more) step

offer_keys-IsRecent :
    (n : ℕ) (f : CopyFilter) (acc ks : List ℕ)
    → IsRecent n f acc
    → IsRecent n (offer_keys f ks) (let_through_all n acc ks)
offer_keys-IsRecent n f acc [] r = r
offer_keys-IsRecent n f acc (k ∷ ks) r = elim (Bool-cases (has k f.dedup)) [
  | inl old ↦
      let (front, back, s) = r in rw (old, ← s.known.same k, old) (offer_keys-IsRecent n f acc ks r)
  | inr fresh ↦
      let (front, back, s) = r in
      rw (fresh, ← s.known.same k, fresh)
        (offer_keys-IsRecent n (remember f k) (acc ++ (k ∷ [])) ks
          (remember-IsRecent n f acc k r fresh))
]

-- After any sequence of keys, a new filter with a ring of n keys takes exactly those for copies that
-- are among the last n keys that were let through, where those let through are the keys that were
-- themselves no such copies.
pub offer_keys-has :
    (n : ℕ) (ks : List ℕ) (k : ℕ)
    → 0 < n
    → has k (offer_keys (new_copy_filter n) ks).dedup ≡ has k (recent n (let_through_all n [] ks))
offer_keys-has n ks k h =
    let start : IsRecent n (new_copy_filter n) [] = (
      [],
      replicate n 0,
      record {
        ring = refl;
        at = refl;
        whole = omega (arith, length-replicate {A = ℕ} n 0);
        room = omega (arith, length-replicate {A = ℕ} n 0);
        keys = drop_all (0 - n) [] (omega arith);
        enough = λ e. absurd (ground arith);
        young = λ e. refl;
        known =
            subst (IsSetOf []) (sym (drop_all (0 - n) [] (omega arith)))
              (record { same = λ j. refl; distinct = tt });
      },
    ) in
    let (front, back, s) = offer_keys-IsRecent n (new_copy_filter n) [] ks start in s.known.same k
