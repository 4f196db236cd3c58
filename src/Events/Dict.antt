-- ===== src/Events/Dict.antt =====
-- A Go map with string keys, as an association list; the order of a map is not specified.
use Prim.Native.String.{String}
use text.Mathlib.Text.{◌==◌}
use text.Mathlib.TextEquality.{eq_iff}
use wa_calls.Base.{
  ◌+◌, ◌≤◌, length, Bool-cases, inl, inr, false, ◌≡◌, ◌≢◌, refl, Option, none, some, List, [], ◌∷◌,
  arith, if◌then◌else◌, All,
}

abbrev pub Dict : Type 0 → Type 0
Dict V = List (String × V)

module _ {V : Type 0} where
  abbrev pub lookup : String → Dict V → Option V
  lookup k [] = none
  lookup k ((j, v) ∷ d) = let rest = lookup k d in if j == k then some v else rest

  -- delete(m, k)
  abbrev pub without : String → Dict V → Dict V
  without k [] = []
  without k ((j, v) ∷ d) = let rest = without k d in if j == k then rest else (j, v) ∷ rest

  -- m[k] = v
  abbrev pub insert : String → V → Dict V → Dict V
  insert k v d = (k, v) ∷ without k d

  pub lookup-without_self : (k : String) (d : Dict V) → lookup k (without k d) ≡ none
  lookup-without_self k [] = refl
  lookup-without_self k ((j, v) ∷ d) = ground (arith, lookup-without_self k d)

  pub lookup-without_ne : (k j : String) (d : Dict V) → k ≢ j → lookup j (without k d) ≡ lookup j d
  lookup-without_ne k j [] h = refl
  lookup-without_ne k j ((i, v) ∷ d) h =
      ground (arith, lookup-without_ne k j d h, eq_iff i k, eq_iff i j, eq_iff k j)

  pub lookup-insert_self : (k : String) (v : V) (d : Dict V) → lookup k (insert k v d) ≡ some v
  lookup-insert_self k v d = ground (arith, eq_iff k k)

  pub lookup-insert_ne :
      (k j : String) (v : V) (d : Dict V) → k ≢ j → lookup j (insert k v d) ≡ lookup j d
  lookup-insert_ne k j v d h = ground (arith, lookup-without_ne k j d h, eq_iff k j)

  -- What holds of every entry holds after a deletion, and of what is looked up.
  pub without-All :
      (P : String × V → Type 0) (k : String) (d : Dict V) → All P d → All P (without k d)
  without-All P k [] h = h
  without-All P k ((j, v) ∷ d) h = ground (arith, without-All P k d h.1)

  pub lookup-All :
      (P : String × V → Type 0) (k : String) (v : V) (d : Dict V)
      → All P d
      → lookup k d ≡ some v
      → P (k, v)
  lookup-All P k v [] h e = cc
  lookup-All P k v ((j, w) ∷ d) h e = ground (arith, lookup-All P k v d h.1, eq_iff j k)

  -- A map has one entry for each key that is written to it.
  pub length-without : (k : String) (d : Dict V) → length (without k d) ≤ length d
  length-without k [] = ground arith
  length-without k ((j, v) ∷ d) = ground (arith, length-without k d)

  known_rest :
      (k : String) (v : V) (j : String) (w : V) (d : Dict V)
      → ((j == k) ≡ false)
      → lookup k ((j, w) ∷ d) ≡ some v
      → lookup k d ≡ some v
  known_rest k v j w d other e = ground (arith, other)

  known_later :
      (k : String) (v : V) (j : String) (w : V) (d : Dict V)
      → ((j == k) ≡ false)
      → length (without k d) + 1 ≤ length d
      → length (without k ((j, w) ∷ d)) + 1 ≤ length ((j, w) ∷ d)
  known_later k v j w d other h = ground (arith, other)

  pub length-without_known :
      (k : String) (v : V) (d : Dict V) → lookup k d ≡ some v → length (without k d) + 1 ≤ length d
  length-without_known k v [] e = absurd (ground arith)
  length-without_known k v ((j, w) ∷ d) e = elim (Bool-cases (j == k)) [
    | inl same ↦ ground (arith, same, length-without k d)
    | inr other ↦
        known_later k v j w d other (length-without_known k v d (known_rest k v j w d other e))
  ]
