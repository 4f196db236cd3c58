-- ===== src/Media/H264/Annexb.antt =====
-- AnnexBNALUs of h264.go. The loops' index is a suffix of the data, `data[i:]`, and their fuel is
-- its length, since each round moves the index on.
use wa_calls.Base.{
  ℕ, zero, suc, ◌&&◌, Option, none, some, List, [], ◌∷◌, ◌++◌, if◌then◌else◌, ◌==◌, length,
}

-- The three-byte test and then the four-byte test: what follows a start code at the head.
abbrev long_code : ℕ → ℕ → ℕ → List ℕ → Option (List ℕ)
long_code a b c [] = none
long_code a b c (d ∷ r) = if a == 0 && b == 0 && c == 0 && d == 1 then some r else none

unfoldable pub start_code : List ℕ → Option (List ℕ)
start_code (a ∷ b ∷ c ∷ r) = if a == 0 && b == 0 && c == 1 then some r else long_code a b c r
start_code _ = none

-- The loop that locates the first start code; `none` is `start < 0`.
unfoldable pub first_start : List ℕ → Option (List ℕ)
first_start [] = none
first_start (x ∷ r) =
    let later = first_start r in elim (start_code (x ∷ r)) [ none ↦ later | some rest ↦ some rest ]

unfoldable pub append_non_empty : List (List ℕ) → List ℕ → List (List ℕ)
append_non_empty nals [] = nals
append_non_empty nals (x ∷ r) = nals ++ (x ∷ r) ∷ []

-- The second loop: `cur` is `data[start:i]`.
unfoldable pub split_nals : ℕ → List (List ℕ) → List ℕ → List ℕ → List (List ℕ)
split_nals zero nals cur rest = append_non_empty nals (cur ++ rest)
split_nals (suc fuel) nals cur [] = append_non_empty nals (cur ++ [])
split_nals (suc fuel) nals cur (x ∷ r) =
    let on = split_nals fuel nals (cur ++ x ∷ []) r in
    elim (start_code (x ∷ r)) [
      | none ↦ on
      | some rest ↦ split_nals fuel (append_non_empty nals cur) [] rest
    ]

unfoldable pub annexb_nalus : List ℕ → List (List ℕ)
unfolding split_nals
annexb_nalus [] = []
annexb_nalus (x ∷ r) = elim (first_start (x ∷ r)) [
  | none ↦ (x ∷ r) ∷ []
  | some rest ↦ split_nals (length rest) [] [] rest
]
