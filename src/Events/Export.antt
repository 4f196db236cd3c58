-- ===== src/Events/Export.antt =====
-- The export walks the whole history of a session, one page after the other.
use Prim.Native.String.{String}
use text.Mathlib.Text.{◌==◌}
use wa_calls.Base.{
  ℕ, zero, suc, ◌+◌, ◌-◌, ◌≤◌, ◌<◌, ◌≡◌, refl, ap, sym, ◌∙◌, true, false, some, List, [], ◌∷◌, ◌++◌,
  map, arith, ltb, length, take, drop, get_elem?, and_then, All, append_assoc, take_all,
  take-append-drop, length-take, length-drop,
}
use native.Mathlib.Decide.{dec_lt}
use wa_calls.Events.Registry.{CallRecord, StoredCall}
use wa_calls.Events.History.{
  HistoryCursor, no_cursor, is_no_cursor, cursor_of, row_of_stored, page_of, StoreList,
  history_rows, written, export_from, history_export,
}

-- What the SQL of the stores promises while nothing is written: `all` is the history of the session in
-- its order, a page starts at the front or right after the record of the cursor, and ends at the limit.
pub record IsHistory (list : StoreList) (session_id : String) (all_rows : List StoredCall)
    : Type 0 where
  pub first : (n : ℕ) → list session_id n no_cursor ≡ some (take n all_rows)
  pub after :
      (n : ℕ) (front : List StoredCall) (r : StoredCall) (back : List StoredCall)
      → all_rows ≡ front ++ (r ∷ back)
      → list session_id n (cursor_of r) ≡ some (take n back)

abbrev pub HasId : StoredCall → Type 0
HasId r = (r.call_id == "") ≡ false

-- The k-th element of a list, as the last one of the part up to it.
cut_at :
    (k : ℕ) (xs : List StoredCall)
    → k < length xs
    → All HasId xs
    → (r : StoredCall) × ((get_elem? (take (suc k) xs) k ≡ some r)
        × (xs ≡ take k xs ++ (r ∷ drop (suc k) xs))
        × HasId r)
cut_at k [] h a = absurd (omega arith)
cut_at zero (x ∷ xs) h a = (x, (refl, refl, a.0))
cut_at (suc k) (x ∷ xs) h a =
    let (r, (e, f, i)) = cut_at k xs (omega arith) a.1 in (r, (e, ap (◌∷◌ x) f, i))

take-take-suc : (n : ℕ) (xs : List StoredCall) → take n (take (suc n) xs) ≡ take n xs
take-take-suc zero xs = refl
take-take-suc (suc n) [] = refl
take-take-suc (suc n) (x ∷ xs) = ap (◌∷◌ x) (take-take-suc n xs)

map-append :
    (f : StoredCall → CallRecord) (xs ys : List StoredCall)
    → map f (xs ++ ys) ≡ map f xs ++ map f ys
map-append f [] ys = refl
map-append f (x ∷ xs) ys = ap (◌∷◌ (f x)) (map-append f xs ys)

drop-All : (n : ℕ) (xs : List StoredCall) → All HasId xs → All HasId (drop n xs)
drop-All zero xs a = a
drop-All (suc n) [] a = a
drop-All (suc n) (x ∷ xs) a = drop-All n xs a.1

cursor-is_no_cursor : (r : StoredCall) → HasId r → is_no_cursor (cursor_of r) ≡ false
cursor-is_no_cursor r h = ground (arith, h)

-- A page that is full: the cursor is that of its last record.
page_more :
    (k : ℕ) (xs : List StoredCall)
    → suc k < length xs
    → All HasId xs
    → (r : StoredCall) × ((page_of (suc k) (take (suc (suc k)) xs)
          ≡ (map row_of_stored (take (suc k) xs), cursor_of r))
        × (xs ≡ take k xs ++ (r ∷ drop (suc k) xs))
        × HasId r)
page_more k xs h a =
    let (r, (e, f, i)) = cut_at k xs (omega arith) a in
    let more : ltb (suc k) (length (take (suc (suc k)) xs)) ≡ true =
      ground (arith, length-take (suc (suc k)) xs) in
    let back : suc k - 1 ≡ k = omega arith in (r, (rw (more, take-take-suc, back, e) refl, f, i))

page_last :
    (k : ℕ) (xs : List StoredCall)
    → length xs ≤ suc k
    → page_of (suc k) (take (suc (suc k)) xs) ≡ (map row_of_stored xs, no_cursor)
page_last k xs h =
    let whole : take (suc (suc k)) xs ≡ xs = take_all (suc (suc k)) xs (omega arith) in
    let last : ltb (suc k) (length xs) ≡ false = ground arith in rw (whole, last) refl

module _ (list : StoreList) (session_id : String) (all_rows : List StoredCall)
    (store : IsHistory list session_id all_rows) (k : ℕ) where
  one_more : suc k + 1 ≡ suc (suc k)
  one_more = omega arith

  export_step :
      (n : ℕ) (rows : List CallRecord) (next : HistoryCursor) (recs : List StoredCall)
      (more : List CallRecord)
      → is_no_cursor next ≡ false
      → list session_id (suc k + 1) next ≡ some recs
      → export_from n true list session_id (suc k) (page_of (suc k) recs) ≡ some more
      → export_from (suc n) true list session_id (suc k) (rows, next) ≡ some (rows ++ more)
  unfolding export_from history_rows
  export_step n rows next recs more p q r = rw (p, written, q, and_then, r) refl

  export_rest :
      (n : ℕ) (front xs : List StoredCall)
      → all_rows ≡ front ++ xs
      → length xs < n
      → All HasId xs
      → export_from n true list session_id (suc k) (page_of (suc k) (take (suc (suc k)) xs))
        ≡ some (map row_of_stored xs)
  unfolding export_from history_rows
  export_rest zero front xs e h a = absurd (omega arith)
  export_rest (suc n) front xs e h a = elim (dec_lt (suc k) (length xs)) [
    | yes p ↦
        let (r, (page, split, id)) = page_more k xs p a in
        let taken : take (suc k) xs ++ drop (suc k) xs ≡ xs = take-append-drop (suc k) xs in
        let split_all : all_rows ≡ (front ++ take k xs) ++ (r ∷ drop (suc k) xs) =
          e
          ∙ (ap (◌++◌ front) split ∙ sym (append_assoc front (take k xs) (r ∷ drop (suc k) xs))) in
        let asked : list session_id (suc k + 1) (cursor_of r)
            ≡ some (take (suc (suc k)) (drop (suc k) xs)) =
          ap (λ m. list session_id m (cursor_of r)) one_more
          ∙ store.after (suc (suc k)) (front ++ take k xs) r (drop (suc k) xs) split_all in
        let rest =
          export_rest n (front ++ take (suc k) xs) (drop (suc k) xs)
            (e
              ∙ (ap (◌++◌ front) (sym taken)
                  ∙ sym (append_assoc front (take (suc k) xs) (drop (suc k) xs))))
            (omega (arith, length-drop (suc k) xs)) (drop-All (suc k) xs a) in
        rw page (
          export_step n (map row_of_stored (take (suc k) xs)) (cursor_of r) _ _
            (cursor-is_no_cursor r id) asked rest
          ∙ ap some (
              sym (map-append row_of_stored (take (suc k) xs) (drop (suc k) xs))
              ∙ ap (map row_of_stored) taken))
    | no p ↦ rw (page_last k xs (omega arith)) refl
  ]

-- While the store's history of a session does not change and every record has an id, the export ends
-- and writes each record of it once, in its order. Its pages are one more than the records at most.
pub history_export_complete :
    (list : StoreList) (session_id : String) (all_rows : List StoredCall)
    → IsHistory list session_id all_rows
    → All HasId all_rows
    → history_export (suc (length all_rows)) true list session_id
      ≡ some (map row_of_stored all_rows)
unfolding history_export history_rows
history_export_complete list session_id all_rows store a =
    rw (store.first 501, and_then)
      (export_rest list session_id all_rows store 499 (suc (length all_rows)) [] all_rows refl
        (omega arith) a)
