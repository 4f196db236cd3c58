-- ===== src/Media/H264/RoundTrip.antt =====
-- The depacketizer puts together what PacketizeH264 took apart.
use wa_calls.Base.{
  ℕ, zero, suc, ◌-◌, ◌≤◌, ◌<◌, ◌≡◌, refl, ◌∙◌, inl, inr, Bool, true, false, ◌&&◌, List, [], ◌∷◌,
  ◌++◌, append_assoc, arith, if◌then◌else◌, leb, length, take, drop, length-drop, take-append-drop,
  take_all, drop_all, Bool-cases, bit_and,
}
use wa_calls.Media.H264.Packetize.{fu_header, fu_indicator, fragments, packetize_nal}
use wa_calls.Media.H264.Fields.{fragment_fields}
use wa_calls.Media.H264.Depacketize.{Depacketizer, append_nal, push_fu, take_payload}

-- The payloads in order, none of them the last of its access unit.
unfoldable pub take_payloads : Depacketizer → List (List ℕ) → Depacketizer
take_payloads d [] = d
take_payloads d (p ∷ ps) = take_payloads (take_payload d p) ps

take_payload_fu :
    (d : Depacketizer) (h : ℕ) (s e : Bool) (body : List ℕ)
    → h < 256
    → take_payload d (fu_indicator h ∷ fu_header h s e ∷ body)
      ≡ push_fu d (fu_indicator h) (fu_header h s e ∷ body)
unfolding take_payload
take_payload_fu d h s e body lt = ground (arith, fragment_fields h s e lt)

-- What a fragment does to the state.
abbrev after_fragment : Depacketizer → ℕ → Bool → Bool → List ℕ → Depacketizer
after_fragment d h s e body =
    let d1 = if s then record d { fu = h ∷ []; fu_hdr = true } else d in
    let d2 = if d1.fu_hdr then record d1 { fu = d1.fu ++ body } else d1 in
    if e && d2.fu_hdr then record (append_nal d2 d2.fu) { fu = []; fu_hdr = false } else d2

push_fragment :
    (d : Depacketizer) (h : ℕ) (s e : Bool) (body : List ℕ)
    → h < 256
    → take_payload d (fu_indicator h ∷ fu_header h s e ∷ body) ≡ after_fragment d h s e body
unfolding push_fu
push_fragment d h true true body lt =
    take_payload_fu d h true true body lt ∙ ground (arith, fragment_fields h true true lt)
push_fragment d h true false body lt =
    take_payload_fu d h true false body lt ∙ ground (arith, fragment_fields h true false lt)
push_fragment d h false true body lt =
    take_payload_fu d h false true body lt ∙ ground (arith, fragment_fields h false true lt)
push_fragment d h false false body lt =
    take_payload_fu d h false false body lt ∙ ground (arith, fragment_fields h false false lt)

fragments_nil : (fuel chunk h : ℕ) (s : Bool) → fragments fuel chunk h s [] ≡ []
unfolding fragments
fragments_nil zero chunk h s = refl
fragments_nil (suc fuel) chunk h s = refl

-- A NAL unit that has just been completed from fragments.
abbrev completed : Depacketizer → List ℕ → Depacketizer
completed d nal = record (append_nal d nal) { fu = []; fu_hdr = false }

completed-fu :
    (d : Depacketizer) (f : List ℕ) (b : Bool) (nal : List ℕ)
    → completed (record d { fu = f; fu_hdr = b }) nal ≡ completed d nal
unfolding append_nal
completed-fu d f b [] = refl
completed-fu d f b (x ∷ r) = refl

pub one_round :
    (fuel chunk h x : ℕ) (s : Bool) (r : List ℕ)
    → fragments (suc fuel) chunk h s (x ∷ r)
      ≡ (fu_indicator h ∷ fu_header h s (leb (length (x ∷ r)) chunk) ∷ take chunk (x ∷ r))
        ∷ fragments fuel chunk h false (drop chunk (x ∷ r))
unfolding fragments
one_round fuel chunk h x s r = refl

pub take_payloads_step :
    (d : Depacketizer) (p : List ℕ) (ps : List (List ℕ))
    → take_payloads d (p ∷ ps) ≡ take_payloads (take_payload d p) ps
unfolding take_payloads
take_payloads_step d p ps = refl

pub take_payloads_nil : (d : Depacketizer) → take_payloads d [] ≡ d
unfolding take_payloads
take_payloads_nil d = refl

abbrev in_flight : Depacketizer → List ℕ → Depacketizer
in_flight d f = record d { fu = f; fu_hdr = true }

push_first :
    (d : Depacketizer) (h : ℕ) (body : List ℕ)
    → h < 256
    → take_payload d (fu_indicator h ∷ fu_header h true false ∷ body) ≡ in_flight d (h ∷ body)
push_first d h body lt = push_fragment d h true false body lt

push_middle :
    (d : Depacketizer) (h : ℕ) (f body : List ℕ)
    → h < 256
    → take_payload (in_flight d f) (fu_indicator h ∷ fu_header h false false ∷ body)
      ≡ in_flight d (f ++ body)
push_middle d h f body lt = push_fragment (in_flight d f) h false false body lt

push_last :
    (d : Depacketizer) (h : ℕ) (f body : List ℕ)
    → h < 256
    → take_payload (in_flight d f) (fu_indicator h ∷ fu_header h false true ∷ body)
      ≡ completed d (f ++ body)
push_last d h f body lt =
    push_fragment (in_flight d f) h false true body lt ∙ completed-fu d (f ++ body) true (f ++ body)

-- The fragments after the first complete the unit that is in flight.
later_fragments :
    (fuel chunk h : ℕ) (f body : List ℕ) (d : Depacketizer)
    → h < 256
    → 0 < chunk
    → length body ≤ fuel
    → 0 < length body
    → take_payloads (in_flight d f) (fragments fuel chunk h false body) ≡ completed d (f ++ body)
later_fragments fuel chunk h f [] d lt pos enough some_body = absurd (omega arith)
later_fragments zero chunk h f (x ∷ r) d lt pos enough some_body = absurd (omega arith)
later_fragments (suc fuel) chunk h f (x ∷ r) d lt pos enough some_body =
    elim (Bool-cases (leb (length (x ∷ r)) chunk)) [
      | inl last ↦
          rw
            (
              one_round fuel chunk h x false r,
              last,
              take_payloads_step,
              drop_all chunk (x ∷ r) (ground arith),
              fragments_nil,
              take_payloads_nil,
              take_all chunk (x ∷ r) (ground arith),
            )
            (push_last d h f (x ∷ r) lt)
      | inr more ↦
          rw
            (
              one_round fuel chunk h x false r,
              more,
              take_payloads_step,
              push_middle d h f (take chunk (x ∷ r)) lt,
              later_fragments fuel chunk h (f ++ take chunk (x ∷ r)) (drop chunk (x ∷ r)) d lt pos
                  (ground (arith, length-drop chunk (x ∷ r)))
                  (ground (arith, length-drop chunk (x ∷ r))),
              append_assoc,
              take-append-drop,
            )
            refl
    ]

fragments-take_payloads :
    (fuel chunk h : ℕ) (body : List ℕ) (d : Depacketizer)
    → h < 256
    → 0 < chunk
    → length body ≤ fuel
    → chunk < length body
    → take_payloads d (fragments fuel chunk h true body) ≡ completed d (h ∷ body)
fragments-take_payloads fuel chunk h [] d lt pos enough large = absurd (omega arith)
fragments-take_payloads zero chunk h (x ∷ r) d lt pos enough large = absurd (omega arith)
fragments-take_payloads (suc fuel) chunk h (x ∷ r) d lt pos enough large =
    let more : leb (length (x ∷ r)) chunk ≡ false = ground arith in
    rw
      (
        one_round fuel chunk h x true r,
        more,
        take_payloads_step,
        push_first d h (take chunk (x ∷ r)) lt,
        later_fragments fuel chunk h (h ∷ take chunk (x ∷ r)) (drop chunk (x ∷ r)) d lt pos
            (ground (arith, length-drop chunk (x ∷ r))) (ground (arith, length-drop chunk (x ∷ r))),
        take-append-drop,
      )
      refl

-- A unit that the depacketizer knows for a single unit: its type is not one of the packet types.
unfoldable pub IsNal : List ℕ → Type 0
IsNal [] = ⊥
IsNal (h ∷ body) = (h < 256) × (1 ≤ bit_and h 0x1F) × (bit_and h 0x1F ≤ 23)

whole :
    (d : Depacketizer) (h : ℕ) (body : List ℕ)
    → 1 ≤ bit_and h 0x1F
    → bit_and h 0x1F ≤ 23
    → take_payload d (h ∷ body) ≡ append_nal d (h ∷ body)
unfolding take_payload
whole d h body low high = ground arith

-- `completed` is `append_nal` when nothing is in flight.
abbrev idle : Depacketizer → Depacketizer
idle d = record d { fu = []; fu_hdr = false }

completed-idle :
    (d : Depacketizer) (h : ℕ) (body : List ℕ)
    → completed d (h ∷ body) ≡ append_nal (idle d) (h ∷ body)
unfolding append_nal
completed-idle d h body = refl

pub packetize_nal-take_payloads :
    (d : Depacketizer) (m : ℕ) (nal : List ℕ)
    → 3 ≤ m
    → IsNal nal
    → take_payloads (idle d) (packetize_nal m nal) ≡ append_nal (idle d) nal
unfolding packetize_nal IsNal
packetize_nal-take_payloads d m [] large none_fits = elim none_fits [ ]
packetize_nal-take_payloads d m (h ∷ body) large (lt, low, high) =
    elim (Bool-cases (leb (length (h ∷ body)) m)) [
      | inl fits ↦ rw (fits, take_payloads_step, take_payloads_nil) (whole (idle d) h body low high)
      | inr long ↦ rw long (
          fragments-take_payloads (length body) (m - 2) h body (idle d) lt (ground arith)
            (ground arith) (ground arith)
          ∙ completed-idle (idle d) h body)
    ]
