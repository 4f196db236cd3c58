-- ===== src/Call/Forwarding.antt =====
-- What onRelayData makes of one RTP packet: the stream that it forwards and the copies that it drops.
use wa_calls.Base.{
  ℕ, ◌+◌, ◌*◌, ◌<◌, ◌≡◌, ◌≢◌, ◌⊎◌, ◌↔◌, refl, Bool, true, List, [], ◌∷◌, arith, inl, inr, ap, subst,
  ◌∙◌,
}
use wa_calls.Call.Receive.{
  RxState, RxVerdict, own_stream, other_stream, copied, undecoded, forwarded, on_rtp, has,
  new_rx_state,
}
use wa_calls.Call.CopyFilter.{offer_key, offer_keys, recent, let_through_all, offer_keys-has}

abbrev pub IsAtFilter : RxVerdict → Type 0
IsAtFilter own_stream = ⊥
IsAtFilter other_stream = ⊥
IsAtFilter _ = Unit

-- The verdict on a packet and the state after it, against the state before.
pub record Admits (self_ssrc : ℕ) (s : RxState) (ssrc seq now : ℕ) (is_decoded : Bool)
    (v : RxVerdict) (s' : RxState) : Type 0 where
  pub stream : v ≡ forwarded → (s'.locked_ssrc ≡ ssrc) × (ssrc ≢ self_ssrc) × (is_decoded ≡ true)
  pub copies : IsAtFilter v → (v ≡ copied) ↔ (has (ssrc * 65536 + seq) s.filter.dedup ≡ true)
  pub kept : (v ≡ own_stream) ⊎ (v ≡ other_stream) → s' ≡ s
  pub filtered : IsAtFilter v → s'.filter ≡ offer_key s.filter (ssrc * 65536 + seq)
  pub moved :
      s'.locked_ssrc ≢ s.locked_ssrc
      → (v ≡ forwarded) × ((s.locked_ssrc ≡ 0) ⊎ (s.locked_last_ns + 2000000000 < now))

-- A packet is forwarded only if it decodes and is not our own, and the lock is then on its stream. One
-- that is our own or of another stream changes nothing; any other is offered to the filter, which
-- knows it if and only if it is dropped as a copy. The lock moves only to a packet that is forwarded,
-- from no stream or from one that was silent for more than two seconds.
pub on_rtp-Admits :
    (self_ssrc : ℕ) (s : RxState) (ssrc seq now : ℕ) (is_decoded : Bool)
    → let (v, s') = on_rtp self_ssrc s ssrc seq now is_decoded in
      Admits self_ssrc s ssrc seq now is_decoded v s'
unfolding on_rtp
on_rtp-Admits self_ssrc s ssrc seq now is_decoded = record {
  stream = ground arith;
  copies = ground arith;
  kept = ground arith;
  filtered = ground arith;
  moved = ground arith;
}

pub record Packet : Type 0 where
  pub ssrc : ℕ
  pub seq : ℕ
  pub now : ℕ
  pub is_decoded : Bool

abbrev pub key_of : Packet → ℕ
key_of p = p.ssrc * 65536 + p.seq

abbrev pub verdict_of : ℕ → RxState → Packet → RxVerdict
verdict_of self_ssrc s p = (on_rtp self_ssrc s p.ssrc p.seq p.now p.is_decoded).0

abbrev pub after : ℕ → RxState → Packet → RxState
after self_ssrc s p = (on_rtp self_ssrc s p.ssrc p.seq p.now p.is_decoded).1

abbrev pub after_all : ℕ → RxState → List Packet → RxState
after_all self_ssrc s [] = s
after_all self_ssrc s (p ∷ ps) = after_all self_ssrc (after self_ssrc s p) ps

abbrev pub with_key : RxVerdict → ℕ → List ℕ → List ℕ
with_key own_stream k ks = ks
with_key other_stream k ks = ks
with_key _ k ks = k ∷ ks

-- The keys of the packets that come to the filter.
abbrev pub keys_of : ℕ → RxState → List Packet → List ℕ
keys_of self_ssrc s [] = []
keys_of self_ssrc s (p ∷ ps) =
    with_key (verdict_of self_ssrc s p) (key_of p) (keys_of self_ssrc (after self_ssrc s p) ps)

with_key-filter :
    (v : RxVerdict) (s s' : RxState) (k : ℕ) (ks : List ℕ)
    → ((v ≡ own_stream) ⊎ (v ≡ other_stream) → s' ≡ s)
    → (IsAtFilter v → s'.filter ≡ offer_key s.filter k)
    → offer_keys s'.filter ks ≡ offer_keys s.filter (with_key v k ks)
with_key-filter own_stream s s' k ks kept filtered =
    ap (λ t. offer_keys t.filter ks) (kept (inl refl))
with_key-filter other_stream s s' k ks kept filtered =
    ap (λ t. offer_keys t.filter ks) (kept (inr refl))
with_key-filter copied s s' k ks kept filtered = ap (λ f. offer_keys f ks) (filtered tt)
with_key-filter undecoded s s' k ks kept filtered = ap (λ f. offer_keys f ks) (filtered tt)
with_key-filter forwarded s s' k ks kept filtered = ap (λ f. offer_keys f ks) (filtered tt)

after_all-filter :
    (self_ssrc : ℕ) (s : RxState) (ps : List Packet)
    → (after_all self_ssrc s ps).filter ≡ offer_keys s.filter (keys_of self_ssrc s ps)
after_all-filter self_ssrc s [] = refl
after_all-filter self_ssrc s (p ∷ ps) =
    let admits = on_rtp-Admits self_ssrc s p.ssrc p.seq p.now p.is_decoded in
    after_all-filter self_ssrc (after self_ssrc s p) ps
    ∙ with_key-filter (verdict_of self_ssrc s p) s (after self_ssrc s p) (key_of p)
        (keys_of self_ssrc (after self_ssrc s p) ps) admits.kept admits.filtered

-- After any sequence of packets on a new state, a packet that comes to the filter is dropped as a copy
-- if and only if its key, of the SSRC and the sequence number, is among those of the last 512 packets
-- that the filter let through.
pub on_rtp-copied_iff :
    (self_ssrc : ℕ) (ps : List Packet) (p : Packet)
    → IsAtFilter (verdict_of self_ssrc (after_all self_ssrc new_rx_state ps) p)
    → (verdict_of self_ssrc (after_all self_ssrc new_rx_state ps) p ≡ copied) ↔ (
        has (key_of p) (recent 512 (let_through_all 512 [] (keys_of self_ssrc new_rx_state ps)))
        ≡ true)
on_rtp-copied_iff self_ssrc ps p at =
    let s = after_all self_ssrc new_rx_state ps in
    let admits = on_rtp-Admits self_ssrc s p.ssrc p.seq p.now p.is_decoded in
    let keys = keys_of self_ssrc new_rx_state ps in
    let known : has (key_of p) s.filter.dedup
        ≡ has (key_of p) (recent 512 (let_through_all 512 [] keys)) =
      ap (λ f. has (key_of p) f.dedup) (after_all-filter self_ssrc new_rx_state ps)
      ∙ offer_keys-has 512 keys (key_of p) (omega arith) in
    subst (λ b. (verdict_of self_ssrc s p ≡ copied) ↔ (b ≡ true)) known (admits.copies at)
