-- ===== src/Runs/Receive.antt =====
-- The reception of packets, at a stream that two relays bring and a second stream that takes over.
use wa_calls.Base.{ℕ, ◌≡◌, refl, ◌↔◌, true, false, List, [], ◌∷◌, map}
use wa_calls.Call.Receive.{copied, forwarded, own_stream, other_stream, on_rtp, new_rx_state, has}
use wa_calls.Call.CopyFilter.{recent, let_through_all}
use wa_calls.Call.Forwarding.{
  Admits, Packet, key_of, verdict_of, after_all, keys_of, on_rtp-Admits, on_rtp-copied_iff,
}

abbrev packet : ℕ → ℕ → ℕ → Packet
packet ssrc seq now = record { ssrc = ssrc; seq = seq; now = now; is_decoded = true }

abbrev first_packets : List Packet
first_packets =
    packet 7 100 5 ∷ packet 7 100 6 ∷ packet 7 101 20 ∷ packet 8 50 30 ∷ packet 9 1 40 ∷ []

-- Our own stream is 9. Stream 8 waits for two seconds of silence.
verdicts_run :
    map (verdict_of 9 (after_all 9 new_rx_state first_packets)) (
      packet 7 101 50
      ∷ packet 7 102 60
      ∷ packet 8 51 70
      ∷ packet 8 51 2000000021
      ∷ packet 9 2 80
      ∷ [])
    ≡ copied ∷ forwarded ∷ other_stream ∷ forwarded ∷ own_stream ∷ []
unfolding on_rtp
verdicts_run = refl

forged_run :
    let s =
      after_all 9 new_rx_state
        (packet 7 100 5 ∷ record (packet 7 101 6) { is_decoded = false } ∷ []) in
    verdict_of 9 s (packet 7 101 7) ≡ copied
unfolding on_rtp
forged_run = refl

on_rtp-Admits_example :
    let s = after_all 9 new_rx_state first_packets in
    let (v, s') = on_rtp 9 s 8 51 2000000021 true in Admits 9 s 8 51 2000000021 true v s'
on_rtp-Admits_example =
    on_rtp-Admits 9 (after_all 9 new_rx_state first_packets) 8 51 2000000021 true

on_rtp-copied_iff_example :
    (verdict_of 9 (after_all 9 new_rx_state first_packets) (packet 7 101 50) ≡ copied) ↔ (
      has
        (key_of (packet 7 101 50))
        (recent 512 (let_through_all 512 [] (keys_of 9 new_rx_state first_packets)))
      ≡ true)
unfolding on_rtp
on_rtp-copied_iff_example = on_rtp-copied_iff 9 first_packets (packet 7 101 50) tt
