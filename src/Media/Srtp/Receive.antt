-- ===== src/Media/Srtp/Receive.antt =====
-- A receiver over any sequence of datagrams: no index is accepted twice.
use wa_calls.Base.{ℕ, ◌≡◌, refl, ◌∙◌, true, false, List, [], ◌∷◌, arith}
use wa_calls.Media.Rtp.Header.{RtpHeader}
use wa_calls.Media.Srtp.Context.{SrtpContext, commit_roc, replay_check}
use wa_calls.Media.Srtp.Window.{start-IsWindow}
use wa_calls.Media.Srtp.Replay.{IsWindow, contains, replay_update-IsWindow, replay_check_iff}
use wa_calls.Media.Srtp.Protect.{
  Crypto, SrtpResult, ok, err, panics, Authentic, authentic_index, check_packet, authenticate,
  commit, unprotect,
}

-- commitRoc leaves the replay window alone.
commit_roc-IsWindow :
    (c : SrtpContext) (v seq : ℕ) (seen : List ℕ)
    → IsWindow c seen
    → IsWindow (commit_roc c v seq) seen
commit_roc-IsWindow c v seq seen w = record {
  unstarted = unfold commit_roc in ground (arith, w.unstarted);
  started = unfold commit_roc in ground (arith, w.started);
  bounded = λ n e. unfold commit_roc in ground (arith, w.bounded n e);
  bits = λ k h low on. unfold commit_roc in ground (arith, w.bits k h);
}

replay_check-commit_roc :
    (c : SrtpContext) (v seq index : ℕ)
    → replay_check (commit_roc c v seq) index ≡ replay_check c index
unfolding commit_roc replay_check
replay_check-commit_roc c v seq index = ground arith

-- The accepted indices after one datagram.
abbrev pub accepted : SrtpResult Authentic → List ℕ → List ℕ
accepted (ok a) seen = authentic_index a ∷ seen
accepted (err e) seen = seen
accepted panics seen = seen

-- No index stands twice in the list.
abbrev pub IsDistinct : List ℕ → Type 0
IsDistinct [] = Unit {0}
IsDistinct (x ∷ xs) = (contains x xs ≡ false) × IsDistinct xs

module _ (crypto : Crypto) where
  check_packet_fresh :
      (c : SrtpContext) (packet : List ℕ) (h : RtpHeader) (a : Authentic)
      → check_packet crypto c packet h ≡ ok a
      → replay_check c (authentic_index a) ≡ true
  unfolding check_packet
  check_packet_fresh c packet h a e = ground arith

  authenticate_fresh :
      (c : SrtpContext) (packet : List ℕ) (a : Authentic)
      → authenticate crypto c packet ≡ ok a
      → replay_check c (authentic_index a) ≡ true
  unfolding authenticate
  authenticate_fresh c packet a e =
      ground (arith, λ (h : RtpHeader). check_packet_fresh c packet h a)

  commit-IsWindow :
      (c : SrtpContext) (seen : List ℕ) (a : Authentic)
      → IsWindow c seen
      → replay_check c (authentic_index a) ≡ true
      → IsWindow (commit c a) (authentic_index a ∷ seen)
  unfolding commit
  commit-IsWindow c seen a w fresh =
      replay_update-IsWindow _ seen (authentic_index a)
        (commit_roc-IsWindow c a.roc a.header.sequence_number seen w)
        (replay_check-commit_roc c a.roc a.header.sequence_number (authentic_index a) ∙ fresh)

  -- Unprotect keeps the window in step with the accepted indices, and accepts only new ones.
  unprotect-IsWindow :
      (c : SrtpContext) (seen : List ℕ) (packet : List ℕ) (r : SrtpResult Authentic)
      → authenticate crypto c packet ≡ r
      → IsWindow c seen
      → IsDistinct seen
      → IsWindow (unprotect crypto c packet).0 (accepted r seen) × IsDistinct (accepted r seen)
  unfolding unprotect
  unprotect-IsWindow c seen packet (ok a) e w d =
      let fresh : replay_check c (authentic_index a) ≡ true = authenticate_fresh c packet a e in
      (
        rw (e, unprotect) (commit-IsWindow c seen a w fresh),
        (((replay_check_iff c seen (authentic_index a) w).0 fresh).0, d),
      )
  unprotect-IsWindow c seen packet (err x) e w d = (rw (e, unprotect) w, d)
  unprotect-IsWindow c seen packet panics e w d = (rw (e, unprotect) w, d)

  -- The context after a sequence of datagrams, and the indices that were accepted, the last first.
  pub receive_all : SrtpContext → List ℕ → List (List ℕ) → SrtpContext × List ℕ
  receive_all c seen [] = (c, seen)
  receive_all c seen (d ∷ ds) =
      receive_all (unprotect crypto c d).0 (accepted (authenticate crypto c d) seen) ds

  receive_all_lem :
      (c : SrtpContext) (seen : List ℕ) (ds : List (List ℕ))
      → IsWindow c seen
      → IsDistinct seen
      → IsDistinct (receive_all c seen ds).1
  unfolding receive_all
  receive_all_lem c seen [] w d = d
  receive_all_lem c seen (x ∷ xs) w d =
      let (w', d') = unprotect-IsWindow c seen x (authenticate crypto c x) refl w d in
      receive_all_lem (unprotect crypto c x).0 (accepted (authenticate crypto c x) seen) xs w' d'

  -- Whatever datagrams arrive, forged, repeated or reordered, a receiver that begins with an empty
  -- replay window never accepts one packet index twice.
  pub receive_all-IsDistinct :
      (c : SrtpContext) (ds : List (List ℕ))
      → c.replay_seen ≡ false
      → IsDistinct (receive_all c [] ds).1
  receive_all-IsDistinct c ds new = receive_all_lem c [] ds (start-IsWindow c new) tt
