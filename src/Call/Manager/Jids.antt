-- ===== src/Call/Manager/Jids.antt =====
-- The device JIDs of internal/voip/call/helpers.go, and CleanJID of internal/voip/wanode/jid.go.
use Prim.Native.String.{String, slice, len}
use Prim.Native.String
use text.Mathlib.Text.{◌==◌, find?}
use wa_calls.Base.{
  ℕ, Bool, true, false, ◌&&◌, Option, none, some, List, [], ◌∷◌, if◌then◌else◌, ltb,
}

-- Two texts, one after the other: `++` of strings.
abbrev pub join : String → String → String
join s t = Prim.Native.String.◌++◌ s t

abbrev pub has_text : Option ℕ → Bool
has_text none = false
has_text (some i) = true

-- The text without what stands from the colon to the at-sign, if they come in this order.
abbrev pub cut_between : String → Option ℕ → Option ℕ → String
cut_between jid (some i) (some at) =
    if ltb i at then join (slice jid 0 i) (slice jid at (len jid)) else jid
cut_between jid _ _ = jid

unfoldable pub clean_jid : String → String
clean_jid jid = cut_between jid (find? jid ":") (find? jid "@")

-- strings.Replace of the first at-sign.
abbrev pub with_device : String → Option ℕ → String
with_device jid none = jid
with_device jid (some at) = join (slice jid 0 at) (join ":0" (slice jid at (len jid)))

abbrev pub is_before : Option ℕ → Option ℕ → Bool
is_before (some i) (some at) = ltb i at
is_before _ _ = false

unfoldable pub ensure_device_jid : String → String
ensure_device_jid jid =
    let at = find? jid "@" in if is_before (find? jid ":") at then jid else with_device jid at

unfoldable pub find_our_device : List String → String → String → String
find_our_device [] our_base fallback = fallback
find_our_device (jid ∷ jids) our_base fallback =
    let rest = find_our_device jids our_base fallback in
    if (clean_jid jid == our_base) && has_text (find? jid ":") then jid else rest

unfoldable pub first_peer_device : List String → String → String
first_peer_device [] our_base = ""
first_peer_device (jid ∷ jids) our_base =
    let rest = first_peer_device jids our_base in if clean_jid jid == our_base then rest else jid

abbrev pub first_ssrc : List ℕ → ℕ
first_ssrc [] = 0
first_ssrc (s ∷ ssrcs) = s
