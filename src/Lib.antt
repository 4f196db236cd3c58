-- ===== src/Lib.antt =====
-- Verification of WaCalls: WhatsApp calls in Go.
--
-- The program places and answers calls. internal/voip/call keeps the state of a call and ends it when
-- a phase overruns its deadline; internal/voip/media turns payloads into RTP packets and protects them
-- with SRTP, and takes H.264 access units apart and puts them together; internal/voip/codec/mlow
-- has the entropy coder of the audio. internal/app/events keeps the registry of live calls, which the
-- HTTP handlers and the sessions change. A call's media becomes a list of payloads,
-- RtpSession.CreatePacket makes packets of them, SrtpSession.Protect makes datagrams, and the other end's
-- SrtpSession.Unprotect gives the packets back.
--
-- Base: the shared names, Boolean tests, lists and bits over the native numbers.
-- Bytes: big-endian numbers and slices of bytes. A byte is a number below 256, and a number of w bits
--   is a number below 2^w; each operation that wraps in Go has its `% 2 ^ w` written out.
-- Core: internal/voip/core/types.go.
-- Call.State: internal/voip/call/callstate.go. CallInfo, its constructors and ApplyTransition; the clock
--   is an argument. Call.Lifecycle has the invariant of the recorded times, Call.Diagram the diagram.
-- Call.Deadline: the timeouts and phaseDeadline of internal/voip/call/callmanager_timeout.go.
-- Call.Receive: onRelayData of internal/voip/call/callmanager_media.go on an RTP packet, as far as the lock
--   on the peer's stream and the filter of relay copies; CopyFilter and Forwarding have the theorems.
--   Unprotect and the search for a handler are the argument is_decoded.
-- Call.Relays: buildRelayConfigs of internal/voip/call/callmanager_relay.go.
-- Call.Manager: the CallManager of internal/voip/call. State has its fields, emitState and cleanupMedia;
--   Jids the device JIDs of helpers.go; Keys callmanager_srtp.go and the SSRCs; Locally StartCall,
--   AcceptCall, RejectCall, EndCall, Hold and Resume; Signals and Accepts the handlers of
--   callmanager_signaling.go; Relay those of callmanager_relay.go; Video callmanager_video.go less the
--   frames; Watchdog expireIfOverdue; Rtcp callmanager_rtcp.go. Quiet, Steps, Histories, Expiry, Kept,
--   Answered, Late and Numbering have the theorems. What leaves the
--   manager, stanzas, events and calls of the relay transport, is the list `effects`. What
--   internal/voip/signaling parses of a stanza, the clock, whether a send or a query succeeds and whether
--   the relay has a connection are arguments; HKDF and the bytes of a text are parameters of Env. A handler
--   that gives up the lock on its way is one step, but for the set-up of AcceptCall and the ack of an
--   offer, which are steps of their own and may come after others.
-- Call.Client: internal/voip/call/client.go, a manager for each call in a dictionary; Tidy, Histories
--   and Others have the theorems.
-- Media.Rtp: internal/voip/media/rtp.go. Header has Encode and DecodeRtpHeader, Packet the packets and
--   sessions; HeaderTrip, PacketTrip and Session have the theorems. A Go panic is the result `panics`.
-- Media.Srtp: internal/voip/media/srtp.go. Context has the rollover counter and the replay window,
--   Protect the cipher, the tag, Protect and Unprotect, Session the pair of contexts; Replay, Window,
--   Rollover, Datagram, RoundTrip, Stream, Audio and Receive have the theorems.
-- Media.H264: internal/voip/media/h264.go. Annexb, Packetize and Depacketize have the code; Fields,
--   RoundTrip, Unit and Split have the theorems.
-- Media.Srtcp: internal/voip/media/srtcp.go; Context has the code and RoundTrip the theorem.
-- Media.Rtcp: internal/voip/media/rtcp.go in Build and Parse, rtcp_receiver.go in Receiver; RoundTrip and
--   Tracking have the theorems. The jitter is an argument.
-- Transport.Stun: internal/voip/transport/stun.go; Message, Parse and Classes have the code, RoundTrip and
--   Built what the parser makes of a message. HMAC-SHA1 and CRC-32 are parameters.
-- Transport.Subscriptions: internal/voip/transport/subscriptions.go; Encode has the code, ReadBack a reader
--   of protobuf's fields and the theorems. Ten rounds of seven bits are enough for a varint of 64 bits.
-- Codec.Red: internal/voip/codec/mlow/red.go; Depack has DepackSplitRed and Tiling its theorems.
-- Codec.Range: internal/voip/codec/mlow/rangecoder.go. Decoder and Symbols have RangeDecoder, Encoder and
--   RawBits RangeEncoder; its Encode is range_encode, its normalize renormalize. Normalize, Invariant,
--   Table, Uniform and InStep have the theorems. The error codes are a number and a Boolean.
-- Codec.Toc: internal/voip/codec/mlow/toc.go.
-- Media.Wav: Parse has ParseWavStrict of internal/voip/media/wavparse.go, Header the header and
--   EncodeWav16kMono, Recorder the WavRecorder of wavrecorder.go; Walk, RoundTrip and Recording have the
--   theorems. A parsed sample is its 16-bit word. In the recorder `mix` stands for floatToInt16 of the sum
--   of the two legs, and `fails_after` says of a write of samples whether it fails and after how many of its
--   bytes, since os.File.Write may write a part.
-- Engine: SrtpManager has internal/voip/engine/srtpmanager.go, Memory its theorem.
-- Events: Registry has internal/app/events/callregistry.go on the dictionaries of Dict, Clients the
--   callers in internal/app/handlers_call.go (doAccept, doStartCall, handleStartGroupCall) and
--   internal/app/session/session.go (wireCall), History the pages of
--   HistoryRows and the export of internal/app/history.go; Ownership, Requests, Claims and Export have the
--   theorems. What leaves the registry is a list; the store's List is the argument StoreList.
-- Runs: the theorems at concrete inputs.
--
-- AES-CTR and HMAC-SHA1 are the parameter `Crypto` of Media.Srtp.Protect, of which only the lengths of
-- the outputs are assumed. Loops over bytes run on fuel, which is the number of bytes left and so
-- enough, because each round takes one at least: first_start and decode_csrc are structural, and
-- split_nals, fragments, stap_loop, read_headers, parse_loop and
-- parse_attributes are called with the length of their input. The loops of the range coder shift a
-- 32-bit word by whole bytes and so need four rounds, six at the end of a payload; the walk over the
-- chunks of a WAV file one round for each eight bytes, and the export of a history one page more than
-- there are records. The recorder's drain has a hundred rounds, which are the two seconds a leg can hold.
--
-- Not modelled: goroutines and locks (each operation that holds its lock throughout is one step), texts
-- of errors, sockets, DTLS and SCTP, the floating-point arithmetic of samples and of the codecs' signal
-- processing, the sending of frames by the call manager, the RTCP it receives, its echo of
-- latency probes, the nodes of the signaling,
-- the subscribers of the broker and the delivery of webhooks, requests and responses of HTTP, and the
-- stores' SQL.
pub mod Base
pub mod Core
pub mod Events
pub mod Engine
pub mod Bytes
pub mod Call
pub mod Media
pub mod Codec
pub mod Transport
pub mod Runs
