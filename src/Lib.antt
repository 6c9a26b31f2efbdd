-- ===== src/Lib.antt =====
-- Verification library of the ZTNA lab: a gateway and a control plane that let a managed device
-- reach a named resource over framed streams, for the life of a session with a leased address.
--
-- The parts and how they meet. The control plane (labztna/control.py) makes a session in the
-- session store (labztna/session.py) for a device whose posture the policy engine
-- (labztna/policy.py) allows; the store leases an address from the pool (labztna/ipam.py). The
-- gateway (labztna/gateway.py) reads frames with the decoder of labztna/protocol.py, looks the
-- session up again, and refuses a request id that it has seen (its replay guard, which the control
-- plane has too).
--
-- Base: shared names, dictionaries as association lists (Base.Dict), big-endian words
--   (Base.Words), the result type (Base.Errors), counting (Base.Counts), and Boolean equality as
--   an instance (Base.Equality).
-- Protocol.Frame: `Frame.encode`, `Frame.decode` and `_validate_frame_semantics`. `pack` and
--   `unpack` are the `struct` format `!4sBBHIQI`, field by field. Frame.Packing, Frame.Semantics
--   and Frame.Inversion carry the lemmas, Frame.RoundTrip the round trips.
-- Protocol.Codec: `FrameCodec`, with `feed`, `finish`, `next_sequence` and
--   `_advance_stream_state`. A call returns the decoder it leaves behind also where it raises.
--   Codec.Buffer and Codec.Chunks are about how the buffer is cut, Codec.Steps gives the frames
--   that a call returns as steps of the streams, Codec.Order and Codec.Machine read off numbers
--   and phases, Codec.Endings the frames that open and end a stream, Codec.Total is about the end
--   of the loop and of a connection. Codec.Wire turns the
--   steps round: allowed frames are what is read from their bytes. Codec.Transfer is a whole TCP
--   stream of a client, from its opening to its FIN.
-- Protocol.Messages: `encode_control` and `decode_control`; JSON is a parameter.
-- Ipam: `VirtualIPPool`, and Ipam.Leases its invariant.
-- Policy: `DevicePosture.is_compliant` and `PolicyEngine.decide`; Policy.Decisions
--   their meaning. Policy.Resources: `ResourceDefinition` and `ResourceRegistry`.
-- Session: `SessionStore`. Session.Sweep, Session.Invariant, Session.Expiry and Session.Reach are
--   about the scavenger, one call, the deadlines, and any sequence of calls (Session.Calls),
--   Session.Generations about the lease generations that such calls give out, and Session.Ended
--   about a session that has left the table.
-- Replay: `consume_request_id` of the gateway and `consume_control_request_id` of the control
--   plane; Replay.Window the window of recent ids.
-- Json: values of `json.loads` and the type tests on them; Json.Inversion what these say. Audit: `AuditLog`.
-- Auth: `TokenVerifier.verify`, and in Auth.Signer `TokenSigner.issue`; base64, JSON, SHA-256 and
--   Ed25519 are the fields of `Auth.Externals`, which the model takes as an argument.
-- Gateway: `_GatewayHandler.handle` up to the relay: `parse_hello` checks the request line,
--   `connect` runs the guards on the token, the session, the proof, the request id and the policy,
--   and `handle` adds the audit events. Gateway.Proof is about what a
--   proof signs, Gateway.Access about granted connections.
--   Gateway.Lines: `_readline`, with `handle` on the bytes of a connection; Gateway.Granted is about
--   those of a granted one. Gateway.Construction: `Gateway.__init__`. Gateway.Server:
--   `_TLSGatewayServer` with its slots, and `start` and `stop`.
-- Gateway.Http: `_valid_http_request`, with Http.Valid about an accepted request. Gateway.Relay:
--   `_handle_tcp`, with Relay.Requests about what is sent upstream and Relay.Bounds about what comes
--   back. Gateway.Packets: `_handle_l3`.
-- Manifest: `ManifestVerifier.verify` (`verify_envelope`), `ManifestSigner.issue`
--   (`issue_envelope`) and `require_manifest_binding` of labztna/manifest.py. Manifest.Verified and
--   Manifest.Binding say what the two checks accept, Manifest.Issued is about what is signed.
-- Otp: `totp_now` at a counter (`totp_at`), `matching_totp_step` and `consume_otp`; Otp.Matching is
--   about one search, Otp.Once about any calls.
-- Control: `_ControlHandler._authorized_session`; Control.Proof is about the claims and the device
--   proof of a request, Control.Access about authorized requests.
--   Control.Login: the login of `do_POST`, with `grant_for` and `manifest_for`. Control.Routes:
--   `do_GET`, `do_POST` with the heartbeat and the logout, and `_read_json`.
-- Dnsmap: `FakeDNSMap` of labztna/dnsmap.py, and Dnsmap.Names its names.
-- Addresses: IPv4 networks, and `covers_entire_ipv4` of labztna/policy.py, read as a descent over
--   blocks of 2 ^ k addresses; Addresses.Covers its meaning. The parsers of the `ipaddress` library
--   are fields of `AddressLibrary`, which the model takes as an argument.
-- Routeplan: `RoutePlan` of labztna/routeplan.py and its lookup (Routeplan.Lookup);
--   Routeplan.Build `build_route_plan`, with Build.Routes and Build.Names about its loops and
--   Build.Plans about the plan.
-- Helper: `DryRunNetworkHelper` of labztna/network_helper.py; Helper.States its states.
-- Netguard: `require_loopback` of labztna/netguard.py, and the pattern of resource ids.
-- Client: `LabClient` of labztna/client.py, with what the control plane answers as an argument;
--   Client.Bound its state between calls. Client.Names: `resolve` and `route_plan`.
--   Client.Exchange: the request of `fetch` and the frames that come back, and
--   Exchange.Accepted that request at the gateway's `_valid_http_request`. Exchange.Requested joins
--   the frames of `fetch` to the gateway's reader, Exchange.Delivered the gateway's relay to the
--   client's reader. Client.Http: HTTP responses, and Http.Request the
--   requests to the control plane.
-- L3: `L3Packet.encode` (`encode_packet`) and `L3Packet.decode` (`decode_packet`) of labztna/l3.py;
--   L3.RoundTrip the round trip. L3.Frames: `packet_to_frame` and `frame_to_packet`; Frames.Allowed
--   the way of such a frame through the gateway's decoder to its answer.
-- Tests: runs on concrete input.
--
-- Numbers, bounds and fuel. Numbers of the program are natural numbers; a header's fields are cut
-- to their widths by `pack` and read at their widths by `unpack`. The loop of `feed` runs on one
-- unit of fuel for each byte of the buffer and one more, where every round but the last removes a
-- frame of 24 bytes at least. Time is in whole units of the clock; each reading is an argument. An
-- IPv4 address is its number. Methods that hold a lock are one step.
--
-- The gateway and the control plane can be given a policy engine of their own; as in the lab's
-- wiring, the model uses one over their registry. `create` is one step, though the source leases
-- the address before it takes the store's lock. The TLS server's `get_request` and
-- `process_request` are one step.
--
-- Not modelled: sockets, threads, TLS, certificates, files and the HTTP server, which are the
-- libraries'; the greeting of the client with its proof, whose parts are the key's signature and
-- `json`; the demonstration resource and the wiring of the processes; the construction of the
-- control plane and the listing of the registry as a manifest; the making of keys and of password
-- hashes.
pub mod Base
pub mod Protocol
pub mod Ipam
pub mod Policy
pub mod Session
pub mod Replay
pub mod Json
pub mod Audit
pub mod Auth
pub mod Gateway
pub mod L3
pub mod Control
pub mod Otp
pub mod Manifest
pub mod Dnsmap
pub mod Addresses
pub mod Routeplan
pub mod Helper
pub mod Netguard
pub mod Client
mod Tests
