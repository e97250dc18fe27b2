-- ===== src/Lib.antt =====
-- Reticulum forwarding service: a model of its Reticulum stack and of what makes it correct.
--
-- The service (cmd/fwdsvc) relays LXMF group messages over a Reticulum network. Bytes come from a
-- TCP stream as HDLC frames (internal/rns/hdlc.go); a frame is a packet (packet.go); a packet opens
-- a link (link.go) between two identities (identity.go); what a link carries is encrypted and
-- authenticated by a token (link_token.go), what goes to a destination without a link by another
-- (token.go); and a body that is too large for a packet goes over a link as a resource: it is
-- encrypted as one token, cut into parts, advertised with a map of short hashes, requested by the
-- receiver in windows and assembled again (resource*.go). The service keeps a roster of members,
-- queues one message for each of them and retries it, and remembers the id that each recipient gives
-- a message, so that a reaction to it reaches the others with the id that they know.
--
-- Files and code, below internal/rns:
--   Base            lists, bytes, error results and Boolean tests; bytesEqual of announce.go is ◌=ᵇ◌
--   Rns.Crypto      the primitives of Go's crypto packages and of golang.org/x/crypto, as a record
--                   that the other modules take as a parameter, and their documented laws (IsSound);
--                   Rns.Crypto.Toy is an instance that the examples run with
--   Rns.Hdlc        hdlc.go: encode_hdlc is EncodeHDLC, next_frame is NextFrame
--   Rns.Packet      packet.go: pack, parse_packet, hashable_part and the flags
--   Rns.Identity    identity.go: key halves, hashes, sign and validate
--   Rns.Token       token.go and link_token.go: padding, AES-CBC, both tokens
--   Rns.Link        link.go: LINKREQUEST, LRPROOF, signalling, link id and session keys
--   Rns.Announce    announce.go: an announce, its signature and its emission time
--   Rns.LinkData    link_data.go, proof.go and path.go: the packets of a link that is up, explicit
--                   proofs and path requests
--   Rns.LinkState   link_state.go: Links is one link and the table, Transfers the index of the
--                   resource transfers and the closing of a link
--   Rns.Resource    resource.go and resource_hash.go; Advert is resource_adv.go, Wire
--                   resource_wire.go, Receiver resource_receiver.go, Sender resource_sender.go
--   Rns.Dispatch    resource_dispatch.go and openResourceReceiver: which transfer a resource packet
--                   goes to, with the calls that it makes in Dispatch.Calls;
--                   Resource.Hmu is the hashmap update of resource_wire.go
-- Roster is internal/roster/roster.go: members, bans, the events that move their times, pruning and
-- what the store holds (Roster.Saving, where the events of the service are a type).
-- History is internal/history/log.go: the log of the last messages.
-- Idmap is internal/idmap/idmap.go: which message id each recipient of a forwarded message computes.
-- Outbound is internal/service/outbound.go: the queue and its retries; Outbound.Workers is the pool
-- of workers as a step relation, in which they take turns at the lock.
-- Commands is internal/commands: Parser is parser.go; of handlers.go, Callers is deriveCaller and the
-- help, Lists the lists and fitList, Nicknames SanitizeNickname and mustHexBytes, Handlers the
-- commands of members, Moderation those of moderators and administrators, Dispatch Dispatch itself.
-- Environment has the configuration, the hooks and the functions of the standard library that they
-- use. Roster.Finding is the reading side of roster.go: Get, Resolve, Banlist and the order of List.
-- Service is, of internal/service, forward.go (Forward), rewrite.go and keyAsInt of attachments.go
-- (Fields and Rewrite), the rest of attachments.go (Attachments), sanitize.go (Sanitize), replay.go
-- (Replay) and inbox.go with onJoin of service.go (Inbox). Inbox composes them: a verified message is
-- a command, which Commands answers, or goes to the active members of the roster, with the ids that
-- it refers to changed for each one by the views of Idmap, through Outbound and into History. The
-- hooks that a command calls are recorded, and run_calls is their work, which runs when it will.
-- A child module whose name says what it proves holds the theorems of its parent, and Examples a
-- run of them. Receiver.Invariant has the invariant of an inbound transfer, Receiver.Placing and
-- Receiver.Requests what a part and a request do to it, and Sender.Delivery the steps of a whole
-- transfer as a relation.
--
-- Conventions. Bytes are a list of natural numbers; theorems that need them below 256 say so. A nil
-- slice and an empty one are the empty list, and a nil pointer is `none`. Machine integers keep
-- their reduction where the code shifts or truncates. Random bytes are an argument, `none` where the
-- source of entropy fails.
-- Errors are constructors of an error type per component, one for each error that the code
-- returns, without its text. A reply of a command is a text, or the error whose text it is.
-- Functions of the standard library on text (strings.ToLower, TrimSpace, Fields, sort.Slice, %d)
-- are parameters; a string literal is its bytes (`codes`).
-- consecutiveHeight of the receiver, which starts at -1, is `frontier` less one.
--
-- Bounds. The loop that cuts a blob into parts runs on as many rounds as the blob has bytes, which
-- is enough since each round takes at least one. The scans over the hashmap
-- run over the known entries, the loop that moves the frontier over the parts behind it. The hashmap
-- loop draws at most maxCollisionRetries random hashes, as in the code.
-- The drain of the outbound queue has a fuel of twice the pending messages and one, and the loops of
-- the message id cache run as many rounds as the list has elements, each of which they remove.
--
-- Not modelled: sockets, files, goroutines, channels, locks and timers; msgpack and TOML, which
-- are packages of other projects; the transport and the run loops of the resources; LXMF messages,
-- the loading of the configuration, the start-up of the service and its announces. Of the roster,
-- its file is left out; its times are numbers and its durations are not negative. Of the outbound
-- queue, its file is left out. Log lines are left out.
pub mod Base
pub mod Rns
pub mod Roster
pub mod Outbound
pub mod Commands
pub mod History
pub mod Idmap
pub mod Service
