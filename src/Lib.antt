-- ===== src/Lib.antt =====
-- lproxy-cv, a transparent proxy for a router: requests of the local network, their UDP datagrams
-- and the DNS queries for listed domains go through tunnels to a server, and through one more tunnel
-- the server opens connections to ports of the router.
--
-- The parts and the files that model them:
--   src/lws/msg.rs, the buffers of a framed socket: Lws/Msg, RMessage, WMessage and TMessage with
--     their methods; Lws/Msg/Framing, how a frame fills up.
--   src/lws/lwsframed.rs, tcpframed.rs and chandshake.rs: Lws/Framed is LwsFramed as a stream and a
--     sink, with Framed/Streams and Framed/Sinks, Lws/TcpFramed is TcpFramed, and Lws/Handshake is
--     CHandshake, with Handshake/Behind. Lws/Socket is what they use of a socket: tokio's polls.
--   src/tunnels/theader.rs, the commands and the header of a message: Tunnels/Header.
--   src/tunnels/request.rs and reqq.rs, the slots of a tunnel's requests: Tunnels/Reqq, with
--     Reqq/Invariant (the free list), Reqq/Pigeonhole and Reqq/Stale (slots named by old tags).
--   src/tunnels/tunnel.rs and tunstub.rs: Tunnels/Tunnel is the state and the methods, with
--     Tunnel/Requests and Tunnel/Rtt; Tunnels/Frames builds the messages, also those of
--     src/tunnels/reqserv.rs; Tunnels/Udp the datagrams; Tunnels/Dispatch is on_tunnel_msg,
--     Tunnels/Reqserv is the flow control of src/tunnels/reqserv.rs with Reqserv/Credit,
--     Tunnels/Runs the sequences of these steps, and Tunnel/Kept what a tunnel keeps in its table.
--   src/tunnels/tunmgr.rs: Manager/State and Manager/Mgr are TunMgr with its methods, Manager/Alloc
--     is alloc_tunnel_for_req; Mgr/Choice and Mgr/Room are about
--     the choice of a tunnel, Mgr/Table about the table's invariant, Mgr/Requests, Mgr/Upkeep and
--     Mgr/Keepalive about the handlers, Mgr/Stopped about what comes after the stop.
--   src/xport/xrequest.rs, xtunnel.rs and proxy_request of xreqserv.rs, the tunnel for the server's
--     requests: Xport/Slots, Xport/Tunnel, and Xport/Tunnel/Count.
--   src/dns/dnspacket.rs: Dns/Buffer is the cursor, Dns/Names reads and Dns/Labels writes a name,
--     Dns/Header and Dns/Packet are the header, the questions, the records and the packet.
--   src/dns/lresolver.rs: Dns/Resolver is LocalResolver, with Resolver/Keys (the keys of queries)
--     and Resolver/Pending (who asked).
--   src/dns/dnstunnel.rs: Dns/Tunnel is DnsTunnel, and Tunnel/Queries its messages.
--   src/dns/forwarder.rs and udpserv.rs: Dns/Forwarder is Forwarder with its handlers, which call
--     the domains, the tunnels and the resolver; Forwarder/Fastest is the choice of a tunnel,
--     Forwarder/Routing the way of a query and of its answer, Forwarder/Bare what is no answer.
--   src/dns/domap.rs, the listed domains: Dns/Domap and Dns/Domap/Covers.
--   src/service/acclog.rs: Service/Acclog is AccLog, Acclog/Accessed who has reached what.
--   src/udpx/cache.rs, ustub.rs and udpxmgr.rs: Udpx/Cache, with Cache/Timed (entries and their
--     expiry), Cache/Methods and Cache/Runs, and Udpx/Manager, the rest of UdpXMgr.
--   src/config/tuncfg.rs: Config/Tuncfg, with Tuncfg/Replies, what a reply of the server holds.
--   src/htp/http.rs: Htp/Http is the head of a request and the parse of a response, with
--     Http/Responses.
--   src/service/service.rs: Service/State is Service with its instructions, Service/Control starts and
--     stops it, with Control/Lifecycle; Control/Requests is what it asks the server and how it
--     processes an instruction and a reply. Requests/Replies is the way to the first configuration,
--     Requests/Handlers, Requests/Downloads, Requests/Replied and Requests/Runs about every sequence
--     of steps.
--   src/service/subservice.rs: Service/Subservice starts and stops the threads, with its Threads and
--     Started; Subservice/Commands is what a thread does with a command: it calls the
--     forwarder, the tunnel managers, the accepted connections, UdpXMgr and XTunnel.
--   src/requests/reqmgr.rs: Requests/ReqMgr, and ReqMgr/InTurn, how connections are shared out.
-- Wire is the interface to the `byte` crate, whose two functions are parameters with their
-- documented behaviour as laws; Prelude has the shared tests, lists and results; Witnesses applies
-- the theorems to concrete states.
--
-- How the code is modelled: a method takes the state and returns the new state and its effects (a
-- message on a channel, a socket shut down, a task woken); which channels have a receiver is a
-- parameter, as is the clock. A panic, an `Err` and a value are the three outcomes. Numbers are
-- natural numbers that wrap where the release build wraps. Strings are their bytes, and the
-- conversion of a label to lower case is a parameter. Every loop but one runs over a list or a
-- count; that of read_qname has fuel, its rounds: one more than a name without offsets has
-- labels is enough, and for a cycle of offsets no fuel is. A loop that polls a socket runs over
-- its rounds, of which one more than the bytes that are missing is enough, unless a write takes no
-- byte. usize has 64 bits here, so that a u64 of the configuration is kept as it is.
--
-- What a library or the system decides is an argument where it is used: the permutation that
-- sort_by gives, tokio's delay queue with its documented laws, what the set-up of a socket comes
-- to, the parse of an address, the JSON parser and the gzip decoder. Environment, in Service/State,
-- gathers what the service is told by the system. A thread is a number, and what its component's
-- set-up reports is a function of that number.
--
-- Not modelled: connections, TLS and the tasks over them (src/tunnels/tunbuilder.rs, the rest of
-- src/tunnels/reqserv.rs and src/xport/xreqserv.rs, src/dns/dnstunbuilder.rs, src/xport/xtunserv.rs,
-- the UDP and TCP servers, and exec of src/htp/http.rs), which only pass bytes between sockets and
-- these parts; the resolver of the program's own names (src/dns/mydns.rs) and the netlink messages;
-- the external commands, which are effects; the log lines and their Display texts; and
-- src/service/cv.rs, which is generated.
pub mod Prelude
pub mod Wire
pub mod Lws
pub mod Tunnels
pub mod Xport
pub mod Dns
pub mod Manager
pub mod Service
pub mod Udpx
pub mod Requests
pub mod Config
pub mod Htp
pub mod Witnesses
