-- ===== src/Lib.antt =====
-- SafeLink SSH: a desktop and mobile client for SSH tunnels, a VPN over QUIC and proxy
-- subscriptions, and the server of the VPN.
--
-- Parts of the program and the files that model them:
--   * pkg/config: tunnel.go and validate.go in Config/Tunnel (ValidateTunnel is validate_tunnel),
--     proxy_rule.go in Config/Rules, server.go in Config/Server. The YAML decoder is a parameter that
--     takes the bytes and the configuration to fill.
--   * pkg/protocol/frame.go and the loops pipeTUNtoQUIC and pipeQUICtoTUN of
--     server/internal/vpnserver/server.go in Wire: Frame has one round of each loop (frame and
--     read_frame), Loops the loops themselves (send and receive) with failing writes.
--   * The VPN between client/internal/tunnel/vpn.go and server/internal/vpnserver in Vpn: Handshake has
--     the request of the client and how the server reads it, Session the server's handleClient, Runtime
--     the registry of runtime.go with its Snapshot, Client the loops of the
--     client, write by write and read by read, with Client/Same for those of the server, Reconnect its
--     Run, runOnce and SetRoute, where an Attempt says what the network and the system answer.
--   * server/internal/web/auth.go in Panel/Auth, with bcrypt as a parameter.
--   * pkg/proxysubscription/subscription.go in Proxy: Node has the types, Words the normalised words,
--     Valid validateNode, Codec the decoded documents and the decoders, Gather the loop that the two
--     document parsers share, Clash and SingBox the conversions, Query and Uri the parsers of single
--     URIs, UriList that of lists, and Parse the choice of the format.
--   * pkg/subscription/subscription.go in Subscription: Codec has the documents and their decoders, Parse
--     and Encode the two directions.
--   * client/internal/store/store.go in Store: the files are a record, one field for each JSON file
--     under the user's configuration directory; the operations are actions on a World (the files, the
--     number of temporary files, the outcomes of the system calls to come, the bytes of crypto/rand).
--     Disk has the Load and Save functions and writeFileAtomic, Subscriptions the operations on
--     subscription sources, Nodes and Active those on proxy nodes, Ssh those on SSH connections, and
--     Settings the settings.
--   * client/internal/manager/manager.go in Manager: the tunnels by name and BulkUpsert; Lifecycle has the
--     calls that add, update, delete, start, stop and merge tunnels, with Build of
--     client/internal/tunnel/tunnel.go; Runs has starting and stopping one tunnel as a step relation
--     on the fields of managedTunnel and the goroutines of its runs.
--   * client/internal/subscriptionclient/importer.go in Importer: Fetch has the reply of a provider and
--     the prefix of a source, the module itself Import, Refresh the calls Refresh, RefreshAll and
--     Update. A provider answers a URL with one response, and the time stands still during a call.
--   * Base has the helpers that the parts share, Text the functions of package strings on texts as
--     lists of code points, Net the texts that netip.ParsePrefix accepts
--     and the addresses of net.SplitHostPort and net.JoinHostPort.
--
-- The subscription importer and the desktop application call the store; the store keeps nodes and
-- sources in two files that refer to each other by the identifier of the source. The frames of the
-- client and of the server are the same format, whose padding both sides compute from the length. The
-- server registers a client when its handshake is accepted and takes it off the registry when it ends;
-- the loops count their bytes there, and the web panel shows them.
--
-- Bounds and fuel: lengths in a header are 32-bit and read from four bytes; slices are checked against
-- the buffer of 65536 bytes. The receiving loop is a recursion on fuel: every round takes at least
-- four bytes off the stream, so one more round than the stream has bytes is enough. The counters of the
-- registry wrap around at 2^64; a decimal number has fuel for one digit more than its value.
--
-- The loop of Run takes one Round after the other from a list, and its context is cancelled behind the
-- last one; a call of SetRoute runs as a whole between two steps of Run, and every command that adds
-- or deletes routes may fail. The jitter of a wait is exact where Go computes with a float64. The calls
-- of Lifecycle run one at a time, and Runs has the interleavings for one tunnel, with the cancellation
-- of the root context.
--
-- Not modelled: the encodings of the files (a file holds the value that its JSON encodes, or is one
-- that json.Unmarshal refuses), the mutex of the store (no operation holds it between its load and its
-- save, and no two operations run at the same time here), sockets, QUIC and TLS, the recovery
-- from a panic in handleClient, user interfaces, and the parts of the program not listed above.
pub mod Base
pub mod Text
pub mod Net
pub mod Config
pub mod Wire
pub mod Vpn
pub mod Panel
pub mod Proxy
pub mod Subscription
pub mod Store
pub mod Manager
pub mod Importer
pub mod Tests
