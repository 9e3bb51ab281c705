-- ===== src/Lib.antt =====
-- Elise-Backend is a multi-protocol proxy server in Rust: it accepts connections (conn), reads the
-- protocol of each (protocol), checks its user against the limits (limiter), picks an outbound by
-- rules (proxy/router, geo, dns) and relays. This library models parts whose behaviour is decided
-- by their own code rather than by I/O.
--
-- Conn models src/conn/proxy_protocol.rs: ProxyHeader the modes, the header of version 2 and the
-- datagrams, ProxyLine the text line of version 1, ProxyStream `PrefixedStream` and
-- `read_proxy_protocol_with_meta`. A stream is the bytes that will come, and how many of them the
-- first `read` returns is an argument. The reading of an address from its text is an argument; the
-- text is ASCII. Conn/Sniffer models src/conn/sniffer.rs, whose loops have the size of the buffer as
-- fuel, and where a loop that ran out of it would count as a panic.
--
-- Geo models src/geo/dat.rs: ProtoReader the reader of Protocol Buffers, in wrapping 64-bit
-- arithmetic, and Ranges `CountryIpList`, the sort and merge of a country's address ranges and
-- the binary search in them, as the loop of the standard library, whose fuel is the number of ranges.
--
-- Hysteria models src/protocol/hysteria/qpack.rs: Varint has the QUIC integers, QpackInt the prefix
-- integers, StaticTable the table, and Qpack the header blocks and the response frame. A reader is
-- the list of the bytes left, a writer the bytes written. The loop of `parse_qpack_headers` runs on
-- the number of the bytes left as fuel, which is enough since each round takes at least one. The
-- loop of `write_qpack_int` runs on its value, which each round at least halves.
--
-- Limiter models src/limiter. Connection has `ConnectionLimiter` with every lock section and every
-- atomic operation as a step of a thread, and Connection/System the interleavings of the threads as
-- a relation; atomics are sequentially consistent. Device has `DeviceLimiter` (its Redis side is not
-- modelled) and IpCache `IpUserCache`, with the clocks as arguments and the file as its entries.
--
-- Dns models src/dns/wire.rs: the query that is built and the response that is read. The loop over
-- the labels of a name has the source's own bound of 128, and the loops over questions and answers
-- the counts of the header.
--
-- Security models src/security/defense.rs, the failures counted for each address, with the clock as
-- an argument. A map has no order, so a full one gives up the first of its list.
--
-- Vless models src/protocol/vless/header.rs, the addons and the header of a request. The loop over
-- the fields has the number of bytes as fuel, each round taking at least one, and no result once that
-- is used up; the loop of
-- `read_uvarint` the ten rounds after which its shift is too large. Vless/Vision models
-- src/protocol/vless/vision.rs, the frames of the flow xtls-rprx-vision; a read of a stream that is
-- direct finds any number of bytes, and the loop over frames has the number of bytes as fuel.
--
-- Vless/Encryption models src/protocol/vless/encryption: Xor the filter of xor.rs that hides the
-- headers of records, over any block cipher, Session the tickets of session.rs, and Keccak and Mlkem of
-- mlkem768.rs the sponge with the hashes on it and the encodings of polynomials. The loops of the
-- filter and of the sponge have the number of bytes as fuel.
--
-- Router models src/proxy/router/mod.rs: Config the routes of src/config/routes.rs, Route
-- `match_toml_route`, and Rules the conditions of a rule and `match_outbound`. `Engines` is what the
-- router calls: the tables of Unicode, IpNet, Regex and the geo data. The random choice among the
-- outbounds of a route is the argument `draw`.
--
-- AnyTls models src/protocol/anytls: Padding the scheme and the padded writer of padding.rs, and
-- Session the loop of session.rs over the frames of a connection with `parse_socks5_addr` of
-- stream.rs. What a session sends, starts and hands on is a list of effects; the ends of its workers
-- are steps of their own. The loop has the number of bytes as fuel, each frame taking at least seven,
-- and the loops of the padding the size that is left.
--
-- Naive models src/protocol/naive/padding.rs, the padded frames at the start of a connection. What
-- the polls of the inner stream find is a list of events. The loop of `poll_read` has as fuel the
-- padded frames still to come and the events, since a round takes one of either.
--
-- Prelude has what the parts share: Boolean tests, lists over native numbers, `Io` (the result of a
-- fallible operation, with a panic as a third outcome), bytes and masks, texts, finite maps, and
-- network addresses.
--
-- Not modelled: the network and file I/O, the TLS, QUIC, and cipher code, which is other libraries',
-- the panels' HTTP APIs, and the protocol servers, which connect these parts to sockets.
pub mod Prelude
pub mod AnyTls
pub mod Conn
pub mod Dns
pub mod Geo
pub mod Hysteria
pub mod Limiter
pub mod Naive
pub mod Router
pub mod Security
pub mod Vless
