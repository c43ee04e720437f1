-- ===== src/Lib.antt =====
-- Verification of Beast for standalone Asio, a header-only C++ library of HTTP, WebSocket and zlib
-- layers over Asio streams. It has four parts: core (buffers and helpers), http (messages, parser,
-- serializer), websocket (the framing protocol over a stream) and zlib (the compression that
-- permessage-deflate uses). An HTTP parser is fed with octets and calls a class that derives from
-- it with what it finds; it keeps its place in the message between the calls. A websocket stream
-- reads octets into a buffer, takes frame headers off it, unmasks and validates the payload, and
-- writes control frames of its own. The library models the HTTP parser and the websocket codec,
-- with the core helpers that they call.
--
--   Core/Clamp.antt       include/beast/core/detail/clamp.hpp: `clamp`, `clamp_limit` (its second
--                         form), `sum_exceeds`.
--   Core/Varint.antt      include/beast/core/detail/varint.hpp; the loops are recursions on
--                         accessibility, so they end on every number.
--   Core/Base64.antt      include/beast/core/detail/base64.hpp; Digits, RoundTrip and Size treat it.
--   Core/StaticBuffer.antt include/beast/core/static_buffer.hpp and impl/static_buffer.ipp: the ring,
--                         with its memory as a function; Ring, Output and Queue relate it to a
--                         queue of bytes.
--   Core/FlatBuffer.antt  include/beast/core/flat_buffer.hpp and impl/flat_buffer.ipp: the block and
--                         its pointers. Queue and Script relate it to a bounded queue of bytes,
--                         Copies treats the operations on two buffers.
--   Websocket/Mask.antt   include/beast/websocket/detail/mask.hpp; against RFC 6455 in Mask/Laws.
--   Websocket/Error.antt  include/beast/websocket/error.hpp: `error`.
--   Websocket/Frame.antt  include/beast/websocket/detail/frame.hpp: the header, the opcodes and
--                         `write`; what its bytes are, in Frame/Bytes.
--   Websocket/Stream.antt include/beast/websocket/impl/stream.ipp: `parse_fh`, a chain of stages
--                         (`check_op`, `check_mask`, `read_length`, `read_key`, `begin_payload`),
--                         and the members that it uses (include/beast/websocket/stream.hpp and
--                         detail/stream_base.hpp). Stream/Spec states RFC 6455's rules for a header
--                         without the code; RoundTrip, Decode and Incremental relate the two.
--   Websocket/Utf8.antt   include/beast/websocket/detail/utf8_checker.hpp; against RFC 3629, whose
--                         syntax is in Utf8/Spec: Whole for one piece, Parts for several.
--   Websocket/Control.antt include/beast/websocket/rfc6455.hpp, the readers of control payloads in
--                         detail/frame.hpp, and `write_close` and `write_ping` of impl/stream.ipp.
--   Http/Chars.antt       the character tables of include/beast/http/detail/rfc7230.hpp and
--                         detail/basic_parser.hpp.
--   Http/Lines, Numbers, StartLine, Field, Extensions
--                         the functions of include/beast/http/detail/basic_parser.hpp: the ends of
--                         lines and headers, sizes, the parts of a start line, a header field with
--                         its continuation lines, the extensions of a chunk. Numbers has `to_hex` of
--                         detail/chunk_encode.hpp too.
--   Http/Text.antt        include/beast/core/string.hpp: `iequals`.
--   Http/Verb.antt        include/beast/http/impl/verb.ipp.
--   Http/Status.antt      include/beast/http/status.hpp and impl/status.ipp: the codes, their classes
--                         and, in Status/Reasons, their texts.
--   Http/Names.antt       include/beast/http/impl/field.ipp: the table of field names.
--   Http/Tokens.antt      the token lists of include/beast/http/detail/rfc7230.hpp, impl/rfc7230.ipp
--                         and detail/basic_parsed_list.hpp.
--   Http/Parser.antt      include/beast/http/basic_parser.hpp and impl/basic_parser.ipp: the members,
--                         the flags and the callbacks. Header has the start line, the fields and the
--                         decision on the body, Body the bodies and chunks, Put the loop over the
--                         states, `put_eof` and, in Put/Sequence, `put` on a sequence of
--                         buffers. Framing, Ends and Chunk treat them.
--   Prelude.antt          tests, lists, bit operations and order over native numbers.
--
-- A byte is a number below 256. A dynamic buffer or a buffer sequence is the list of the bytes
-- that it holds, in order, save where the code looks at the buffers themselves (`mask_inplace` and
-- `put` over a sequence). `std::size_t` and `std::uint64_t` have 64 bits, and an operation that
-- can wrap has `% 2 ^ w` written out. `boost::endian` is not part of the repository: its two
-- buffer types are the record `Endian`, a parameter whose laws are their documented byte order.
-- The error code is `none` where its value is 0. An assertion (`BOOST_ASSERT`) is not modelled; a
-- result on a state that it excludes is the one of a build without assertions, or is said beside
-- the definition. The loops of the UTF-8 checker carry a number that bounds their rounds: the
-- length of what is left to check, which is enough since each round passes a byte; the theorems on
-- `check_utf8` hold with it. Memory that an allocator gives is the record `Allocator`: a block of
-- the size asked for, with any contents. The masking key of `create_mask` is an argument. An
-- address, where the checker aligns its pointer, is an argument too, and any address will do.
--
-- The characters from an iterator of the HTTP parser up to its end are a list, and an iterator
-- that is given back is the list from there on. The class that derives from the parser is the
-- record `Impl` of its callbacks, any functions on a state of its own. The loop over header lines
-- has one more than the number of characters as fuel, since a field takes two at least, and the
-- one over chunk extensions two more than twice that number, since two rounds take one at least;
-- `put` takes its fuel as an argument, and with callbacks that take all they are given there is
-- fuel at which it ends. A field is the number of its name in the table.
--
-- Not modelled: input and output, the composed asynchronous operations and their handlers, SSL and
-- files; of http the containers of fields, the messages and the serializer; the zlib part; the
-- examples and tests; and the vendored unit_test library and zlib sources, which are other
-- projects' code.
pub mod Prelude
pub mod Core
pub mod Websocket
pub mod Http
