-- ===== src/Lib.antt =====
-- A verification library for snowcone, a terminal IRC client. The C++ program serves its Lua
-- scripts: it reads the server's text, cuts it into lines, parses the messages and hands them to a
-- callback.
--
-- Base64 is base64/base64.cpp with base64/include/base64.hpp, and the bindings of
--   mybase64/mybase64.cpp: `encode`, `decode`, `encoded_size`, `decoded_size`, `l_to_base64`,
--   `l_from_base64`. The 32-bit buffer wraps around as it does in the code. What is written through
--   the output pointer is the list of the bytes.
-- IrcMsg is ircmsg/ircmsg.cpp with ircmsg/include/ircmsg.hpp: the class `parser`,
--   `unescape_tag_value`, `parse_irc_tags` and `parse_irc_message`. A null-terminated text is the
--   list of its bytes in front of the terminator, a null pointer is `none`, and an exception is a
--   result. The loops over tags and arguments run on fuel, one unit for each byte of the text and
--   one more, and a proof shows that it never runs out.
-- LineBuffer is client/net/linebuffer.cpp with linebuffer.hpp: the memory as a list of bytes, and
--   the iterators as positions in it.
-- IrcSession is `get_nonempty_line`, `session_thread` and the completion handler of `l_start_irc` in
--   client/irc/lua.cpp. It uses LineBuffer and IrcMsg. What one `async_read_some` delivers is a
--   chunk, and the calls of the Lua callback are the events. The rounds over the lines run on the
--   size of the buffer as fuel, since every line takes a newline from it.
-- Socks5 is mysocks5/include/socks5.hpp and socks5.cpp: the steps of `SocksImplementation` as
--   functions to what they ask for next, and `async_connect` as their run against a network, which
--   is the list of how the reads and writes complete and the bytes that the server sends. The list
--   ends where the operation still waits. The host is a name or the bytes of an address.
-- Connection is the write queue of client/net/connection.cpp. The calls of `write` and the ends of
--   the writes are the steps of a relation.
-- Websocket is the class `Websocket` of client/httpd.cpp, with the reads, writes and close
--   handshakes in progress. The steps are the calls of the program and the ends of the operations.
-- Process is `async_exec` of client/process.cpp. Its four operations end in any order.
-- Keyboard is `stdin_thread` of client/app.cpp, with the constants of client/bracketed_paste.hpp.
--   Keyboard.Callbacks has the calls of the logic module for its events, over LuaStack.
--   The keys that one poll delivers are a list. The constants of ncurses, `getmouse` and `mbrtowc`
--   are parameters.
-- Connect is `connection::connect` of client/net/connection.cpp with `peer_fingerprint` and
--   `alpn_encode`: the calls on the resolver, the sockets, SOCKS and OpenSSL, which the world answers
--   or makes throw. It uses the types of Socks5.
-- IrcLua is the rest of client/irc/lua.cpp: `pushtags`, `pushircmsg`, and the arguments and settings
--   of `l_start_irc`, which Connect takes.
-- Timer is client/timer.cpp, and LuaText the bindings `l_irccase` of client/applib.cpp and `l_xor` of
--   myopenssl/myopenssl.cpp.
-- Toml is mytoml: Export is `export_value`, `export_table` and `l_to_toml`, and Push is `push_toml` and
--   `l_parse_toml`. A Lua table is its entries, and the order in which `lua_next` visits them is a
--   parameter. The loop over a table's strings runs on fuel, since it need not end; a unit for each
--   entry is enough if all keys are strings.
-- LuaRef is client/LuaRef.hpp, with the entries of the registry and all objects that are alive. What
--   a program expects an object to hold stands beside it.
-- LuaStack is the stack of a Lua state as a list, `safecall` of client/safecall.cpp and `lua_callback`
--   of client/applib.cpp. LuaStack.Handlers has the calls of Lua that end look-ups, processes and
--   reads of web sockets. A call of Lua is a function of its arguments: its results or its error
--   are all that is kept of it.
-- Httpd is `handle_request` of client/httpd.cpp on that stack, Httpd.Session the class `Session` with
--   the operations in progress, whose requests `handle_request` answers, and Httpd.Listener the class
--   `Listener`, which makes the sessions.
-- Applib has bindings of client/applib.cpp and the reloading and signals of client/app.cpp. It uses
--   IrcMsg and IrcLua for the messages that a script parses.
-- IrcHandle is the object that `l_start_irc` gives to a script, with `l_send_irc` and `l_close_irc` of
--   client/irc/lua.cpp, over the write queue of Connection.
-- HsFilter is `l_serialize_regexp_db` of hsfilter/hsfilter.cpp with `compile`. The answers of Hyperscan
--   are a parameter, and what it allocates is followed by the order of allocating and freeing.
-- Prelude has the shared notation and lemmas.
--
-- Not modelled: the Lua interpreter, ncurses, OpenSSL, the resolver, the sockets and TLS, which are
-- libraries that the code calls; the bindings of OpenSSL,
-- libarchive and GeoIP; and the Lua scripts.
mod Prelude
pub mod Base64
pub mod IrcMsg
pub mod LineBuffer
pub mod IrcSession
pub mod Socks5
pub mod Connection
pub mod Websocket
pub mod Process
pub mod Keyboard
pub mod Connect
pub mod Timer
pub mod LuaText
pub mod IrcLua
pub mod Toml
pub mod LuaStack
pub mod Httpd
pub mod LuaRef
pub mod Applib
pub mod IrcHandle
pub mod HsFilter
