-- ===== src/Socks5/Errc.antt =====
-- The error codes of mysocks5/include/socks5.hpp and their messages in mysocks5/socks5.cpp.
use snowcone.Prelude.{ℕ, Bytes, codes, ◌==◌, if◌then◌else◌}

-- The values of the enumeration: the byte of a server's reply is cast to it unchecked.
abbrev pub SocksErrc : Type 0
SocksErrc = ℕ

abbrev pub succeeded : SocksErrc
succeeded = 0

abbrev pub general_failure : SocksErrc
general_failure = 1

abbrev pub not_allowed : SocksErrc
not_allowed = 2

abbrev pub network_unreachable : SocksErrc
network_unreachable = 3

abbrev pub host_unreachable : SocksErrc
host_unreachable = 4

abbrev pub connection_refused : SocksErrc
connection_refused = 5

abbrev pub ttl_expired : SocksErrc
ttl_expired = 6

abbrev pub command_not_supported : SocksErrc
command_not_supported = 7

abbrev pub address_not_supported : SocksErrc
address_not_supported = 8

abbrev pub wrong_version : SocksErrc
wrong_version = 256

abbrev pub no_acceptable_methods : SocksErrc
no_acceptable_methods = 257

abbrev pub authentication_failed : SocksErrc
authentication_failed = 258

abbrev pub unsupported_endpoint_address : SocksErrc
unsupported_endpoint_address = 259

abbrev pub domain_too_long : SocksErrc
domain_too_long = 260

abbrev pub username_too_long : SocksErrc
username_too_long = 261

abbrev pub password_too_long : SocksErrc
password_too_long = 262

-- `SocksErrCategory::message`
unfoldable pub message : ℕ → Bytes
message ev =
    if ev == succeeded
    then codes "succeeded"
    else if ev == general_failure
    then codes "general SOCKS server failure"
    else if ev == not_allowed
    then codes "connection not allowed by ruleset"
    else if ev == network_unreachable
    then codes "network unreachable"
    else if ev == host_unreachable
    then codes "host unreachable"
    else if ev == connection_refused
    then codes "connection refused"
    else if ev == ttl_expired
    then codes "TTL expired"
    else if ev == command_not_supported
    then codes "command not supported"
    else if ev == address_not_supported
    then codes "address type not supported"
    else if ev == wrong_version
    then codes "bad server protocol version"
    else if ev == no_acceptable_methods
    then codes "server rejected authentication methods"
    else if ev == authentication_failed
    then codes "server rejected authentication"
    else if ev == unsupported_endpoint_address
    then codes "server sent unknown endpoint address"
    else if ev == domain_too_long
    then codes "domain name too long"
    else if ev == username_too_long
    then codes "username too long"
    else if ev == password_too_long
    then codes "password too long"
    else codes "(unrecognized error)"
