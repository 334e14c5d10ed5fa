-- ===== src/IrcLua/Tests.antt =====
-- Runs of the tables and of the checks.
use snowcone.Prelude.{pos, ◌≡◌, ◌≤◌, refl, some, none, true, false, [], ◌∷◌, List, codes}
use snowcone.IrcMsg.{IrcTag}
use snowcone.Socks5.{no_credential}
use snowcone.Connect.{Settings}
use snowcone.IrcLua.{Arguments, string, argument_error, pushcommand, from_chars, start_irc}
use snowcone.IrcLua.Checks.{Is, start_irc-accepted}

abbrev tags : List IrcTag
tags =
    record { key = codes "a"; val = codes "1" } ∷ record { key = codes "a"; val = codes "2" } ∷ []

privmsg : pushcommand (codes "PRIVMSG") (from_chars (codes "PRIVMSG")) ≡ string (codes "PRIVMSG")
unfolding from_chars
privmsg = refl

abbrev arguments : Arguments
arguments = record {
  tls = true;
  host = codes "irc";
  port = pos 6697;
  client_cert = false;
  client_key = false;
  verify = none;
  sni = some [];
  socks_host = none;
  socks_port = none;
  socks_user = none;
  socks_pass = none;
}

abbrev settings : Settings
settings = record {
  tls = true;
  host = codes "irc";
  port = 6697;
  client_cert = false;
  client_key = false;
  verify = codes "irc";
  sni = [];
  socks_host = [];
  socks_port = 0;
  socks_auth = no_credential;
}

no_port : start_irc (record arguments { port = pos 0 }) ≡ argument_error 3
unfolding start_irc
no_port = refl

start_irc-accepted_example :
    Is (pos 6697) 6697 × Is (pos 0) 0 × (1 ≤ 6697) × (6697 ≤ 65535) × (0 ≤ 65535)
unfolding start_irc
start_irc-accepted_example = start_irc-accepted arguments settings refl
