-- ===== src/IrcLua.antt =====
-- The Lua side of client/irc/lua.cpp: the arguments of `l_start_irc`, and the tables of `pushtags` and
-- `pushircmsg`. A table is its assignments, the last one first.
pub mod Tables
pub mod Checks
mod Tests
use snowcone.Prelude.{
  ℕ, suc, ◌+◌, ◌*◌, ◌-◌, ◌%◌, ◌^◌, ◌≡◌, Bool, true, false, not, ◌&&◌, ◌||◌, Option, none, some,
  List, [], ◌∷◌, ◌++◌, Bytes, ◌==◌, ltb, leb, if◌then◌else◌, Integer, pos, neg, same,
}
use snowcone.IrcMsg.{IrcTag, IrcMsg}
use snowcone.LineBuffer.{until_zero}
use snowcone.Socks5.{Auth, no_credential, username_password}
use snowcone.Connect.{Settings}

abbrev pub Table : Type 0
Table = List (Bytes × Bytes)

abbrev pub settable : Bytes → Bytes → Table → Table
settable key val table = (key, val) ∷ table

unfoldable pub gettable : Bytes → Table → Option Bytes
gettable key [] = none
gettable key ((k, v) ∷ table) = let rest = gettable key table in if same k key then some v else rest

-- The loop over the tags, from an empty table on.
unfoldable pub settags : List IrcTag → Table → Table
settags [] table = table
settags (tag ∷ tags) table = settags tags (settable tag.key tag.val table)

unfoldable pub pushtags : List IrcTag → Table
unfolding settags
pushtags tags = settags tags []

abbrev pub is_digit : ℕ → Bool
is_digit c = leb 48 c && leb c 57

-- The decimal value, if there are digits only.
unfoldable pub digits : Bytes → ℕ → Option ℕ
digits [] value = some value
digits (c ∷ s) value =
    let rest = digits s (value * 10 + (c - 48)) in if is_digit c then rest else none

-- `std::from_chars` for a 64-bit integer, where it takes all of the text.
abbrev pub at_most : ℕ → (ℕ → Integer) → Option ℕ → Option Integer
at_most bound sign none = none
at_most bound sign (some value) = if leb value bound then some (sign value) else none

abbrev pub negative : ℕ → Integer
negative value = if value == 0 then pos 0 else neg (value - 1)

abbrev pub after_sign : Bytes → Option Integer
after_sign [] = none
after_sign (c ∷ s) = at_most (2 ^ 63) negative (digits (c ∷ s) 0)

unfoldable pub from_chars : Bytes → Option Integer
unfolding digits
from_chars [] = none
from_chars (c ∷ s) =
    if c == b'-' then after_sign s else at_most (2 ^ 63 - 1) (λ value. pos value) (digits (c ∷ s) 0)

pub data Command : Type 0 where
  integer : Integer → Command
  string : Bytes → Command

abbrev pub pushcommand : Bytes → Option Integer → Command
pushcommand command (some code) = integer code
pushcommand command none = string command

-- `source` is left out if it is empty.
pub record Message : Type 0 where
  pub tags : Table
  pub source : Option Bytes
  pub command : Command
  pub args : List Bytes

abbrev pub non_empty : Bytes → Option Bytes
non_empty [] = none
non_empty (c ∷ s) = some (c ∷ s)

unfoldable pub pushircmsg : IrcMsg → Message
unfolding pushtags from_chars
pushircmsg msg = record {
  tags = pushtags msg.tags;
  source = non_empty msg.source;
  command = pushcommand msg.command (from_chars msg.command);
  args = msg.args;
}

-- The arguments of `l_start_irc`, an optional one being `none` if it is missing or `nil`.
pub record Arguments : Type 0 where
  pub tls : Bool
  pub host : Bytes
  pub port : Integer
  pub client_cert : Bool
  pub client_key : Bool
  pub verify : Option Bytes
  pub sni : Option Bytes
  pub socks_host : Option Bytes
  pub socks_port : Option Integer
  pub socks_user : Option Bytes
  pub socks_pass : Option Bytes

-- The settings, or the number of the argument that is out of range.
pub data Checked : Type 0 where
  accepted : Settings → Checked
  argument_error : ℕ → Checked

abbrev pub opt {ℓ} : {A : Type ℓ} → Option A → A → A
opt none default = default
opt (some x) default = x

abbrev pub in_range : ℕ → ℕ → Integer → Bool
in_range low high (pos n) = leb low n && leb n high
in_range low high (neg n) = false

-- The conversion to an unsigned 16-bit integer.
abbrev pub uint16 : Integer → ℕ
uint16 (pos n) = n % 65536
uint16 (neg n) = 65535 - n % 65536

abbrev pub auth_of : Bytes → Bytes → Auth
auth_of [] [] = no_credential
auth_of [] (y ∷ pass) = username_password [] (y ∷ pass)
auth_of (x ∷ user) pass = username_password (x ∷ user) pass

-- A C string ends at its first zero byte.
unfoldable pub start_irc : Arguments → Checked
unfolding until_zero
start_irc a =
    let host : Bytes = until_zero a.host in
    let socks_port : Integer = opt a.socks_port (pos 0) in
    if not (in_range 1 0xffff a.port)
    then argument_error 3
    else if not (in_range 0 0xffff socks_port)
    then argument_error 9
    else accepted (record {
      tls = a.tls;
      host = host;
      port = uint16 a.port;
      client_cert = a.client_cert;
      client_key = a.client_key;
      verify = until_zero (opt a.verify host);
      sni = until_zero (opt a.sni host);
      socks_host = until_zero (opt a.socks_host []);
      socks_port = uint16 socks_port;
      socks_auth = auth_of (until_zero (opt a.socks_user [])) (until_zero (opt a.socks_pass []));
    })
