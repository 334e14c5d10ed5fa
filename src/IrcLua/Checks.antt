-- ===== src/IrcLua/Checks.antt =====
-- The settings that `l_start_irc` goes on with.
use snowcone.Prelude.{
  Integer, pos, neg, ℕ, ◌≤◌, ◌%◌, ◌≡◌, refl, ap, Bool, true, false, not, arith, if◌then◌else◌,
}
use mathlib.Core.Path.{subst}
use snowcone.Connect.{Settings}
use snowcone.IrcLua.{Arguments, Checked, accepted, argument_error, opt, in_range, uint16, start_irc}

-- An integer that stands for the number.
abbrev pub Is : Integer → ℕ → Type 0
Is (pos n) m = n ≡ m
Is (neg n) m = ⊥

uint16-Is :
    (low : ℕ) (i : Integer)
    → in_range low 0xffff i ≡ true
    → Is i (uint16 i) × (low ≤ uint16 i) × (uint16 i ≤ 65535)
uint16-Is low (pos n) h =
    let upper : n ≤ 65535 = ground arith in
    let lower : low ≤ n = ground arith in
    let unchanged : n % 65536 ≡ n = omega arith in rw unchanged (refl, lower, upper)
uint16-Is low (neg n) h = cc

checked :
    (c : Bool) (argument : ℕ) (next : Checked) (s : Settings)
    → (if not c then argument_error argument else next) ≡ accepted s
    → (c ≡ true) × (next ≡ accepted s)
checked true argument next s h = (refl, h)
checked false argument next s h = cc

abbrev port_of : Checked → ℕ
port_of (accepted s) = s.port
port_of (argument_error n) = 0

abbrev socks_port_of : Checked → ℕ
socks_port_of (accepted s) = s.socks_port
socks_port_of (argument_error n) = 0

-- If the arguments are accepted, both ports are passed on unchanged, that of the server is from 1
-- to 65535 and that of the proxy from 0 to 65535, where 0 stands for a missing one.
pub start_irc-accepted :
    (a : Arguments) (s : Settings)
    → start_irc a ≡ accepted s
    → Is a.port s.port
      × Is (opt a.socks_port (pos 0)) s.socks_port
      × (1 ≤ s.port)
      × (s.port ≤ 65535)
      × (s.socks_port ≤ 65535)
unfolding start_irc
start_irc-accepted a s h =
    let socks_port : Integer = opt a.socks_port (pos 0) in
    let (port_fits, h1) = checked (in_range 1 0xffff a.port) 3 _ s h in
    let (socks_fits, h2) = checked (in_range 0 0xffff socks_port) 9 _ s h1 in
    let port_is : uint16 a.port ≡ s.port = ap port_of h2 in
    let socks_is : uint16 socks_port ≡ s.socks_port = ap socks_port_of h2 in
    let (p, p1, p2) = uint16-Is 1 a.port port_fits in
    let (q, q1, q2) = uint16-Is 0 socks_port socks_fits in
    (
      subst (λ n. Is a.port n) port_is p,
      subst (λ n. Is socks_port n) socks_is q,
      omega (arith, port_is, p1),
      omega (arith, port_is, p2),
      omega (arith, socks_is, q2),
    )
