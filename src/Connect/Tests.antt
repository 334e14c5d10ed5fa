-- ===== src/Connect/Tests.antt =====
-- Runs of the connection.
use snowcone.Prelude.{◌≡◌, refl, true, false, [], ◌∷◌, codes}
use snowcone.Socks5.{no_credential}
use snowcone.Connect.{Settings, World, done, connect}
use snowcone.Connect.Plan.{plan, connect-plan}

abbrev willing : World
willing = record { answer = λ c. done (codes "x"); digest = 1 ∷ 171 ∷ [] }

abbrev settings : Settings
settings = record {
  tls = true;
  host = codes "irc.libera.chat";
  port = 6697;
  client_cert = false;
  client_key = false;
  verify = codes "irc.libera.chat";
  sni = [];
  socks_host = codes "proxy";
  socks_port = 1080;
  socks_auth = no_credential;
}

connect-plan_example : (connect willing settings).0 ≡ plan settings
unfolding connect
connect-plan_example = connect-plan willing settings (codes "tcp=x socks=x tls=01ab") refl
