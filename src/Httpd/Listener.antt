-- ===== src/Httpd/Listener.antt =====
-- The class `Listener` of client/httpd.cpp. The acceptors are numbered in the order of `acceptors_`.
use snowcone.Prelude.{
  ℕ, zero, suc, ◌≡◌, Bool, true, false, List, [], ◌∷◌, ◌++◌, Bytes, codes, length, Shuffle,
}

pub data Effect : Type 0 where
  async_accept : ℕ → Effect
  -- A session is made for the socket, and runs.
  new_session : Effect
  fail : Bytes → Effect

-- How far an acceptor gets for an address.
pub data Trial : Type 0 where
  listens cannot_open cannot_set cannot_bind cannot_listen : Trial

abbrev pub tried : Trial → ℕ → List Effect
tried listens i = async_accept i ∷ []
tried cannot_open i = fail (codes "open") ∷ []
tried cannot_set i = fail (codes "set_option") ∷ []
tried cannot_bind i = fail (codes "bind") ∷ []
tried cannot_listen i = fail (codes "listen") ∷ []

-- The loop over the addresses, from the acceptor `i` on: the acceptors then, and the effects.
unfoldable pub listen_all : List Trial → ℕ → ℕ × List Effect
listen_all [] i = (i, [])
listen_all (listens ∷ trials) i =
    let (n, effects) = listen_all trials (suc i) in (n, tried listens i ++ effects)
listen_all (trial ∷ trials) i = (suc i, tried trial i)

-- What the resolver delivers: an error, or the trials of its addresses.
pub data Resolved : Type 0 where
  error : Resolved
  results : List Trial → Resolved

-- The room that `reserve` makes, the acceptors and the effects.
unfoldable pub on_resolve : Resolved → ℕ × ℕ × List Effect
unfolding listen_all
on_resolve error = (0, 0, fail (codes "resolve") ∷ [])
on_resolve (results trials) = let (n, effects) = listen_all trials 0 in (length trials, n, effects)

unfoldable pub on_accept : ℕ → (failed : Bool) → List Effect
on_accept i true = fail (codes "accept") ∷ []
on_accept i false = new_session ∷ async_accept i ∷ []

-- The acceptors from the `i`-th on, all of which `close` closes.
abbrev pub numbers : (n i : ℕ) → List ℕ
numbers zero i = []
numbers (suc n) i = i ∷ numbers n (suc i)

-- The look-up in progress, the room of the vector, its acceptors, those that have been closed, the
-- accepts in progress, and the sessions made.
pub record Network : Type 0 where
  pub resolving : Bool
  pub capacity : ℕ
  pub acceptors : ℕ
  pub closed : List ℕ
  pub accepts : List ℕ
  pub sessions : ℕ

-- `run` starts the look-up.
abbrev pub run : Network
run = record {
  resolving = true;
  capacity = 0;
  acceptors = 0;
  closed = [];
  accepts = [];
  sessions = 0;
}

unfoldable pub close : Network → Network
close n = record n { closed = numbers n.acceptors 0 ++ n.closed }

unfoldable pub start_all : List Effect → Network → Network
start_all [] n = n
start_all (async_accept i ∷ es) n = start_all es (record n { accepts = i ∷ n.accepts })
start_all (new_session ∷ es) n = start_all es (record n { sessions = suc n.sessions })
start_all (fail what ∷ es) n = start_all es n

unfoldable pub resolve : Resolved → Network → Network
unfolding on_resolve start_all
resolve resolved n =
    let (room, acceptors, effects) = on_resolve resolved in
    start_all effects (record n { resolving = false; capacity = room; acceptors = acceptors })

unfoldable pub finish_accept : ℕ → Bool → List ℕ → Network → Network
unfolding on_accept start_all
finish_accept i failed rest n = start_all (on_accept i failed) (record n { accepts = rest })

-- Accepts end in any order.
pub data Step : Network → Network → Type 0 where
  resolves : (resolved : Resolved) (n : Network) → n.resolving ≡ true → Step n (resolve resolved n)
  accepts_one :
      (i : ℕ) (failed : Bool) (rest : List ℕ) (n : Network)
      → Shuffle n.accepts (i ∷ rest)
      → Step n (finish_accept i failed rest n)
  closes : (n : Network) → Step n (close n)

pub data Run : Network → Type 0 where
  here : Run run
  next : {m n : Network} → Run m → Step m n → Run n
