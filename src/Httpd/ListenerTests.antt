-- ===== src/Httpd/ListenerTests.antt =====
-- A listener with two addresses, one of which cannot be bound.
use snowcone.Prelude.{◌≡◌, refl, false, [], ◌∷◌, Shuffle_self}
use snowcone.Httpd.Listener.{
  listens, cannot_bind, results, Network, run, resolve, finish_accept, here, next, resolves,
  accepts_one,
}
use snowcone.Httpd.Accepting.{IsAccepting, Run-IsAccepting}

abbrev listening : Network
listening = resolve (results (listens ∷ cannot_bind ∷ [])) run

one_accept : listening.accepts ≡ 0 ∷ []
unfolding resolve
one_accept = refl

Run-IsAccepting_example : IsAccepting (finish_accept 0 false [] listening)
unfolding resolve
Run-IsAccepting_example = Run-IsAccepting (
    next (next here (resolves (results (listens ∷ cannot_bind ∷ [])) run refl))
      (accepts_one 0 false [] listening (Shuffle_self (0 ∷ []))))
