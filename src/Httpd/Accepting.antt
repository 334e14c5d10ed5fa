-- ===== src/Httpd/Accepting.antt =====
-- The accepts that are in progress.
use snowcone.Prelude.{
  ℕ, suc, ◌+◌, ◌≤◌, ◌<◌, ◌≡◌, ◌≢◌, refl, sym, ap, Bool, true, false, List, [], ◌∷◌, ◌++◌, arith,
  length, All, Shuffle, Shuffle-length, Shuffle-All, Shuffle-Distinct, Distinct,
}
use mathlib.Core.Path.{subst}
use snowcone.Httpd.Listener.{
  Trial, listens, cannot_open, cannot_set, cannot_bind, cannot_listen, listen_all, Resolved, error,
  results, Network, run, close, start_all, resolve, finish_accept, Step, resolves, accepts_one,
  closes, Run, here, next, numbers,
}

-- At most one accept of each acceptor is in progress, and the acceptors fit in the vector's room.
pub record IsAccepting (n : Network) : Type 0 where
  pub one_each : Distinct (λ (i : ℕ). i) n.accepts
  pub there : All (λ i. i < n.acceptors) n.accepts
  pub room : n.acceptors ≤ n.capacity
  pub nothing_yet : n.resolving ≡ true → (n.accepts ≡ []) × (n.acceptors ≡ 0)

accept_with : List ℕ → Network → Network
accept_with accepts n = record n { accepts = accepts }

wider : (i : ℕ) (js : List ℕ) → All (λ j. j < i) js → All (λ j. j < suc i) js
wider i [] h = tt
wider i (j ∷ js) (h, hs) = (omega arith, wider i js hs)

others : (i : ℕ) (js : List ℕ) → All (λ j. j < i) js → All (λ j. j ≢ i) js
others i [] h = tt
others i (j ∷ js) (h, hs) = (ground arith, others i js hs)

-- The accepts that the loop starts stand before those in progress, all from `i` on.
listen_all-accepts :
    (trials : List Trial) (i : ℕ) (n : Network)
    → All (λ j. j < i) n.accepts
    → Distinct (λ (j : ℕ). j) n.accepts
    → let (acceptors, effects) = listen_all trials i in
      (more : List ℕ) × (start_all effects n ≡ accept_with more n)
      × Distinct (λ (j : ℕ). j) more
      × All (λ j. j < acceptors) more
      × (acceptors ≤ i + length trials)
unfolding listen_all start_all accept_with
listen_all-accepts [] i n below d = (n.accepts, refl, d, below, omega arith)
listen_all-accepts (listens ∷ trials) i n below d =
    let (more, e, d', below', few) =
      listen_all-accepts trials (suc i) (record n { accepts = i ∷ n.accepts })
        (omega arith, wider i n.accepts below) (others i n.accepts below, d) in
    (more, e, d', below', omega arith)
listen_all-accepts (cannot_open ∷ trials) i n below d =
    (n.accepts, refl, d, wider i n.accepts below, omega arith)
listen_all-accepts (cannot_set ∷ trials) i n below d =
    (n.accepts, refl, d, wider i n.accepts below, omega arith)
listen_all-accepts (cannot_bind ∷ trials) i n below d =
    (n.accepts, refl, d, wider i n.accepts below, omega arith)
listen_all-accepts (cannot_listen ∷ trials) i n below d =
    (n.accepts, refl, d, wider i n.accepts below, omega arith)

resolve-IsAccepting :
    (resolved : Resolved) (n : Network)
    → n.resolving ≡ true
    → IsAccepting n
    → IsAccepting (resolve resolved n)
unfolding resolve accept_with
resolve-IsAccepting error n r h =
    let (none, zero_acceptors) = h.nothing_yet r in
    record { one_each = h.one_each; there = rw none tt; room = omega arith; nothing_yet = λ e. cc }
resolve-IsAccepting (results trials) n r h =
    let (none, zero_acceptors) = h.nothing_yet r in
    let begun : Network = record n {
      resolving = false;
      capacity = length trials;
      acceptors = (listen_all trials 0).0;
    } in
    let (more, e, different, there, few) =
      listen_all-accepts trials 0 begun (rw none tt) h.one_each in
    subst IsAccepting (sym e) (record {
      one_each = different;
      there = there;
      room = omega (arith, few);
      nothing_yet = λ q. cc;
    })

finish_accept-IsAccepting :
    (i : ℕ) (failed : Bool) (rest : List ℕ) (n : Network)
    → Shuffle n.accepts (i ∷ rest)
    → IsAccepting n
    → IsAccepting (finish_accept i failed rest n)
unfolding finish_accept
finish_accept-IsAccepting i true rest n s h = record {
  one_each = (Shuffle-Distinct (λ (j : ℕ). j) s h.one_each).1;
  there = (Shuffle-All (λ j. j < n.acceptors) s h.there).1;
  room = h.room;
  nothing_yet = λ r. absurd (omega (arith, Shuffle-length s, ap length (h.nothing_yet r).0));
}
finish_accept-IsAccepting i false rest n s h = record {
  one_each = Shuffle-Distinct (λ (j : ℕ). j) s h.one_each;
  there = Shuffle-All (λ j. j < n.acceptors) s h.there;
  room = h.room;
  nothing_yet = λ r. absurd (omega (arith, Shuffle-length s, ap length (h.nothing_yet r).0));
}

Step-IsAccepting : {m n : Network} → Step m n → IsAccepting m → IsAccepting n
unfolding close
Step-IsAccepting (resolves resolved n r) h = resolve-IsAccepting resolved n r h
Step-IsAccepting (accepts_one i failed rest n s) h = finish_accept-IsAccepting i failed rest n s h
Step-IsAccepting (closes n) h = record {
  one_each = h.one_each;
  there = h.there;
  room = h.room;
  nothing_yet = h.nothing_yet;
}

-- Whatever the resolver and the sockets answer, and in whatever order accepts end: each acceptor has
-- at most one accept in progress, which refers to an acceptor of the vector, and the vector never
-- grows past the room that was reserved before, so no acceptor moves while it is referred to.
pub Run-IsAccepting : {n : Network} → Run n → IsAccepting n
Run-IsAccepting here = record {
  one_each = tt;
  there = tt;
  room = omega arith;
  nothing_yet = λ r. (refl, refl);
}
Run-IsAccepting (next run step) = Step-IsAccepting step (Run-IsAccepting run)

-- Before the name is resolved there is nothing to close: `close` changes nothing, and the listener
-- opens its acceptors afterwards.
close-resolving : {n : Network} → Run n → n.resolving ≡ true → close n ≡ n
unfolding close
close-resolving {n} run r =
    ap (λ (k : ℕ). record n { closed = numbers k 0 ++ n.closed })
      ((Run-IsAccepting run).nothing_yet r).1
