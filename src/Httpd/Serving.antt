-- ===== src/Httpd/Serving.antt =====
-- Each request is answered once, in order, before the next is read.
use snowcone.Prelude.{
  ℕ, suc, ◌≡◌, refl, sym, ap, ◌∙◌, ◌⊎◌, inl, inr, Bool, true, false, List, [], ◌∷◌, ◌++◌, map,
  append-nil, All, All-append,
}
use snowcone.Httpd.{Request, Reply, respond, null_text}
use snowcone.Httpd.Session.{
  Received, end_of_stream, error, request, Network, start_all, run, finish_write, finish_read, Step,
  has_read, wrote, Run, here, next, on_request, answer_unless,
}

module _ {R : Type 0} (keeps_alive : R → Bool) (reply : Request → Reply R) where
  abbrev pub KeepAlive : List R → Type 0
  KeepAlive = All (λ msg. keeps_alive msg ≡ true)

  -- The session waits for a request, and has answered all of those before.
  pub record IsReading (n : Network R) : Type 0 where
    pub reads : n.reads ≡ 1
    pub writes : n.writes ≡ []
    pub ends : n.ends ≡ 0
    pub answered : n.replies ≡ map respond n.sent
    pub kept : KeepAlive n.sent

  -- It writes the response to the last request.
  pub record IsWriting (n : Network R) : Type 0 where
    pub msg : R
    pub reads : n.reads ≡ 0
    pub writes : n.writes ≡ (msg, keeps_alive msg) ∷ []
    pub ends : n.ends ≡ 0
    pub answered : n.replies ≡ map respond n.sent ++ respond msg ∷ []
    pub kept : KeepAlive n.sent

  -- It is over, and the last request may be unanswered.
  pub record IsOver (n : Network R) : Type 0 where
    pub unanswered : List (Reply R)
    pub reads : n.reads ≡ 0
    pub writes : n.writes ≡ []
    pub ends : n.ends ≡ 1
    pub answered : n.replies ≡ map respond n.sent ++ unanswered
    pub last : (unanswered ≡ []) ⊎ ((r : Reply R) × (unanswered ≡ r ∷ []))

  abbrev pub IsServing : Network R → Type 0
  IsServing n = IsReading n ⊎ (IsWriting n ⊎ IsOver n)

  abbrev network :
      (reads : ℕ) (writes : List (R × Bool)) (ends : ℕ) (replies : List (Reply R)) (sent : List R)
      → Network R
  network reads writes ends replies sent = record {
    reads = reads;
    writes = writes;
    ends = ends;
    replies = replies;
    sent = sent;
  }

  over_now :
      (reads : ℕ) (writes : List (R × Bool)) (ends : ℕ) (replies unanswered : List (Reply R))
      (sent : List R)
      → reads ≡ 0
      → writes ≡ []
      → ends ≡ 0
      → replies ≡ map respond sent ++ unanswered
      → (unanswered ≡ []) ⊎ ((r : Reply R) × (unanswered ≡ r ∷ []))
      → IsServing (network reads writes (suc ends) replies sent)
  over_now reads writes ends replies unanswered sent r w e a l = inr (
      inr (record {
        unanswered = unanswered;
        reads = r;
        writes = w;
        ends = ap suc e;
        answered = a;
        last = l;
      }))

  -- A request has been read.
  request-IsServing :
      (req : Request) (upgrade : Bool) (answer : Reply R) (rest : ℕ) (n : Network R)
      → IsReading n
      → rest ≡ 0
      → IsServing (
          start_all (on_request keeps_alive reply upgrade req answer) (record n {
            reads = rest;
            replies = n.replies ++ answer_unless keeps_alive reply upgrade answer;
          }))
  unfolding start_all
  request-IsServing req true answer rest n h none =
      over_now rest n.writes n.ends (n.replies ++ []) [] n.sent none h.writes h.ends
        (ap (λ t. t ++ []) h.answered) (inl refl)
  request-IsServing req false null_text rest n h none =
      over_now rest n.writes n.ends (n.replies ++ null_text ∷ []) (null_text ∷ []) n.sent none
        h.writes h.ends (ap (λ t. t ++ null_text ∷ []) h.answered) (inr (null_text, refl))
  request-IsServing req false (respond msg) rest n h none = inr (
      inl (record {
        msg = msg;
        reads = none;
        writes = ap (λ t. t ++ (msg, keeps_alive msg) ∷ []) h.writes;
        ends = h.ends;
        answered = ap (λ t. t ++ respond msg ∷ []) h.answered;
        kept = h.kept;
      }))

  read-IsServing :
      (received : Received) (rest : ℕ) (n : Network R)
      → IsReading n
      → rest ≡ 0
      → IsServing (finish_read keeps_alive reply received rest n)
  unfolding finish_read
  read-IsServing end_of_stream rest n h none =
      over_now rest n.writes n.ends (n.replies ++ []) [] n.sent none h.writes h.ends
        (ap (λ t. t ++ []) h.answered) (inl refl)
  read-IsServing error rest n h none =
      over_now rest n.writes n.ends (n.replies ++ []) [] n.sent none h.writes h.ends
        (ap (λ t. t ++ []) h.answered) (inl refl)
  read-IsServing (request req) rest n h none =
      request-IsServing req req.upgrade (reply req) rest n h none

  map-append_respond :
      (sent : List R) (msg : R)
      → map respond (sent ++ msg ∷ []) ≡ map respond sent ++ respond msg ∷ []
  map-append_respond [] msg = refl
  map-append_respond (m ∷ sent) msg = ap (λ t. respond m ∷ t) (map-append_respond sent msg)

  answered_by :
      (msg : R) (n : Network R) (h : IsWriting n)
      → h.msg ≡ msg
      → n.replies ≡ map respond (n.sent ++ msg ∷ [])
  answered_by msg n h same =
      h.answered
      ∙ (ap (λ m. map respond n.sent ++ respond m ∷ []) same ∙ sym (map-append_respond n.sent msg))

  same_write :
      (msg : R) (keep_alive : Bool) (rest : List (R × Bool)) (n : Network R) (h : IsWriting n)
      → n.writes ≡ (msg, keep_alive) ∷ rest
      → (h.msg ≡ msg) × (keeps_alive h.msg ≡ keep_alive) × (rest ≡ [])
  same_write msg keep_alive rest n h e =
      let same : ◌≡◌ {A = List (R × Bool)} ((h.msg, keeps_alive h.msg) ∷ [])
          ((msg, keep_alive) ∷ rest) =
        sym h.writes ∙ e in
      (cc, cc, cc)

  -- A response has been written, or not.
  write-IsServing :
      (failed : Bool) (msg : R) (keep_alive : Bool) (rest : List (R × Bool)) (n : Network R)
      → IsWriting n
      → n.writes ≡ (msg, keep_alive) ∷ rest
      → IsServing (finish_write failed msg keep_alive rest n)
  unfolding finish_write
  write-IsServing true msg keep_alive rest n h e =
      let (same, kept, none) = same_write msg keep_alive rest n h e in
      over_now n.reads rest n.ends n.replies (respond h.msg ∷ []) n.sent h.reads none h.ends
        h.answered (inr (respond h.msg, refl))
  write-IsServing false msg false rest n h e =
      let (same, kept, none) = same_write msg false rest n h e in
      over_now n.reads rest n.ends n.replies [] (n.sent ++ msg ∷ []) h.reads none h.ends
        (answered_by msg n h same ∙ sym (append-nil _)) (inl refl)
  write-IsServing false msg true rest n h e =
      let (same, kept, none) = same_write msg true rest n h e in
      inl (record {
        reads = ap suc h.reads;
        writes = none;
        ends = h.ends;
        answered = answered_by msg n h same;
        kept =
            All-append (λ m. keeps_alive m ≡ true) n.sent (msg ∷ []) h.kept (rw (← same) kept, tt);
      })

  Step-IsServing : {m n : Network R} → Step keeps_alive reply m n → IsServing m → IsServing n
  Step-IsServing (has_read received rest n e) (inl h) =
      read-IsServing received rest n h (cc (h.reads))
  Step-IsServing (has_read received rest n e) (inr (inl h)) = absurd (cc (h.reads))
  Step-IsServing (has_read received rest n e) (inr (inr h)) = absurd (cc (h.reads))
  Step-IsServing (wrote failed msg keep_alive rest n e) (inl h) = absurd (cc (h.writes))
  Step-IsServing (wrote failed msg keep_alive rest n e) (inr (inl h)) =
      write-IsServing failed msg keep_alive rest n h e
  Step-IsServing (wrote failed msg keep_alive rest n e) (inr (inr h)) = absurd (cc (h.writes))

  -- Whatever the peer sends and however the operations end, the session is in one of three states.
  -- It reads, and then has sent the replies to all requests, in order, each of which keeps the
  -- connection alive. Or it writes one response, to the last request, with the responses before it
  -- sent. Or it is over, once, with nothing in progress, and at most the last request is unanswered.
  pub Run-IsServing : {n : Network R} → Run keeps_alive reply n → IsServing n
  Run-IsServing here =
      inl (record { reads = refl; writes = refl; ends = refl; answered = refl; kept = tt })
  Run-IsServing (next run step) = Step-IsServing step (Run-IsServing run)
