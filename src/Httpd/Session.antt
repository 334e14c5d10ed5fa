-- ===== src/Httpd/Session.antt =====
-- The class `Session` of client/httpd.cpp. A handler returns what it starts and does, in order.
use snowcone.Prelude.{
  ℕ, suc, ◌≡◌, Bool, true, false, List, [], ◌∷◌, ◌++◌, Bytes, codes, if◌then◌else◌,
}
use snowcone.Httpd.{Request, Reply, respond, null_text}

pub data Effect (R : Type 0) : Type 0 where
  async_read : Effect R
  -- With the flag that `on_write` is given.
  async_write : R → Bool → Effect R
  shutdown : Effect R
  -- `fail` calls the callback with the name of the operation.
  fail : Bytes → Effect R
  -- The stream is handed on to `handle_websocket`.
  websocket : Request → Effect R
  throws : Effect R

-- What a read delivers.
pub data Received : Type 0 where
  end_of_stream : Received
  error : Received
  request : Request → Received

abbrev pub do_read : {R : Type 0} → List (Effect R)
do_read = async_read ∷ []

abbrev pub do_close : {R : Type 0} → List (Effect R)
do_close = shutdown ∷ []

unfoldable pub on_write : {R : Type 0} → (keep_alive failed : Bool) → List (Effect R)
on_write keep_alive true = fail (codes "write") ∷ []
on_write false false = do_close
on_write true false = do_read

-- The operations in progress, how often the session has ended, the replies to the requests that it
-- has read, and the responses that it has sent.
pub record Network (R : Type 0) : Type 0 where
  pub reads : ℕ
  pub writes : List (R × Bool)
  pub ends : ℕ
  pub replies : List (Reply R)
  pub sent : List R

abbrev pub run : {R : Type 0} → Network R
run = record { reads = 1; writes = []; ends = 0; replies = []; sent = [] }

module _ {R : Type 0} where
  pub start : Effect R → Network R → Network R
  start async_read n = record n { reads = suc n.reads }
  start (async_write msg keep_alive) n = record n { writes = n.writes ++ (msg, keep_alive) ∷ [] }
  start shutdown n = record n { ends = suc n.ends }
  start (fail what) n = record n { ends = suc n.ends }
  start (websocket req) n = record n { ends = suc n.ends }
  start throws n = record n { ends = suc n.ends }

  unfoldable pub start_all : List (Effect R) → Network R → Network R
  unfolding start
  start_all [] n = n
  start_all (e ∷ es) n = start_all es (start e n)

  -- A write in progress is over when its handler runs.
  unfoldable pub finish_write : Bool → R → Bool → List (R × Bool) → Network R → Network R
  unfolding start_all on_write
  finish_write failed msg keep_alive rest n =
      start_all (on_write keep_alive failed)
        (record n { writes = rest; sent = if failed then n.sent else n.sent ++ msg ∷ [] })

-- The callback's reply to a request is that of `handle_request`.
module _ {R : Type 0} (keeps_alive : R → Bool) (reply : Request → Reply R) where
  abbrev pub send_response : Reply R → List (Effect R)
  send_response (respond msg) = async_write msg (keeps_alive msg) ∷ []
  send_response null_text = throws ∷ []

  abbrev pub on_request : Bool → Request → Reply R → List (Effect R)
  on_request true req answer = websocket req ∷ []
  on_request false req answer = send_response answer

  unfoldable pub on_read : Received → List (Effect R)
  on_read end_of_stream = do_close
  on_read error = fail (codes "read") ∷ []
  on_read (request req) = on_request req.upgrade req (reply req)

  abbrev pub answer_unless : Bool → Reply R → List (Reply R)
  answer_unless true answer = []
  answer_unless false answer = answer ∷ []

  abbrev pub answered : Received → List (Reply R)
  answered end_of_stream = []
  answered error = []
  answered (request req) = answer_unless req.upgrade (reply req)

  unfoldable pub finish_read : Received → ℕ → Network R → Network R
  unfolding start_all on_read
  finish_read received rest n =
      start_all (on_read received)
        (record n { reads = rest; replies = n.replies ++ answered received })

  pub data Step : Network R → Network R → Type 0 where
    has_read :
        (received : Received) (rest : ℕ) (n : Network R)
        → n.reads ≡ suc rest
        → Step n (finish_read received rest n)
    wrote :
        (failed : Bool) (msg : R) (keep_alive : Bool) (rest : List (R × Bool)) (n : Network R)
        → n.writes ≡ (msg, keep_alive) ∷ rest
        → Step n (finish_write failed msg keep_alive rest n)

  pub data Run : Network R → Type 0 where
    here : Run run
    next : {m n : Network R} → Run m → Step m n → Run n
