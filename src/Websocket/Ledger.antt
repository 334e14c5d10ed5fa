-- ===== src/Websocket/Ledger.antt =====
-- No message is lost, repeated or moved.
use snowcone.Prelude.{◌≡◌, true, false, ◌++◌}
use snowcone.Websocket.{
  Network, Step, calls_send, calls_close, sets_callback, wrote, has_read, Run, here, then,
}

abbrev pub IsSuccess : {m n : Network} → Step m n → Type 0
IsSuccess (wrote true text rest n e) = ⊥
IsSuccess (wrote false text rest n e) = Unit
IsSuccess (calls_send str n) = Unit
IsSuccess (calls_close n) = Unit
IsSuccess (sets_callback n) = Unit
IsSuccess (has_read received rest n e) = Unit

abbrev pub AreSuccesses : {m n : Network} → Run m n → Type 0
AreSuccesses here = Unit
AreSuccesses (then run step) = AreSuccesses run × IsSuccess step

abbrev IsLedger : Network → Type 0
IsLedger n = n.delivered ++ n.socket.messages ≡ n.accepted
