-- ===== src/Httpd/Answer.antt =====
-- `handle_request` without its stack: what the callback returns decides the response.
use snowcone.Prelude.{
  ℕ, ◌≡◌, refl, ap, ◌∙◌, inl, inr, Bool-cases, Option-cases, Option, none, some, List, [], ◌∷◌,
  Bytes, codes, length, get_or, Integer, pos, integer_eq, if◌then◌else◌,
}
use snowcone.LineBuffer.{until_zero}
use snowcone.LuaStack.{Lua, Outcome, finished, failed, adjust, finish}
use snowcone.Httpd.{
  Request, Beast, Reply, respond, null_text, server_error, set_headers, set_body, with_headers,
  add_headers, build_response, after_call, handle_request,
}

module _ {V R : Type 0} (lua : Lua V) (beast : Beast R) (req : Request) where
  -- What an error looks like to the client: the status 500 and a plain text.
  unfoldable pub failure_500 : Bytes → R
  failure_500 text = beast.prepare_payload (
      beast.body text (
        beast.keep_alive req.keep_alive (
          beast.set (codes "Content-Type") (codes "text/plain") (
            beast.set (codes "Server") beast.version_string
              (beast.response (pos 500) req.version)))))

  abbrev pub internal_failure : R
  internal_failure = failure_500 (codes "internal server error")

  server_error-failure_500 : (text : Bytes) → server_error lua beast req text ≡ failure_500 text
  unfolding server_error failure_500
  server_error-failure_500 text = refl

  -- A value that is no text gives an empty body.
  abbrev pub with_content : Option Bytes → R → R
  with_content none res = beast.content_length 0 res
  with_content (some text) res = beast.body text (beast.content_length (length text) res)

  set_body-with_content :
      (text : Option Bytes) (res : R) → set_body lua beast req text res ≡ with_content text res
  set_body-with_content none res = refl
  set_body-with_content (some text) res = refl

  -- Every header whose value is a text is set, and any other makes the response an error.
  unfoldable pub headers_of : List (V × V) → R → Option R
  headers_of [] res = some res
  headers_of ((k, v) ∷ pairs) res = elim (lua.tolstring v) [
    | none ↦ none
    | some val ↦ headers_of pairs (beast.set (until_zero (lua.display k)) (until_zero val) res)
  ]

  abbrev pub or_error : Option R → R
  or_error none = internal_failure
  or_error (some res) = res

  abbrev pub all_headers : Option (List (V × V)) → R → R
  all_headers none res = res
  all_headers (some pairs) res = or_error (headers_of pairs res)

  -- The response to a status, a body and headers.
  unfoldable pub answer : (status body headers : V) → R
  unfolding headers_of
  answer status body headers =
      let code : Integer = lua.tointeger status in
      let res : R =
        beast.set (codes "Server") beast.version_string (beast.response code req.version) in
      if integer_eq code (pos 0)
      then internal_failure
      else all_headers (lua.pairs headers)
          (with_content (lua.tolstring body) (beast.keep_alive req.keep_alive res))

  abbrev pub result : ℕ → List V → V
  result i results = get_or results i lua.nil

  adjust_three :
      (results : List V)
      → adjust lua 3 results ≡ result 0 results ∷ result 1 results ∷ result 2 results ∷ []
  adjust_three [] = refl
  adjust_three (a ∷ []) = refl
  adjust_three (a ∷ b ∷ []) = refl
  adjust_three (a ∷ b ∷ c ∷ results) = refl

  abbrev on_stack : Option R → (headers body status : V) → List V → Option R × List V
  on_stack none headers body status stack = (none, stack)
  on_stack (some res) headers body status stack = (some res, headers ∷ body ∷ status ∷ stack)

  set_headers-headers_of :
      (pairs : List (V × V)) (res : R) (key headers body status : V) (stack : List V)
      → set_headers lua beast req pairs res (key ∷ headers ∷ body ∷ status ∷ stack)
        ≡ on_stack (headers_of pairs res) headers body status stack
  unfolding set_headers headers_of
  set_headers-headers_of [] res key headers body status stack = refl
  set_headers-headers_of ((k, v) ∷ pairs) res key headers body status stack =
      elim (Option-cases (lua.tolstring v)) [
        | inl e ↦ rw (e, set_headers, headers_of) refl
        | inr (val, e) ↦
            rw (e, set_headers, headers_of)
              (set_headers-headers_of pairs
                (beast.set (until_zero (lua.display k)) (until_zero val) res) k headers body status
                stack)
      ]

  with_headers-or_error :
      (o : Option R) (headers body status : V) (stack : List V)
      → with_headers lua beast req (on_stack o headers body status stack)
        ≡ (respond (or_error o), stack)
  with_headers-or_error none headers body status stack =
      rw (server_error-failure_500 (codes "internal server error")) refl
  with_headers-or_error (some res) headers body status stack = refl

  add_headers-all_headers :
      (pairs : Option (List (V × V))) (res : R) (headers body status : V) (stack : List V)
      → add_headers lua beast req pairs res (headers ∷ body ∷ status ∷ stack)
        ≡ (respond (all_headers pairs res), stack)
  add_headers-all_headers none res headers body status stack = refl
  add_headers-all_headers (some pairs) res headers body status stack =
      ap (with_headers lua beast req)
        (set_headers-headers_of pairs res lua.nil headers body status stack)
      ∙ with_headers-or_error (headers_of pairs res) headers body status stack

  build_response-answer :
      (status body headers : V) (stack : List V)
      → build_response lua beast req (headers ∷ body ∷ status ∷ stack)
        ≡ (respond (answer status body headers), stack)
  unfolding answer build_response
  build_response-answer status body headers stack =
      elim (Bool-cases (integer_eq (lua.tointeger status) (pos 0))) [
        | inl zero_code ↦
            rw (zero_code, server_error-failure_500 (codes "internal server error")) refl
        | inr code ↦
            rw (code, set_body-with_content (lua.tolstring body) _)
              (add_headers-all_headers (lua.pairs headers) _ headers body status stack)
      ]

  abbrev pub raised : V → Option Bytes → List V → Reply R × List V
  raised e none stack = (null_text, e ∷ stack)
  raised e (some err) stack = (respond (failure_500 (until_zero err)), stack)

  -- The reply to a call that has ended, and the stack behind it.
  abbrev pub replied : Outcome V → List V → Reply R × List V
  replied (finished results) stack =
      (respond (answer (result 0 results) (result 1 results) (result 2 results)), stack)
  replied (failed e) stack = raised e (lua.tolstring e) stack

  after_call-replied :
      (outcome : Outcome V) (stack : List V)
      → after_call lua beast req (finish lua outcome 3 none stack) ≡ replied outcome stack
  after_call-replied (finished results) stack =
      rw (adjust_three results)
        (build_response-answer (result 0 results) (result 1 results) (result 2 results) stack)
  after_call-replied (failed e) stack = elim (Option-cases (lua.tolstring e)) [
    | inl none_text ↦ rw none_text refl
    | inr (err, text) ↦ rw (text, server_error-failure_500 (until_zero err)) refl
  ]

  -- The callback is called with the method, the target, the body and the fields, and its results
  -- decide the response: an error with the status 500 if the first is no integer or 0, or if a value
  -- of the headers is no text, and else their status, body and headers. An error in the callback
  -- that is a text becomes a response with the status 500 and the text; of any other error the code
  -- makes a `std::string` of a null pointer. In all other cases the stack is as it was before.
  pub handle_request-replied :
      (cb : V) (stack : List V)
      → handle_request lua beast req cb stack
        ≡ replied
            (lua.call cb (
              lua.string req.verb
              ∷ lua.string req.target
              ∷ lua.string req.body
              ∷ lua.table req.fields
              ∷ []))
            stack
  unfolding handle_request
  handle_request-replied cb stack = after_call-replied _ stack
