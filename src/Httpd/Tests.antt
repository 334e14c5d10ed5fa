-- ===== src/Httpd/Tests.antt =====
-- Requests to a callback that answers "GET" with the status 200, the target as the body and a
-- header, and fails for other methods.
use snowcone.Prelude.{
  ◌≡◌, refl, Bool, true, false, none, some, List, [], ◌∷◌, ◌++◌, Bytes, codes, same, pos,
  if◌then◌else◌,
}
use snowcone.LineBuffer.{until_zero}
use snowcone.LuaStack.{Lua, Outcome, finished, failed}
use snowcone.Httpd.{Request, Beast, Reply, respond, null_text, handle_request}
use snowcone.Httpd.Answer.{replied, handle_request-replied}
use snowcone.Httpd.Session.{
  request, Network, run, finish_read, finish_write, here, next, has_read, wrote,
}
use snowcone.Httpd.Serving.{IsServing, Run-IsServing}

abbrev get_only : Bytes → List Bytes → Outcome Bytes
get_only cb (verb ∷ target ∷ more) =
    if same verb (codes "GET")
    then finished (codes "200" ∷ target ∷ codes "headers" ∷ [])
    else failed (codes "no")
get_only cb _ = failed []

abbrev interpreter : Lua Bytes
interpreter = record {
  nil = [];
  traceback = [];
  string = λ s. s;
  integer = λ i. [];
  boolean = λ b. [];
  table = λ pairs. [];
  pairs = λ v. if same v (codes "headers") then some ((codes "A", codes "b") ∷ []) else none;
  call = get_only;
  handle = λ handler e. e;
  tointeger = λ v. if same v (codes "200") then pos 200 else pos 0;
  tolstring = λ v. if same v (codes "no") then none else some v;
  display = λ v. v;
}

-- A response is what has been done to it.
abbrev log : Beast (List Bytes)
log = record {
  version_string = codes "Beast";
  response = λ status version. [];
  set = λ k v res. (k ++ codes ": " ++ v) ∷ res;
  keep_alive = λ b res. res;
  content_length = λ n res. res;
  body = λ text res. text ∷ res;
  prepare_payload = λ res. res;
  keeps_alive = λ res. true;
}

abbrev get : Request
get = record {
  verb = codes "GET";
  target = codes "/";
  body = [];
  fields = [];
  version = 11;
  keep_alive = true;
  upgrade = false;
}

get_answered :
    handle_request interpreter log get [] (codes "below" ∷ [])
    ≡ (respond (codes "A: b" ∷ codes "/" ∷ codes "Server: Beast" ∷ []), codes "below" ∷ [])
unfolding handle_request until_zero
get_answered = refl

-- The error of the callback is no text.
null_error :
    handle_request interpreter log (record get { verb = codes "PUT" }) [] []
    ≡ (null_text, codes "no" ∷ [])
unfolding handle_request
null_error = refl

handle_request-replied_example :
    handle_request interpreter log get [] (codes "below" ∷ [])
    ≡ replied interpreter log get
        (get_only [] (codes "GET" ∷ codes "/" ∷ [] ∷ [] ∷ []))
        (codes "below" ∷ [])
handle_request-replied_example = handle_request-replied interpreter log get [] (codes "below" ∷ [])

abbrev keeps : Bytes → Bool
keeps msg = same msg (codes "again")

abbrev reply : Request → Reply Bytes
reply req = respond (codes "again")

abbrev one_answered : Network Bytes
one_answered =
    finish_write false (codes "again") true [] (finish_read keeps reply (request get) 0 run)

Run-IsServing_example : IsServing keeps reply one_answered
unfolding finish_read finish_write
Run-IsServing_example = Run-IsServing keeps reply (
    next (next here (has_read (request get) 0 run refl))
      (wrote false (codes "again") true [] (finish_read keeps reply (request get) 0 run) refl))
