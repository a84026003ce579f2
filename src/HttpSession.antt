-- ===== src/HttpSession.antt =====
-- trans_sec/utils/http_session.py, with the two exceptions of trans_sec/exceptions.py that it
-- raises. The session is authorized from the start, and its token stays empty.
pub mod Lost
use Prim.Native.String.{◌++◌ as str_append}
use transparent_security.Prelude.{
  ℕ, String, Bool, true, false, ◌||◌, Option, none, some, List, [], ◌∷◌, if◌then◌else◌,
}
use transparent_security.Prelude.Equality.{◌==◌, nat_eq, string_eq}
use transparent_security.Prelude.Dict.{Dict, get}
use transparent_security.Prelude.Result.{
  Exception, Result, ok, err, key_error, not_found_error, already_exists_error, ◌>>=◌,
}

pub data Verb : Type 0 where
  get_method post_method delete_method put_method : Verb

-- A value of the dict that is sent; None is not among those that the program sends.
pub data BodyValue : Type 0 where
  text : String → BodyValue
  number : ℕ → BodyValue

abbrev pub Body : Type 0
Body = Dict String BodyValue

-- The requests library: what a request to a URL with a body gives or raises. Of an answer the
-- status is used, its JSON, and of that the text of the first of its 'Messages'.
pub record Requests : Type 1 where
  pub Json : Type 0
  pub Response : Type 0
  pub request : Verb → String → Option Body → Result Response
  pub status_code : Response → ℕ
  pub json : Response → Result Json
  pub first_message : Json → Result String

module _ (requests : Requests) where
  open requests use {Json, Response, request, status_code, json, first_message}

  -- What the methods return: None, the JSON, an empty dict or the status.
  pub data Reply : Type 0 where
    no_reply : Reply
    json_reply : Json → Reply
    empty_reply : Reply
    status_reply : ℕ → Reply

  abbrev json_of : Response → Result Reply
  json_of r = do j ← json r; ok (json_reply j)

  abbrev resource_of : String → Option String → String
  resource_of resource none = resource
  resource_of resource (some key) = str_append (str_append resource "/") key

  abbrev pub address : String → String → String
  address url resource = str_append (str_append url "/") resource

  unfoldable pub get_resource : String → String → Option String → Result Reply
  get_resource url resource key = do
    r ← request get_method (address url (resource_of resource key)) none
    if status_code r == 200
        then json_of r
        else (do temp ← json r; message ← first_message temp; err (not_found_error key message))

  -- The text or the number that names the object which exists already.
  abbrev shown : BodyValue → Option String
  shown (text t) = some t
  shown (number n) = none

  abbrev named : Option BodyValue → Result BodyValue
  named none = err key_error
  named (some value) = ok value

  abbrev name_of : Body → Result BodyValue
  name_of body = elim (get "Name" body) [ some name ↦ ok name | none ↦ named (get "Addr" body) ]

  abbrev refused : Response → Body → Result Reply
  refused response body = do
    temp ← json response
    name ← name_of body
    message ← first_message temp
    err (already_exists_error (shown name) message)

  abbrev answered : Response → Body → Result Reply
  answered response body =
      if status_code response == 201 || status_code response == 200
      then json_of response
      else refused response body

  -- Whatever the request raises, there is no answer.
  unfoldable pub post : String → String → Body → Result Reply
  unfolding get
  post url resource body = elim (request post_method (address url resource) (some body)) [
    | err e ↦ ok no_reply
    | ok response ↦ answered response body
  ]

  unfoldable pub delete : String → String → Body → Result Reply
  delete url resource body = do
    r ← request delete_method (address url resource) (some body)
    if status_code r == 200
        then json_of r
        else if status_code r == 404
        then ok empty_reply
        else ok (status_reply (status_code r))

  unfoldable pub put : String → String → Body → String → Result Reply
  put url resource body key = do
    r ← request put_method (address url (resource_of resource (some key))) (some body)
    if status_code r == 200 then json_of r else (do j ← json r; ok (status_reply (status_code r)))
