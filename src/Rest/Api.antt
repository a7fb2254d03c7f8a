-- ===== src/Rest/Api.antt =====
-- What every call of the REST client library goes through: client/api/utils.go makes the request_url,
-- client/api/api.go checks the answer.
use Prim.Native.Char.{Char, code}
use Prim.Native.String.{◌∷◌ as ◌⊳◌}
use azure_aci.Prelude.{
  ℕ, String, ◌<>◌, ◌==◌, true, false, ◌&&◌, eqb, leb, if◌then◌else◌, Option, none, some, List, map,
  Error, plain, message_of, api, Result, ok, err, panics, deref, wrapped, ◌>>=◌,
}
use azure_aci.Prelude.Io
use azure_aci.Prelude.Io.{Io, wrapped_io, lift, pure}
use azure_aci.Rest.{Header}

-- A URL: its path, as it is and escaped, and the rest of it.
pub record Url : Type 0 where
  pub origin : String
  pub path : String
  pub raw_path : String
  pub query : String

-- A response; a body is a stream that may be nil.
pub record Reply (S : Type 0) : Type 0 where
  pub status_code : ℕ
  pub status : String
  pub body : Option S
  pub url : String

-- The type Error of the package api.
pub record ApiError : Type 0 where
  pub status_code : ℕ
  pub code : String
  pub message : String
  pub body : String
  pub url : String

-- The packages that the library uses: url.Parse with ResolveReference, `Values.Encode` and QueryEscape of
-- net/url, http.NewRequest and the client's Do, text/template, io.ReadAll, json.Unmarshal of an errorReply,
-- whose error may be nil, and `%d` and `%q`.
pub record Net (W S T : Type 0) : Type 0 where
  pub resolve_reference : String → String → Result String
  pub encode_values : Header → String
  pub query_escape : String → String
  pub new_request : String → String → Option String → Result Url
  pub send : String → Url → Option String → Io W (Reply S)
  pub parse_template : String → Result T
  pub execute : T → List (String × String) → Result String
  pub read_all : S → Result String
  pub unmarshal_reply : String → Result (Option ApiError)
  pub show_code : ℕ → String
  pub quote : String → String

-- strings.Replace of an escape, a percent sign, a 7 and `digit`, by a brace.
replace_escape : Char → Char → String → String
replace_escape digit brace (a ⊳ b ⊳ c ⊳ s) =
    elim (eqb (code a) 37 && eqb (code b) 55 && eqb (code c) (code digit)) [
      | true ↦ brace ⊳ replace_escape digit brace s
      | false ↦ a ⊳ replace_escape digit brace (b ⊳ c ⊳ s)
    ]
replace_escape digit brace s = s

-- A call: what it asks for, and the texts of its errors. The body and the expansions are what making them has
-- returned; a call without expansions does not expand its address.
pub record Call : Type 0 where
  pub verb : String
  pub endpoint : String
  pub url_path : String
  pub url_params : Header
  pub expansions : Result (Option (List (String × String)))
  pub encoded : Result (Option String)
  pub creating : Error → String
  pub expanding : String
  pub sending : String

-- An error gets another text.
abbrev pub labelled : {A : Type 0} → (Error → String) → Result A → Result A
labelled text (ok a) = ok a
labelled text (err e) = err (plain (text e))
labelled text panics = panics

abbrev pub prefixed : String → Error → String
prefixed text e = text <> message_of e

module _ {W S T : Type 0} (n : Net W S T) where
  unfoldable pub resolve_relative : String → String → Result String
  unfolding replace_escape
  resolve_relative basestr relstr = do
    us ← n.resolve_reference basestr relstr
    ok (replace_escape "D" "}" (replace_escape "B" "{" us))

  abbrev pub escaped : List (String × String) → List (String × String)
  escaped expansions = map (λ e. (e.0, n.query_escape e.1)) expansions

  unfoldable pub expand_url : Url → List (String × String) → Result Url
  expand_url u expansions = do
    t ←
        wrapped ("Parsing template for url path " <> n.quote u.path <> " failed: ")
          (n.parse_template u.path)
    path ← wrapped "Executing template for url path failed: " (n.execute t expansions)
    raw_path ← wrapped "Executing template for url path failed: " (n.execute t (escaped expansions))
    ok (record u { path = path; raw_path = raw_path })

  -- Error.Error
  abbrev pub api_error_text : ApiError → String
  api_error_text e =
      "api call to "
      <> e.url
      <> ": got HTTP response status code "
      <> n.show_code e.status_code
      <> " error code "
      <> n.quote e.code
      <> (if e.message == "" then " with body: " <> e.body else ": " <> e.message)

  abbrev pub as_error : ApiError → Error
  as_error e = api e.status_code (api_error_text e)

  -- The error of the service, with the code of the response if it has none of its own.
  abbrev pub completed : Reply S → String → ApiError → ApiError
  completed res text e = record e {
    status_code = (if eqb e.status_code 0 then res.status_code else e.status_code);
    body = text;
    url = res.url;
  }

  abbrev pub bare_error : Reply S → ApiError
  bare_error res = record {
    status_code = res.status_code;
    code = "";
    message = "";
    body = res.status;
    url = "";
  }

  abbrev pub reply_error : Reply S → String → Result (Option ApiError) → ApiError
  reply_error res text (ok (some e)) = completed res text e
  reply_error res text _ = bare_error res

  -- The error of a response whose body was read, or could not be.
  abbrev pub answer_error : Reply S → Result String → Result (Unit {0})
  answer_error res (ok text) = err (as_error (reply_error res text (n.unmarshal_reply text)))
  answer_error res (err e) = err (as_error (bare_error res))
  answer_error res panics = panics

  unfoldable pub check_response : Reply S → Result (Unit {0})
  check_response res =
      if leb 200 res.status_code && leb res.status_code 299
      then ok tt
      else (do body ← deref res.body; answer_error res (n.read_all body))

  abbrev pub expanded : Call → Url → Result Url
  expanded call url = call.expansions >>= λ expansions. elim expansions [
    | none ↦ ok url
    | some values ↦ wrapped call.expanding (expand_url url values)
  ]

  -- The address of a call that was resolved, as the request has it.
  unfoldable pub request_url : Call → String → Option String → Result Url
  unfolding expand_url
  request_url call uri body = do
    url ←
        labelled call.creating
          (n.new_request call.verb (uri <> "?" <> n.encode_values call.url_params) body)
    expanded call url

  unfoldable pub send_call : Call → Io W (Reply S)
  unfolding resolve_relative request_url
  send_call call = Io.◌>>=◌ (lift (resolve_relative call.endpoint call.url_path)) λ uri.
      Io.◌>>=◌ (lift call.encoded) λ body.
        Io.◌>>=◌ (lift (request_url call uri body))
          λ url. wrapped_io call.sending (n.send call.verb url body)

  unfoldable pub exchange : Call → Io W (Reply S)
  unfolding send_call check_response
  exchange call =
      Io.◌>>=◌ (send_call call) λ resp. Io.◌>>=◌ (lift (check_response resp)) λ checked. pure resp

  -- The value in the body of a response.
  abbrev pub decoded : {A : Type 0} → (S → Result A) → String → String → Option S → Result A
  decoded decode empty decoding none = err (plain empty)
  decoded decode empty decoding (some body) = wrapped decoding (decode body)

  -- A call whose answer is decoded.
  unfoldable pub fetch_answer : {A : Type 0} → Call → (S → Result A) → String → String → Io W A
  unfolding exchange
  fetch_answer call decode empty decoding =
      Io.◌>>=◌ (exchange call) λ resp. lift (decoded decode empty decoding resp.body)
