-- ===== src/Rest/Answered.antt =====
-- What the operations of the REST clients conclude from an answer.
use azure_aci.Prelude.{
  ℕ, ◌≤◌, ◌≡◌, refl, ap, ◌∙◌, String, true, ◌&&◌, inl, inr, arith, Option, none, some,
  if◌then◌else◌, leb, eqb, Result, ok, err, panics, deref, wrapped-eq-ok, >>=-eq-ok, if-eq, subst,
  ok-injective,
}
use azure_aci.Prelude.Io.{wrapped_io-eq-ok, >>=-eq-ok as then-eq-ok, lift->>=-eq-ok}
use azure_aci.Rest.Api.{
  Net, Reply, Url, ApiError, Call, check_response, resolve_relative, request_url, send_call,
  exchange, fetch_answer, answer_error, decoded,
}

within : (code : ℕ) → (leb 200 code && leb code 299) ≡ true → (200 ≤ code) × (code ≤ 299)
within code h = (ground (arith, h), ground (arith, h))

module _ {W S T : Type 0} (n : Net W S T) where
  -- The code that an error of the service is reported with: its own, if it has one.
  abbrev pub reported : Reply S → Option ApiError → ℕ
  reported res none = res.status_code
  reported res (some e) = if eqb e.status_code 0 then res.status_code else e.status_code

  answer_error-not-ok :
      (res : Reply S) (read : Result String) {u : Unit {0}} → ¬ (answer_error n res read ≡ ok u)
  answer_error-not-ok res (ok text) h = cc
  answer_error-not-ok res (err e) h = cc
  answer_error-not-ok res panics h = cc

  check_response-eq-ok :
      (res : Reply S) {u : Unit {0}}
      → check_response n res ≡ ok u
      → (200 ≤ res.status_code) × (res.status_code ≤ 299)
  unfolding check_response
  check_response-eq-ok res h =
      elim (if-eq (leb 200 res.status_code && leb res.status_code 299) _ _ h) [
        | inl (success, same) ↦ within res.status_code success
        | inr (failure, failed) ↦
            let (body, has_body, h1) = >>=-eq-ok (deref res.body) _ failed in
            absurd (answer_error-not-ok res (n.read_all body) h1)
      ]

  -- A call that was answered: the request that was sent, to the address of the call and with its body, the
  -- response, which is a success, and the value, which was read from the body of the response.
  pub record IsAnswered {A : Type 0} (call : Call) (decode : S → Result A) (w : W) (value : A)
      (w' : W) : Type 0 where
    pub uri : String
    pub sent_body : Option String
    pub url : Url
    pub resp : Reply S
    pub stream : S
    pub encoded : call.encoded ≡ ok sent_body
    pub resolved : resolve_relative n call.endpoint call.url_path ≡ ok uri
    pub addressed : request_url n call uri sent_body ≡ ok url
    pub responded : n.send call.verb url sent_body w ≡ (ok resp, w')
    pub success : (200 ≤ resp.status_code) × (resp.status_code ≤ 299)
    pub has_body : resp.body ≡ some stream
    pub decoded_value : decode stream ≡ ok value

  send_call-eq-ok :
      (call : Call) (w w' : W) (resp : Reply S)
      → send_call n call w ≡ (ok resp, w')
      → (uri : String) × (body : Option String) × (url : Url) × (resolve_relative n call.endpoint
            call.url_path
          ≡ ok uri)
        × (call.encoded ≡ ok body)
        × (request_url n call uri body ≡ ok url)
        × (n.send call.verb url body w ≡ (ok resp, w'))
  unfolding send_call
  send_call-eq-ok call w w' resp h =
      let (uri, resolved, h0) =
        lift->>=-eq-ok (resolve_relative n call.endpoint call.url_path) _ w h in
      let (body, encoded, h1) = lift->>=-eq-ok call.encoded _ w h0 in
      let (url, addressed, h2) = lift->>=-eq-ok (request_url n call uri body) _ w h1 in
      (
        uri,
        body,
        url,
        resolved,
        encoded,
        addressed,
        wrapped_io-eq-ok call.sending (n.send call.verb url body) w h2,
      )

  exchange-eq-ok :
      (call : Call) (w w' : W) (resp : Reply S)
      → exchange n call w ≡ (ok resp, w')
      → (send_call n call w ≡ (ok resp, w')) × ((200 ≤ resp.status_code) × (resp.status_code ≤ 299))
  unfolding exchange
  exchange-eq-ok call w w' resp h =
      let (got, w1, was_sent, h1) = then-eq-ok (send_call n call) _ w h in
      let (_, checked, h2) = lift->>=-eq-ok (check_response n got) _ w1 h1 in
      (
        was_sent ∙ h2,
        subst (λ r. (200 ≤ r.status_code) × (r.status_code ≤ 299))
            (ok-injective got resp (ap (λ x. x.0) h2)) (check_response-eq-ok got checked),
      )

  decoded-eq-ok :
      {A : Type 0} (decode : S → Result A) (empty decoding : String) (body : Option S) {value : A}
      → decoded n decode empty decoding body ≡ ok value
      → (stream : S) × (body ≡ some stream) × (decode stream ≡ ok value)
  decoded-eq-ok decode empty decoding none h = cc
  decoded-eq-ok decode empty decoding (some stream) h =
      (stream, refl, wrapped-eq-ok decoding (decode stream) h)

  -- An operation that returns a value was answered.
  pub fetch_answer-IsAnswered :
      {A : Type 0} (call : Call) (decode : S → Result A) (empty decoding : String) (w w' : W)
      (value : A)
      → fetch_answer n call decode empty decoding w ≡ (ok value, w')
      → IsAnswered call decode w value w'
  unfolding fetch_answer
  fetch_answer-IsAnswered call decode empty decoding w w' value h =
      let (resp, w1, exchanged, h1) = then-eq-ok (exchange n call) _ w h in
      let (was_sent, success) = exchange-eq-ok call w w1 resp exchanged in
      let (uri, body, url, resolved, encoded, addressed, responded) =
        send_call-eq-ok call w w1 resp was_sent in
      let (stream, has_body, decoded_value) =
        decoded-eq-ok decode empty decoding resp.body (ap (λ x. x.0) h1) in
      record {
        uri = uri;
        sent_body = body;
        url = url;
        resp = resp;
        stream = stream;
        encoded = encoded;
        resolved = resolved;
        addressed = addressed;
        responded = responded ∙ ap (λ v. (ok resp, v)) (ap (λ x. x.1) h1);
        success = success;
        has_body = has_body;
        decoded_value = decoded_value;
      }
