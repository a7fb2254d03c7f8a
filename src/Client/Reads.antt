-- ===== src/Client/Reads.antt =====
-- GetContainerGroup and ListCapabilities of pkg/client/client_apis.go, which read the response of the REST
-- interface themselves.
use azure_aci.Prelude.{
  ℕ, String, true, not, ◌<>◌, Option, none, some, List, ◌≡◌, refl, ap, ◌∙◌, arith, Result, ok, err,
  plain, wrapped, message_of, eqb, fail_if, fail_if-not-eq-ok, >>=-eq-ok, wrapped-eq-ok,
  if◌then◌else◌, ◌>>=◌,
}
use azure_aci.Prelude.Io
use azure_aci.Prelude.Io.{Io, lift, attempt, pure, raise, Answer, returned, failed_with}

-- A response with its body, which may be nil.
pub record Response (B : Type 0) : Type 0 where
  pub status_code : ℕ
  pub body : Option B

-- The preparation and the sending of a GET of the SDK, the decoding of a body, `%d`, and the listing of
-- capabilities, whose value may be nil.
pub record Reading (W B G C : Type 0) : Type 0 where
  pub get_preparer : String → String → Result (Unit {0})
  pub get_sender : String → String → Io W (Response B)
  pub decode : B → Result G
  pub show_code : ℕ → String
  pub list_capabilities_complete : String → Io W (Response (List C))

module _ {W B G C : Type 0} (r : Reading W B G C) where
  unfoldable pub decoded_group : ℕ → Option B → Result G
  decoded_group code none = err (plain "get container group returned an empty body in the response")
  decoded_group code (some body) = do
    success ←
        fail_if (not (eqb code 200))
          (plain ("get container group failed with status code " <> r.show_code code))
    wrapped "decoding get container group response body failed: " (r.decode body)

  unfoldable pub get_container_group : String → String → Io W G
  unfolding decoded_group
  get_container_group resource_group container_group_name =
      Io.◌>>=◌ (lift (r.get_preparer resource_group container_group_name)) λ prepared.
        Io.◌>>=◌ (r.get_sender resource_group container_group_name)
          λ result. lift (decoded_group result.status_code result.body)

  abbrev pub no_capabilities : String → String
  no_capabilities region =
      "Unable to fetch the ACI capabilities for the location "
      <> (region <> ", skipping GPU availability check. GPU capacity will be disabled: ")

  -- Another status than 200 is no error: there are no capabilities then.
  abbrev pub answer_capabilities : String → Answer (Response (List C)) → Io W (Option (List C))
  answer_capabilities region (failed_with e) =
      raise (plain (no_capabilities region <> message_of e))
  answer_capabilities region (returned response) =
      pure (if eqb response.status_code 200 then response.body else none)

  unfoldable pub list_capabilities : String → Io W (Option (List C))
  list_capabilities region =
      Io.◌>>=◌ (attempt (r.list_capabilities_complete region)) (answer_capabilities region)

  eqb-eq : (a b : ℕ) → eqb a b ≡ true → a ≡ b
  eqb-eq a b h = ground (arith, h)

  decoded_group-eq :
      (code : ℕ) (body : Option B) (g : G)
      → decoded_group code body ≡ ok g
      → (b : B) × (code ≡ 200) × (body ≡ some b) × (r.decode b ≡ ok g)
  unfolding decoded_group
  decoded_group-eq code none g h = cc
  decoded_group-eq code (some b) g h =
      let (u, success, h1) = >>=-eq-ok (fail_if (not (eqb code 200)) _) _ h in
      (b, eqb-eq code 200 (fail_if-not-eq-ok _ _ success), refl, wrapped-eq-ok _ (r.decode b) h1)

  -- A group that is returned was decoded from the body of a response with status 200.
  pub get_container_group-decoded :
      (resource_group name : String) (g : G) (w w' : W)
      → get_container_group resource_group name w ≡ (ok g, w')
      → (b : B) × ((r.get_sender resource_group name w)
          ≡ (ok (record { status_code = 200; body = some b }), w'))
        × (r.decode b ≡ ok g)
  unfolding get_container_group
  get_container_group-decoded resource_group name g w w' h =
      let (u, prepared, h1) = Io.lift->>=-eq-ok (r.get_preparer resource_group name) _ w h in
      let (result, w1, got, h2) = Io.>>=-eq-ok (r.get_sender resource_group name) _ w h1 in
      let (b, success, body, at) =
        decoded_group-eq result.status_code result.body g (ap (λ x. x.0) h2) in
      (
        b,
        got
            ∙ ap (λ v. (ok (record { status_code = v; body = result.body }), w1)) success
            ∙ ap (λ v. (ok (record { status_code = 200; body = v }), w1)) body
            ∙ ap (λ v. (ok (record { status_code = 200; body = some b }), v)) (ap (λ x. x.1) h2),
        at,
      )
