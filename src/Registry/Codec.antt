-- ===== src/Registry/Codec.antt =====
-- What the code of the docker configuration reads back, and what it does not.
use azure_aci.Prelude.{
  ◌≤◌, String, false, List, [], ◌∷◌, ◌≡◌, refl, length, arith, Bool-cases, inl, inr, ◌==◌, ◌<>◌, ok,
  err, plain, ◌∙◌, ap, eqb, if◌then◌else◌,
}
use azure_aci.Registry.{
  Base64, Base64Laws, DockerConfigEntry, AuthConfig, two_parts, parsed_auth,
  decode_docker_config_field_auth, encode_docker_config_field_auth, unmarshal_json, marshal_json,
  make_registry_credential, decoded_credential,
}
use azure_aci.Registry.Split.{colons, at_colons}
use azure_aci.Registry.Split.Laws.{
  first_colon-join, join-ne-empty, at_colons-join, length-at_colons, colons-join,
}

module _ (b : Base64) (laws : Base64Laws b) where
  -- The auth field of a user whose name has no colon is decoded to the user and the password.
  pub decode-encode :
      (username password : String)
      → colons username ≡ 0
      → decode_docker_config_field_auth b (encode_docker_config_field_auth b username password)
        ≡ ok (username, password)
  unfolding decode_docker_config_field_auth encode_docker_config_field_auth
  decode-encode username password h =
      elim (Bool-cases (b.has_padding (b.std_encode (username <> (":" <> password))))) [
        | inl e ↦
            rw (e, laws.std (username <> (":" <> password)))
              (ap parsed_auth (first_colon-join username password h))
        | inr e ↦
            rw (e, laws.raw (username <> (":" <> password)) e)
              (ap parsed_auth (first_colon-join username password h))
      ]

  encoded-ne-empty :
      (username password : String)
      → (encode_docker_config_field_auth b username password == "") ≡ false
  unfolding encode_docker_config_field_auth
  encoded-ne-empty username password =
      laws.some_text (username <> (":" <> password)) ∙ join-ne-empty username password

  -- If base64 decodes what it encoded, an entry whose user name has no colon is read back as it was
  -- written, whatever its password.
  pub unmarshal_json-marshal_json :
      (ident : DockerConfigEntry)
      → colons ident.username ≡ 0
      → unmarshal_json b (marshal_json b ident) ≡ ok ident
  unfolding unmarshal_json marshal_json
  unmarshal_json-marshal_json ident h =
      rw
        (
          encoded-ne-empty ident.username ident.password,
          decode-encode ident.username ident.password h,
        )
        refl

  -- The credential that is made of an auth field alone.
  abbrev pub auth_only : String → String → AuthConfig
  auth_only username password = record {
    username = "";
    password = "";
    auth = encode_docker_config_field_auth b username password;
  }

  two_parts-other :
      (server : String) (parts : List String)
      → 3 ≤ length parts
      → two_parts server parts ≡ err (plain ("malformed auth for server: " <> server))
  unfolding two_parts
  two_parts-other server [] h = refl
  two_parts-other server (x ∷ []) h = refl
  two_parts-other server (x ∷ y ∷ []) h = absurd (omega (arith, h))
  two_parts-other server (x ∷ y ∷ z ∷ rest) h = refl

  decoded_credential-auth :
      (server username password : String)
      → decoded_credential b server (auth_only username password)
        ≡ two_parts server (at_colons (username <> (":" <> password)))
  unfolding decoded_credential encode_docker_config_field_auth
  decoded_credential-auth server username password =
      rw
        (
          laws.some_text (username <> (":" <> password)) ∙ join-ne-empty username password,
          laws.std (username <> (":" <> password)),
        )
        refl

  -- If base64 decodes what it encoded, and the user name has no colon, a credential with an auth field
  -- alone is made if the password has no colon, and is refused as malformed if it has one.
  pub make_registry_credential-auth :
      (server username password : String)
      → colons username ≡ 0
      → make_registry_credential b server (auth_only username password) ≡ (
          if eqb (colons password) 0
          then ok (record { server = server; username = username; password = password })
          else err (plain ("malformed auth for server: " <> server)))
  unfolding make_registry_credential two_parts
  make_registry_credential-auth server username password h =
      elim (Bool-cases (eqb (colons password) 0)) [
        | inl e ↦
            let no_colons : colons password ≡ 0 = ground (arith, e) in
            rw
              (
                e,
                decoded_credential-auth server username password,
                at_colons-join username password h no_colons,
              )
              refl
        | inr e ↦
            let many : 3 ≤ length (at_colons (username <> (":" <> password))) = ground (
              arith,
              e,
              length-at_colons (username <> (":" <> password)),
              colons-join username password,
            ) in
            rw
              (
                e,
                decoded_credential-auth server username password,
                two_parts-other server (at_colons (username <> (":" <> password))) many,
              )
              refl
      ]
