-- ===== src/Auth/Examples.antt =====
-- A client that signs in by the environment, and the text "hi" in a file in UTF-16.
use azure_aci.Prelude.{
  String, false, none, some, List, [], ◌∷◌, ◌≡◌, refl, ok, err, plain, ◌==◌, if◌then◌else◌, ◌&&◌,
  eqb, lookup, Option, ◌<>◌,
}
use azure_aci.Auth.{AuthSettings, azure_public, SignIn, set_auth_config, get_authorizer}
use azure_aci.Auth.Decode.{
  Bytes, Utf, unknown, utf16_big_endian, utf16_little_endian, Encoding, big_endian, decode,
}
use azure_aci.Auth.Decode.Encoded.{UtfLaws, decode-encode_file, encode_file, nul_bytes_first}
use azure_aci.Auth.Settled.{SignedIn, set_auth_config-SignedIn}

abbrev skip_little : Bytes → Bytes × Encoding
skip_little rest = if nul_bytes_first rest then (rest, unknown) else (rest, utf16_little_endian)

abbrev skip : Bytes → Bytes × Encoding
skip (a ∷ b ∷ rest) =
    if eqb a 254 && eqb b 255
    then (rest, utf16_big_endian)
    else if eqb a 255 && eqb b 254
    then skip_little rest
    else (a ∷ b ∷ rest, unknown)
skip bytes = (bytes, unknown)

-- Every word is below 128.
abbrev utf : Utf
utf = record { skip = skip; to_utf8 = λ words. words }

little_skipped :
    (rest : Bytes) → nul_bytes_first rest ≡ false → skip_little rest ≡ (rest, utf16_little_endian)
little_skipped rest h = rw h refl

utf-UtfLaws : UtfLaws utf
utf-UtfLaws = record { big = λ rest. refl; little = λ rest h. little_skipped rest h }

decode-encode_file_example :
    decode utf (encode_file big_endian (104 ∷ 105 ∷ [])) ≡ ok (104 ∷ 105 ∷ [])
decode-encode_file_example = decode-encode_file utf utf-UtfLaws big_endian (104 ∷ 105 ∷ []) refl

abbrev variables : List (String × String)
variables =
    ("AZURE_CLIENT_ID", "client")
    ∷ ("AZURE_CLIENT_SECRET", "secret")
    ∷ ("AZURE_TENANT_ID", "tenant")
    ∷ []

abbrev or_empty : Option String → String
or_empty none = ""
or_empty (some v) = v

abbrev sign_in : SignIn String String
sign_in = record {
  getenv = λ name. or_empty (lookup variables name);
  quoted = λ s. s;
  equal_fold = λ s t. s == t;
  read_file = λ path. err (plain "no file");
  utf = utf;
  unmarshal_authentication = λ a b. err (plain "no JSON");
  unmarshal_credential = λ b. err (plain "no JSON");
  endpoint = λ c. "https://management.azure.com";
  authority_host = λ c. "https://login.microsoftonline.com/";
  token_from_managed_identity = λ resource identity. err (plain "no identity");
  new_oauth_config = λ host tenant. ok (host <> tenant);
  new_service_principal_token = λ oauth id secret resource. ok (oauth <> (" for " <> id));
}

abbrev settings : AuthSettings String
settings = record {
  aks_credential = none;
  auth_config = record {
    client_id = "client";
    client_secret = "secret";
    subscription_id = "";
    tenant_id = "tenant";
    user_identity_client_id = "";
  };
  cloud = azure_public;
  authorizer = some "https://login.microsoftonline.com/tenant for client";
}

settings_are_set : set_auth_config sign_in ≡ ok settings
unfolding set_auth_config get_authorizer
settings_are_set = refl

set_auth_config-SignedIn_example : SignedIn sign_in settings
set_auth_config-SignedIn_example = set_auth_config-SignedIn sign_in settings settings_are_set
