-- ===== src/Registry/Entries.antt =====
-- The credentials that the entries of a secret stand for.
use mathlib.Core.List.{append_assoc, append-nil}
use azure_aci.Prelude.{
  String, false, Option, none, some, List, [], ◌∷◌, ◌++◌, ◌==◌, ◌<>◌, Error, message_of, ◌≡◌, refl,
  sym, ap, ◌∙◌, subst, Result, ok, err, panics, plain, >>=-eq-ok, ok-injective, if◌then◌else◌, inl,
  inr, Bool-cases, eq_iff,
}
use azure_aci.Registry.Split.{first_colon, at_colons}
use azure_aci.Registry.{
  Base64, AuthConfig, DockerConfigEntry, DockerConfigEntryWithAuth, ImageRegistryCredential,
  parsed_auth, decode_docker_config_field_auth, unmarshal_json, two_parts, decoded_credential,
  make_registry_credential, make_registry_credential_from_docker_config, make_each, unmarshal_each,
}

-- The credential of an entry of .dockercfg: its user and password, or those between the colons of its auth
-- field if it names no user.
pub data OfAuthConfig (b : Base64) (server : String) (a : AuthConfig)
    : ImageRegistryCredential → Type 0 where
  named_user :
      (a.username == "") ≡ false
      → OfAuthConfig b server a
          (record { server = server; username = a.username; password = a.password })
  in_auth :
      (decoded username password : String)
      → a.username ≡ ""
      → b.std_decode a.auth ≡ ok decoded
      → at_colons decoded ≡ username ∷ password ∷ []
      → OfAuthConfig b server a
          (record { server = server; username = username; password = password })

-- The credential of an entry of .dockerconfigjson, whose auth field goes first: it is split at its first
-- colon. There is a user.
pub data OfDockerConfig (b : Base64) (server : String) (e : DockerConfigEntryWithAuth)
    : ImageRegistryCredential → Type 0 where
  without_auth :
      e.auth ≡ ""
      → (e.username == "") ≡ false
      → OfDockerConfig b server e
          (record { server = server; username = e.username; password = e.password })
  with_auth :
      (decoded username password : String)
      → (e.auth == "") ≡ false
      → (if b.has_padding e.auth then b.std_decode e.auth else b.raw_std_decode e.auth) ≡ ok decoded
      → first_colon decoded ≡ some (username, password)
      → (username == "") ≡ false
      → OfDockerConfig b server e
          (record { server = server; username = username; password = password })

-- One credential for each entry, in their order.
pub data Each {V : Type 0} (P : String → V → ImageRegistryCredential → Type 0)
    : List (String × V) → List ImageRegistryCredential → Type 0 where
  no_entry : Each P [] []
  one_entry :
      {server : String} {v : V} {cred : ImageRegistryCredential} {es : List (String × V)}
      {creds : List ImageRegistryCredential}
      → P server v cred
      → Each P es creds
      → Each P ((server, v) ∷ es) (cred ∷ creds)

two_parts-eq-ok :
    (server : String) (parts : List String) (login : String × String)
    → two_parts server parts ≡ ok login
    → parts ≡ login.0 ∷ login.1 ∷ []
unfolding two_parts
two_parts-eq-ok server [] login h = cc
two_parts-eq-ok server (u ∷ []) login h = cc
two_parts-eq-ok server (u ∷ p ∷ []) login h = ap (λ x. x.0 ∷ x.1 ∷ []) (ok-injective (u, p) login h)
two_parts-eq-ok server (u ∷ p ∷ q ∷ rest) login h = cc

decoded_parts :
    (server : String) (r : Result String) (f : Error → Error) (login : String × String)
    → elim r [
      | ok decoded ↦ two_parts server (at_colons decoded)
      | err e ↦ err (f e)
      | panics ↦ panics
    ]
      ≡ ok login
    → (decoded : String) × (r ≡ ok decoded) × (at_colons decoded ≡ login.0 ∷ login.1 ∷ [])
decoded_parts server (ok decoded) f login h = (decoded, refl, two_parts-eq-ok server _ login h)
decoded_parts server (err e) f login h = cc
decoded_parts server panics f login h = cc

decoded_credential-eq-ok :
    (b : Base64) (server : String) (a : AuthConfig) (login : String × String)
    → decoded_credential b server a ≡ ok login
    → (decoded : String) × (b.std_decode a.auth ≡ ok decoded)
      × (at_colons decoded ≡ login.0 ∷ login.1 ∷ [])
unfolding decoded_credential
decoded_credential-eq-ok b server a login h = elim (Bool-cases (a.auth == "")) [
  | inl missing ↦
      let refused : decoded_credential b server a
          ≡ err (plain ("no username present in auth config for server: " <> server)) =
        rw missing refl in
      absurd cc
  | inr there ↦
      decoded_parts server (b.std_decode a.auth)
        (λ e.
          plain
            ("error decoding the auth for server: " <> (server <> (" Error: " <> message_of e))))
        login (rw there at h)
]

pub make_registry_credential-OfAuthConfig :
    (b : Base64) (server : String) (a : AuthConfig) (cred : ImageRegistryCredential)
    → make_registry_credential b server a ≡ ok cred
    → OfAuthConfig b server a cred
unfolding make_registry_credential
make_registry_credential-OfAuthConfig b server a cred h = elim (Bool-cases (a.username == "")) [
  | inr user ↦
      subst (OfAuthConfig b server a) (ok-injective _ cred (rw user at h)) (named_user user)
  | inl blank ↦
      let (login, at_login, h1) = >>=-eq-ok (decoded_credential b server a) _ (rw blank at h) in
      let (decoded, at_decoded, parts) = decoded_credential-eq-ok b server a login at_login in
      subst (OfAuthConfig b server a) (ok-injective _ cred h1)
        (in_auth decoded login.0 login.1 ((eq_iff a.username "").0 blank) at_decoded parts)
]

from_docker_config-eq-ok :
    (server : String) (e : DockerConfigEntry) (cred : ImageRegistryCredential)
    → make_registry_credential_from_docker_config server e ≡ ok cred
    → ((e.username == "") ≡ false)
      × (record { server = server; username = e.username; password = e.password } ≡ cred)
unfolding make_registry_credential_from_docker_config
from_docker_config-eq-ok server e cred h = elim (Bool-cases (e.username == "")) [
  | inl blank ↦
      let refused : make_registry_credential_from_docker_config server e
          ≡ err (plain ("no username present in auth config for server: " <> server)) =
        rw blank refl in
      absurd cc
  | inr user ↦ (user, ok-injective _ cred (rw user at h))
]

parsed_auth-eq-ok :
    (o : Option (String × String)) (parts : String × String)
    → parsed_auth o ≡ ok parts
    → o ≡ some parts
parsed_auth-eq-ok none parts h = cc
parsed_auth-eq-ok (some x) parts h = ap some (ok-injective x parts h)

unmarshalled-OfDockerConfig :
    (b : Base64) (server : String) (tmp : DockerConfigEntryWithAuth) (e : DockerConfigEntry)
    (cred : ImageRegistryCredential)
    → unmarshal_json b tmp ≡ ok e
    → make_registry_credential_from_docker_config server e ≡ ok cred
    → OfDockerConfig b server tmp cred
unfolding unmarshal_json decode_docker_config_field_auth
unmarshalled-OfDockerConfig b server tmp e cred h made =
    let (user, is_cred) = from_docker_config-eq-ok server e cred made in
    elim (Bool-cases (tmp.auth == "")) [
      | inl blank ↦
          let same = ok-injective _ e (rw blank at h) in
          subst (OfDockerConfig b server tmp)
            (ap (λ x. record { server = server; username = x.username; password = x.password }) same
              ∙ is_cred)
            (without_auth ((eq_iff tmp.auth "").0 blank) (rw (← same) at user))
      | inr auth ↦
          let (parts, at_parts, h1) =
            >>=-eq-ok (decode_docker_config_field_auth b tmp.auth) _ (rw auth at h) in
          let (decoded, at_decoded, h2) =
            >>=-eq-ok
              (if b.has_padding tmp.auth then b.std_decode tmp.auth else b.raw_std_decode tmp.auth)
              _ at_parts in
          let same = ok-injective _ e h1 in
          subst (OfDockerConfig b server tmp)
            (ap (λ x. record { server = server; username = x.username; password = x.password }) same
              ∙ is_cred)
            (with_auth decoded parts.0 parts.1 auth at_decoded
              (parsed_auth-eq-ok (first_colon decoded) parts h2) (rw (← same) at user))
    ]

pub make_each-Each :
    {V : Type 0} (make : String → V → Result ImageRegistryCredential) (es : List (String × V))
    (ips out : List ImageRegistryCredential)
    → make_each make es ips ≡ ok out
    → (own : List ImageRegistryCredential) × (out ≡ ips ++ own)
      × Each (λ server v cred. make server v ≡ ok cred) es own
unfolding make_each
make_each-Each make [] ips out h =
    ([], sym (ok-injective ips out h) ∙ sym (append-nil ips), no_entry)
make_each-Each make (e ∷ es) ips out h =
    let (cred, made, h1) = >>=-eq-ok (make e.0 e.1) _ h in
    let (own, same, each) = make_each-Each make es (ips ++ (cred ∷ [])) out h1 in
    (cred ∷ own, same ∙ append_assoc ips (cred ∷ []) own, one_entry made each)

pub Each-map :
    {V : Type 0} {P Q : String → V → ImageRegistryCredential → Type 0} {es : List (String × V)}
    {creds : List ImageRegistryCredential}
    → ((server : String) (v : V) (cred : ImageRegistryCredential)
        → P server v cred
        → Q server v cred)
    → Each P es creds
    → Each Q es creds
Each-map f no_entry = no_entry
Each-map f (one_entry {server} {v} {cred} h rest) = one_entry (f server v cred h) (Each-map f rest)

Each-nil :
    {V : Type 0} {P : String → V → ImageRegistryCredential → Type 0}
    {creds : List ImageRegistryCredential}
    → Each P [] creds
    → [] ≡ creds
Each-nil no_entry = refl

Each-cons :
    {V : Type 0} {P : String → V → ImageRegistryCredential → Type 0} {server : String} {v : V}
    {es : List (String × V)} {creds : List ImageRegistryCredential}
    → Each P ((server, v) ∷ es) creds
    → (cred : ImageRegistryCredential) × (rest : List ImageRegistryCredential) × P server v cred
      × Each P es rest
      × (cred ∷ rest ≡ creds)
Each-cons (one_entry {cred} {creds} h rest) = (cred, creds, h, rest, refl)

pub unmarshal_each-Each :
    (b : Base64) (raw : List (String × DockerConfigEntryWithAuth))
    (es : List (String × DockerConfigEntry)) (creds : List ImageRegistryCredential)
    → unmarshal_each b raw ≡ ok es
    → Each
        (λ server e cred. make_registry_credential_from_docker_config server e ≡ ok cred)
        es
        creds
    → Each (OfDockerConfig b) raw creds
unfolding unmarshal_each
unmarshal_each-Each b [] es creds h each =
    subst (Each (OfDockerConfig b) [])
      (Each-nil (
        subst
          (λ x.
            Each (λ server e cred. make_registry_credential_from_docker_config server e ≡ ok cred) x
              creds)
          (sym (ok-injective [] es h)) each))
      no_entry
unmarshal_each-Each b (tmp ∷ raw) es creds h each =
    let (e, at_e, h1) = >>=-eq-ok (unmarshal_json b tmp.1) _ h in
    let (rest, at_rest, h2) = >>=-eq-ok (unmarshal_each b raw) _ h1 in
    let (cred, others, made, each', all) = Each-cons (
      subst
        (λ x.
          Each (λ server e cred. make_registry_credential_from_docker_config server e ≡ ok cred) x
            creds)
        (sym (ok-injective ((tmp.0, e) ∷ rest) es h2)) each) in
    subst (Each (OfDockerConfig b) (tmp ∷ raw)) all (
      one_entry (unmarshalled-OfDockerConfig b tmp.0 tmp.1 e cred at_e made)
        (unmarshal_each-Each b raw rest others at_rest each'))
