-- ===== src/Auth/Settled.antt =====
-- What holds of the settings that SetAuthConfig accepts.
use azure_aci.Prelude.{
  String, Bool, true, false, ◌&&◌, ◌==◌, Option, none, some, ◌≡◌, refl, ok, Result, >>=-eq-ok,
  fail_if-eq-ok, ok-injective, subst, if◌then◌else◌, fail_if, ◌⊎◌, inl, inr, Bool-cases, eq_iff,
}
use azure_aci.Auth.{
  Authentication, AksCredential, AuthSettings, Cloud, azure_public, SignIn, overridden,
  get_cloud_configuration, get_authorizer, from_auth_location, new_aks_credential, aks_settings,
  from_aks_credential, set_auth_config, identity_unset,
}

module _ {Oauth Token : Type 0} (s : SignIn Oauth Token) where
  -- The cloud is the one that the credential names, and the public one without a credential.
  abbrev pub cloud_of : Option AksCredential → Result Cloud
  cloud_of none = ok azure_public
  cloud_of (some cred) = get_cloud_configuration cred.cloud

  -- The variable of the environment is unset, or it decides on `field`.
  abbrev pub Decides : String → String → Type 0
  Decides variable field = (s.getenv variable ≡ "") ⊎ (field ≡ s.getenv variable)

  pub record SignedIn (c : AuthSettings Token) : Type 0 where
    pub token : Token
    pub authorizer : c.authorizer ≡ some token
    pub authorized : get_authorizer s c.cloud c.auth_config (s.endpoint c.cloud) ≡ ok token
    pub identified :
        (c.auth_config.client_id == "" && (c.auth_config.user_identity_client_id == "")) ≡ false
    pub cloud : cloud_of c.aks_credential ≡ ok c.cloud
    pub client_id : Decides "AZURE_CLIENT_ID" c.auth_config.client_id
    pub client_secret : Decides "AZURE_CLIENT_SECRET" c.auth_config.client_secret
    pub subscription_id : Decides "AZURE_SUBSCRIPTION_ID" c.auth_config.subscription_id
    pub tenant_id : Decides "AZURE_TENANT_ID" c.auth_config.tenant_id
    pub user_identity :
        Decides "VIRTUALNODE_USER_IDENTITY_CLIENTID" c.auth_config.user_identity_client_id

  overridden-set : (v field : String) → (v ≡ "") ⊎ (overridden v field ≡ v)
  overridden-set v field = elim (Bool-cases (v == "")) [
    | inl e ↦ inl ((eq_iff v "").0 e)
    | inr e ↦ inr (rw e refl)
  ]

  aks_settings-cloud_of :
      (filepath : String) (c : AuthSettings Token)
      → aks_settings s filepath ≡ ok c
      → cloud_of c.aks_credential ≡ ok c.cloud
  unfolding aks_settings
  aks_settings-cloud_of filepath c h =
      let (cred, at_cred, h1) = >>=-eq-ok (new_aks_credential s filepath) _ h in
      let (cloud, at_cloud, h2) = >>=-eq-ok (get_cloud_configuration cred.cloud) _ h1 in
      subst (λ c. cloud_of c.aks_credential ≡ ok c.cloud) (ok-injective _ _ h2) at_cloud

  chosen-cloud_of :
      (named : Bool) (a : Authentication) (filepath : String) (c : AuthSettings Token)
      → (if named
          then ok (record {
            aks_credential = none;
            auth_config = a;
            cloud = azure_public;
            authorizer = none;
          })
          else aks_settings s filepath)
        ≡ ok c
      → cloud_of c.aks_credential ≡ ok c.cloud
  chosen-cloud_of true a filepath c h =
      subst (λ c. cloud_of c.aks_credential ≡ ok c.cloud) (ok-injective _ _ h) refl
  chosen-cloud_of false a filepath c h = aks_settings-cloud_of filepath c h

  from_aks_credential-cloud_of :
      (a : Authentication) (filepath : String) (c : AuthSettings Token)
      → from_aks_credential s a filepath ≡ ok c
      → cloud_of c.aks_credential ≡ ok c.cloud
  unfolding from_aks_credential
  from_aks_credential-cloud_of a filepath c h = chosen-cloud_of (filepath == "") a filepath c h

  -- When SetAuthConfig succeeds, it has an identity, be it a client or a managed one; its authorizer is made for
  -- that identity, for the end point of the cloud that the AKS credential names (the public one without a
  -- credential); and each of the five variables that is set has decided on its field.
  pub set_auth_config-SignedIn : (c : AuthSettings Token) → set_auth_config s ≡ ok c → SignedIn c
  unfolding set_auth_config
  set_auth_config-SignedIn c h =
      let (a, at_a, h1) = >>=-eq-ok (from_auth_location s (s.getenv "AZURE_AUTH_LOCATION")) _ h in
      let (c1, at_c1, h2) =
        >>=-eq-ok (from_aks_credential s a (s.getenv "AKS_CREDENTIAL_LOCATION")) _ h1 in
      let (u, at_u, h3) = >>=-eq-ok (fail_if _ identity_unset) _ h2 in
      let (token, at_token, h4) = >>=-eq-ok (get_authorizer s c1.cloud _ _) _ h3 in
      subst SignedIn (ok-injective _ _ h4) (record {
        token = token;
        authorizer = refl;
        authorized = at_token;
        identified = fail_if-eq-ok _ identity_unset at_u;
        cloud = from_aks_credential-cloud_of a _ c1 at_c1;
        client_id = overridden-set _ _;
        client_secret = overridden-set _ _;
        subscription_id = overridden-set _ _;
        tenant_id = overridden-set _ _;
        user_identity = overridden-set _ _;
      })
