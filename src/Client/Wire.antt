-- ===== src/Client/Wire.antt =====
-- What pkg/client/client.go puts into the body of a creation, MarshalJSON of the properties, and how
-- pkg/client/client_apis.go makes the clients of the SDK and names itself to Azure.
mod Examples
use azure_aci.Prelude.{
  String, Bool, true, false, not, ◌&&◌, ◌==◌, eq_iff, eq_refl, contains, Bool-cases, inl, inr,
  Option, none, some, List, [], ◌∷◌, lookup, map, ◌≡◌, refl, ap, ◌∙◌, sym, Result, ok, deref, subst,
  if◌then◌else◌, ◌>>=◌,
}
use azure_aci.Prelude.Io
use azure_aci.Prelude.Io.{Io, attempt, pure, Answer, returned, failed_with}

-- A value of the map that is marshalled: a text, or another part of the group.
pub data Property (J : Type 0) : Type 0 where
  text : String → Property J
  value : J → Property J

-- azaci.ContainerGroupProperties, with nil as none. The provisioning state and the instance view are those
-- that Azure answers with; MarshalJSON does not send them.
pub record ContainerGroupProperties (J : Type 0) : Type 0 where
  pub provisioning_state : Option String
  pub instance_view : Option J
  pub containers : Option J
  pub image_registry_credentials : Option J
  pub restart_policy : String
  pub ip_address : Option J
  pub os_type : String
  pub volumes : Option J
  pub diagnostics : Option J
  pub subnet_ids : Option J
  pub dns_config : Option J
  pub sku : String
  pub encryption_properties : Option J
  pub init_containers : Option J

pub record ContainerGroupPropertiesWrapper (J : Type 0) : Type 0 where
  pub container_group_properties : Option (ContainerGroupProperties J)
  pub extensions : Option J

-- No key stands twice.
abbrev is_distinct : List String → Bool
is_distinct [] = true
is_distinct (k ∷ ks) = not (contains ks k) && is_distinct ks

and-not-eq-true : (b c : Bool) → (not b && c) ≡ true → (b ≡ false) × (c ≡ true)
and-not-eq-true true c h = cc
and-not-eq-true false c h = (refl, h)

if-true-eq-false : (b c : Bool) → (if b then true else c) ≡ false → (b ≡ false) × (c ≡ false)
if-true-eq-false true c h = cc
if-true-eq-false false c h = (refl, h)

module _ {J : Type 0} where
  abbrev pub of_value : Option J → Option (Property J)
  of_value none = none
  of_value (some v) = some (value v)

  abbrev pub of_text : String → Option (Property J)
  of_text s = if s == "" then none else some (text s)

  -- The object_entries that are put into the map.
  abbrev pub present : List (String × Option (Property J)) → List (String × Property J)
  present [] = []
  present ((key, none) ∷ rest) = present rest
  present ((key, some v) ∷ rest) = (key, v) ∷ present rest

  abbrev pub object_entries :
      ContainerGroupProperties J → Option J → List (String × Option (Property J))
  object_entries p extensions =
      ("containers", of_value p.containers)
      ∷ ("imageRegistryCredentials", of_value p.image_registry_credentials)
      ∷ ("restartPolicy", of_text p.restart_policy)
      ∷ ("ipAddress", of_value p.ip_address)
      ∷ ("osType", of_text p.os_type)
      ∷ ("volumes", of_value p.volumes)
      ∷ ("diagnostics", of_value p.diagnostics)
      ∷ ("subnetIds", of_value p.subnet_ids)
      ∷ ("dnsConfig", of_value p.dns_config)
      ∷ ("sku", of_text p.sku)
      ∷ ("encryptionProperties", of_value p.encryption_properties)
      ∷ ("initContainers", of_value p.init_containers)
      ∷ ("extensions", of_value extensions)
      ∷ []

  -- The map that MarshalJSON hands to `json.Marshal`; the properties are read through their pointer.
  unfoldable pub marshal_json :
      ContainerGroupPropertiesWrapper J → Result (List (String × Property J))
  marshal_json cg = do
    p ← deref cg.container_group_properties
    ok (present (object_entries p cg.extensions))

  -- The properties in a map that was read.
  abbrev pub value_of : Option (Property J) → Option J
  value_of (some (value v)) = some v
  value_of _ = none

  abbrev pub text_of : Option (Property J) → String
  text_of (some (text s)) = s
  text_of _ = ""

  abbrev pub read_properties : List (String × Property J) → ContainerGroupPropertiesWrapper J
  read_properties m = record {
    container_group_properties = some (record {
      provisioning_state = none;
      instance_view = none;
      containers = value_of (lookup m "containers");
      image_registry_credentials = value_of (lookup m "imageRegistryCredentials");
      restart_policy = text_of (lookup m "restartPolicy");
      ip_address = value_of (lookup m "ipAddress");
      os_type = text_of (lookup m "osType");
      volumes = value_of (lookup m "volumes");
      diagnostics = value_of (lookup m "diagnostics");
      subnet_ids = value_of (lookup m "subnetIds");
      dns_config = value_of (lookup m "dnsConfig");
      sku = text_of (lookup m "sku");
      encryption_properties = value_of (lookup m "encryptionProperties");
      init_containers = value_of (lookup m "initContainers");
    });
    extensions = value_of (lookup m "extensions");
  }

  abbrev flat : Option (Option (Property J)) → Option (Property J)
  flat none = none
  flat (some o) = o

  abbrev keys : List (String × Option (Property J)) → List String
  keys es = map (λ e. e.0) es

  lookup-present_missing :
      (es : List (String × Option (Property J))) (k : String)
      → contains (keys es) k ≡ false
      → lookup (present es) k ≡ none
  lookup-present_missing [] k h = refl
  lookup-present_missing ((key, none) ∷ rest) k h =
      lookup-present_missing rest k (if-true-eq-false (key == k) (contains (keys rest) k) h).1
  lookup-present_missing ((key, some v) ∷ rest) k h =
      let (other, absent) = if-true-eq-false (key == k) (contains (keys rest) k) h in
      rw other (lookup-present_missing rest k absent)

  lookup-present :
      (es : List (String × Option (Property J))) (k : String)
      → is_distinct (keys es) ≡ true
      → lookup (present es) k ≡ flat (lookup es k)
  lookup-present [] k h = refl
  lookup-present ((key, none) ∷ rest) k h =
      let (fresh, distinct) =
        and-not-eq-true (contains (keys rest) key) (is_distinct (keys rest)) h in
      elim (Bool-cases (key == k)) [
        | inl same ↦ rw same (
            lookup-present_missing rest k
              (subst (λ v. contains (keys rest) v ≡ false) ((eq_iff key k).0 same) fresh))
        | inr other ↦ rw other (lookup-present rest k distinct)
      ]
  lookup-present ((key, some v) ∷ rest) k h =
      let (fresh, distinct) =
        and-not-eq-true (contains (keys rest) key) (is_distinct (keys rest)) h in
      elim (Bool-cases (key == k)) [
        | inl same ↦ rw same refl
        | inr other ↦ rw other (lookup-present rest k distinct)
      ]

  value_of-of_value : (o : Option J) → value_of (of_value o) ≡ o
  value_of-of_value none = refl
  value_of-of_value (some v) = refl

  text_of-of_text : (v : Option (Property J)) (s : String) → v ≡ of_text s → text_of v ≡ s
  text_of-of_text v s h = elim (Bool-cases (s == "")) [
    | inl blank ↦ rw (h, blank) (sym ((eq_iff s "").0 blank))
    | inr other ↦ rw (h, other) refl
  ]

  read-value :
      (p : ContainerGroupProperties J) (extensions : Option J) (k : String) (o : Option J)
      → flat (lookup (object_entries p extensions) k) ≡ of_value o
      → value_of (lookup (present (object_entries p extensions)) k) ≡ o
  read-value p extensions k o h =
      ap value_of (lookup-present (object_entries p extensions) k refl ∙ h) ∙ value_of-of_value o

  read-text :
      (p : ContainerGroupProperties J) (extensions : Option J) (k s : String)
      → flat (lookup (object_entries p extensions) k) ≡ of_text s
      → text_of (lookup (present (object_entries p extensions)) k) ≡ s
  read-text p extensions k s h =
      text_of-of_text _ s (lookup-present (object_entries p extensions) k refl ∙ h)

  -- Read back by its keys, the map that is marshalled gives the properties and the extensions, all but the
  -- provisioning state and the instance view, which are lost.
  pub read_properties-marshal_json :
      (p : ContainerGroupProperties J) (extensions : Option J)
      → (marshal_json (record { container_group_properties = some p; extensions = extensions })
          >>= λ m. ok (read_properties m))
        ≡ ok (record {
          container_group_properties =
              some (record p { provisioning_state = none; instance_view = none });
          extensions = extensions;
        })
  unfolding marshal_json
  read_properties-marshal_json p extensions = simp (
    read-value p extensions "containers" p.containers refl,
    read-value p extensions "imageRegistryCredentials" p.image_registry_credentials refl,
    read-text p extensions "restartPolicy" p.restart_policy refl,
    read-value p extensions "ipAddress" p.ip_address refl,
    read-text p extensions "osType" p.os_type refl,
    read-value p extensions "volumes" p.volumes refl,
    read-value p extensions "diagnostics" p.diagnostics refl,
    read-value p extensions "subnetIds" p.subnet_ids refl,
    read-value p extensions "dnsConfig" p.dns_config refl,
    read-text p extensions "sku" p.sku refl,
    read-value p extensions "encryptionProperties" p.encryption_properties refl,
    read-value p extensions "initContainers" p.init_containers refl,
    read-value p extensions "extensions" extensions refl,
  )

-- A client of the SDK: where it sends its requests, for which subscription, and as whom.
pub record SdkClient (A : Type 0) : Type 0 where
  pub base_uri : String
  pub subscription_id : String
  pub authorizer : A

pub record AzClientsApis (A : Type 0) : Type 0 where
  pub containers_client : SdkClient A
  pub container_group_client : SdkClient A
  pub location_client : SdkClient A

-- ACI_EXTRA_USER_AGENT, and AddToUserAgent of each of the clients.
pub record UserAgents (W : Type 0) : Type 0 where
  pub extra_user_agent : String
  pub add_to_containers : String → Io W (Unit {0})
  pub add_to_container_groups : String → Io W (Unit {0})
  pub add_to_location : String → Io W (Unit {0})

module _ {W : Type 0} (ua : UserAgents W) where
  -- The first call that fails is logged and ends the function.
  abbrev pub unless_failed : Io W (Unit {0}) → Answer (Unit {0}) → Io W (Unit {0})
  unless_failed next (failed_with e) = pure tt
  unless_failed next (returned u) = next

  unfoldable pub set_user_agent : Io W (Unit {0})
  set_user_agent =
      if ua.extra_user_agent == ""
      then pure tt
      else Io.◌>>=◌ (attempt (ua.add_to_containers ua.extra_user_agent)) (
          unless_failed (
            Io.◌>>=◌ (attempt (ua.add_to_container_groups ua.extra_user_agent)) (
              unless_failed (
                Io.◌>>=◌ (attempt (ua.add_to_location ua.extra_user_agent))
                  (unless_failed (pure tt))))))

  -- The three clients have the endpoint, the subscription and the authorizer of the configuration alike.
  unfoldable pub new_az_clients_apis : {A : Type 0} → SdkClient A → Io W (AzClientsApis A)
  unfolding set_user_agent
  new_az_clients_apis client = Io.◌>>=◌ set_user_agent λ named. pure (record {
    containers_client = client;
    container_group_client = client;
    location_client = client;
  })
