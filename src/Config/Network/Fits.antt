-- ===== src/Config/Network/Fits.antt =====
-- A subnet that can be used is delegated to Azure Container Instances, or can be.
use azure_aci.Prelude.{
  String, Bool, false, not, ◌==◌, Option, none, some, List, [], ◌∷◌, ◌≡◌, refl, ap, sym, ◌∙◌, subst,
  ok, deref, >>=-eq-ok, deref-eq-ok, fail_if, fail_if-not-eq-ok, ok-injective, In, map, inl, inr,
  ◌⊎◌, Bool-cases, eq_iff, if-eq-ok,
}
use azure_aci.Config.Loaded.{or_default}
use azure_aci.Config.Network.{
  Delegation, service_of, SubnetProperties, Subnet, subnet_delegation_service, search_delegations,
  search_links, must_delegate, no_route_table, examine,
}

abbrev pub to_service : Option (Option String)
to_service = some (some subnet_delegation_service)

-- The subnet is delegated, by a link where it has links, by a delegation otherwise.
abbrev pub DelegatedBy : Option (List (Option (Option String))) → Option (List Delegation) → Type 0
DelegatedBy (some links) delegations = In to_service links
DelegatedBy none (some delegations) = In to_service (map service_of delegations)
DelegatedBy none none = ⊥

search_delegations-In :
    (ds : List (Option (Option String))) → search_delegations ds ≡ ok false → In to_service ds
unfolding search_delegations
search_delegations-In [] h = cc
search_delegations-In (none ∷ ds) h = inr (search_delegations-In ds h)
search_delegations-In (some none ∷ ds) h = cc
search_delegations-In (some (some n) ∷ ds) h =
    elim (if-eq-ok (n == subnet_delegation_service) _ _ h) [
      | inl (same, h1) ↦ inl (ap (λ m. some (some m)) (sym ((eq_iff _ _).0 same)))
      | inr (differs, h1) ↦ inr (search_delegations-In ds h1)
    ]

search_links-In :
    (show_link : Option (Option String) → String) (name : String)
    (ls : List (Option (Option String)))
    → search_links show_link name ls ≡ ok false
    → In to_service ls
unfolding search_links
search_links-In show_link name [] h = cc
search_links-In show_link name (none ∷ ls) h = inr (search_links-In show_link name ls h)
search_links-In show_link name (some none ∷ ls) h = cc
search_links-In show_link name (some (some t) ∷ ls) h =
    elim (if-eq-ok (t == subnet_delegation_service) _ _ h) [
      | inl (same, h1) ↦ inl (ap (λ m. some (some m)) (sym ((eq_iff _ _).0 same)))
      | inr (differs, h1) ↦ cc
    ]

pub must_delegate-DelegatedBy :
    (show_link : Option (Option String) → String) (name : String) (props : SubnetProperties)
    (links : Option (List (Option (Option String))))
    → must_delegate show_link name props links ≡ ok false
    → DelegatedBy links props.delegations
unfolding must_delegate
must_delegate-DelegatedBy show_link name props (some links) h =
    search_links-In show_link name links h
must_delegate-DelegatedBy show_link name props none h =
    let (ds, at_ds, h1) = >>=-eq-ok (deref props.delegations) _ h in
    rw (deref-eq-ok _ at_ds) (search_delegations-In (map service_of ds) h1)

-- The subnet that was found can be used with the CIDR `cidr`.
pub record Fits (desired cidr : String) (subnet : Subnet) : Type 0 where
  pub props : SubnetProperties
  pub at : subnet.properties ≡ some props
  pub prefix : props.address_prefix ≡ some cidr
  pub as_desired : (desired ≡ "") ⊎ (cidr ≡ desired)
  pub unrouted : props.route_table ≡ none

or_default-set : (v d : String) → (v ≡ "") ⊎ (or_default v d ≡ v)
or_default-set v d = elim (Bool-cases (v == "")) [
  | inl e ↦ inl ((eq_iff v "").0 e)
  | inr e ↦ inr (rw e refl)
]

no_route_table-none :
    (show_link : Option (Option String) → String) (name : String) (t : Option (Option String))
    {u : Unit {0}}
    → no_route_table show_link name t ≡ ok u
    → t ≡ none
unfolding no_route_table
no_route_table-none show_link name none h = refl
no_route_table-none show_link name (some none) h = cc
no_route_table-none show_link name (some (some id)) h = cc

pub examine-Fits :
    (show_link : Option (Option String) → String) (name desired : String) (subnet : Subnet)
    (cidr : String) (create : Bool)
    → examine show_link name desired subnet ≡ ok (cidr, create)
    → (fits : Fits desired cidr subnet) × (must_delegate show_link name fits.props
          fits.props.service_association_links
        ≡ ok create)
unfolding examine
examine-Fits show_link name desired subnet cidr create h =
    let (props, at_props, h1) = >>=-eq-ok (deref subnet.properties) _ h in
    let (prefix, at_prefix, h2) = >>=-eq-ok (deref props.address_prefix) _ h1 in
    let (same, at_same, h3) =
      >>=-eq-ok (fail_if (not (or_default desired prefix == prefix)) _) _ h2 in
    let (unrouted, at_unrouted, h4) =
      >>=-eq-ok (no_route_table show_link name props.route_table) _ h3 in
    let (c, at_c, h5) =
      >>=-eq-ok (must_delegate show_link name props props.service_association_links) _ h4 in
    let pair = ok-injective _ _ h5 in
    let kept = (eq_iff _ _).0 (fail_if-not-eq-ok _ _ at_same) in
    (
      record {
        props = props;
        at = deref-eq-ok _ at_props;
        prefix = deref-eq-ok _ at_prefix ∙ ap some (sym kept ∙ ap (λ x. x.0) pair);
        as_desired =
            subst (λ d. (desired ≡ "") ⊎ (d ≡ desired)) (ap (λ x. x.0) pair)
              (or_default-set desired prefix);
        unrouted = no_route_table-none show_link name props.route_table at_unrouted;
      },
      at_c ∙ ap ok (ap (λ x. x.1) pair),
    )
