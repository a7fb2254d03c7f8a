-- ===== src/Config/Network/Delegated.antt =====
-- A network that is set up has a subnet that is delegated to Azure Container Instances.
use azure_aci.Prelude.{
  String, Bool, true, false, not, ◌==◌, ◌≡◌, refl, ap, ◌∙◌, subst, Result, ok, err, panics, Error,
  if◌then◌else◌, ok-injective, inl, inr, ◌⊎◌,
}
use azure_aci.Prelude.Io
use azure_aci.Prelude.Io.{
  Io, wrapped_io, wrapped_io-eq-ok, ◌>>=◌ as io_bind, Answer, returned, failed_with, raise, attempt,
  lift,
}
use azure_aci.Config.{AciProviderSettings}
use azure_aci.Config.Network.{
  Subnet, Subnets, network_is_not_found, must_delegate, examine, delegated_subnet, create_subnet,
  use_found, looked_up, setup_network,
}
use azure_aci.Config.Network.Fits.{Fits, DelegatedBy, examine-Fits, must_delegate-DelegatedBy}

stored_then :
    {W A : Type 0} (text : String) (m : Io W (Unit {0})) (a b : A) (w w' : W)
    → Io.◌>>◌ (wrapped_io text m) (Io.pure a) w ≡ (ok b, w')
    → (a ≡ b) × (m w ≡ (ok tt, w'))
stored_then text m a b w w' h =
    let (u, w1, at_u, h1) = Io.>>=-eq-ok (wrapped_io text m) _ w h in
    (
      ok-injective _ _ (ap (λ x. x.0) h1),
      wrapped_io-eq-ok text m w (at_u ∙ ap (λ v. (ok u, v)) (ap (λ x. x.1) h1)),
    )

-- A run that returns took the branch that does not raise.
last_branch :
    {W A : Type 0} (b c : Bool) (e e' : Error) (m : Io W A) (w : W) {a : A} {w' : W}
    → (if b then raise e else if c then raise e' else m) w ≡ (ok a, w')
    → m w ≡ (ok a, w')
last_branch true c e e' m w h = cc
last_branch false true e e' m w h = cc
last_branch false false e e' m w h = h

-- Either the subnet that was found is delegated and nothing was changed, or the delegated subnet was stored.
pub record SetUp {W : Type 0} (s : Subnets W) (subscription_id : String)
    (p p' : AciProviderSettings) (w w' : W) : Type 0 where
  pub cidr : p' ≡ record p { subnet_cidr = p'.subnet_cidr }
  pub as_desired : (p.subnet_cidr ≡ "") ⊎ (p'.subnet_cidr ≡ p.subnet_cidr)
  pub delegated :
      ((subnet : Subnet) × (s.get subscription_id p.vnet_resource_group p.vnet_name p.subnet_name w
          ≡ (ok subnet, w'))
        × (fits : Fits p.subnet_cidr p'.subnet_cidr subnet) × DelegatedBy
            fits.props.service_association_links fits.props.delegations)
      ⊎ ((w1 : W) × (s.create_or_update subscription_id p.vnet_resource_group p.vnet_name
              p.subnet_name
              (delegated_subnet p.subnet_name p'.subnet_cidr)
              w1
            ≡ (ok tt, w')))

module _ {W : Type 0} (s : Subnets W) (subscription_id : String) where
  create_subnet-eq :
      (p p' : AciProviderSettings) (w w' : W)
      → create_subnet s subscription_id p w ≡ (ok p', w')
      → (p ≡ p')
        × (s.create_or_update subscription_id p.vnet_resource_group p.vnet_name p.subnet_name
              (delegated_subnet p.subnet_name p.subnet_cidr)
              w
            ≡ (ok tt, w'))
  unfolding create_subnet
  create_subnet-eq p p' w w' h =
      stored_then "error creating subnet: "
        (s.create_or_update subscription_id p.vnet_resource_group p.vnet_name p.subnet_name
          (delegated_subnet p.subnet_name p.subnet_cidr))
        p p' w w' h

  use_found-SetUp :
      (p p' : AciProviderSettings) (subnet : Subnet) (cidr : String) (create : Bool) (w w1 w' : W)
      → s.get subscription_id p.vnet_resource_group p.vnet_name p.subnet_name w ≡ (ok subnet, w1)
      → (fits : Fits p.subnet_cidr cidr subnet)
      → must_delegate s.show_link p.subnet_name fits.props fits.props.service_association_links
        ≡ ok create
      → use_found s subscription_id p (cidr, create) w1 ≡ (ok p', w')
      → SetUp s subscription_id p p' w w'
  unfolding use_found
  use_found-SetUp p p' subnet cidr true w w1 w' got fits at h =
      let (same, stored) = create_subnet-eq (record p { subnet_cidr = cidr }) p' w1 w' h in
      subst (λ p'. SetUp s subscription_id p p' w w') same
        (record { cidr = refl; as_desired = fits.as_desired; delegated = inr (w1, stored) })
  use_found-SetUp p p' subnet cidr false w w1 w' got fits at h =
      subst (λ p'. SetUp s subscription_id p p' w w') (ok-injective _ _ (ap (λ x. x.0) h))
        (record {
          cidr = refl;
          as_desired = fits.as_desired;
          delegated = inl (
            subnet,
            got ∙ ap (λ v. (ok subnet, v)) (ap (λ x. x.1) h),
            fits,
            must_delegate-DelegatedBy s.show_link p.subnet_name fits.props _ at,
          );
        })

  looked_up-SetUp :
      (p p' : AciProviderSettings) (r : Result Subnet) (w w1 w' : W)
      → s.get subscription_id p.vnet_resource_group p.vnet_name p.subnet_name w ≡ (r, w1)
      → io_bind (attempt (lift r)) (looked_up s subscription_id p) w1 ≡ (ok p', w')
      → SetUp s subscription_id p p' w w'
  unfolding looked_up
  looked_up-SetUp p p' (ok subnet) w w1 w' got h =
      let (found, at_found, h1) =
        Io.lift->>=-eq-ok (examine s.show_link p.subnet_name p.subnet_cidr subnet) _ w1 h in
      let (fits, at) =
        examine-Fits s.show_link p.subnet_name p.subnet_cidr subnet found.0 found.1 at_found in
      use_found-SetUp p p' subnet found.0 found.1 w w1 w' got fits at h1
  looked_up-SetUp p p' (err e) w w1 w' got h =
      let (same, stored) =
        create_subnet-eq p p' w1 w'
          (last_branch (not (network_is_not_found e)) (p.subnet_cidr == "") _ _ _ w1 h) in
      subst (λ p'. SetUp s subscription_id p p' w w') same
        (record { cidr = refl; as_desired = inr refl; delegated = inr (w1, stored) })
  looked_up-SetUp p p' panics w w1 w' got h = cc

  -- When setting up the network succeeds, then either the subnet that Azure returned fits: its prefix is the
  -- CIDR that the provider now has, it has no route table, and it is delegated (by one of its links if it has any, by one of
  -- its delegations otherwise), and nothing else was done; or Azure has stored a delegated subnet with that CIDR.
  -- A CIDR that was asked for is kept, and nothing else of the provider changes.
  pub setup_network-SetUp :
      (p p' : AciProviderSettings) (w w' : W)
      → setup_network s subscription_id p w ≡ (ok p', w')
      → SetUp s subscription_id p p' w w'
  unfolding setup_network
  setup_network-SetUp p p' w w' h = looked_up-SetUp p p' _ w _ w' refl h
