-- ===== src/Client/Accepted.antt =====
-- What a group that is created has gone through.
use azure_aci.Prelude.{ℕ, String, Option, none, some, ◌≡◌, refl, ap, ◌⊎◌, ok, Error, arith}
use azure_aci.Prelude.Io
use azure_aci.Prelude.Io.{Io, lift}
use azure_aci.Client.{
  Sdk, answer_sent, answer_status, create_cg, create_container_group, container_group_name,
}

-- The status code of the response, if there is one, is that of a success.
abbrev pub IsSuccess : Option ℕ → Type 0
IsSuccess none = Unit {0}
IsSuccess (some code) = (code ≡ 200) ⊎ (code ≡ 201)

module _ {W G : Type 0} (sdk : Sdk W G) where
  -- The request for the group is prepared and sent, and answered without an error.
  pub record Accepted (resource_group cg_name : String) (g : G) (w w' : W) : Type 0 where
    pub prepared : sdk.prepare resource_group cg_name g ≡ ok tt
    pub no_error : (sdk.send resource_group cg_name g w).0.error ≡ none
    pub success : IsSuccess (sdk.send resource_group cg_name g w).0.status_code
    pub after : (sdk.send resource_group cg_name g w).1 ≡ w'

  answer_status-IsSuccess :
      (cg_name : String) (code : Option ℕ)
      → answer_status sdk.show_code cg_name code ≡ ok tt
      → IsSuccess code
  unfolding answer_status
  answer_status-IsSuccess cg_name none h = tt
  answer_status-IsSuccess cg_name (some code) h = ground (arith, h)

  answer_sent-IsSuccess :
      (cg_name : String) (error : Option Error) (code : Option ℕ)
      → answer_sent sdk.show_code cg_name (record { error = error; status_code = code }) ≡ ok tt
      → (error ≡ none) × IsSuccess code
  unfolding answer_sent
  answer_sent-IsSuccess cg_name none code h = (refl, answer_status-IsSuccess cg_name code h)
  answer_sent-IsSuccess cg_name (some e) code h = cc

  pub create_container_group-Accepted :
      (resource_group pod_ns pod_name : String) (g : G) (w w' : W)
      → create_container_group sdk resource_group pod_ns pod_name g w ≡ (ok tt, w')
      → Accepted resource_group (container_group_name pod_ns pod_name) g w w'
  unfolding create_container_group create_cg
  create_container_group-Accepted resource_group pod_ns pod_name g w w' h =
      let cg_name = container_group_name pod_ns pod_name in
      let (u, prepared, h1) = Io.lift->>=-eq-ok (sdk.prepare resource_group cg_name g) _ w h in
      let sent = sdk.send resource_group cg_name g w in
      let (no_error, success) =
        answer_sent-IsSuccess cg_name sent.0.error sent.0.status_code (ap (λ x. x.0) h1) in
      record {
        prepared = prepared;
        no_error = no_error;
        success = success;
        after = ap (λ x. x.1) h1;
      }
