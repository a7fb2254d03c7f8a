-- ===== src/Rest/Containers.antt =====
-- The client of client/aci again: the logs and terminals of containers, the metrics of groups, and the
-- metadata of the resource provider.
use azure_aci.Prelude.{
  ℕ, String, ◌<>◌, ◌==◌, len, Bool, not, ◌&&◌, ◌||◌, eqb, ltb, if◌then◌else◌, Option, none, some,
  List, [], ◌∷◌, plain, fail_if, ◌++◌, Result, ok, err,
}
use azure_aci.Prelude.Io
use azure_aci.Prelude.Io.{Io, lift}
use azure_aci.K8s.{Time}
use azure_aci.Metrics.Insights.{MetricsRequest}
use azure_aci.Rest.{Header}
use azure_aci.Rest.Api.{prefixed, Call, fetch_answer}
use azure_aci.Rest.Groups.{
  GroupsClient, container_group_url_path, api_version, group_expansions, call_of, with_body,
}

abbrev pub container_logs_url_path : String
container_logs_url_path = container_group_url_path <> "/containers/{{.containerName}}/logs"

abbrev pub container_exec_url_path : String
container_exec_url_path = container_group_url_path <> "/containers/{{.containerName}}/exec"

abbrev pub container_group_metrics_url_path : String
container_group_metrics_url_path =
    container_group_url_path <> "/providers/microsoft.Insights/metrics"

-- The size of a terminal.
pub record TerminalSizeRequest : Type 0 where
  pub width : ℕ
  pub height : ℕ

pub record LaunchRequest : Type 0 where
  pub command : String
  pub rows : ℕ
  pub cols : ℕ

pub record Manifest (M : Type 0) : Type 0 where
  pub metadata : Option M

-- `options.Types` and `options.Aggregations` with commas between.
abbrev pub comma_joined : String → List String → String
comma_joined names [] = names
comma_joined names (t ∷ types) =
    comma_joined ((if ltb 0 (len names) then names <> "," else names) <> t) types

-- time.Time's String and Format(time.RFC3339), and path.Join.
pub record Times : Type 0 where
  pub show_time : Time → String
  pub format : Time → String
  pub join_path : String → String → String

module _ {W S T : Type 0} (c : GroupsClient W S T) where
  abbrev pub container_expansions : String → String → String → List (String × String)
  container_expansions resource_group container_group_name container_name =
      ("containerName", container_name) ∷ group_expansions c resource_group container_group_name

  -- A tail of 0 asks for the whole log.
  abbrev pub logs_call : String → String → String → ℕ → Call
  logs_call resource_group container_group_name container_name tail =
      call_of c "GET" container_logs_url_path
        (if eqb tail 0 then api_version else ("tail", c.net.show_code tail ∷ []) ∷ api_version)
        (container_expansions resource_group container_group_name container_name)
        "Creating get container logs uri request failed: "
        "Sending get container logs request failed: "

  unfoldable pub get_group_logs :
      {L : Type 0} → (S → Result L) → String → String → String → ℕ → Io W L
  get_group_logs decode resource_group container_group_name container_name tail =
      fetch_answer c.net (logs_call resource_group container_group_name container_name tail) decode
        "Create container logs returned an empty body in the response"
        "Decoding get container logs response body failed: "

  abbrev pub launch_call :
      (LaunchRequest → Result String)
      → String
      → String
      → String
      → String
      → TerminalSizeRequest
      → Call
  launch_call encode resource_group container_group_name container_name command terminal_size =
      with_body c "Encoding create launch exec body request failed: "
        (encode
          (record { command = command; rows = terminal_size.height; cols = terminal_size.width }))
        (call_of c "POST" container_exec_url_path api_version
          (container_expansions resource_group container_group_name container_name)
          "Creating launch exec uri request failed: " "Sending launch exec request failed: ")

  unfoldable pub launch_exec :
      {X : Type 0}
      → (LaunchRequest → Result String)
      → (S → Result X)
      → String
      → String
      → String
      → String
      → TerminalSizeRequest
      → Io W X
  launch_exec encode decode resource_group container_group_name container_name command size =
      fetch_answer c.net
        (launch_call encode resource_group container_group_name container_name command size) decode
        "Create launch exec returned an empty body in the response"
        "Decoding create launch exec response body failed: "

  -- getResourceProviderManifest
  abbrev pub manifest_call : Call
  manifest_call = record {
    verb = "GET";
    endpoint = c.resource_manager_endpoint;
    url_path = "providers/Microsoft.ContainerInstance";
    url_params = ("api-version", "2018-02-01" ∷ []) ∷ ("$expand", "metadata" ∷ []) ∷ [];
    expansions = ok none;
    encoded = ok none;
    creating = prefixed "Creating get resource provider manifest request failed: ";
    expanding = "";
    sending = "Sending get resource provider manifest request failed: ";
  }

  abbrev pub metadata_of : {M : Type 0} → Manifest M → Result M
  metadata_of manifest = elim manifest.metadata [
    | none ↦ err (plain "The resource provider metadata is empty")
    | some metadata ↦ ok metadata
  ]

  unfoldable pub get_resource_provider_metadata : {M : Type 0} → (S → Result (Manifest M)) → Io W M
  get_resource_provider_metadata decode =
      Io.◌>>=◌
        (fetch_answer c.net manifest_call decode
          "Get resource provider manifest returned an empty body in the response"
          "Decoding get resource provider manifest response body failed: ")
        λ manifest. lift (metadata_of manifest)

  -- `options.Start.After(options.End) || options.Start.Equal(options.End) && !options.Start.IsZero()`
  abbrev pub is_backwards : Time → Time → Bool
  is_backwards start end = ltb end start || (eqb start end && not (eqb start 0))

  abbrev pub filter_params : String → Header
  filter_params dimension = if dimension == "" then [] else ("$filter", dimension ∷ []) ∷ []

  abbrev pub timespan_params : Times → Time → Time → Header
  timespan_params times start end =
      if eqb start 0 && eqb end 0
      then []
      else ("timespan", times.join_path (times.format start) (times.format end) ∷ []) ∷ []

  abbrev pub metrics_call : Times → String → String → MetricsRequest → List String → Call
  metrics_call times resource_group container_group options aggregations =
      call_of c "GET" container_group_metrics_url_path
        (("api-version", "2018-01-01" ∷ [])
          ∷ ("aggregation", comma_joined "" aggregations ∷ [])
          ∷ ("metricnames", comma_joined "" options.types ∷ [])
          ∷ ("interval", "PT1M" ∷ [])
          ∷ (filter_params options.dimension ++ timespan_params times options.start options.until))
        (group_expansions c resource_group container_group)
        "creating get container group metrics uri request failed: "
        "sending get container group metrics request failed: "

  abbrev pub checked_request : Times → MetricsRequest → List String → Result (Unit {0})
  checked_request times options [] = err (plain "must provide metrics types to fetch_answer")
  checked_request times options (t ∷ types) = fail_if (is_backwards options.start options.until) (
      plain (
        "end parameter must be after start: start="
        <> times.show_time options.start
        <> ", end="
        <> times.show_time options.until))

  unfoldable pub get_container_group_metrics :
      {M : Type 0}
      → Times
      → (S → Result M)
      → String
      → String
      → MetricsRequest
      → List String
      → Io W M
  get_container_group_metrics times decode resource_group container_group options aggregations =
      Io.◌>>=◌ (lift (checked_request times options options.types)) λ checked.
        fetch_answer c.net (metrics_call times resource_group container_group options aggregations)
          decode "container group metrics returned an empty body in the response"
          "decoding get container group metrics response body failed: "
