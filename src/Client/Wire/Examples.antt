-- ===== src/Client/Wire/Examples.antt =====
-- The properties of a Linux group with one container.
use azure_aci.Prelude.{none, some, ◌≡◌, ok, ◌>>=◌}
use azure_aci.Client.Wire.{
  ContainerGroupProperties, marshal_json, read_properties, read_properties-marshal_json,
}

abbrev linux_group : ContainerGroupProperties (Unit {0})
linux_group = record {
  provisioning_state = some "Succeeded";
  instance_view = some tt;
  containers = some tt;
  image_registry_credentials = none;
  restart_policy = "Always";
  ip_address = none;
  os_type = "Linux";
  volumes = none;
  diagnostics = none;
  subnet_ids = some tt;
  dns_config = none;
  sku = "";
  encryption_properties = none;
  init_containers = none;
}

read_properties-marshal_json_example :
    (marshal_json (record { container_group_properties = some linux_group; extensions = some tt })
      >>= λ m. ok (read_properties m))
    ≡ ok (record {
      container_group_properties =
          some (record linux_group { provisioning_state = none; instance_view = none });
      extensions = some tt;
    })
read_properties-marshal_json_example = read_properties-marshal_json linux_group (some tt)
