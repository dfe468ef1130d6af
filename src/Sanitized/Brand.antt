-- ===== src/Sanitized/Brand.antt =====
-- The branded types as one enumeration, with `.of()` and `.trusted()` and what they record.
use quadletman.Prelude.{Text}
use quadletman.Sanitized.Check.{Checked}
use quadletman.Sanitized.Names.{
  safe_str, safe_slug, safe_username, safe_image_ref, safe_image_ref_or_empty, safe_unit_name,
  safe_secret_name, safe_resource_name, safe_resource_name_or_empty, safe_uuid, safe_uuid_or_empty,
  safe_selinux_context, safe_multiline_str, safe_abs_path, safe_abs_path_or_empty,
  safe_user_group_ref, safe_timezone, safe_host_ip_mapping, safe_env_var_name, safe_hostname,
  safe_identifier, safe_digest,
}
use quadletman.Sanitized.Values.{
  safe_port_mapping, safe_form_bool, safe_octal_mode, safe_time_duration, safe_calendar_spec,
  safe_port_str, safe_int_or_empty, safe_byte_size, safe_linux_capability, safe_signal_name,
  safe_restart_policy, safe_pull_policy, safe_auto_update_policy, safe_health_on_failure,
  safe_net_driver, safe_expose_port,
}

-- The classes whose `.of()` needs nothing but the text.
pub data Brand : Type 0 where
  plain slug username image_ref image_ref_or_empty : Brand
  unit_name secret_name resource_name resource_name_or_empty port_mapping : Brand
  uuid uuid_or_empty selinux_context multiline_str abs_path : Brand
  abs_path_or_empty form_bool octal_mode time_duration calendar_spec : Brand
  port_str int_or_empty byte_size linux_capability signal_name : Brand
  restart_policy pull_policy auto_update_policy health_on_failure net_driver : Brand
  expose_port user_group_ref timezone host_ip_mapping env_var_name : Brand
  hostname identifier digest : Brand

-- `Class.of(value)`, as far as the text of the value goes
unfoldable pub of : Brand → Text → Checked Text
of plain v = safe_str v
of slug v = safe_slug v
of username v = safe_username v
of image_ref v = safe_image_ref v
of image_ref_or_empty v = safe_image_ref_or_empty v
of unit_name v = safe_unit_name v
of secret_name v = safe_secret_name v
of resource_name v = safe_resource_name v
of resource_name_or_empty v = safe_resource_name_or_empty v
of port_mapping v = safe_port_mapping v
of uuid v = safe_uuid v
of uuid_or_empty v = safe_uuid_or_empty v
of selinux_context v = safe_selinux_context v
of multiline_str v = safe_multiline_str v
of abs_path v = safe_abs_path v
of abs_path_or_empty v = safe_abs_path_or_empty v
of form_bool v = safe_form_bool v
of octal_mode v = safe_octal_mode v
of time_duration v = safe_time_duration v
of calendar_spec v = safe_calendar_spec v
of port_str v = safe_port_str v
of int_or_empty v = safe_int_or_empty v
of byte_size v = safe_byte_size v
of linux_capability v = safe_linux_capability v
of signal_name v = safe_signal_name v
of restart_policy v = safe_restart_policy v
of pull_policy v = safe_pull_policy v
of auto_update_policy v = safe_auto_update_policy v
of health_on_failure v = safe_health_on_failure v
of net_driver v = safe_net_driver v
of expose_port v = safe_expose_port v
of user_group_ref v = safe_user_group_ref v
of timezone v = safe_timezone v
of host_ip_mapping v = safe_host_ip_mapping v
of env_var_name v = safe_env_var_name v
of hostname v = safe_hostname v
of identifier v = safe_identifier v
of digest v = safe_digest v
