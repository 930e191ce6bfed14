-- ===== src/Hpd/Error.antt =====
-- hpbridge/hpdaemon/hpd_error.h, the result codes of the daemon, and the function of hpd_log.c that
-- names them.
pub mod Messages
mod Tests
use home_automation_bridge_z.Prelude.{
  ℕ, Bool, true, false, Option, none, some, List, [], ◌∷◌, ◌==◌, if◌then◌else◌,
}
use Prim.Native.String.{String}

-- A code less its prefix `HPD_` or `HPD_E_`; `no` is a name of the prelude.
pub data Code : Type 0 where
  wait_for_timeout hpd_no hpd_yes success null_pointer cfg_not_init cfg_already_init : Code
  cfg_file_error malloc_error bad_parameter mhd_error server_null no_http no_https : Code
  service_already_register service_not_register service_in_use service_already_in_list : Code
  service_not_in_list parameter_already_in_list parameter_not_in_list xml_error list_error : Code
  ssl_cert_error avahi_client_error avahi_core_error avahi_service_not_found client_cert_error :
      Code
  log_already_exist log_failed_init log_not_init failed_to_open_file log_failed : Code
  log_events_out_of_bounds event_subscriber_doesnt_exist failed_xml_subscription missing_option :
      Code
  subscribers_head_empty device_already_in_xml service_already_in_xml : Code
  impossible_to_retrieve_device_xml_node impossible_to_retrieve_service_xml_node queue_is_empty :
      Code
  event_is_null event_queue_is_null service_id_is_null event_queue_or_event_is_null : Code
  event_queue_or_url_is_null event_queue_or_service_id_is_null service_id_not_in_event_queue : Code
  not_hpd_boolean service_is_null error_queuing_event log_data_is_null connection_id_is_null : Code

-- A C `int`: `negsuc n` is -(n + 1).
pub data ℤ : Type 0 where
  pos : ℕ → ℤ
  negsuc : ℕ → ℤ

unfoldable pub value : Code → ℤ
value wait_for_timeout = pos 3
value hpd_no = pos 2
value hpd_yes = pos 1
value success = pos 0
value null_pointer = negsuc 0
value cfg_not_init = negsuc 1
value cfg_already_init = negsuc 2
value cfg_file_error = negsuc 3
value malloc_error = negsuc 4
value bad_parameter = negsuc 5
value mhd_error = negsuc 6
value server_null = negsuc 7
value no_http = negsuc 8
value no_https = negsuc 9
value service_already_register = negsuc 10
value service_not_register = negsuc 11
value service_in_use = negsuc 12
value service_already_in_list = negsuc 13
value service_not_in_list = negsuc 14
value parameter_already_in_list = negsuc 15
value parameter_not_in_list = negsuc 16
value xml_error = negsuc 17
value list_error = negsuc 18
value ssl_cert_error = negsuc 19
value avahi_client_error = negsuc 20
value avahi_core_error = negsuc 21
value avahi_service_not_found = negsuc 22
value client_cert_error = negsuc 23
value log_already_exist = negsuc 24
value log_failed_init = negsuc 25
value log_not_init = negsuc 26
value failed_to_open_file = negsuc 27
value log_failed = negsuc 28
value log_events_out_of_bounds = negsuc 29
value event_subscriber_doesnt_exist = negsuc 30
value failed_xml_subscription = negsuc 31
value missing_option = negsuc 32
value subscribers_head_empty = negsuc 33
value device_already_in_xml = negsuc 34
value service_already_in_xml = negsuc 35
value impossible_to_retrieve_device_xml_node = negsuc 36
value impossible_to_retrieve_service_xml_node = negsuc 37
value queue_is_empty = negsuc 38
value event_is_null = negsuc 39
value event_queue_is_null = negsuc 40
value service_id_is_null = negsuc 41
value event_queue_or_event_is_null = negsuc 42
value event_queue_or_url_is_null = negsuc 43
value event_queue_or_service_id_is_null = negsuc 44
value service_id_not_in_event_queue = negsuc 45
value not_hpd_boolean = negsuc 46
value service_is_null = negsuc 47
value error_queuing_event = negsuc 48
value log_data_is_null = negsuc 49
value connection_id_is_null = negsuc 50

abbrev pub int_eq : ℤ → ℤ → Bool
int_eq (pos a) (pos b) = a == b
int_eq (negsuc a) (negsuc b) = a == b
int_eq (pos a) (negsuc b) = false
int_eq (negsuc a) (pos b) = false

-- The cases of the `switch`, in order.
abbrev messages : List (Code × String)
messages =
    (hpd_no, "No")
    ∷ (hpd_yes, "Yes")
    ∷ (success, "Success")
    ∷ (null_pointer, "A NULL pointer have been given to HPD")
    ∷ (cfg_not_init, "The configuration has not been initialized")
    ∷ (cfg_already_init, "Attempt to initialize the configuration that is already initialized")
    ∷ (cfg_file_error, "Error when trying to load the configuration from file")
    ∷ (malloc_error, "A malloc failed")
    ∷ (bad_parameter, "A bad paramter has been given to HPD")
    ∷ (mhd_error, "Error happened in the MHD library")
    ∷ (server_null, "Trying to access a server that has not been launched")
    ∷ (no_http, "Trying to use HTTP without the HTTP feature enabled")
    ∷ (no_https, "Trying to use HTTPS without the HTTPS feature enabled")
    ∷ (service_already_register, "Trying to register a service that is already registered")
    ∷ (service_not_register, "Trying to unregister a service that is not registered")
    ∷ (service_in_use, "Trying to delete a service that is still in use")
    ∷ (service_already_in_list, "Trying to add a service to a device's list that is already in it")
    ∷ (service_not_in_list, "Trying to remove a service form a device's list that is not in it")
    ∷ (parameter_already_in_list, "Trying to add a parameter to a Service that already has it")
    ∷ (parameter_not_in_list, "Trying to remove a parameter from a Service that does not have it")
    ∷ (xml_error, "XML error happened")
    ∷ (list_error, "Linked list error")
    ∷ (ssl_cert_error, "Error when loading the certificates")
    ∷ (avahi_client_error, "Error with Avahi client")
    ∷ (avahi_core_error, "Error with Avahi core")
    ∷ (avahi_service_not_found, "A service was not found in the Avahi client or server")
    ∷ (client_cert_error, "Error when trying to verify a client certificate")
    ∷ (log_already_exist, "Error when trying to initialize the log it already exists")
    ∷ (log_failed_init, "Error when trying to initialize the log")
    ∷ (log_not_init, "Error when trying to use the log it is not initialized")
    ∷ (failed_to_open_file, "Error while loading a file")
    ∷ (log_failed, "Logging failed")
    ∷ (log_events_out_of_bounds, "")
    ∷ (event_subscriber_doesnt_exist, "")
    ∷ (failed_xml_subscription, "")
    ∷ (missing_option, "")
    ∷ (subscribers_head_empty, "")
    ∷ (device_already_in_xml, "")
    ∷ (service_already_in_xml, "")
    ∷ (impossible_to_retrieve_device_xml_node, "")
    ∷ (impossible_to_retrieve_service_xml_node, "")
    ∷ []

switch : ℤ → List (Code × String) → Option String
switch v [] = none
switch v ((c, text) ∷ rest) = if int_eq v (value c) then some text else switch v rest

-- There is no `default`: on a number without a case the function returns no value, here `none`.
pub hpd_error_code_to_string : ℤ → Option String
unfolding switch value
hpd_error_code_to_string v = switch v messages
