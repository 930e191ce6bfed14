-- ===== src/Hpd/Error/Messages.antt =====
-- Facts about the codes of the daemon and their messages.
use home_automation_bridge_z.Prelude.{
  ◌≡◌, ◌↔◌, refl, ap, sym, ◌∙◌, Bool, true, false, Option, none, some, List, [], ◌∷◌, ◌==◌, leb,
  if◌then◌else◌,
}
use Prim.Native.String.{String}
use home_automation_bridge_z.Hpd.Error
use home_automation_bridge_z.Hpd.Error.{
  Code, ℤ, pos, negsuc, value, int_eq, hpd_error_code_to_string,
}

abbrev all_codes : List Code
all_codes =
    Error.wait_for_timeout ∷ Error.hpd_no ∷ Error.hpd_yes ∷ Error.success ∷ Error.null_pointer
    ∷ Error.cfg_not_init ∷ Error.cfg_already_init ∷ Error.cfg_file_error ∷ Error.malloc_error
    ∷ Error.bad_parameter ∷ Error.mhd_error ∷ Error.server_null ∷ Error.no_http ∷ Error.no_https
    ∷ Error.service_already_register ∷ Error.service_not_register ∷ Error.service_in_use
    ∷ Error.service_already_in_list ∷ Error.service_not_in_list ∷ Error.parameter_already_in_list
    ∷ Error.parameter_not_in_list ∷ Error.xml_error ∷ Error.list_error ∷ Error.ssl_cert_error
    ∷ Error.avahi_client_error ∷ Error.avahi_core_error ∷ Error.avahi_service_not_found
    ∷ Error.client_cert_error ∷ Error.log_already_exist ∷ Error.log_failed_init ∷ Error.log_not_init
    ∷ Error.failed_to_open_file ∷ Error.log_failed ∷ Error.log_events_out_of_bounds
    ∷ Error.event_subscriber_doesnt_exist ∷ Error.failed_xml_subscription ∷ Error.missing_option
    ∷ Error.subscribers_head_empty ∷ Error.device_already_in_xml ∷ Error.service_already_in_xml
    ∷ Error.impossible_to_retrieve_device_xml_node ∷ Error.impossible_to_retrieve_service_xml_node
    ∷ Error.queue_is_empty ∷ Error.event_is_null ∷ Error.event_queue_is_null
    ∷ Error.service_id_is_null ∷ Error.event_queue_or_event_is_null
    ∷ Error.event_queue_or_url_is_null ∷ Error.event_queue_or_service_id_is_null
    ∷ Error.service_id_not_in_event_queue ∷ Error.not_hpd_boolean ∷ Error.service_is_null
    ∷ Error.error_queuing_event ∷ Error.log_data_is_null ∷ Error.connection_id_is_null ∷ []

find_code : ℤ → List Code → Option Code
find_code v [] = none
find_code v (c ∷ cs) = if int_eq v (value c) then some c else find_code v cs

find_code-value : (c : Code) → find_code (value c) all_codes ≡ some c
unfolding find_code value
find_code-value Error.wait_for_timeout = refl
find_code-value _ = refl

some_eq : {a b : Code} → ◌≡◌ {A = Option Code} (some a) (some b) → a ≡ b
some_eq e = cc

-- Two codes of the header with the same number are the same code.
pub value-injective : (c d : Code) → value c ≡ value d → c ≡ d
value-injective c d e =
    some_eq (sym (find_code-value c) ∙ ap (λ v. find_code v all_codes) e ∙ find_code-value d)

is_none : Option String → Bool
is_none none = true
is_none (some _) = false

-- The numbers that no case of the `switch` covers, among those of the header.
abbrev pub unnamed : ℤ → Bool
unnamed (pos n) = n == 3
unnamed (negsuc n) = leb 38 n

message_of : (c : Code) → is_none (hpd_error_code_to_string (value c)) ≡ unnamed (value c)
unfolding is_none hpd_error_code_to_string
message_of Error.wait_for_timeout = refl
message_of _ = refl

is_none_iff : (o : Option String) → (o ≡ none) ↔ (is_none o ≡ true)
unfolding is_none
is_none_iff none = (λ e. refl, λ e. refl)
is_none_iff (some t) = (λ e. cc, λ e. cc)

-- A code of the header has no message exactly if it is HPD_WAIT_FOR_TIMEOUT, 3, or one of those
-- from HPD_E_QUEUE_IS_EMPTY, -39, down.
pub hpd_error_code_to_string-none_iff :
    (c : Code) → (hpd_error_code_to_string (value c) ≡ none) ↔ (unnamed (value c) ≡ true)
hpd_error_code_to_string-none_iff c =
    let (there, back) = is_none_iff (hpd_error_code_to_string (value c)) in
    (λ e. sym (message_of c) ∙ there e, λ e. back (message_of c ∙ e))
