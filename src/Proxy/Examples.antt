-- ===== src/Proxy/Examples.antt =====
-- The theorems on the proxy at concrete inputs.
use shimpz_drivers.Prelude.{
  ℕ, ◌≤◌, ◌≡◌, refl, true, false, some, [], ◌∷◌, ◌++◌, String, ok, length, contains, eq_string,
}
use shimpz_drivers.Prelude.Dict
use shimpz_drivers.Prelude.Int.{pos}
use shimpz_drivers.Prelude.Text.{codes}
use shimpz_drivers.Proxy.Slots.{
  Slots, new_slots, acquire_request_slot, release_request_slot, count_of,
}
use shimpz_drivers.Proxy.Counts.{occurrences}
use shimpz_drivers.Proxy.Admission.{Service, here, later, admits, served-le-max_concurrency}
use shimpz_drivers.Proxy.Decide.{
  Text, Outside, Policy, connect, handle, authorize, route, permitted, resolve_public,
  extract_token, split_target, token_of, lines, split_on, partition, rpartition, same_text,
  has_text, allowed, strip_dots,
}
use shimpz_drivers.Proxy.Permission.{Connects, handle-Connects}

abbrev fresh_slots : Slots
fresh_slots = record { free = 2; max_source_concurrency = 1; source_counts = [] }

started : new_slots 64 2 1 ≡ ok fresh_slots
unfolding new_slots
started = refl

abbrev one_slot : Slots
one_slot = record { free = 1; max_source_concurrency = 1; source_counts = ("10.0.0.2", 1) ∷ [] }

admitted : acquire_request_slot "10.0.0.2" fresh_slots ≡ (true, one_slot)
unfolding acquire_request_slot count_of Dict.get Dict.put
admitted = refl

refused_again : acquire_request_slot "10.0.0.2" one_slot ≡ (false, one_slot)
unfolding acquire_request_slot count_of Dict.get Dict.put
refused_again = refl

abbrev one_served : Service
one_served = record { slots = one_slot; served = "10.0.0.2" ∷ [] }

served-le-max_concurrency_example :
    (length one_served.served ≤ 2)
    × ((source : String) → occurrences source one_served.served ≤ 1)
    × ((source : String)
        → contains source one_served.served ≡ true
        → (t : Slots) × (release_request_slot source one_served.slots ≡ ok t))
    × (one_served.served ≡ [] → one_served.slots.free ≡ 2)
served-le-max_concurrency_example =
    served-le-max_concurrency 64 2 1 fresh_slots one_served started (
      later (record { slots = fresh_slots; served = [] }) one_served here
        (admits "10.0.0.2" one_slot admitted))

abbrev outside : Outside ℕ
outside = record {
  lower = λ t. t;
  strip = λ t. t;
  int_of = λ t. some (pos 443);
  b64decode = λ t. some t;
  resolve = λ host port. some (8 ∷ []);
  is_global = λ a. true;
}

abbrev headers : Text
headers = codes "CONNECT api.io:443 HTTP/1.1" ++ (13 ∷ 10 ∷ codes "proxy-authorization:basic tok:")

abbrev policy : Policy
policy = (codes "tok", codes "api.io" ∷ []) ∷ []

connected : handle outside headers policy ≡ connect 8
unfolding handle authorize route permitted resolve_public extract_token split_target token_of lines
    split_on partition rpartition same_text has_text allowed strip_dots
connected = refl

handle-Connects_example : Connects outside headers policy 8
handle-Connects_example = handle-Connects outside headers policy 8 connected
