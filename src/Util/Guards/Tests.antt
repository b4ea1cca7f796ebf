-- ===== src/Util/Guards/Tests.antt =====
-- Some names and addresses.
use mmw_agent.Base.{◌≤◌, ◌≡◌, refl, ◌≢◌, true, false, [], text, text_eq, nat_eq, length}
use mmw_agent.Util.Guards.{
  no_control_chars, is_http_url, has_dot_dot, valid_hostname, lacks, valid_hostname-safe,
}

guard_runs :
    (valid_hostname (text "a.b") ≡ true)
    × (valid_hostname (text "a..b") ≡ false)
    × (valid_hostname (text "a/b") ≡ false)
unfolding valid_hostname
guard_runs = (refl, refl, refl)

url_runs : (is_http_url (text "https://x") ≡ true) × (is_http_url (text "file://x") ≡ false)
unfolding is_http_url text_eq
url_runs = (refl, refl)

valid_hostname-safe_example :
    (text "a.b" ≢ [])
    × (lacks 47 (text "a.b") ≡ true)
    × (has_dot_dot (text "a.b") ≡ false)
    × (no_control_chars (text "a.b") ≡ true)
    × (length (text "a.b") ≤ 253)
unfolding valid_hostname
valid_hostname-safe_example = valid_hostname-safe (text "a.b") refl
