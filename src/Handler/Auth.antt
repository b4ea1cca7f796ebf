-- ===== src/Handler/Auth.antt =====
-- internal/handler/silent_auth.go: which requests are answered at all.
use mmw_agent.Base.{
  Bool, true, false, not, [], Text, text, text_eq, nat_eq, ◌==◌, if◌then◌else◌, drop,
}
use mmw_agent.Base.Strings.{has_prefix}

-- The headers of a request, empty where there is none.
pub record Headers : Type 0 where
  pub user_agent : Text
  pub authorization : Text
  pub remote_token : Text

-- strings.TrimPrefix(s, "Bearer "), for a text with that prefix.
unfoldable pub given_token : Text → Text
unfolding has_prefix
given_token auth = if has_prefix auth (text "Bearer ") then drop 7 auth else auth

unfoldable pub silent_authenticate : Headers → Text → Bool
unfolding text_eq given_token
silent_authenticate r token =
    let auth = if r.authorization == [] then r.remote_token else r.authorization in
    if not (r.user_agent == text "miaomiaowux/0.1")
    then false
    else (if token == [] then true else (if auth == [] then false else given_token auth == token))
