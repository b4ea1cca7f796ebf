-- ===== src/Limiter/Users.antt =====
-- The keys "tag|email|uid" of the user tables, and lookupUserInfo, which scans them by prefix.
use mmw_agent.Base.{Text, text_eq, Option, none, some, [], ◌∷◌, ◌++◌, if◌then◌else◌}
use mmw_agent.Base.Dict.{Dict, lookup}
use mmw_agent.Base.Strings.{show_int, has_prefix}
use mmw_agent.Limiter.Types.{UserInfo, Limiter}

-- fmt.Sprintf("%s|%s|", tag, email)
unfoldable pub expected_prefix : Text → Text → Text
expected_prefix tag email = tag ++ (b'|' ∷ (email ++ (b'|' ∷ [])))

-- fmt.Sprintf("%s|%s|%d", tag, u.Email, u.UID)
unfoldable pub user_key : Text → UserInfo → Text
user_key tag u = tag ++ (b'|' ∷ (u.email ++ (b'|' ∷ show_int u.uid)))

-- The loop of `Range` with its early stop.
unfoldable pub scan_users : Text → Dict Text UserInfo → Option UserInfo
scan_users p [] = none
scan_users p ((key, u) ∷ users) = if has_prefix key p then some u else scan_users p users

unfoldable pub lookup_user_info : Limiter → Text → Text → Option UserInfo
unfolding expected_prefix scan_users
lookup_user_info l tag email = elim (lookup tag l.inbounds) [
  | none ↦ none
  | some info ↦ scan_users (expected_prefix tag email) info.user_info
]
