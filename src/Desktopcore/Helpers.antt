-- ===== src/Desktopcore/Helpers.antt =====
-- internal/desktopcore/helpers.go: roles; `strings.ToLower` is a parameter.
use ben_desktop.Base.{Bool, ◌||◌, String, str_eq, trim_space, if◌then◌else◌}

unfoldable pub is_role : String → Bool
is_role role =
    str_eq role "owner" || (str_eq role "admin" || (str_eq role "member" || str_eq role "guest"))

-- `normalizeRole`
unfoldable pub normalize_role : (String → String) → String → String
unfolding is_role
normalize_role to_lower role =
    let name = to_lower (trim_space role) in if is_role name then name else "member"
