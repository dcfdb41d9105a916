-- ===== src/Config/Redact.antt =====
-- The redaction of src/config/effective.rs. `lower` is `str::to_lowercase`, whose tables are those
-- of the standard library.
use rch_mac.Base.{
  ℕ, suc, Bool, ◌&&◌, not, if◌then◌else◌, Text, text, contains_text, List, [], ◌∷◌, ◌++◌, any,
  is_empty, decimal, Value, null, bool, unsigned, other_number, string, array, object, Values, nil,
  cons, Members, end, member, is_object, is_array,
}

abbrev pub secret_keys : List Text
secret_keys =
    text "password"
    ∷ text "token"
    ∷ text "secret"
    ∷ text "private_key"
    ∷ text "api_key"
    ∷ text "credential"
    ∷ []

abbrev pub redacted : Value
redacted = string (text "[REDACTED]")

module _ (lower : Text → Text) where
  unfoldable pub is_secret : Text → Bool
  is_secret k = any (λ s. contains_text (lower k) s) secret_keys

  abbrev current_path : Text → Text → Text
  current_path path k = if is_empty path then k else path ++ text "." ++ k

  abbrev pub is_scalar : Value → Bool
  is_scalar v = not (is_object v) && not (is_array v)

  -- The value that is left, and the paths that are pushed, in order.
  unfoldable mutual
    pub redact_recursive : Text → Value → Value × List Text
    redact_recursive path (object m) = let r = redact_members path m in (object r.0, r.1)
    redact_recursive path (array l) = let r = redact_values path 0 l in (array r.0, r.1)
    redact_recursive path null = (null, [])
    redact_recursive path (bool b) = (bool b, [])
    redact_recursive path (unsigned n) = (unsigned n, [])
    redact_recursive path (other_number t) = (other_number t, [])
    redact_recursive path (string s) = (string s, [])

    pub redact_members : Text → Members → Members × List Text
    redact_members path end = (end, [])
    redact_members path (member k v m) =
        let here = redact_recursive (current_path path k) v in
        let rest = redact_members path m in
        if is_secret k && is_scalar v
        then (member k redacted rest.0, current_path path k ∷ rest.1)
        else (member k here.0 rest.0, here.1 ++ rest.1)

    pub redact_values : Text → ℕ → Values → Values × List Text
    redact_values path i nil = (nil, [])
    redact_values path i (cons v l) =
        let here = redact_recursive (path ++ text "[" ++ decimal i ++ text "]") v in
        let rest = redact_values path (suc i) l in (cons here.0 rest.0, here.1 ++ rest.1)

  unfoldable pub redact_secrets : Value → Value × List Text
  unfolding redact_recursive
  redact_secrets v = redact_recursive [] v
