-- ===== src/Tokens.antt =====
-- core/tokens/token.go and core/tokens/stubs.go: tokens, their expiry, and how a new one is built.
-- Times and durations are in nanoseconds, times from Go's zero time on.
pub mod Repository
use arbokcore.Prelude.{
  ℕ, ◌+◌, ◌*◌, ◌-◌, Text, text, ◌==◌, Option, none, some, List, [], ◌∷◌, map, Bool, ◌&&◌, ◌||◌, ltb,
  leb, if◌then◌else◌,
}

pub record Token : Type 0 where
  pub resource_id : Text
  pub resource_type : Text
  pub access_token : Text
  pub refresh_token : Text
  pub token_type : Text
  pub user_id : Option Text
  pub device_id : Text
  pub access_expires_at : ℕ
  pub refresh_expires_at : ℕ
  pub created_at : ℕ
  pub updated_at : ℕ

-- `&Token{}`
abbrev pub zero_token : Token
zero_token = record {
  resource_id = [];
  resource_type = [];
  access_token = [];
  refresh_token = [];
  token_type = [];
  user_id = none;
  device_id = [];
  access_expires_at = 0;
  refresh_expires_at = 0;
  created_at = 0;
  updated_at = 0;
}

unfoldable pub has_access_expired : ℕ → Token → Bool
has_access_expired now token = ltb token.access_expires_at now

unfoldable pub is_expired : ℕ → Token → Bool
is_expired now token = ltb token.access_expires_at now || ltb token.refresh_expires_at now

abbrev pub resource_type_user : Text
resource_type_user = text "user"

abbrev pub resource_type_stream : Text
resource_type_stream = text "stream"

unfoldable pub validate_resource_type : Text → Bool
validate_resource_type resource_type =
    resource_type == resource_type_user || resource_type == resource_type_stream

abbrev pub hour : ℕ
hour = 3600 * 1000000000

abbrev pub access_expiry_duration : ℕ
access_expiry_duration = 24 * hour

abbrev pub short_expiry_duration : ℕ
short_expiry_duration = 20 * 60 * 1000000000

abbrev pub long_expiry_duration : ℕ
long_expiry_duration = 30 * 24 * hour

-- `TokenOpts`
abbrev pub TokenOpts : Type 0
TokenOpts = Token → Token

unfoldable pub with_resource : Text → Text → TokenOpts
with_resource resource_id resource_type t = record t {
  resource_id = resource_id;
  resource_type = resource_type;
}

unfoldable pub with_short_expiry : ℕ → TokenOpts
with_short_expiry now token = record token { access_expires_at = now + short_expiry_duration }

unfoldable pub with_default_expiry : ℕ → TokenOpts
with_default_expiry now token = record token { access_expires_at = now + access_expiry_duration }

unfoldable pub with_user_id : Option Text → TokenOpts
with_user_id user_id t = record t { user_id = user_id }

unfoldable pub apply_opts : List TokenOpts → Token → Token
apply_opts [] token = token
apply_opts (opt ∷ opts) token = apply_opts opts (opt token)

-- `strings.ToLower`, on ASCII letters.
lower : ℕ → ℕ
lower c = if leb b'A' c && leb c b'Z' then c + 32 else c

unfoldable pub to_lower : Text → Text
unfolding lower
to_lower = map lower

-- The tokens of the test mode, made when the process starts at `started`.
unfoldable pub admin_token : ℕ → Token
admin_token started = record {
  resource_id = text "U11223455";
  resource_type = text "user";
  access_token = text "trial_access_token";
  refresh_token = text "trial_refresh_token";
  token_type = text "user";
  user_id = none;
  device_id = text "1";
  access_expires_at = started + hour;
  refresh_expires_at = started + 5 * hour;
  created_at = started;
  updated_at = started;
}

unfoldable pub another_token : ℕ → Token
another_token started = record {
  resource_id = text "U11223456";
  resource_type = text "user";
  access_token = text "trial_access_token_1";
  refresh_token = text "trial_refresh_token_1";
  token_type = text "user";
  user_id = none;
  device_id = text "2";
  access_expires_at = started + hour;
  refresh_expires_at = started + 5 * hour;
  created_at = started;
  updated_at = started;
}

abbrev pub err_token_validation_failed : Text
err_token_validation_failed = text "validation_failed"

abbrev pub err_token_not_found : Text
err_token_not_found = text "token_not_found"

abbrev pub err_token_expired : Text
err_token_expired = text "token_expired:2007:410"

abbrev pub err_statement_not_found : Text
err_statement_not_found = text "stmt_not_found:2008:500"
