-- ===== src/Api.antt =====
-- core/api/response.go: the error format `err_key:err_code:status_code` and the response envelope.
-- A Go error is the text of its `Error()`; a nil error is `none`.
pub mod Format
use arbokcore.Prelude.{Text, text, split, List, [], ◌∷◌, Option, none, some, Bool, true, false}
use arbokcore.Prelude.Int.{ℤ, pos}
use arbokcore.Prelude.Decimal.{atoi}

pub record ErrorResponse : Type 0 where
  pub message : Text
  pub http_status : ℤ
  pub code : ℤ

pub record Response {ℓ} (A : Type ℓ) : Type ℓ where
  pub success : Bool
  pub payload : Option A
  pub error : Option ErrorResponse

parse_parts : List Text → ErrorResponse
parse_parts [] = record { message = text "terrible"; http_status = pos 501; code = pos 9 }
parse_parts (key ∷ []) = record { message = text "terrible"; http_status = pos 501; code = pos 9 }
parse_parts (key ∷ code ∷ []) = record {
  message = text "terrible";
  http_status = pos 501;
  code = pos 9;
}
parse_parts (key ∷ code ∷ status ∷ rest) = record {
  message = key;
  http_status = (atoi status).0;
  code = (atoi code).0;
}

unfoldable pub parser_error_response : Text → ErrorResponse
unfolding parse_parts
parser_error_response err = parse_parts (split b':' err)

unfoldable pub build_response {ℓ} : {A : Type ℓ} → Option Text → Option A → Response A
build_response (some err) payload = record {
  success = false;
  payload = none;
  error = some (parser_error_response err);
}
build_response none payload = record { success = true; payload = payload; error = none }
