-- ===== src/Api/Format.antt =====
-- What `ParserErrorResponse` reads back from an error text, and which responses carry an error.
use arbokcore.Prelude.{
  ℕ, ◌<◌, ◌^◌, Text, split, Lacks, split-append, split-Lacks, [], ◌∷◌, ◌++◌, ◌≡◌, arith,
}
use arbokcore.Prelude.Int.{pos}
use arbokcore.Prelude.Decimal.{decimal, atoi-decimal, decimal-Digits, Digits-Lacks}
use arbokcore.Api.{parser_error_response}

-- The text of an error with a key, a code and a status.
abbrev pub error_text : Text → ℕ → ℕ → Text
error_text key code status = key ++ b':' ∷ (decimal code ++ b':' ∷ decimal status)

split-error_text :
    (key : Text) (code status : ℕ)
    → Lacks b':' key
    → split b':' (error_text key code status) ≡ key ∷ decimal code ∷ decimal status ∷ []
split-error_text key code status h = rw (
  split-append b':' key (decimal code ++ b':' ∷ decimal status) h,
  split-append b':' (decimal code) (decimal status)
      (Digits-Lacks b':' _ (omega arith) (decimal-Digits code)),
  split-Lacks b':' (decimal status) (Digits-Lacks b':' _ (omega arith) (decimal-Digits status)),
)

-- An error written as key, code and status, where the key has no colon and both numbers fit an
-- int64, is read back as exactly these three.
pub parser_error_response-error_text :
    (key : Text) (code status : ℕ)
    → Lacks b':' key
    → code < 2 ^ 63
    → status < 2 ^ 63
    → parser_error_response (error_text key code status)
      ≡ record { message = key; http_status = pos status; code = pos code }
unfolding parser_error_response
parser_error_response-error_text key code status h p q =
    rw (split-error_text key code status h, atoi-decimal code p, atoi-decimal status q)
