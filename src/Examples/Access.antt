-- ===== src/Examples/Access.antt =====
-- The tokens, on the sample tables, and the error texts.
use arbokcore.Prelude.{Text, text, some, [], ◌∷◌, ◌++◌, ◌≡◌, ◌⊎◌, refl, arith}
use arbokcore.Prelude.Int.{pos}
use arbokcore.Api.{parser_error_response}
use arbokcore.Api.Format.{error_text, parser_error_response-error_text}
use arbokcore.Tokens.{Token}
use arbokcore.Tokens.Repository.{create_session}
use arbokcore.Tokens.Repository.Creation.{IsFresh, create_session-Created}
use arbokcore.World.{ok, err}
use arbokcore.Examples.Data.{querier, calm}

parser_error_response-error_text_example :
    parser_error_response (error_text (text "duplicate") 2014 422)
    ≡ record { message = text "duplicate"; http_status = pos 422; code = pos 2014 }
parser_error_response-error_text_example =
    parser_error_response-error_text (text "duplicate") 2014 422
      (refl, (refl, (refl, (refl, (refl, (refl, (refl, (refl, (refl, tt))))))))) (omega arith)
      (omega arith)

create_session-Created_example :
    ((t : Token) × ((create_session querier (text "ann") (text "user") (some (text "ann")) calm).0
        ≡ ok t)
      × IsFresh calm (text "ann") (text "user") (some (text "ann")) t
      × ((create_session querier (text "ann") (text "user") (some (text "ann")) calm).1.tables
          ≡ record (calm.tables) { tokens = calm.tables.tokens ++ t ∷ [] }))
    ⊎ ((e : Text) × ((create_session querier (text "ann") (text "user") (some (text "ann")) calm).0
          ≡ err e)
        × ((create_session querier (text "ann") (text "user") (some (text "ann")) calm).1.tables
            ≡ calm.tables))
create_session-Created_example =
    create_session-Created querier (text "ann") (text "user") (some (text "ann")) calm
