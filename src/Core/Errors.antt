-- ===== src/Core/Errors.antt =====
-- backend/internal/core/errors.go: the one error shape that crosses the wire.
use homesink.Base.{
  ℕ, Bool, true, false, List, [], ◌∷◌, ◌++◌, Str, codes, str_eq, ◌==◌, if◌then◌else◌,
}

-- A value of `Details`.
pub data Detail : Type 0 where
  number : ℕ → Detail
  text : Str → Detail

-- The field `code` holds one of the constants `Code...`, a text.
pub record Error : Type 0 where
  pub code : Str
  pub message : Str
  pub retryable : Bool
  pub http_status : ℕ
  pub details : List (Str × Detail)

-- (e *Error) Error().
pub show : Error → Str
show e = if str_eq e.message [] then e.code else e.code ++ (codes ": " ++ e.message)

-- (e *Error) Is(target), at a target that is an *Error.
unfoldable pub is : Error → Error → Bool
is e target = str_eq target.code e.code

abbrev pub unauthorized : Error
unauthorized = record {
  code = codes "UNAUTHORIZED";
  message = codes "Nicht autorisiert. Bitte das Gerät neu koppeln.";
  retryable = false;
  http_status = 401;
  details = [];
}

abbrev pub pairing_code_invalid : Error
pairing_code_invalid = record {
  code = codes "PAIRING_CODE_INVALID";
  message = codes "Der eingegebene Kopplungscode ist ungültig.";
  retryable = false;
  http_status = 400;
  details = [];
}

abbrev pub pairing_code_expired : Error
pairing_code_expired = record {
  code = codes "PAIRING_CODE_EXPIRED";
  message = codes "Der Kopplungscode ist abgelaufen. Bitte einen neuen Code anfordern.";
  retryable = false;
  http_status = 410;
  details = [];
}

abbrev pub pairing_rate_limited : ℕ → Error
pairing_rate_limited retry_after_ms = record {
  code = codes "PAIRING_RATE_LIMITED";
  message = codes "Zu viele Fehlversuche. Bitte 15 Minuten warten.";
  retryable = true;
  http_status = 429;
  details = (codes "retryAfterMs", Detail.number retry_after_ms) ∷ [];
}

abbrev pub range_mismatch : ℕ → ℕ → Error
range_mismatch expected_start received_start = record {
  code = codes "RANGE_MISMATCH";
  message = codes "Der Chunk beginnt nicht an der erwarteten Position.";
  retryable = true;
  http_status = 409;
  details =
      (codes "expectedStart", Detail.number expected_start)
      ∷ (codes "receivedStart", Detail.number received_start)
      ∷ [];
}

abbrev pub hash_mismatch : Str → Str → Error
hash_mismatch expected actual = record {
  code = codes "HASH_MISMATCH";
  message = codes "Die hochgeladene Datei stimmt nicht mit dem angegebenen Hash überein.";
  retryable = true;
  http_status = 409;
  details = (codes "expected", Detail.text expected) ∷ (codes "actual", Detail.text actual) ∷ [];
}

abbrev pub unsupported_media_type : Str → Error
unsupported_media_type mime_type = record {
  code = codes "UNSUPPORTED_MEDIA_TYPE";
  message = codes "Dieser Medientyp wird nicht unterstützt.";
  retryable = false;
  http_status = 415;
  details = (codes "mimeType", Detail.text mime_type) ∷ [];
}

abbrev pub file_too_large : ℕ → Error
file_too_large max_bytes = record {
  code = codes "FILE_TOO_LARGE";
  message = codes "Die Datei überschreitet die maximal zulässige Größe.";
  retryable = false;
  http_status = 413;
  details = (codes "maxBytes", Detail.number max_bytes) ∷ [];
}

abbrev pub insufficient_storage : ℕ → ℕ → Error
insufficient_storage free_bytes required_bytes = record {
  code = codes "INSUFFICIENT_STORAGE";
  message = codes "Auf dem Speicher ist nicht genügend Platz.";
  retryable = false;
  http_status = 507;
  details =
      if free_bytes == 0
      then if required_bytes == 0
        then []
        else (codes "freeBytes", Detail.number free_bytes)
          ∷ (codes "requiredBytes", Detail.number required_bytes)
          ∷ []
      else (codes "freeBytes", Detail.number free_bytes)
        ∷ (codes "requiredBytes", Detail.number required_bytes)
        ∷ [];
}

abbrev pub batch_too_large : ℕ → ℕ → Error
batch_too_large limit received = record {
  code = codes "BATCH_TOO_LARGE";
  message = codes "Höchstens 500 Einträge pro Anfrage.";
  retryable = false;
  http_status = 400;
  details = (codes "limit", Detail.number limit) ∷ (codes "received", Detail.number received) ∷ [];
}

abbrev pub not_found : Error
not_found = record {
  code = codes "NOT_FOUND";
  message = codes "Die angeforderte Ressource wurde nicht gefunden.";
  retryable = false;
  http_status = 404;
  details = [];
}

abbrev pub internal : Error
internal = record {
  code = codes "INTERNAL";
  message = codes "Interner Serverfehler.";
  retryable = true;
  http_status = 500;
  details = [];
}
