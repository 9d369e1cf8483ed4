-- ===== src/Model/Errors.antt =====
-- Error values: those of the smeldr core, publishError and rateLimitError of mastodon.go, and
-- errors wrapped by `fmt.Errorf("…: %w", err)`.
use Prim.Native.String.{◌++◌}
use social.Prelude.{
  ℕ, zero, suc, ◌/◌, ◌%◌, String, Bool, Option, none, some, [], ◌∷◌, ltb, get_or, if◌then◌else◌,
}
use social.Prelude.Int.{ℤ}

pub data Error : Type 0 where
  not_found bad_request unauthorized : Error
  conflict : String → Error
  -- smeldr.Err(field, message)
  invalid_field : String → String → Error
  database : String → Error
  -- publishError
  publish_error : (status_code : ℕ) → (msg : String) → (terminal : Bool) → Error
  -- rateLimitError
  rate_limit_error : (retry_after : ℤ) → Error
  wrapped : String → Error → Error
  -- fmt.Errorf("%w: …", err)
  suffixed : Error → String → Error
  plain : String → Error

pub data Result (A : Type 0) : Type 0 where
  ok : A → Result A
  err : Error → Result A

digit : ℕ → String
digit n = get_or ("0" ∷ "1" ∷ "2" ∷ "3" ∷ "4" ∷ "5" ∷ "6" ∷ "7" ∷ "8" ∷ "9" ∷ []) n ""

digits : ℕ → ℕ → String
digits zero n = ""
digits (suc fuel) n =
    let rest = digits fuel (n / 10) in if ltb n 10 then digit n else rest ++ digit (n % 10)

-- `%d` of a number below 2^64, which has at most twenty digits.
unfoldable pub itoa : ℕ → String
unfolding digit digits
itoa n = digits 20 n

-- `errors.As(err, &pe)` for a *publishError: its status code and whether it is terminal.
unfoldable pub as_publish_error : Error → Option (ℕ × Bool)
as_publish_error (publish_error code msg terminal) = some (code, terminal)
as_publish_error (wrapped msg e) = as_publish_error e
as_publish_error (suffixed e msg) = as_publish_error e
as_publish_error _ = none

-- `errors.As(err, &rle)` for a *rateLimitError: its retryAfter.
unfoldable pub as_rate_limit_error : Error → Option ℤ
as_rate_limit_error (rate_limit_error d) = some d
as_rate_limit_error (wrapped msg e) = as_rate_limit_error e
as_rate_limit_error (suffixed e msg) = as_rate_limit_error e
as_rate_limit_error _ = none

-- `err.Error()`. The texts of the core's errors and Duration.String are arguments.
unfoldable pub error_text : (Error → String) → (ℤ → String) → Error → String
error_text core show (publish_error code msg terminal) = msg
error_text core show (rate_limit_error d) = "social: rate limited; retry after " ++ show d
error_text core show (wrapped msg e) = msg ++ ": " ++ error_text core show e
error_text core show (suffixed e msg) = error_text core show e ++ ": " ++ msg
error_text core show (plain msg) = msg
error_text core show (database msg) = msg
error_text core show e = core e
