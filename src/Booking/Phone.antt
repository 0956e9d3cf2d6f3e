-- ===== src/Booking/Phone.antt =====
-- apps/mobile/lib/phone.ts: one shape for a phone number, India's unless another country is written.
use Prim.Native.Char.{Char, code}
use Prim.Native.String.{◌++◌ as join}
use text.Mathlib.Text.{starts_with}
use ironman.Prelude.{ℕ, String, Bool, true, false, ◌&&◌, nat_eq, if◌then◌else◌}
use ironman.Booking.{trim, trim_start, trim_end, between, text_length}

abbrev pub is_digit : Char → Bool
is_digit c = between 48 57 (code c)

-- `replace(/\D/g, "")`.
unfoldable pub digits_of : String → String
digits_of String.[] = ""
digits_of (String.◌∷◌ c s) =
    let rest = digits_of s in if is_digit c then String.◌∷◌ c rest else rest

-- `replace(/^0+/, "")`.
unfoldable pub without_zeros : String → String
without_zeros String.[] = ""
without_zeros (String.◌∷◌ c s) =
    let rest = without_zeros s in if nat_eq (code c) 48 then rest else String.◌∷◌ c s

unfoldable pub normalize_phone : String → String
unfolding digits_of without_zeros trim_start trim_end
normalize_phone raw =
    if starts_with (trim raw) "+"
    then join "+" (digits_of raw)
    else join "+91" (without_zeros (digits_of raw))

-- `\d*`, the whole of a text.
unfoldable pub all_digits : String → Bool
all_digits String.[] = true
all_digits (String.◌∷◌ c s) = is_digit c && all_digits s

abbrev pub first_between : ℕ → ℕ → String → Bool
first_between low high String.[] = false
first_between low high (String.◌∷◌ c s) = between low high (code c)

-- The number behind a prefix that `normalize_phone` wrote.
unfoldable pub after_code : String → String → String
after_code String.[] s = s
after_code (String.◌∷◌ c p) String.[] = ""
after_code (String.◌∷◌ c p) (String.◌∷◌ d s) = after_code p s

-- A first digit from `first` on, and `low` to `high` digits in all.
abbrev pub matches : ℕ → ℕ → ℕ → String → Bool
matches first low high number =
    first_between first 57 number && (all_digits number && between low high (text_length number))

-- `^\+91[6-9]\d{9}$` of a number that begins with +91, `^\+[1-9]\d{7,14}$` of any other.
unfoldable pub is_plausible_phone : String → Bool
unfolding normalize_phone all_digits after_code text_length
is_plausible_phone raw =
    let number = normalize_phone raw in
    if starts_with number "+91"
    then matches 54 10 10 (after_code "+91" number)
    else matches 49 8 15 (after_code "+" number)
