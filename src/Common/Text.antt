-- ===== src/Common/Text.antt =====
-- Python's `str` as the native text: truth value, membership in a set of texts, and case
-- conversion. `upper` and `lower` convert the letters of ASCII, the only ones in the symbols,
-- strategy names and sides of the program, and leave any other character as it is.
use Prim.Native.Char.{Char, code}
use Prim.Native.Nat.{ℕ, zero, suc, ◌+◌, ◌≤◌, ◌/◌, ◌%◌}
use Prim.Native.String.{String, ◌++◌, slice, compare}
use Prim.Native.Nat.{Ordering}
use native.Mathlib.Omega.{arith}
use text.Mathlib.TextLemmas.{nil-append, cons-append}
use text.Mathlib.Text.{◌==◌ as str_eq, starts_with as begins}
use text.Mathlib.TextEquality.{eq_iff}
use text.Mathlib.TextPositions.{eq_refl}
use mathlib.Core.Path.{◌≡◌, refl, ap}
use mathlib.Core.Bool.{Bool, true, false, not, ◌||◌}
use mathlib.Core.Option.{Option, none, some}
use mathlib.Core.List.{List, [], ◌∷◌}
use one_year_billion.Common.Base.{ltb, ◌==◌, if◌then◌else◌}

infix 50 ◌≟◌
abbrev pub ◌≟◌ : String → String → Bool
s ≟ t = str_eq s t

-- `bool(s)`
abbrev pub truthy : String → Bool
truthy s = not (s ≟ "")

-- `bool(s)` of a text or `None`
abbrev pub truthy? : Option String → Bool
truthy? none = false
truthy? (some s) = truthy s

-- `s in {...}`
abbrev pub is_in : String → List String → Bool
is_in s [] = false
is_in s (t ∷ ts) = s ≟ t || is_in s ts

-- the character of the second text at the place where `c` stands in the first, or `c`
translate : String → String → Char → Char
translate (String.◌∷◌ x xs) (String.◌∷◌ y ys) c =
    let rest = translate xs ys c in if code x == code c then y else rest
translate _ _ c = c

abbrev capitals : String
capitals = "ABCDEFGHIJKLMNOPQRSTUVWXYZ"

abbrev small_letters : String
small_letters = "abcdefghijklmnopqrstuvwxyz"

-- `s.lower()`
unfoldable pub lower : String → String
unfolding translate
lower String.[] = String.[]
lower (String.◌∷◌ c s) = String.◌∷◌ (translate capitals small_letters c) (lower s)

-- `s.replace(' ', '_')`
unfoldable pub underscore : String → String
unfolding translate
underscore String.[] = String.[]
underscore (String.◌∷◌ c s) = String.◌∷◌ (translate " " "_" c) (underscore s)

-- `s.split('.')[0]`
unfoldable pub before_point : String → String
before_point String.[] = String.[]
before_point (String.◌∷◌ c s) =
    let rest = before_point s in if code c == 46 then String.[] else String.◌∷◌ c rest

-- `s.upper()`
unfoldable pub upper : String → String
unfolding translate
upper String.[] = String.[]
upper (String.◌∷◌ c s) = String.◌∷◌ (translate small_letters capitals c) (upper s)

lower_sample : lower "Micro_GRID2" ≡ "micro_grid2"
unfolding lower
lower_sample = refl

pub ≟_refl : (s : String) → (s ≟ s) ≡ true
≟_refl s = eq_refl s

pub ≟→≡ : (s t : String) → (s ≟ t) ≡ true → s ≡ t
≟→≡ s t = (eq_iff s t).0

-- `s[:n]`
unfoldable pub take : ℕ → String → String
take zero s = String.[]
take (suc n) String.[] = String.[]
take (suc n) (String.◌∷◌ c s) = String.◌∷◌ c (take n s)

-- the number of characters
unfoldable pub size : String → ℕ
size String.[] = 0
size (String.◌∷◌ c s) = suc (size s)

pub size-take : (n : ℕ) (s : String) → size (take n s) ≤ n
unfolding size take
size-take zero s = omega arith
size-take (suc n) String.[] = omega arith
size-take (suc n) (String.◌∷◌ c s) = omega (arith, size-take n s)

pub take_all : (n : ℕ) (s : String) → size s ≤ n → take n s ≡ s
unfolding size take
take_all zero String.[] h = refl
take_all zero (String.◌∷◌ c s) h = absurd (omega arith)
take_all (suc n) String.[] h = refl
take_all (suc n) (String.◌∷◌ c s) h = ap (String.◌∷◌ c) (take_all n s (omega arith))

pub size-append : (s t : String) → size (s ++ t) ≡ size s + size t
unfolding size
size-append String.[] t = rw nil-append (omega arith)
size-append (String.◌∷◌ c s) t = rw cons-append (omega (arith, size-append s t))

-- `str(n)` of a number that is not negative, on fuel for its digits
decimal_digits : ℕ → ℕ → String
decimal_digits zero n = String.[]
decimal_digits (suc fuel) n =
    let high = decimal_digits fuel (n / 10) in
    (if ltb n 10 then String.[] else high) ++ slice "0123456789" (n % 10) (n % 10 + 1)

-- A number has no more digits than its value plus one.
unfoldable pub decimal : ℕ → String
unfolding decimal_digits
decimal n = decimal_digits (suc n) n

decimal_sample : decimal 4075 ≡ "4075"
unfolding decimal
decimal_sample = refl

-- `s.startswith(t)`
abbrev pub starts_with : String → String → Bool
starts_with s t = begins s t

-- `s.endswith(t)`
unfoldable pub ends_with : String → String → Bool
ends_with String.[] t = String.[] ≟ t
ends_with (String.◌∷◌ c s) t = String.◌∷◌ c s ≟ t || ends_with s t

-- `t in s`
unfoldable pub has_text : String → String → Bool
has_text String.[] t = String.[] ≟ t
has_text (String.◌∷◌ c s) t = begins (String.◌∷◌ c s) t || has_text s t

-- `s < t`, by code points
abbrev pub before : String → String → Bool
before s t = elim (compare s t) [ Ordering.lt ↦ true | _ ↦ false ]

-- `sep.join(parts)`
unfoldable pub join : String → List String → String
join sep [] = ""
join sep (s ∷ []) = s
join sep (s ∷ t ∷ parts) = s ++ sep ++ join sep (t ∷ parts)

text_samples :
    (ends_with "BTCUSDT" "USDT" ≡ true)
    × (has_text "a=contracttrade;" "trade" ≡ true)
    × (has_text "spot" "trade" ≡ false)
    × (before "ab" "b" ≡ true)
    × (join "," ("a" ∷ "b" ∷ []) ≡ "a,b")
unfolding ends_with has_text join
text_samples = (refl, refl, refl, refl, refl)

-- `s.replace(old, new)` for an `old` of `suc n` characters; `skip` characters are passed over
replace_from : ℕ → ℕ → String → String → String → String
replace_from n skip old new String.[] = String.[]
replace_from n (suc skip) old new (String.◌∷◌ c s) = replace_from n skip old new s
replace_from n zero old new (String.◌∷◌ c s) =
    let kept = replace_from n zero old new s in
    let after = replace_from n n old new s in
    if begins (String.◌∷◌ c s) old then new ++ after else String.◌∷◌ c kept

-- `s.replace('_shadow', '_live')`
unfoldable pub live_name : String → String
unfolding replace_from
live_name s = replace_from 6 0 "_shadow" "_live" s

live_name_sample : live_name "carry_shadow" ≡ "carry_live"
unfolding live_name
live_name_sample = refl
