-- ===== src/Platform/Environ.antt =====
-- What the four LoadConfig functions (config.go of internal/coreapi, internal/normalizer, internal/registry
-- and internal/webhook) share: environment variables, numbers in them, and the required ones.
use Prim.Native.Char.{code}
use signalyard.Common.{
  ℕ, zero, suc, ◌+◌, ◌-◌, ◌*◌, ◌^◌, String, String_eq, ◌&&◌, Option, none, some, List, [], ◌∷◌, ℤ,
  pos, negsuc, leb, ltb, nat_eq, ◌==◌, if◌then◌else◌,
}

-- os.Getenv: "" where a variable is not set.
abbrev pub Environ : Type 0
Environ = String → String

pub data ConfigError : Type 0 where
  invalid : (name : String) → ConfigError
  not_set : (name : String) → ConfigError

pub data Loaded (A : Type 0) : Type 0 where
  loaded : A → Loaded A
  refused : ConfigError → Loaded A

infixl 10 ◌>>=◌ ◌>>◌
abbrev pub ◌>>=◌ : {A B : Type 0} → Loaded A → (A → Loaded B) → Loaded B
loaded a >>= f = f a
refused e >>= f = refused e

abbrev pub ◌>>◌ : {A B : Type 0} → Loaded A → Loaded B → Loaded B
m >> n = m >>= λ _. n

-- The value of decimal digits after `acc`, `none` at another character.
unfoldable pub digits : ℕ → String → Option ℕ
digits acc String.[] = some acc
digits acc (String.◌∷◌ c s) =
    let rest = digits (acc * 10 + (code c - b'0')) s in
    if leb b'0' (code c) && leb (code c) b'9' then rest else none

-- At least one digit.
unfoldable pub number : String → Option ℕ
unfolding digits
number String.[] = none
number (String.◌∷◌ c s) = digits 0 (String.◌∷◌ c s)

-- int has 64 bits.
abbrev positive : Option ℕ → Option ℤ
positive none = none
positive (some n) = if ltb n (2 ^ 63) then some (pos n) else none

abbrev negated : ℕ → ℤ
negated zero = pos 0
negated (suc n) = negsuc n

abbrev negative : Option ℕ → Option ℤ
negative none = none
negative (some n) = if leb n (2 ^ 63) then some (negated n) else none

-- strconv.Atoi
unfoldable pub atoi : String → Option ℤ
unfolding number
atoi String.[] = none
atoi (String.◌∷◌ c s) =
    if nat_eq (code c) b'-'
    then negative (number s)
    else if nat_eq (code c) b'+'
    then positive (number s)
    else positive (number (String.◌∷◌ c s))

or_invalid : {A : Type 0} → String → Option A → Loaded A
or_invalid name none = refused (invalid name)
or_invalid name (some a) = loaded a

-- `if v := os.Getenv(name); v != "" { parse }`: the default stays where the variable is empty.
unfoldable pub parsed : {A : Type 0} → (String → Option A) → (name value : String) → A → Loaded A
unfolding or_invalid
parsed parse name value fallback =
    if value == "" then loaded fallback else or_invalid name (parse value)

-- The loop over the required variables.
unfoldable pub require : List (String × String) → Loaded (Unit {0})
require [] = loaded tt
require ((name, value) ∷ rest) =
    let others = require rest in if value == "" then refused (not_set name) else others

-- envOr
unfoldable pub env_or : Environ → (key fallback : String) → String
env_or env key fallback = if env key == "" then fallback else env key
