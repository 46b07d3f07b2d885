-- ===== src/Platform/Exec.antt =====
-- Go functions that return `(T, error)` and write shared state, and HTTP handlers over them.
use signalyard.Common.{ℕ, String, ◌⊎◌, inl, inr, Bool, true, false, Option, none, some}

-- The errors that callers tell apart: ErrNotFound, ErrConflict, and any other.
pub data Error : Type 0 where
  not_found conflict failed : Error

pub data Result (E A : Type 0) : Type 0 where
  ok : A → Result E A
  err : E → Result E A

-- What was written before an error stays written.
abbrev pub Exec : Type 0 → Type 0 → Type 0 → Type 0
Exec E S A = S → Result E A × S

module _ {E S : Type 0} where
  abbrev pub continue : {A B : Type 0} → Result E A → (A → Exec E S B) → Exec E S B
  continue (ok a) f s = f a s
  continue (err e) f s = (err e, s)

  unfoldable pub pure : {A : Type 0} → A → Exec E S A
  pure a s = (ok a, s)

  unfoldable pub raise : {A : Type 0} → E → Exec E S A
  raise e s = (err e, s)

  unfoldable pub gets : {A : Type 0} → (S → A) → Exec E S A
  gets f s = (ok (f s), s)

  -- `if c { return ..., err }`
  unfoldable pub fail_if : Bool → E → Exec E S (Unit {0})
  fail_if true e s = (err e, s)
  fail_if false e s = (ok tt, s)

  unfoldable pub or_fail : {A : Type 0} → Option A → E → Exec E S A
  or_fail none e s = (err e, s)
  or_fail (some a) e s = (ok a, s)

abbrev pub map_error : {E F A : Type 0} → (E → F) → Result E A → Result F A
map_error f (ok a) = ok a
map_error f (err e) = err (f e)

-- `if err != nil { writeError(...); return }`: the error becomes the response.
infix 20 ◌or_else◌
unfoldable pub ◌or_else◌ : {E F S A : Type 0} → Exec E S A → (E → F) → Exec F S A
◌or_else◌ m f s = let (r, s') = m s in (map_error f r, s')

-- `_ = f(...)`: the error is dropped.
unfoldable pub ignore : {E F S A : Type 0} → Exec E S A → Exec F S (Unit {0})
ignore m s = let (r, s') = m s in (ok tt, s')

-- `r, err := f(...)`, where both outcomes go on.
unfoldable pub attempt : {E F S A : Type 0} → Exec E S A → Exec F S (Result E A)
attempt m s = let (r, s') = m s in (ok r, s')

module _ {E S : Type 0} where
  -- Opening this opens the other actions too.
  infixl 10 ◌>>=◌ ◌>>◌
  unfoldable pub ◌>>=◌ : {A B : Type 0} → Exec E S A → (A → Exec E S B) → Exec E S B
  unfolding pure raise gets fail_if or_fail ◌or_else◌ ignore attempt
  ◌>>=◌ m f s = let (r, s') = m s in continue r f s'

  abbrev pub ◌>>◌ : {A B : Type 0} → Exec E S A → Exec E S B → Exec E S B
  m >> n = m >>= λ _. n

pub record Response (B : Type 0) : Type 0 where
  pub status : ℕ
  pub body : String ⊎ B

-- platform.WriteJSON
abbrev pub write_json : {B : Type 0} → ℕ → B → Response B
write_json status b = record { status = status; body = inr b }

-- platform.WriteError
abbrev pub write_error : {B : Type 0} → ℕ → String → Response B
write_error status msg = record { status = status; body = inl msg }

-- A handler that returns early raises its response.
abbrev pub Handler : Type 0 → Type 0 → Type 0
Handler S B = Exec (Response B) S (Response B)

abbrev pub response : {B : Type 0} → Result (Response B) (Response B) → Response B
response (ok r) = r
response (err r) = r

-- The response that is written, and the state that the handler leaves.
abbrev pub serve : {S B : Type 0} → Handler S B → S → Response B × S
serve h s = let (r, s') = h s in (response r, s')
