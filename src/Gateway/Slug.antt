-- ===== src/Gateway/Slug.antt =====
-- slugify of internal/coreapi/store.go, over the runes of the name.
use signalyard.Common.{
  ℕ, ◌+◌, Bool, true, false, ◌&&◌, ◌||◌, not, List, [], ◌∷◌, leb, if◌then◌else◌,
}

abbrev pub is_lower : ℕ → Bool
is_lower r = leb b'a' r && leb r b'z'

abbrev pub is_digit : ℕ → Bool
is_digit r = leb b'0' r && leb r b'9'

abbrev pub is_upper : ℕ → Bool
is_upper r = leb b'A' r && leb r b'Z'

-- The loop: `dash` is lastDash, `started` is len(out) > 0. The result is what is appended to out.
unfoldable pub slug_runes : (dash started : Bool) → List ℕ → List ℕ
slug_runes dash started [] = []
slug_runes dash started (r ∷ rest) =
    let word = slug_runes false true rest in
    let dashed = slug_runes true started rest in
    let skipped = slug_runes dash started rest in
    if is_lower r || is_digit r
    then r ∷ word
    else if is_upper r
    then (r + 32) ∷ word
    else if not dash && started
    then b'-' ∷ dashed
    else skipped

unfoldable pub agent_if_empty : List ℕ → List ℕ
agent_if_empty [] = b'a' ∷ b'g' ∷ b'e' ∷ b'n' ∷ b't' ∷ []
agent_if_empty (r ∷ rs) = r ∷ rs

-- The part of the slug before the random suffix.
unfoldable pub slug_stem : List ℕ → List ℕ
unfolding slug_runes agent_if_empty
slug_stem name = agent_if_empty (slug_runes false false name)
