-- ===== src/Gateway/Slugs.antt =====
-- What slugify of internal/coreapi/store.go makes of any name.
use signalyard.Common.{
  ℕ, ◌≡◌, refl, Bool, true, false, ◌&&◌, ◌||◌, not, List, [], ◌∷◌, nat_eq, length, arith,
  if◌then◌else◌,
}
use signalyard.Gateway.Slug.{is_lower, is_digit, slug_runes, slug_stem, agent_if_empty}

-- Lower-case letters and digits, in groups that are separated by single dashes; `dash` is whether a dash may
-- not come next. It may end with a dash.
unfoldable pub is_slug : Bool → List ℕ → Bool
is_slug dash [] = true
is_slug dash (r ∷ rest) =
    let after_word = is_slug false rest in
    let after_dash = is_slug true rest in
    if is_lower r || is_digit r then after_word else nat_eq r b'-' && not dash && after_dash

slug_runes-is_slug :
    (dash started : Bool) (name : List ℕ)
    → is_slug (if started then dash else true) (slug_runes dash started name) ≡ true
unfolding is_slug slug_runes
slug_runes-is_slug dash started [] = refl
slug_runes-is_slug dash started (r ∷ rest) = ground (
  arith,
  slug_runes-is_slug false true rest,
  slug_runes-is_slug true started rest,
  slug_runes-is_slug dash started rest,
)

agent_if_empty-is_slug :
    (rs : List ℕ)
    → is_slug true rs ≡ true
    → (is_slug true (agent_if_empty rs) ≡ true) × (nat_eq (length (agent_if_empty rs)) 0 ≡ false)
unfolding agent_if_empty is_slug
agent_if_empty-is_slug [] h = (refl, refl)
agent_if_empty-is_slug (r ∷ rs) h = (h, ground arith)

-- Of any name, the part of the slug before the random suffix is not empty, consists of lower-case letters,
-- digits and dashes, does not begin with a dash, and has no two dashes in a row. It may end with a dash.
pub slug_stem-is_slug :
    (name : List ℕ)
    → (is_slug true (slug_stem name) ≡ true) × (nat_eq (length (slug_stem name)) 0 ≡ false)
unfolding slug_stem
slug_stem-is_slug name =
    agent_if_empty-is_slug (slug_runes false false name) (slug_runes-is_slug false false name)
