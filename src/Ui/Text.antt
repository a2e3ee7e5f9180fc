-- ===== src/Ui/Text.antt =====
-- A text that a page shows: what `gettext` and `%` make of their arguments is not read by the
-- program, so it is kept as an expression.
use lapcare.Common.{String, Bool, true, not, ◌||◌, str_eq, List, [], ◌∷◌, keep}

pub data Text : Type 0 where
  plain : String → Text
  -- `_("...")`
  tr : String → Text
  -- `template % argument`, one argument after the other
  fill : Text → Text → Text
  -- the second after the first
  cat : Text → Text → Text
  -- `s.capitalize()`, `t.strip()`
  capitalized : String → Text
  stripped : Text → Text

abbrev pub blank : Text
blank = plain ""

-- Whether a text is true in a condition. The catalogue translates a text that is not empty to one
-- that is not empty.
abbrev pub is_shown : Text → Bool
is_shown (plain s) = not (str_eq s "")
is_shown (tr _) = true
is_shown (fill t _) = is_shown t
is_shown (cat t u) = is_shown t || is_shown u
is_shown (capitalized s) = not (str_eq s "")
is_shown (stripped t) = is_shown t

abbrev pub join_all : String → List Text → Text
join_all sep [] = blank
join_all sep (t ∷ []) = t
join_all sep (t ∷ u ∷ ts) = cat t (cat (plain sep) (join_all sep (u ∷ ts)))

-- `sep.join(t for t in texts if t)`
pub join_shown : String → List Text → Text
join_shown sep texts = join_all sep (keep is_shown texts)
