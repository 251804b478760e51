-- ===== src/Config/Text.antt =====
-- The lines of a configuration file: `rstrip`, `strip`, `strip_comment` and `tokenize` of
-- src/daemon/config.cpp.
use state_spectre.Prelude.{
  ℕ, zero, suc, List, [], ◌∷◌, Bool, false, ◌&&◌, ◌||◌, ◌==◌, ltb, if◌then◌else◌,
}
use state_spectre.Config.{Text, Outcome, error, result, ◌>>=◌}

pub record SrcLine : Type 0 where
  pub indent : ℕ
  pub lineno : ℕ
  pub text : Text

-- ' ', '\t' or '\r'
abbrev pub is_blank : ℕ → Bool
is_blank c = c == 32 || c == 9 || c == 13

unfoldable pub rstrip : Text → Text
rstrip [] = []
rstrip (c ∷ cs) = elim (rstrip cs) [ [] ↦ if is_blank c then [] else c ∷ [] | d ∷ ds ↦ c ∷ d ∷ ds ]

unfoldable pub lstrip : Text → Text
lstrip [] = []
lstrip (c ∷ cs) = let rest = lstrip cs in if is_blank c then rest else c ∷ cs

unfoldable pub strip : Text → Text
strip s = rstrip (lstrip s)

unfoldable pub strip_comment : Text → Text
strip_comment [] = []
strip_comment (c ∷ cs) = let rest = strip_comment cs in if c == 35 then [] else c ∷ rest

-- the number of leading spaces, and of leading spaces and tabs
unfoldable pub spaces : Text → ℕ
spaces [] = 0
spaces (c ∷ cs) = let more = spaces cs in if c == 32 then suc more else 0

unfoldable pub spaces_and_tabs : Text → ℕ
spaces_and_tabs [] = 0
spaces_and_tabs (c ∷ cs) =
    let more = spaces_and_tabs cs in if c == 32 || c == 9 then suc more else 0

unfoldable pub skip : ℕ → Text → Text
skip zero s = s
skip (suc n) [] = []
skip (suc n) (c ∷ cs) = skip n cs

unfoldable pub has_tab : Text → Bool
has_tab [] = false
has_tab (c ∷ cs) = c == 9 || has_tab cs

-- the pieces between the newlines, the last one included
unfoldable pub split_lines : Text → List Text
split_lines [] = [] ∷ []
split_lines (c ∷ cs) = elim (split_lines cs) [
  | [] ↦ [] ∷ []
  | line ∷ lines ↦ if c == 10 then [] ∷ line ∷ lines else (c ∷ line) ∷ lines
]

-- a line that is not blank
unfoldable pub source_line : ℕ → Text → Outcome SrcLine
source_line lineno trimmed =
    let indent = spaces trimmed in
    if has_tab trimmed && ltb indent (spaces_and_tabs trimmed)
    then error lineno
    else result (record { indent = indent; lineno = lineno; text = skip indent trimmed })

-- the loop of tokenize, from the line after number `lineno` on
unfoldable pub tokenize_from : ℕ → List Text → Outcome (List SrcLine)
tokenize_from lineno [] = result []
tokenize_from lineno (raw ∷ raws) =
    let trimmed = rstrip (strip_comment raw) in
    let more = tokenize_from (suc lineno) raws in
    elim (strip trimmed) [
      | [] ↦ more
      | c ∷ cs ↦ do line ← source_line (suc lineno) trimmed; lines ← more; result (line ∷ lines)
    ]

unfoldable pub tokenize : Text → Outcome (List SrcLine)
tokenize content = tokenize_from 0 (split_lines content)
