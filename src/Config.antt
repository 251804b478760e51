-- ===== src/Config.antt =====
-- src/daemon/config.h and src/daemon/config.cpp: how an operation of the loader ends, and texts as
-- the codes of their characters. Text reads the lines of a file, Tree parses them.
pub mod Text
pub mod Tree
pub mod Fuel
pub mod Values
pub mod Daemon
pub mod Arenas
pub mod Sections
pub mod Load
pub mod Accepted
pub mod Ends
use Prim.Native.Char.{code}
use Prim.Native.String.{String}
use state_spectre.Prelude.{ℕ, List, [], ◌∷◌, Bool, true, false, ◌&&◌, ◌==◌, ltb, if◌then◌else◌}

abbrev pub Text : Type 0
Text = List ℕ

abbrev pub text : String → Text
text String.[] = []
text (String.◌∷◌ c s) = code c ∷ text s

-- A runtime_error with the line that its message names, or 0; `no_fuel` ends a recursion on fuel.
pub data Outcome {ℓ} (A : Type ℓ) : Type ℓ where
  error : ℕ → Outcome A
  no_fuel : Outcome A
  result : A → Outcome A

infixl 5 ◌>>=◌
unfoldable pub ◌>>=◌ {ℓ κ} : {A : Type ℓ} {B : Type κ} → Outcome A → (A → Outcome B) → Outcome B
(error line) >>= k = error line
no_fuel >>= k = no_fuel
(result a) >>= k = k a

-- std::string's == and <
unfoldable pub text_eq : Text → Text → Bool
text_eq [] [] = true
text_eq [] (d ∷ ds) = false
text_eq (c ∷ cs) [] = false
text_eq (c ∷ cs) (d ∷ ds) = c == d && text_eq cs ds

unfoldable pub text_less : Text → Text → Bool
text_less cs [] = false
text_less [] (d ∷ ds) = true
text_less (c ∷ cs) (d ∷ ds) = let rest = text_less cs ds in if c == d then rest else ltb c d
