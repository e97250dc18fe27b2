-- ===== src/Commands/Parser.antt =====
-- internal/commands/parser.go.
use reticulum_forwarding_ser.Base.{Bool, not, ◌||◌, [], ◌∷◌, ◌==◌, if◌then◌else◌, drop, List}
use reticulum_forwarding_ser.Base.Bytes.{Bytes, has_prefix}
use reticulum_forwarding_ser.Base.Text.{codes}
use reticulum_forwarding_ser.Commands.{Environment}

-- `strings.TrimLeft(content, " \t")`
pub trim_left : Bytes → Bytes
trim_left [] = []
trim_left (c ∷ s) = let rest = trim_left s in if c == 32 || c == 9 then rest else c ∷ s

unfoldable pub is_command : Bytes → Bool
unfolding trim_left
is_command content = has_prefix (trim_left content) (codes "/")

pub record Parsed : Type 0 where
  pub name : Bytes
  pub args : List Bytes
  pub raw : Bytes

abbrev parsed_fields : Environment → Bytes → List Bytes → Parsed
parsed_fields env content [] = record { name = []; args = []; raw = content }
parsed_fields env content (f ∷ fs) = record { name = env.to_lower f; args = fs; raw = content }

unfoldable pub parse : Environment → Bytes → Parsed
parse env content =
    let trimmed = env.trim_space content in
    if not (has_prefix trimmed (codes "/"))
    then record { name = []; args = []; raw = content }
    else parsed_fields env content (env.fields (drop 1 trimmed))
