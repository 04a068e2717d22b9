-- ===== src/Registry/Names.antt =====
-- The names of tools, and those that findings carry.
use mcpcheck.Prelude.{◌≡◌, refl, ap, List, [], ◌∷◌, ◌++◌, Text}
use mcpcheck.Mcpmodel.{Tool}
use mcpcheck.Registry.{Finding}

abbrev pub tool_names : List Tool → List Text
tool_names [] = []
tool_names (t ∷ ts) = t.name ∷ tool_names ts

abbrev pub finding_names : List Finding → List Text
finding_names [] = []
finding_names (f ∷ fs) = f.tool_name ∷ finding_names fs

pub finding_names-append :
    (xs ys : List Finding) → finding_names (xs ++ ys) ≡ finding_names xs ++ finding_names ys
finding_names-append [] ys = refl
finding_names-append (x ∷ xs) ys = ap (◌∷◌ x.tool_name) (finding_names-append xs ys)
