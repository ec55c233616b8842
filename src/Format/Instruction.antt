-- ===== src/Format/Instruction.antt =====
-- crates/clift-core/src/format/instruction.rs: the text that names the files of a batch.
pub mod Reader
use clift.Base.{ℕ, List, [], ◌∷◌, ◌++◌}
use clift.Base.{eqb, if◌then◌else◌, Str, codes}

-- The loop of `quote`.
unfoldable pub escape : Str → Str
escape [] = []
escape (c ∷ path) =
    let rest = escape path in if eqb c b'\'' then b'\'' ∷ b'\\' ∷ b'\'' ∷ b'\'' ∷ rest else c ∷ rest

unfoldable pub quote : Str → Str
unfolding escape
quote path = b'\'' ∷ escape path ++ b'\'' ∷ []

abbrev pub one_header : Str
one_header = codes "Please inspect this file: "

abbrev pub many_header : Str
many_header = codes "Please inspect these files:"

-- The loop of `render`.
unfoldable pub items : List Str → Str
unfolding quote
items [] = []
items (path ∷ paths) = codes "\n- " ++ quote path ++ items paths

unfoldable pub render : List Str → Str
unfolding quote items
render [] = []
render (path ∷ []) = one_header ++ quote path
render (path ∷ next ∷ paths) = many_header ++ items (path ∷ next ∷ paths)
