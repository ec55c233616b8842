-- ===== src/Format/Tests.antt =====
-- Runs of the model of the instruction at concrete paths, and its theorem applied to them.
use clift.Base.{◌≡◌, refl, some, [], ◌∷◌, codes}
use clift.Format.Instruction.{quote, render}
use clift.Format.Instruction.Reader.{read_paths, read_paths-render}

quote_quoted : quote (codes "/in/it's.png") ≡ codes "'/in/it'\\''s.png'"
unfolding quote
quote_quoted = refl

two_rendered :
    render (codes "/a b" ∷ codes "/c" ∷ []) ≡ codes "Please inspect these files:\n- '/a b'\n- '/c'"
unfolding render
two_rendered = refl

read_paths-render_example :
    read_paths (render (codes "/it's" ∷ codes "/b c" ∷ []))
    ≡ some (codes "/it's" ∷ codes "/b c" ∷ [])
read_paths-render_example = read_paths-render (codes "/it's" ∷ codes "/b c" ∷ [])
