-- ===== src/Qlib/Stream.antt =====
-- What a client sends: the pieces that its connection gives to one read after another, and the end.
use mnm.Prelude.{
  ℕ, zero, suc, ◌-◌, List, [], ◌∷◌, ◌++◌, Text, length, take, drop, leb, if◌then◌else◌,
}
use mnm.Qlib.Op.{Ending}

pub record Stream : Type 0 where
  pub pieces : List Text
  pub ending : Ending

-- io.CopyN: what was copied, how many bytes are missing, and what is left.
unfoldable pub copy_pieces : ℕ → List Text → Text × ℕ × List Text
copy_pieces zero ps = ([], 0, ps)
copy_pieces (suc n) [] = ([], suc n, [])
copy_pieces (suc n) (p ∷ ps) =
    let rest = copy_pieces (suc n - length p) ps in
    if leb (length p) (suc n)
    then (p ++ rest.0, rest.1, rest.2)
    else (take (suc n) p, 0, drop (suc n) p ∷ ps)
