-- ===== src/Config/Tests.antt =====
-- A short configuration, and the theorem about `load` at it.
use pipe_ai_rk3588_industria.Prelude.{◌≡◌, refl, true, false, none, some, List, [], ◌∷◌, map, arith}
use pipe_ai_rk3588_industria.Text.{Bytes, codes, same_bytes}
use pipe_ai_rk3588_industria.Status.{success}
use pipe_ai_rk3588_industria.Config.{
  find, put, split_eq, load_line, load_lines, load, get_string, get_bool,
}
use pipe_ai_rk3588_industria.Config.Load.{Line, opens, sets, write_line, assigned, load-assigned}

abbrev lines : List Line
lines =
    sets (codes "level") (codes "info")
    ∷ opens (codes "model")
    ∷ sets (codes "path") (codes "a.rknn")
    ∷ sets (codes "warm") (codes "Yes")
    ∷ sets (codes "path") (codes "b = c")
    ∷ []

gets :
    let values =
      (load (codes "p.ini") (some (codes "# x" ∷ codes " [ a ]\t" ∷ codes "k = On" ∷ [])) []).1 in
    (get_string (codes "a.k") [] values ≡ codes "On")
    × (get_bool (codes "a.k") false values ≡ true)
    × (get_bool (codes "k") false values ≡ false)
unfolding load load_lines load_line split_eq find put get_bool same_bytes
gets = (refl, refl, refl)

load-assigned_example :
    ((load (codes "p.ini") (some (map write_line lines)) []).0 ≡ success)
    × ((key : Bytes)
        → find key (load (codes "p.ini") (some (map write_line lines)) []).1
          ≡ assigned [] key none lines)
load-assigned_example = load-assigned (codes "p.ini") lines [] (
  (refl, refl, (refl, refl), (refl, (refl, (refl, (refl, (refl, tt))))), (refl, refl)),
  (
    ((λ e. ground arith), (refl, refl)),
    (
      (refl, refl, (refl, refl), (refl, (refl, (refl, (refl, tt)))), (refl, refl)),
      (
        (refl, refl, (refl, refl), (refl, (refl, (refl, (refl, tt)))), (refl, refl)),
        ((refl, refl, (refl, refl), (refl, (refl, (refl, (refl, tt)))), (refl, refl)), tt),
      ),
    ),
  ),
)
