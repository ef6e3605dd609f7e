-- ===== src/Servlet/Runs.antt =====
-- Runs of a dispatch with exact paths and patterns.
use jkyi.Base.{
  ℕ, ◌≡◌, refl, Bool, true, false, none, some, [], ◌∷◌, ◌==◌, ◌&&◌, ◌||◌, if◌then◌else◌,
}
use jkyi.Http2.StaticTable.{Bytes, bytes_eq, codes}
use jkyi.Servlet.{
  ServletDispatch, add_servlet, del_servlet, set_data, add_glob_servlet, del_glob_servlet,
  erase_glob, find_glob, match_glob, or_else, or_null, run_matched, get_servlet, get_glob_servlet,
  get_matched_servlet, handle,
}
use jkyi.Servlet.Globs.{Distinct, glob_servlets-Distinct}

-- A match of patterns that end in a star, and of others exactly.
abbrev star : Bytes → Bytes → Bool
star [] [] = true
star [] (y ∷ ys) = false
star (x ∷ xs) [] = x == 42
star (x ∷ xs) (y ∷ ys) = x == 42 || (x == y && star xs ys)

abbrev all : Bytes
all = codes "/*"

abbrev api : Bytes
api = codes "/api/*"

abbrev routes : ServletDispatch ℕ
routes = record {
  datas = λ u. if bytes_eq (codes "/index") u then some (some 1) else none;
  globs = (api, some 2) ∷ (all, some 3) ∷ [];
  default_servlet = some 404;
}

routes-Distinct : Distinct routes.globs
unfolding find_glob bytes_eq
routes-Distinct = (refl, (refl, tt))

-- The pattern of "/api/x" was before the one of all paths; set again, it stands behind it.
first_match : get_matched_servlet star (codes "/api/x") routes ≡ some 2
unfolding get_matched_servlet match_glob or_else bytes_eq
first_match = refl

replaced_match :
    get_matched_servlet star (codes "/api/x") (add_glob_servlet api (some 5) routes) ≡ some 3
unfolding get_matched_servlet match_glob or_else bytes_eq add_glob_servlet erase_glob
replaced_match = refl

-- A null pointer that was added for an exact path keeps the patterns and the default from being
-- tried.
null_match :
    handle star (λ slt s. slt ∷ s) (codes "/a") (add_servlet (codes "/a") none routes) [] ≡ (0, [])
unfolding handle run_matched get_matched_servlet match_glob or_else bytes_eq add_servlet set_data
null_match = refl

deleted_match : get_servlet (codes "/index") (del_servlet (codes "/index") routes) ≡ none
unfolding get_servlet or_null del_servlet set_data bytes_eq
deleted_match = refl

glob_servlets-Distinct_example :
    let added = add_glob_servlet api (some 5) routes in
    let deleted = del_glob_servlet api routes in
    Distinct added.globs
    × Distinct deleted.globs
    × ((u : Bytes)
        → get_glob_servlet u added ≡ (if bytes_eq api u then some 5 else get_glob_servlet u routes))
    × ((u : Bytes)
        → get_glob_servlet u deleted ≡ (if bytes_eq api u then none else get_glob_servlet u routes))
glob_servlets-Distinct_example = glob_servlets-Distinct api (some 5) routes routes-Distinct
