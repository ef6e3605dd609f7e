-- ===== src/Servlet.antt =====
-- ServletDispatch of JKYi/http/servlet.h and JKYi/http/servlet.cc: which servlet a path goes to.
-- The lock of every operation has no part.
pub mod Globs
mod Runs
use jkyi.Base.{ℕ, Bool, Option, none, some, List, [], ◌∷◌, ◌++◌, if◌then◌else◌}
use jkyi.Http2.StaticTable.{Bytes, bytes_eq}

-- A `Servlet::ptr`, which may be null, of servlets of the type `A`
abbrev pub Ptr : Type 0 → Type 0
Ptr A = Option A

-- The map of the exact paths, the patterns in order, and the default servlet
pub record ServletDispatch (A : Type 0) : Type 0 where
  datas : Bytes → Option (Ptr A)
  globs : List (Bytes × Ptr A)
  default_servlet : Ptr A

module _ {A : Type 0} where
  unfoldable pub set_data :
      Bytes → Option (Ptr A) → (Bytes → Option (Ptr A)) → Bytes → Option (Ptr A)
  set_data uri slt datas u = if bytes_eq uri u then slt else datas u

  -- `addServlet` and `delServlet`
  unfoldable pub add_servlet : Bytes → Ptr A → ServletDispatch A → ServletDispatch A
  add_servlet uri slt d = record d { datas = set_data uri (some slt) d.datas }

  unfoldable pub del_servlet : Bytes → ServletDispatch A → ServletDispatch A
  del_servlet uri d = record d { datas = set_data uri none d.datas }

  -- The loops of `addGlobServlet` and `delGlobServlet`, which erase the first pattern that is `uri`
  unfoldable pub erase_glob : Bytes → List (Bytes × Ptr A) → List (Bytes × Ptr A)
  erase_glob uri [] = []
  erase_glob uri (g ∷ gs) =
      let rest = erase_glob uri gs in if bytes_eq g.0 uri then gs else g ∷ rest

  unfoldable pub add_glob_servlet : Bytes → Ptr A → ServletDispatch A → ServletDispatch A
  add_glob_servlet uri slt d = record d { globs = erase_glob uri d.globs ++ ((uri, slt) ∷ []) }

  unfoldable pub del_glob_servlet : Bytes → ServletDispatch A → ServletDispatch A
  del_glob_servlet uri d = record d { globs = erase_glob uri d.globs }

  -- What a search that may fail returns: a null pointer if it does
  unfoldable pub or_null : Option (Ptr A) → Ptr A
  or_null none = none
  or_null (some slt) = slt

  unfoldable pub get_servlet : Bytes → ServletDispatch A → Ptr A
  get_servlet uri d = or_null (d.datas uri)

  unfoldable pub find_glob : Bytes → List (Bytes × Ptr A) → Option (Ptr A)
  find_glob uri [] = none
  find_glob uri (g ∷ gs) = if bytes_eq g.0 uri then some g.1 else find_glob uri gs

  unfoldable pub get_glob_servlet : Bytes → ServletDispatch A → Ptr A
  get_glob_servlet uri d = or_null (find_glob uri d.globs)

  unfoldable pub or_else : Option (Ptr A) → Ptr A → Ptr A
  or_else none slt = slt
  or_else (some slt) other = slt

  -- `if(slt) slt->handle(..)`
  unfoldable pub run_matched : {S : Type 0} → (A → S → S) → Ptr A → S → S
  run_matched run none s = s
  run_matched run (some slt) s = run slt s

  -- `fnmatch(pattern, path, 0) == 0` of the C library is the parameter.
  module _ (fnmatch : Bytes → Bytes → Bool) where
    unfoldable pub match_glob : Bytes → List (Bytes × Ptr A) → Option (Ptr A)
    match_glob uri [] = none
    match_glob uri (g ∷ gs) = if fnmatch g.0 uri then some g.1 else match_glob uri gs

    unfoldable pub get_matched_servlet : Bytes → ServletDispatch A → Ptr A
    get_matched_servlet uri d =
        or_else (d.datas uri) (or_else (match_glob uri d.globs) d.default_servlet)

    -- `handle`, on a request for `path`. What the servlet does to the request, the response and the
    -- session is the parameter `run`, and its result is not looked at.
    unfoldable pub handle : {S : Type 0} → (A → S → S) → Bytes → ServletDispatch A → S → ℕ × S
    handle run path d s = (0, run_matched run (get_matched_servlet path d) s)
