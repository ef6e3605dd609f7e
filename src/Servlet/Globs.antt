-- ===== src/Servlet/Globs.antt =====
-- The patterns of a ServletDispatch (JKYi/http/servlet.cc): a map whose newest entry is tried last.
use jkyi.Base.{
  ◌≡◌, inl, inr, refl, sym, ap, ◌∙◌, Bool, true, false, Option, none, some, List, [], ◌∷◌, ◌++◌,
  if◌then◌else◌, Bool-cases,
}
use mathlib.Core.Option.{some-ne-none}
use mathlib.Core.Bool.{false≢true}
use jkyi.Http2.StaticTable.{Bytes, bytes_eq, bytes_eq_iff}
use jkyi.Servlet.{
  Ptr, ServletDispatch, erase_glob, add_glob_servlet, del_glob_servlet, get_glob_servlet, or_null,
  find_glob, match_glob, or_else, get_matched_servlet,
}

bytes_eq-same : (u : Bytes) → bytes_eq u u ≡ true
bytes_eq-same u = (bytes_eq_iff u u).1 refl

bytes_eq_sym : (u v : Bytes) → bytes_eq u v ≡ true → bytes_eq v u ≡ true
bytes_eq_sym u v e = (bytes_eq_iff v u).1 (sym ((bytes_eq_iff u v).0 e))

bytes_eq_trans : (u v w : Bytes) → bytes_eq u v ≡ true → bytes_eq v w ≡ true → bytes_eq u w ≡ true
bytes_eq_trans u v w e f = (bytes_eq_iff u w).1 ((bytes_eq_iff u v).0 e ∙ (bytes_eq_iff v w).0 f)

module _ {A : Type 0} where
  -- No pattern stands twice.
  abbrev pub Distinct : List (Bytes × Ptr A) → Type 0
  Distinct [] = Unit
  Distinct (g ∷ gs) = (find_glob g.0 gs ≡ none) × Distinct gs

  find_glob-append :
      (u : Bytes) (gs hs : List (Bytes × Ptr A))
      → find_glob u gs ≡ none
      → find_glob u (gs ++ hs) ≡ find_glob u hs
  unfolding find_glob
  find_glob-append u [] hs h = refl
  find_glob-append u (g ∷ gs) hs h = elim (Bool-cases (bytes_eq g.0 u)) [
    | inl e ↦ absurd (some-ne-none g.1 (sym (rw e refl) ∙ h))
    | inr e ↦ rw e (find_glob-append u gs hs (sym (rw e refl) ∙ h))
  ]

  find_glob-append_other :
      (u uri : Bytes) (slt : Ptr A) (gs : List (Bytes × Ptr A))
      → bytes_eq uri u ≡ false
      → find_glob u (gs ++ ((uri, slt) ∷ [])) ≡ find_glob u gs
  unfolding find_glob
  find_glob-append_other u uri slt [] e = rw e refl
  find_glob-append_other u uri slt (g ∷ gs) e = elim (Bool-cases (bytes_eq g.0 u)) [
    | inl f ↦ rw f refl
    | inr f ↦ rw f (find_glob-append_other u uri slt gs e)
  ]

  -- After the erasure every other pattern is found as before, and this one no more.
  find_glob-erase_glob :
      (uri : Bytes) (gs : List (Bytes × Ptr A))
      → Distinct gs
      → (u : Bytes)
      → find_glob u (erase_glob uri gs) ≡ (if bytes_eq uri u then none else find_glob u gs)
  unfolding find_glob erase_glob
  find_glob-erase_glob uri [] h u = elim (Bool-cases (bytes_eq uri u)) [
    | inl e ↦ rw e refl
    | inr e ↦ rw e refl
  ]
  find_glob-erase_glob uri (g ∷ gs) h u = elim (Bool-cases (bytes_eq g.0 uri)) [
    | inl e ↦ elim (Bool-cases (bytes_eq uri u)) [
      | inl f ↦
          let same : u ≡ g.0 = sym ((bytes_eq_iff g.0 u).0 (bytes_eq_trans g.0 uri u e f)) in
          rw (e, f) (ap (λ (v : Bytes). find_glob v gs) same ∙ h.0)
      | inr f ↦
          let other : bytes_eq g.0 u ≡ false =
            ap (λ (v : Bytes). bytes_eq v u) ((bytes_eq_iff g.0 uri).0 e) ∙ f in
          rw (e, f, other) refl
    ]
    | inr e ↦ elim (Bool-cases (bytes_eq g.0 u)) [
      | inl f ↦ elim (Bool-cases (bytes_eq uri u)) [
        | inl k ↦ absurd (false≢true (sym e ∙ bytes_eq_trans g.0 u uri f (bytes_eq_sym uri u k)))
        | inr k ↦ rw (e, f, k) refl
      ]
      | inr f ↦ rw (e, f) (find_glob-erase_glob uri gs h.1 u)
    ]
  ]

  erase_glob-Distinct :
      (uri : Bytes) (gs : List (Bytes × Ptr A)) → Distinct gs → Distinct (erase_glob uri gs)
  unfolding erase_glob
  erase_glob-Distinct uri [] h = tt
  erase_glob-Distinct uri (g ∷ gs) h = elim (Bool-cases (bytes_eq g.0 uri)) [
    | inl e ↦ rw e h.1
    | inr e ↦
        let unfound : find_glob g.0 (erase_glob uri gs) ≡ none =
          find_glob-erase_glob uri gs h.1 g.0
          ∙ none_either (bytes_eq uri g.0) (find_glob g.0 gs) h.0 in
        rw e (unfound, erase_glob-Distinct uri gs h.1)
  ]
    where
      none_either : (b : Bool) (o : Option (Ptr A)) → o ≡ none → (if b then none else o) ≡ none
      none_either true o e = refl
      none_either false o e = e

  append-Distinct :
      (uri : Bytes) (slt : Ptr A) (gs : List (Bytes × Ptr A))
      → Distinct gs
      → find_glob uri gs ≡ none
      → Distinct (gs ++ ((uri, slt) ∷ []))
  unfolding find_glob
  append-Distinct uri slt [] h k = (refl, tt)
  append-Distinct uri slt (g ∷ gs) h k = elim (Bool-cases (bytes_eq g.0 uri)) [
    | inl e ↦ absurd (some-ne-none g.1 (sym (rw e refl) ∙ k))
    | inr e ↦ (
      elim (Bool-cases (bytes_eq uri g.0)) [
        | inl f ↦ absurd (false≢true (sym e ∙ bytes_eq_sym uri g.0 f))
        | inr f ↦ find_glob-append_other g.0 uri slt gs f ∙ h.0
      ],
      append-Distinct uri slt gs h.1 (sym (rw e refl) ∙ k),
    )
  ]

  -- Where no pattern stands twice, the patterns are a map: addGlobServlet sets one entry,
  -- delGlobServlet takes it out, getGlobServlet gives for every other pattern what it gave before,
  -- and no pattern comes to stand twice.
  pub glob_servlets-Distinct :
      (uri : Bytes) (slt : Ptr A) (d : ServletDispatch A)
      → Distinct d.globs
      → let added = add_glob_servlet uri slt d in
        let deleted = del_glob_servlet uri d in
        Distinct added.globs
        × Distinct deleted.globs
        × ((u : Bytes)
            → get_glob_servlet u added ≡ (if bytes_eq uri u then slt else get_glob_servlet u d))
        × ((u : Bytes)
            → get_glob_servlet u deleted ≡ (if bytes_eq uri u then none else get_glob_servlet u d))
  unfolding add_glob_servlet del_glob_servlet get_glob_servlet or_null find_glob
  glob_servlets-Distinct uri slt d h =
      let erased = erase_glob-Distinct uri d.globs h in
      let found = find_glob-erase_glob uri d.globs h in
      let gone : find_glob uri (erase_glob uri d.globs) ≡ none =
        found uri ∙ rw (bytes_eq-same uri) refl in
      (
        append-Distinct uri slt (erase_glob uri d.globs) erased gone,
        erased,
        λ u. elim (Bool-cases (bytes_eq uri u)) [
          | inl e ↦
              let nowhere : find_glob u (erase_glob uri d.globs) ≡ none = found u ∙ rw e refl in
              let last : find_glob u ((uri, slt) ∷ []) ≡ some slt = rw e refl in
              rw e (
                ap (λ (o : Option (Ptr A)). or_null o)
                  (find_glob-append u (erase_glob uri d.globs) ((uri, slt) ∷ []) nowhere ∙ last))
          | inr e ↦
              let before : find_glob u (erase_glob uri d.globs) ≡ find_glob u d.globs =
                found u ∙ rw e refl in
              rw e (
                ap (λ (o : Option (Ptr A)). or_null o)
                  (find_glob-append_other u uri slt (erase_glob uri d.globs) e ∙ before))
        ],
        λ u. elim (Bool-cases (bytes_eq uri u)) [
          | inl e ↦
              let nowhere : find_glob u (erase_glob uri d.globs) ≡ none = found u ∙ rw e refl in
              rw e (ap (λ (o : Option (Ptr A)). or_null o) nowhere)
          | inr e ↦
              let before : find_glob u (erase_glob uri d.globs) ≡ find_glob u d.globs =
                found u ∙ rw e refl in
              rw e (ap (λ (o : Option (Ptr A)). or_null o) before)
        ],
      )

  module _ (fnmatch : Bytes → Bytes → Bool) where
    match_glob-append :
        (path uri : Bytes) (slt other : Ptr A) (gs : List (Bytes × Ptr A))
        → or_else (match_glob fnmatch path (gs ++ ((uri, slt) ∷ []))) other
          ≡ or_else (match_glob fnmatch path gs) (if fnmatch uri path then slt else other)
    unfolding match_glob or_else
    match_glob-append path uri slt other [] = elim (Bool-cases (fnmatch uri path)) [
      | inl e ↦ rw e refl
      | inr e ↦ rw e refl
    ]
    match_glob-append path uri slt other (g ∷ gs) = elim (Bool-cases (fnmatch g.0 path)) [
      | inl e ↦ rw e refl
      | inr e ↦ rw e (match_glob-append path uri slt other gs)
    ]

    -- After addGlobServlet a path goes to its exact servlet, else to the first of the other
    -- patterns that matches it, else to the new servlet if the new pattern matches, and else to the
    -- default: an entry that is replaced loses its place and is tried last.
    pub add_glob_servlet-get_matched_servlet :
        (path uri : Bytes) (slt : Ptr A) (d : ServletDispatch A)
        → get_matched_servlet fnmatch path (add_glob_servlet uri slt d)
          ≡ or_else (d.datas path) (
              or_else
                (match_glob fnmatch path (erase_glob uri d.globs))
                (if fnmatch uri path then slt else d.default_servlet))
    unfolding get_matched_servlet add_glob_servlet
    add_glob_servlet-get_matched_servlet path uri slt d =
        ap (λ (s : Ptr A). or_else (d.datas path) s)
          (match_glob-append path uri slt d.default_servlet (erase_glob uri d.globs))
