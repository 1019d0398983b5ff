-- ===== src/Hub/Scopes.antt =====
-- What the flags of a created token grant.
use sealhub.Base.{
  ◌≡◌, ◌≢◌, ◌↔◌, ◌⊎◌, inl, inr, refl, sym, ◌∙◌, true, List, [], ◌∷◌, ◌++◌, map, if◌then◌else◌,
  arith, any, any_iff, Any, Any-imp, Bool-cases,
}
use mathlib.Core.Path.{subst}
use mathlib.Core.List.{append_assoc, append-nil}
use sealhub.Base.Text.{Text, codes, ◌==◌, eq_iff, trim_prefix}
use sealhub.Document.{data_dir}
use sealhub.Auth.Engine.{Principal, token, Engine, authorize}
use sealhub.Auth.Authorize.{DistinctIds, Fits, api_path_of, TokenGrants, authorize_token_iff}
use sealhub.Hub.Token.{
  id_flag, read_flag, write_flag, append_unique, Wanted, nothing_wanted, scan, created, with_scope,
}

-- The scopes that the arguments ask for: each a flag's action and its path.
unfoldable pub scopes : List Text → List (Text × Text)
scopes [] = []
scopes (flag ∷ []) = []
scopes (flag ∷ value ∷ args) =
    let rest = scopes args in
    let other = scopes (value ∷ args) in
    if flag == id_flag
    then rest
    else if flag == read_flag
    then (codes "read", value) ∷ rest
    else if flag == write_flag
    then (codes "write", value) ∷ rest
    else other

-- The actions, each once.
abbrev add_all : List Text → List (Text × Text) → List Text
add_all found [] = found
add_all found (g ∷ gs) = add_all (append_unique found g.0) gs

-- What the loop finds: the scopes' paths in their order, and their actions.
abbrev Finds : Wanted → List Text → Wanted → Type 0
Finds s args out =
    (out.paths ≡ s.paths ++ map (λ g. g.1) (scopes args))
    × (out.actions ≡ add_all s.actions (scopes args))

scan-Finds : (s : Wanted) (args : List Text) → Finds s args (scan s args)
unfolding scan scopes
scan-Finds s [] = (sym (append-nil s.paths), refl)
scan-Finds s (flag ∷ []) = (sym (append-nil s.paths), refl)
scan-Finds s (flag ∷ value ∷ args) = elim (Bool-cases (flag == id_flag)) [
  | inl e ↦ rw (e, scan, scopes) (scan-Finds (record s { id = value }) args)
  | inr n ↦ elim (Bool-cases (flag == read_flag)) [
    | inl e ↦
        (let (paths, actions) = scan-Finds (with_scope (codes "read") value s) args in
          rw (n, e, scan, scopes) (paths ∙ append_assoc s.paths (value ∷ []) _, actions))
    | inr m ↦ elim (Bool-cases (flag == write_flag)) [
      | inl e ↦
          (let (paths, actions) = scan-Finds (with_scope (codes "write") value s) args in
            rw (n, m, e, scan, scopes) (paths ∙ append_assoc s.paths (value ∷ []) _, actions))
      | inr k ↦ rw (n, m, k, scan, scopes) (scan-Finds s (value ∷ args))
    ]
  ]
]

Any-snoc_iff :
    (xs : List Text) (v a : Text)
    → Any (λ s. s ≡ a) (xs ++ v ∷ []) ↔ (Any (λ s. s ≡ a) xs ⊎ (v ≡ a))
Any-snoc_iff [] v a = ground arith
Any-snoc_iff (x ∷ xs) v a = ground (arith, Any-snoc_iff xs v a)

append_unique_iff :
    (slice : List Text) (v a : Text)
    → Any (λ s. s ≡ a) (append_unique slice v) ↔ (Any (λ s. s ≡ a) slice ⊎ (v ≡ a))
unfolding append_unique
append_unique_iff slice v a = elim (Bool-cases (any (λ s. s == v) slice)) [
  | inl there ↦
      let known = (any_iff (λ s. s == v) (λ s. s ≡ v) (λ s. eq_iff s v) slice).0 there in
      let moved : (v ≡ a) → Any (λ s. s ≡ a) slice =
        λ e. Any-imp (λ s. s ≡ v) (λ s. s ≡ a) slice (λ s h. h ∙ e) known in
      rw (there, append_unique) (ground (arith, moved))
  | inr new ↦ rw (new, append_unique) (Any-snoc_iff slice v a)
]

add_all_iff :
    (found : List Text) (gs : List (Text × Text)) (a : Text)
    → Any (λ b. b ≡ a) (add_all found gs) ↔ (Any (λ b. b ≡ a) found ⊎ Any (λ g. g.0 ≡ a) gs)
add_all_iff found [] a = ground arith
add_all_iff found (g ∷ gs) a =
    ground (arith, add_all_iff (append_unique found g.0) gs a, append_unique_iff found g.0 a)

Any-map_iff :
    (P : Text → Type 0) (gs : List (Text × Text)) → Any P (map (λ g. g.1) gs) ↔ Any (λ g. P g.1) gs
Any-map_iff P [] = ground arith
Any-map_iff P (g ∷ gs) = ground (arith, Any-map_iff P gs)

-- Where there is a scope there is an action.
not-add_all-nil :
    (P : Text × Text → Type 0) (gs : List (Text × Text)) → Any P gs → add_all [] gs ≢ []
not-add_all-nil P [] h e = h
not-add_all-nil P (g ∷ gs) h e =
    let here = (add_all_iff [] (g ∷ gs) g.0).1 (inr (inl refl)) in
    subst (λ xs. Any (λ b. b ≡ g.0) xs) e here

-- Let the engine have just the record that is created for some arguments, and let the principal be that token.
-- Authorize lets it through exactly if one of the flags --read and --write asks for the action and one of them, not
-- necessarily the same one, has a path that covers the document.
pub authorize-created :
    (args : List Text) (hash : Text) (e : Engine) (p : Principal) (git_path action : Text)
    → e.service_tokens ≡ created (scan nothing_wanted args) hash ∷ []
    → p.kind ≡ token
    → p.id ≡ (scan nothing_wanted args).id
    → (authorize e p git_path action ≡ true) ↔ (
        Any (λ g. g.0 ≡ action) (scopes args)
        × Any (λ g. Fits (api_path_of git_path) (trim_prefix g.1 data_dir)) (scopes args))
authorize-created args hash e p git_path action one k same = (to, from)
  where
    s : Wanted
    s = scan nothing_wanted args

    found : Finds nothing_wanted args s
    found = scan-Finds nothing_wanted args

    Q : Text → Type 0
    Q pat = Fits (api_path_of git_path) (trim_prefix pat data_dir)

    through :
        (authorize e p git_path action ≡ true)
        ↔ Any (TokenGrants p.id (api_path_of git_path) action) (created s hash ∷ [])
    through =
        subst
          (λ ts.
            (authorize e p git_path action ≡ true)
            ↔ Any (TokenGrants p.id (api_path_of git_path) action) ts)
          one (authorize_token_iff e p git_path action k (subst DistinctIds (sym one) (tt, tt)))

    paths_iff : Any Q s.paths ↔ Any (λ g. Q g.1) (scopes args)
    paths_iff = rw found.0 (Any-map_iff Q (scopes args))

    to :
        authorize e p git_path action ≡ true
        → Any (λ g. g.0 ≡ action) (scopes args) × Any (λ g. Q g.1) (scopes args)
    to h = elim (through.0 h) [
      | inr n ↦ absurd n
      | inl (known, inl none_kept, fits) ↦
          absurd (
            not-add_all-nil (λ g. Q g.1) (scopes args) (paths_iff.0 fits) (sym found.1 ∙ none_kept))
      | inl (known, inr acts, fits) ↦
          let asked : Any (λ b. b ≡ action) (add_all [] (scopes args)) =
            subst (λ xs. Any (λ b. b ≡ action) xs) found.1 acts in
          (
            elim ((add_all_iff [] (scopes args) action).0 asked) [ inl n ↦ absurd n | inr a ↦ a ],
            paths_iff.0 fits,
          )
    ]

    from :
        Any (λ g. g.0 ≡ action) (scopes args) × Any (λ g. Q g.1) (scopes args)
        → authorize e p git_path action ≡ true
    from (acts, fits) = through.1 (
        inl (
          sym same,
          inr (rw found.1 ((add_all_iff [] (scopes args) action).1 (inr acts))),
          paths_iff.1 fits,
        ))
