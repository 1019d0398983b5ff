-- ===== src/Auth/Grants.antt =====
-- What a principal is granted, by its kind, and that Authorize grants this.
use sealhub.Base.{◌≡◌, refl, true, Any}
use sealhub.Base.Text.{Text}
use sealhub.Auth.Engine.{Kind, Principal, bootstrap, token, oidc, Engine, authorize}
use sealhub.Auth.Authorize.{
  api_path_of, DistinctIds, TokenGrants, RuleGrants, authorize_token_iff, authorize_oidc_iff,
}

-- The bootstrap principal may do everything, a service token what a record of its identifier grants,
-- and an OIDC principal what a rule grants.
abbrev pub GrantsTo : Kind → Engine → Principal → Text → Text → Type 0
GrantsTo bootstrap e p git_path action = Unit
GrantsTo token e p git_path action =
    Any (TokenGrants p.id (api_path_of git_path) action) e.service_tokens
GrantsTo oidc e p git_path action = Any (RuleGrants p (api_path_of git_path) action) e.issuer_rules

abbrev pub Grants : Engine → Principal → Text → Text → Type 0
Grants e p = GrantsTo p.kind e p

pub authorize-Grants :
    (e : Engine) (p : Principal) (git_path action : Text)
    → DistinctIds e.service_tokens
    → authorize e p git_path action ≡ true
    → Grants e p git_path action
authorize-Grants e p git_path action d h = go p.kind refl
  where
    go : (k : Kind) → p.kind ≡ k → GrantsTo k e p git_path action
    go bootstrap k = tt
    go token k = (authorize_token_iff e p git_path action k d).0 h
    go oidc k = (authorize_oidc_iff e p git_path action k).0 h

pub Grants-authorize :
    (e : Engine) (p : Principal) (git_path action : Text)
    → DistinctIds e.service_tokens
    → Grants e p git_path action
    → authorize e p git_path action ≡ true
unfolding authorize
Grants-authorize e p git_path action d h = go p.kind refl h
  where
    go :
        (k : Kind)
        → p.kind ≡ k
        → GrantsTo k e p git_path action
        → authorize e p git_path action ≡ true
    go bootstrap k g = rw (k, authorize) refl
    go token k g = (authorize_token_iff e p git_path action k d).1 g
    go oidc k g = (authorize_oidc_iff e p git_path action k).1 g
