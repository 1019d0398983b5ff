-- ===== src/Auth/Engine.antt =====
-- The engine of pkg/auth/auth.go: its state, the loading of tokens and issuers, and Authorize.
use sealhub.Base.{
  Bool, true, false, ◌&&◌, ◌||◌, not, List, [], ◌∷◌, ◌++◌, if◌then◌else◌, any, nat_eq, length,
}
use sealhub.Base.Text.{Text, codes, ◌==◌, trim_prefix}
use sealhub.Base.Result.{Result, ok, err, ◌>>=◌}
use sealhub.Document.{data_dir, slash}
use sealhub.Auth.Pattern.{path_match}

-- Action is a string type: the actions of a token record are compared with it as they stand.
abbrev pub action_read : Text
action_read = codes "read"

abbrev pub action_write : Text
action_write = codes "write"

-- The values of Principal.Kind.
pub data Kind : Type 0 where
  bootstrap token oidc : Kind

pub record Principal : Type 0 where
  pub kind : Kind
  pub id : Text
  pub groups : List Text

pub record ClaimReq : Type 0 where
  pub authenticated : Bool
  pub groups : List Text

pub record IssuerRule : Type 0 where
  pub paths : List Text
  pub read : ClaimReq
  pub write : ClaimReq

pub record IssuerConfig : Type 0 where
  pub name : Text
  pub issuer : Text
  pub audiences : List Text
  pub jwks_url : Text
  pub rules : List IssuerRule

-- `paths` and `actions` are the fields of Scopes.
pub record TokenRecord : Type 0 where
  pub id : Text
  pub hash : Text
  pub paths : List Text
  pub actions : List Text

pub record Engine : Type 0 where
  pub bootstrap_token : Text
  pub jwt_secret : Text
  pub service_tokens : List TokenRecord
  pub issuers : List IssuerConfig
  pub issuer_rules : List IssuerRule

unfoldable pub new_engine : Text → Text → Engine
new_engine first jwt_secret = record {
  bootstrap_token = first;
  jwt_secret = jwt_secret;
  service_tokens = [];
  issuers = [];
  issuer_rules = [];
}

-- What the program uses of yaml.v3 for the files under system/. `unmarshal_wrap` reads the field
-- document of an envelope.
pub record AuthYaml : Type 0 where
  pub unmarshal_wrap : Text → Result Text
  pub unmarshal_tokens : Text → Result (List TokenRecord)
  pub unmarshal_issuers : Text → Result (List IssuerConfig)

-- The body of an envelope, or the text itself where it has none.
unfoldable pub unwrap : AuthYaml → Text → Text
unwrap y raw = elim (y.unmarshal_wrap raw) [
  | ok document ↦ if document == [] then raw else document
  | err e ↦ raw
]

unfoldable pub load_tokens_yaml : AuthYaml → Text → Engine → Result Engine
unfolding unwrap
load_tokens_yaml y raw e = do
  tokens ← y.unmarshal_tokens (unwrap y raw)
  ok (record e { service_tokens = tokens })

abbrev pub all_rules : List IssuerConfig → List IssuerRule
all_rules [] = []
all_rules (i ∷ is) = i.rules ++ all_rules is

-- The second try reads the same text with the same function, so it fails like the first.
unfoldable pub load_issuers_yaml : AuthYaml → Text → Engine → Result Engine
unfolding unwrap
load_issuers_yaml y raw e = do
  issuers ← y.unmarshal_issuers (unwrap y raw)
  ok (record e { issuers = issuers; issuer_rules = all_rules issuers })

unfoldable pub token_allows_action : TokenRecord → Text → Bool
token_allows_action tr action = nat_eq (length tr.actions) 0 || any (λ a. a == action) tr.actions

-- The loop over the service tokens: only a record that allows the action and has no path that
-- matches lets the search go on behind a record with the identifier.
unfoldable pub token_loop : Text → Text → Text → List TokenRecord → Bool
unfolding token_allows_action
token_loop id api_path action [] = false
token_loop id api_path action (tr ∷ trs) =
    let rest = token_loop id api_path action trs in
    if not (tr.id == id)
    then rest
    else if not (token_allows_action tr action)
    then false
    else if any (λ pat. path_match api_path (trim_prefix pat data_dir)) tr.paths
    then true
    else rest

-- What a rule asks for an action.
abbrev pub requirement : IssuerRule → Text → ClaimReq
requirement rule action = if action == action_write then rule.write else rule.read

-- A pattern of a rule that matches and a requirement that is met.
unfoldable pub rule_grants : Principal → Text → Text → IssuerRule → Text → Bool
rule_grants p api_path action rule pat =
    if not (path_match (data_dir ++ api_path) pat)
      && not (path_match api_path (trim_prefix pat data_dir))
    then false
    else (let req = requirement rule action in
        req.authenticated || any (λ g. any (λ pg. g == pg) p.groups) req.groups)

unfoldable pub rule_loop : Principal → Text → Text → List IssuerRule → Bool
unfolding rule_grants
rule_loop p api_path action [] = false
rule_loop p api_path action (rule ∷ rules) =
    any (rule_grants p api_path action rule) rule.paths || rule_loop p api_path action rules

unfoldable pub authorize : Engine → Principal → Text → Text → Bool
unfolding token_loop rule_loop
authorize e p git_path action =
    let api_path = trim_prefix (trim_prefix git_path slash) data_dir in
    elim p.kind [
      | bootstrap ↦ true
      | token ↦ token_loop p.id api_path action e.service_tokens
      | oidc ↦ rule_loop p api_path action e.issuer_rules
    ]
