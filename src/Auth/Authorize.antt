-- ===== src/Auth/Authorize.antt =====
-- Whom Authorize lets through: each loop against the grants that it looks for.
use sealhub.Base.{
  ◌≡◌, ◌≢◌, ◌↔◌, ◌⊎◌, inl, inr, refl, sym, ◌∙◌, Bool, true, false, not, ◌&&◌, ◌||◌, ◌++◌, [], List,
  ◌∷◌, if◌then◌else◌, arith, Bool-cases, All, Any, any_iff, and_iff, or_iff, All-imp, nat_eq,
  length,
}
use sealhub.Base.Text.{Text, ◌==◌, eq_iff, trim_prefix}
use sealhub.Document.{data_dir, slash}
use sealhub.Auth.Pattern.{Covers, path_match, path_match_iff}
use sealhub.Auth.Engine.{
  Principal, token, oidc, IssuerRule, TokenRecord, Engine, token_allows_action, token_loop,
  requirement, ClaimReq, action_write, rule_grants, rule_loop, authorize,
}

-- The pattern covers the path, where each may begin with "data/".
abbrev pub Fits : Text → Text → Type 0
Fits path pattern = Covers (trim_prefix pattern data_dir) (trim_prefix path data_dir)

abbrev pub api_path_of : Text → Text
api_path_of git_path = trim_prefix (trim_prefix git_path slash) data_dir

-- A record without actions allows every action.
abbrev pub Allows : TokenRecord → Text → Type 0
Allows tr action = (tr.actions ≡ []) ⊎ Any (λ a. a ≡ action) tr.actions

abbrev pub TokenGrants : Text → Text → Text → TokenRecord → Type 0
TokenGrants id api_path action tr =
    (tr.id ≡ id) × Allows tr action × Any (λ pat. Fits api_path (trim_prefix pat data_dir)) tr.paths

abbrev pub DistinctIds : List TokenRecord → Type 0
DistinctIds [] = Unit
DistinctIds (tr ∷ trs) = All (λ u. tr.id ≢ u.id) trs × DistinctIds trs

length-eq-zero {ℓ} : {A : Type ℓ} (xs : List A) → (nat_eq (length xs) 0 ≡ true) ↔ (xs ≡ [])
length-eq-zero [] = (λ _. refl, λ _. refl)
length-eq-zero (x ∷ xs) = ground arith

token_allows_action_iff :
    (tr : TokenRecord) (action : Text) → (token_allows_action tr action ≡ true) ↔ Allows tr action
unfolding token_allows_action
token_allows_action_iff tr action = ground (
  arith,
  length-eq-zero tr.actions,
  any_iff (λ a. a == action) (λ a. a ≡ action) (λ a. eq_iff a action) tr.actions,
)

guarded : (a b c : Bool) → (if not a && not b then false else c) ≡ ((a || b) && c)
guarded a b c = ground arith

nested : (a b : Bool) → (if not a then false else if b then true else false) ≡ (a && b)
nested a b = ground arith

module _ {I P Q R : Type 0} where
  granted_iff :
      (a b : Bool)
      → ((a && b) ≡ true) ↔ (P × Q)
      → I
      → ¬ R
      → ((if not a then false else if b then true else false) ≡ true) ↔ ((I × P × Q) ⊎ R)
  granted_iff a b (to, from) i none_else = rw (nested a b) (λ e. inl (i, (to e).0, (to e).1), back)
    where
      back : (I × P × Q) ⊎ R → (a && b) ≡ true
      back (inl g) = from (g.1, g.2)
      back (inr r) = absurd (none_else r)

module _ {I P R : Type 0} where
  skipped_iff : ¬ I → P ↔ R → P ↔ (I ⊎ R)
  skipped_iff n (to, from) = (λ s. inr (to s), back)
    where
      back : I ⊎ R → P
      back (inl i) = absurd (n i)
      back (inr r) = from r

module _ (id api_path action : Text) where
  token_loop-unknown :
      (trs : List TokenRecord)
      → All (λ tr. tr.id ≢ id) trs
      → token_loop id api_path action trs ≡ false
  unfolding token_loop
  token_loop-unknown [] h = refl
  token_loop-unknown (tr ∷ trs) h = ground (arith, eq_iff tr.id id, token_loop-unknown trs h.1)

  not-Any-unknown :
      (trs : List TokenRecord)
      → All (λ tr. tr.id ≢ id) trs
      → ¬ Any (TokenGrants id api_path action) trs
  not-Any-unknown [] h a = a
  not-Any-unknown (tr ∷ trs) h (inl g) = h.0 g.0
  not-Any-unknown (tr ∷ trs) h (inr a) = not-Any-unknown trs h.1 a

  token_loop_iff :
      (trs : List TokenRecord)
      → DistinctIds trs
      → (token_loop id api_path action trs ≡ true) ↔ Any (TokenGrants id api_path action) trs
  unfolding token_loop
  token_loop_iff [] d = ground arith
  token_loop_iff (tr ∷ trs) d = elim (Bool-cases (tr.id == id)) [
    | inl same ↦
        let this : tr.id ≡ id = (eq_iff tr.id id).0 same in
        let others =
          All-imp (λ u. tr.id ≢ u.id) (λ u. u.id ≢ id) trs (λ u h e. h (this ∙ sym e)) d.0 in
        let granted =
          and_iff _ _ (token_allows_action_iff tr action)
            (any_iff _ _ (λ pat. path_match_iff api_path (trim_prefix pat data_dir)) tr.paths) in
        rw same (
          rw (token_loop-unknown trs others)
            (granted_iff _ _ granted this (not-Any-unknown trs others)))
    | inr other ↦
        rw other (skipped_iff (λ g. cc ((eq_iff tr.id id).1 g.0)) (token_loop_iff trs d.1))
  ]

-- Authorize lets a service token through exactly if a record with its identifier allows the action
-- and has a path that covers the document, given that the records have distinct identifiers.
pub authorize_token_iff :
    (e : Engine) (p : Principal) (git_path action : Text)
    → p.kind ≡ token
    → DistinctIds e.service_tokens
    → (authorize e p git_path action ≡ true)
      ↔ Any (TokenGrants p.id (api_path_of git_path) action) e.service_tokens
unfolding authorize
authorize_token_iff e p git_path action k d =
    rw k (token_loop_iff p.id (api_path_of git_path) action e.service_tokens d)

-- A requirement is met by anybody, or by the groups that it names.
abbrev IsMet : Principal → ClaimReq → Type 0
IsMet p req = (req.authenticated ≡ true) ⊎ Any (λ g. Any (λ pg. g ≡ pg) p.groups) req.groups

-- Writing asks for what the rule has for writers, and every other action for what it has for readers.
abbrev IsAdmitted : Principal → Text → IssuerRule → Type 0
IsAdmitted p action rule =
    ((action ≡ action_write) × IsMet p rule.write) ⊎ ((action ≢ action_write) × IsMet p rule.read)

-- A rule grants by one of its patterns, which covers the path, and by a requirement that is met.
abbrev pub RuleGrants : Principal → Text → Text → IssuerRule → Type 0
RuleGrants p api_path action rule =
    Any
      (λ pat.
        (Fits (data_dir ++ api_path) pat ⊎ Fits api_path (trim_prefix pat data_dir))
        × IsAdmitted p action rule)
      rule.paths

requirement_iff :
    (p : Principal) (action : Text) (rule : IssuerRule)
    → IsMet p (requirement rule action) ↔ IsAdmitted p action rule
requirement_iff p action rule = elim (Bool-cases (action == action_write)) [
  | inl e ↦
      (let k = (eq_iff action action_write).0 e in
        rw e (λ h. inl (k, h), λ h. elim h [ inl u ↦ u.1 | inr u ↦ absurd (u.0 k) ]))
  | inr e ↦
      (let k : action ≢ action_write = λ h. let z = (eq_iff action action_write).1 h in cc in
        rw e (λ h. inr (k, h), λ h. elim h [ inl u ↦ absurd (k u.0) | inr u ↦ u.1 ]))
]

rule_grants_iff :
    (p : Principal) (api_path action : Text) (rule : IssuerRule) (pat : Text)
    → (rule_grants p api_path action rule pat ≡ true) ↔ (
        (Fits (data_dir ++ api_path) pat ⊎ Fits api_path (trim_prefix pat data_dir))
        × IsAdmitted p action rule)
unfolding rule_grants
rule_grants_iff p api_path action rule pat =
    let req = requirement rule action in
    let met = requirement_iff p action rule in
    let asked =
      or_iff req.authenticated _ (λ h. h, λ h. h)
        (any_iff _ _ (λ g. any_iff _ _ (λ pg. eq_iff g pg) p.groups) req.groups) in
    let both =
      and_iff _ _
        (or_iff _ _ (path_match_iff (data_dir ++ api_path) pat)
          (path_match_iff api_path (trim_prefix pat data_dir)))
        (λ h. met.0 (asked.0 h), λ h. asked.1 (met.1 h)) in
    rw (guarded (path_match (data_dir ++ api_path) pat) _ _) both

rule_loop_iff :
    (p : Principal) (api_path action : Text) (rules : List IssuerRule)
    → (rule_loop p api_path action rules ≡ true) ↔ Any (RuleGrants p api_path action) rules
unfolding rule_loop
rule_loop_iff p api_path action [] = (λ e. cc, λ a. absurd a)
rule_loop_iff p api_path action (rule ∷ rules) =
    or_iff _ _ (any_iff _ _ (rule_grants_iff p api_path action rule) rule.paths)
      (rule_loop_iff p api_path action rules)

-- Authorize lets an OIDC principal through exactly if some rule has a pattern that covers the
-- document and its requirement is met, the one for writers where the action is to write and the one
-- for readers for any other action.
pub authorize_oidc_iff :
    (e : Engine) (p : Principal) (git_path action : Text)
    → p.kind ≡ oidc
    → (authorize e p git_path action ≡ true)
      ↔ Any (RuleGrants p (api_path_of git_path) action) e.issuer_rules
unfolding authorize
authorize_oidc_iff e p git_path action k =
    rw k (rule_loop_iff p (api_path_of git_path) action e.issuer_rules)
