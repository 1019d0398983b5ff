-- ===== src/Config/Loading.antt =====
-- What a configuration that was loaded has.
use mathlib.Core.Path.{subst}
use sealhub.Base.{
  ◌≡◌, ◌≢◌, ◌↔◌, ◌⊎◌, inl, inr, refl, sym, Bool, true, false, ◌&&◌, ◌||◌, [], arith, Bool-cases,
}
use sealhub.Base.Text.{Text, codes, ◌==◌, eq_iff, eq_refl}
use sealhub.Base.Result.{Result, ok, ok-injective, ◌>>=◌, >>=-eq-ok}
use sealhub.Config.{Config, default_to, apply_defaults, require, validate, load}

-- What the checks ask for: the settings without a default, and the file of the token where the
-- repository is not reached over SSH or another type of access.
pub record IsComplete (c : Config) : Type 0 where
  pub external_url : c.server.external_url ≢ []
  pub owner : c.github.owner ≢ []
  pub repo : c.github.repo ≢ []
  pub pat_file :
      (c.github.auth.type ≡ []) ⊎ (c.github.auth.type ≡ codes "pat") → c.github.auth.pat_file ≢ []
  pub local_path : c.git.local_path ≢ []
  pub keyring_file : c.encryption.keyring_file ≢ []

require_iff : (missing : Bool) (what : Text) → (require missing what ≡ ok tt) ↔ (missing ≡ false)
require_iff true what = (λ h. cc, λ h. cc)
require_iff false what = (λ h. refl, λ h. refl)

empty_iff : (t : Text) → ((t == []) ≡ false) ↔ (t ≢ [])
empty_iff t = ground (arith, eq_iff t [])

-- The defaults are set in a configuration.
pub record HasDefaults (c : Config) : Type 0 where
  pub listen : c.server.listen ≢ []
  pub branch : c.github.branch ≢ []
  pub commit_name : c.git.commit_name ≢ []
  pub commit_email : c.git.commit_email ≢ []
  pub poll_interval : c.freshness.poll_interval ≢ []

default_to-ne : (d x : Text) → d ≢ [] → default_to d x ≢ []
default_to-ne d x h = elim (Bool-cases (x == [])) [
  | inl e ↦ rw e h
  | inr e ↦ rw e ((empty_iff x).0 e)
]

apply_defaults-HasDefaults : (tok : Text) (c : Config) → HasDefaults (apply_defaults tok c)
unfolding apply_defaults
apply_defaults-HasDefaults tok c = record {
  listen = default_to-ne _ c.server.listen (λ h. cc);
  branch = default_to-ne _ c.github.branch (λ h. cc);
  commit_name = default_to-ne _ c.git.commit_name (λ h. cc);
  commit_email = default_to-ne _ c.git.commit_email (λ h. cc);
  poll_interval = default_to-ne _ c.freshness.poll_interval (λ h. cc);
}

pat_iff :
    (t file : Text)
    → ((default_to (codes "pat") t == codes "pat" && file == []) ≡ false)
      ↔ ((t ≡ []) ⊎ (t ≡ codes "pat") → file ≢ [])
pat_iff t file = elim (Bool-cases (t == [])) [
  | inl e ↦
      (let k = (eq_iff t []).0 e in
        rw (e, eq_refl (codes "pat"))
          ((λ h _. (empty_iff file).0 h), λ h. (empty_iff file).1 (h (inl k))))
  | inr e ↦ elim (Bool-cases (t == codes "pat")) [
    | inl p ↦
        (let k = (eq_iff t (codes "pat")).0 p in
          rw (e, p) ((λ h _. (empty_iff file).0 h), λ h. (empty_iff file).1 (h (inr k))))
    | inr p ↦
        rw (e, p)
          (
            (λ _ u. elim u [
              | inl z ↦ absurd ((empty_iff t).0 e z)
              | inr z ↦ (let q = (eq_iff t (codes "pat")).1 z in cc)
            ]),
            λ _. refl,
          )
  ]
]

chain_iff :
    (a b1 b2 p l k : Bool) (w1 w2 w3 w4 w5 : Text)
    → ((require a w1 >>= λ _.
          require (b1 || b2) w2 >>= λ _. require p w3 >>= λ _. require l w4 >>= λ _. require k w5)
        ≡ ok tt)
      ↔ ((a ≡ false) × (b1 ≡ false) × (b2 ≡ false) × (p ≡ false) × (l ≡ false) × (k ≡ false))
chain_iff a b1 b2 p l k w1 w2 w3 w4 w5 = ground arith

validate_iff : (c : Config) → (validate c ≡ ok tt) ↔ IsComplete c
unfolding validate
validate_iff c =
    let chain =
      chain_iff (c.server.external_url == []) (c.github.owner == []) (c.github.repo == [])
        (default_to (codes "pat") c.github.auth.type == codes "pat" && c.github.auth.pat_file == [])
        (c.git.local_path == []) (c.encryption.keyring_file == []) (codes "server.externalURL")
        (codes "github.owner and github.repo") (codes "github.auth.patFile") (codes "git.localPath")
        (codes "encryption.keyringFile") in
    (
      λ h.
          let (a, b1, b2, p, l, k) = chain.0 h in
          record {
            external_url = (empty_iff c.server.external_url).0 a;
            owner = (empty_iff c.github.owner).0 b1;
            repo = (empty_iff c.github.repo).0 b2;
            pat_file = (pat_iff c.github.auth.type c.github.auth.pat_file).0 p;
            local_path = (empty_iff c.git.local_path).0 l;
            keyring_file = (empty_iff c.encryption.keyring_file).0 k;
          },
      λ v. chain.1 (
        (empty_iff c.server.external_url).1 v.external_url,
        (empty_iff c.github.owner).1 v.owner,
        (empty_iff c.github.repo).1 v.repo,
        (pat_iff c.github.auth.type c.github.auth.pat_file).1 v.pat_file,
        (empty_iff c.git.local_path).1 v.local_path,
        (empty_iff c.encryption.keyring_file).1 v.keyring_file,
      ),
    )

-- A file loads exactly if yaml reads it and, with its defaults, it has the settings that the checks
-- ask for; the configuration is then what yaml read with its defaults, none of which is empty.
pub load_iff :
    (unmarshal : Text → Result Config) (tok raw : Text) (c : Config)
    → (load unmarshal tok (ok raw) ≡ ok c) ↔ (
        (given : Config) × (unmarshal raw ≡ ok given)
        × (apply_defaults tok given ≡ c)
        × IsComplete c
        × HasDefaults c)
unfolding load
load_iff unmarshal tok raw c = (to, from)
  where
    to :
        load unmarshal tok (ok raw) ≡ ok c
        → (given : Config) × (unmarshal raw ≡ ok given)
          × (apply_defaults tok given ≡ c)
          × IsComplete c
          × HasDefaults c
    to h =
        let (given, read, h1) = >>=-eq-ok (unmarshal raw) _ h in
        let (_, valid, h2) = >>=-eq-ok (validate (apply_defaults tok given)) _ h1 in
        let same = ok-injective h2 in
        (
          given,
          read,
          same,
          subst IsComplete same ((validate_iff (apply_defaults tok given)).0 valid),
          subst HasDefaults same (apply_defaults-HasDefaults tok given),
        )

    from :
        (given : Config) × (unmarshal raw ≡ ok given)
          × (apply_defaults tok given ≡ c)
          × IsComplete c
          × HasDefaults c
        → load unmarshal tok (ok raw) ≡ ok c
    from (given, read, same, complete, _) =
        let valid =
          (validate_iff (apply_defaults tok given)).1 (subst IsComplete (sym same) complete) in
        rw (read, load, valid, same) refl
