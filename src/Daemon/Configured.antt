-- ===== src/Daemon/Configured.antt =====
-- The settings of the store that hubd opens, against the configuration.
use sealhub.Base.{◌≢◌, ◌↔◌, ◌∙◌, Bool-cases, false, [], sym, ◌≡◌, refl, true, inl, inr}
use sealhub.Base.Text.{Text, codes, ◌==◌, eq_iff, cut_prefix}
use sealhub.Crypto.{KeyRing}
use sealhub.Config.{Config, git_auth_ssh, clone_url}
use sealhub.Store.Git.{GitStore}
use sealhub.Store.Opening.{new_git_store}
use sealhub.Store.Serving.{settings}
use sealhub.Daemon.{store_options}

-- The settings of a store, by the configuration and the keys.
pub record IsConfigured (cfg : Config) (kr : KeyRing) (st : GitStore) : Type 0 where
  pub ready : st.ready ≡ true
  pub work_dir : st.work_dir ≡ cfg.git.local_path
  pub branch : st.branch ≡ cfg.github.branch
  pub pat_file : st.pat_file ≡ cfg.github.auth.pat_file
  pub keyring : st.keyring ≡ kr
  pub by_ssh : (st.use_ssh ≡ true) ↔ (cfg.github.auth.type ≡ codes "ssh")
  pub name_given : cfg.git.commit_name ≢ [] → st.commit_name ≡ cfg.git.commit_name
  pub name_missing : cfg.git.commit_name ≡ [] → st.commit_name ≡ codes "SealHub hubd"
  pub email_given : cfg.git.commit_email ≢ [] → st.commit_email ≡ cfg.git.commit_email
  pub email_missing : cfg.git.commit_email ≡ [] → st.commit_email ≡ codes "sealhub@localhost"

unset : (t : Text) → t ≢ [] → (t == []) ≡ false
unset t n = elim (Bool-cases (t == [])) [ inl e ↦ absurd (n ((eq_iff t []).0 e)) | inr e ↦ e ]

by_ssh :
    (cfg : Config) (kr : KeyRing)
    → ((new_git_store (store_options cfg kr)).use_ssh ≡ true) ↔ (cfg.github.auth.type ≡ codes "ssh")
unfolding new_git_store store_options git_auth_ssh clone_url cut_prefix
by_ssh cfg kr =
    let is = eq_iff cfg.github.auth.type (codes "ssh") in
    elim (Bool-cases (cfg.github.auth.type == codes "ssh")) [
      | inl e ↦ rw (e, new_git_store) ((λ h. is.0 e), (λ h. refl))
      | inr e ↦ rw (e, new_git_store) ((λ h. cc), (λ h. let z = is.1 h in cc))
    ]

pub store_options-IsConfigured :
    (cfg : Config) (kr : KeyRing)
    → IsConfigured cfg kr (record (new_git_store (store_options cfg kr)) { ready = true })
unfolding new_git_store store_options
store_options-IsConfigured cfg kr = record {
  ready = refl;
  work_dir = refl;
  branch = refl;
  pat_file = refl;
  keyring = refl;
  by_ssh = by_ssh cfg kr;
  name_given = λ n. rw (unset cfg.git.commit_name n) refl;
  name_missing = λ e. rw ((eq_iff cfg.git.commit_name []).1 e) refl;
  email_given = λ n. rw (unset cfg.git.commit_email n) refl;
  email_missing = λ e. rw ((eq_iff cfg.git.commit_email []).1 e) refl;
}

pub same-IsConfigured :
    (cfg : Config) (kr : KeyRing) (a b : GitStore)
    → settings a ≡ settings b
    → IsConfigured cfg kr b
    → IsConfigured cfg kr a
same-IsConfigured cfg kr a b e v =
    let work_dir : a.work_dir ≡ b.work_dir = cc in
    let branch : a.branch ≡ b.branch = cc in
    let pat_file : a.pat_file ≡ b.pat_file = cc in
    let keyring : a.keyring ≡ b.keyring = cc in
    let ready : a.ready ≡ b.ready = cc in
    let use_ssh : a.use_ssh ≡ b.use_ssh = cc in
    let name : a.commit_name ≡ b.commit_name = cc in
    let email : a.commit_email ≡ b.commit_email = cc in
    record {
      ready = ready ∙ v.ready;
      work_dir = work_dir ∙ v.work_dir;
      branch = branch ∙ v.branch;
      pat_file = pat_file ∙ v.pat_file;
      keyring = keyring ∙ v.keyring;
      by_ssh = ((λ h. v.by_ssh.0 (sym use_ssh ∙ h)), (λ h. use_ssh ∙ v.by_ssh.1 h));
      name_given = λ n. name ∙ v.name_given n;
      name_missing = λ n. name ∙ v.name_missing n;
      email_given = λ n. email ∙ v.email_given n;
      email_missing = λ n. email ∙ v.email_missing n;
    }
