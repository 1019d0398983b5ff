-- ===== src/Api/Forwarded.antt =====
-- The loop of a stream of pkg/api/server.go: which of the events of its channel it writes.
use sealhub.Base.{
  ◌≡◌, inl, inr, sym, ◌∙◌, true, false, not, ◌&&◌, All, List, [], ◌∷◌, ◌++◌, Bool-cases, ap,
}
use mathlib.Core.List.{append-nil}
use sealhub.Base.Text.{Text, ◌==◌, eq_iff, has_prefix, has_prefix_iff}
use sealhub.Document.{git_path}
use sealhub.Changes.{Event}
use sealhub.Auth.Engine.{Engine, Principal, action_read}
use sealhub.Auth.Authorize.{DistinctIds}
use sealhub.Auth.Grants.{Grants, authorize-Grants, Grants-authorize}
use sealhub.Api.Events.{forwards, forward_loop}

-- The path is below the prefix, and the principal is granted to read the document.
pub record MayPass (prefix : Text) (p : Principal) (e : Engine) (ev : Event) : Type 0 where
  pub below : (rest : Text) × (ev.path ≡ prefix ++ rest)
  pub granted : Grants e p (git_path ev.path) action_read

-- What is written of the events that came, each with the engine as it was when it came.
pub data Forwarded (prefix : Text) (p : Principal)
    : List (Engine × Event) → List Event → Type 0 where
  none_left : Forwarded prefix p [] []
  sent :
      {e : Engine} {ev : Event} {came : List (Engine × Event)} {out : List Event}
      → MayPass prefix p e ev
      → Forwarded prefix p came out
      → Forwarded prefix p ((e, ev) ∷ came) (ev ∷ out)
  held :
      {e : Engine} {ev : Event} {came : List (Engine × Event)} {out : List Event}
      → ¬ MayPass prefix p e ev
      → Forwarded prefix p came out
      → Forwarded prefix p ((e, ev) ∷ came) out

module _ (prefix : Text) (p : Principal) where
  below_of :
      (path : Text)
      → (not (prefix == []) && not (has_prefix path prefix) && not (path == prefix)) ≡ false
      → (rest : Text) × (path ≡ prefix ++ rest)
  below_of path h = elim (Bool-cases (prefix == [])) [
    | inl e ↦ (path, ap (λ q. q ++ path) (sym ((eq_iff prefix []).0 e)))
    | inr n ↦ elim (Bool-cases (has_prefix path prefix)) [
      | inl begins ↦ (has_prefix_iff path prefix).0 begins
      | inr apart ↦ elim (Bool-cases (path == prefix)) [
        | inl e ↦ ([], (eq_iff path prefix).0 e ∙ sym (append-nil prefix))
        | inr m ↦ (let h' = rw (n, apart, m) at h in cc)
      ]
    ]
  ]

  forwards-MayPass :
      (e : Engine) (ev : Event)
      → DistinctIds e.service_tokens
      → forwards prefix e p ev ≡ true
      → MayPass prefix p e ev
  unfolding forwards
  forwards-MayPass e ev d h =
      elim (Bool-cases
        (not (prefix == []) && not (has_prefix ev.path prefix) && not (ev.path == prefix))) [
          | inl out ↦ (let h' = rw (out, forwards) at h in cc)
          | inr within ↦ record {
            below = below_of ev.path within;
            granted =
                authorize-Grants e p (git_path ev.path) action_read d (rw (within, forwards) at h);
          }
        ]

  MayPass-forwards :
      (e : Engine) (ev : Event)
      → DistinctIds e.service_tokens
      → MayPass prefix p e ev
      → forwards prefix e p ev ≡ true
  unfolding forwards
  MayPass-forwards e ev d m =
      let begins = (has_prefix_iff ev.path prefix).1 m.below in
      let allowed = Grants-authorize e p (git_path ev.path) action_read d m.granted in
      elim (Bool-cases (prefix == [])) [
        | inl e ↦ rw (e, forwards) allowed
        | inr n ↦ rw (n, forwards, begins) allowed
      ]

  -- With service tokens of distinct identifiers in the engine at each event: a stream writes, in the
  -- order in which they came, exactly the events whose path begins with the prefix that was asked for
  -- and that its principal is granted to read by the engine as it is when the event comes.
  pub forward_loop-Forwarded :
      (received : List (Engine × Event))
      → All (λ (e, _). DistinctIds e.service_tokens) received
      → Forwarded prefix p received (forward_loop prefix p received)
  unfolding forward_loop
  forward_loop-Forwarded [] d = none_left
  forward_loop-Forwarded ((e, ev) ∷ received) (d, ds) =
      let rest = forward_loop-Forwarded received ds in
      elim (Bool-cases (forwards prefix e p ev)) [
        | inl goes ↦ rw goes (sent (forwards-MayPass e ev d goes) rest)
        | inr stays ↦ rw stays (held (λ m. let z = MayPass-forwards e ev d m in cc) rest)
      ]
