-- ===== src/Api/Confined/Events.antt =====
-- The handler of the changes is confined.
use sealhub.Base.{◌≡◌, inl, inr, refl, true, Option, none, some, List, [], ◌∷◌, Any, Bool-cases}
use sealhub.Base.Text.{Text, codes, ◌==◌}
use sealhub.Document.{git_path}
use sealhub.Changes.{Event, subscribe}
use sealhub.Auth.Engine.{Engine, Principal, authorize, action_read}
use sealhub.Store.Git.{Outside}
use sealhub.Api.Types.{Request, Answer, Server, Web, event_stream}
use sealhub.Api.Events.{
  visible, wants_stream, flushes, stream_buffer, broker_of, with_broker, asked, open_stream,
  handle_changes,
}
use sealhub.Api.Confined.{Confined}
use sealhub.Api.Confined.Answers.{quiet, returned}

visible-Reads :
    (e : Engine) (p : Principal) (evs : List Event) (q : Text)
    → Any (λ ev. ev.path ≡ q) (visible e p evs)
    → authorize e p (git_path q) action_read ≡ true
unfolding visible
visible-Reads e p (ev ∷ evs) q h =
    elim (Bool-cases (authorize e p (git_path ev.path) action_read)) [
      | inr no_grant ↦ visible-Reads e p evs q (rw (no_grant, visible) at h)
      | inl grant ↦ elim (rw (grant, visible) at h) [
        | inl same ↦ rw (← same) grant
        | inr later ↦ visible-Reads e p evs q later
      ]
    ]
visible-Reads e p [] q h = absurd h

module _ (o : Outside) (w : Web) (r : Request) where
  stream_Confined :
      (p : Principal) (s : Server o) (a : Answer) (s' : Server o)
      → open_stream o w r p s ≡ some (a, s')
      → Confined o r (some p) s a s'
  unfolding open_stream
  stream_Confined p s a s' h = elim (Bool-cases (flushes w)) [
    | inr no_flush ↦
        returned o r (some p) s a _ _ s' (quiet o r (some p) s _ _ (λ q d. d) refl)
          (rw (no_flush, open_stream) at h)
    | inl flush ↦
        let (ch, b) = subscribe stream_buffer (broker_of o w s) in
        returned o r (some p) s a
          (record { status = 200; body = event_stream (asked o w r p s) ch }) (with_broker o w b s)
          s'
          (record { kept = inl (refl, refl); told = λ q d. inl (visible-Reads s.engine p _ q d) })
          (rw (flush, open_stream) at h)
  ]

  pub handle_changes-Confined :
      (who : Option Principal) (s : Server o) (a : Answer) (s' : Server o)
      → handle_changes o w r who s ≡ some (a, s')
      → Confined o r who s a s'
  unfolding handle_changes
  handle_changes-Confined none s a s' h = elim (Bool-cases (r.method == codes "GET")) [
    | inr other ↦
        returned o r none s a _ _ s' (quiet o r none s _ _ (λ q d. d) refl)
          (rw (other, handle_changes) at h)
    | inl get ↦
        returned o r none s a _ _ s' (quiet o r none s _ _ (λ q d. d) refl)
          (rw (get, handle_changes) at h)
  ]
  handle_changes-Confined (some p) s a s' h = elim (Bool-cases (r.method == codes "GET")) [
    | inr other ↦
        returned o r (some p) s a _ _ s' (quiet o r (some p) s _ _ (λ q d. d) refl)
          (rw (other, handle_changes) at h)
    | inl get ↦ elim (Bool-cases (wants_stream r)) [
      | inr once ↦
          returned o r (some p) s a _ _ s'
            (record { kept = inl (refl, refl); told = λ q d. inl (visible-Reads s.engine p _ q d) })
            (rw (get, once, handle_changes) at h)
      | inl stream ↦ stream_Confined p s a s' (rw (get, stream, handle_changes) at h)
    ]
  ]
