-- ===== src/Operator/Synced.antt =====
-- What a reconciliation leaves in the cluster, and when it asks to be called again.
use mathlib.Core.Path.{subst}
use sealhub.Base.{◌≡◌, ◌≢◌, ◌⊎◌, inl, inr, sym, true, [], Bool-cases}
use sealhub.Base.Text.{Text}
use sealhub.Base.Int.{Int64}
use sealhub.Base.Action.{after-eq-ok}
use sealhub.Base.Result.{Error, ok, err, Result-cases}
use sealhub.Document.{Envelope}
use sealhub.Client.Types.{Http, new_client}
use sealhub.Client.Calls.{get}
use sealhub.Operator.Intervals.{Due, interval_of-Due}
use sealhub.Operator.Reconcile.{
  HubPull, ObjectKind, Object, Cluster, target_kind, token_for, render_target, apply_rendered,
  interval_of, sync_document, sync_pull, reconcile,
}

module _ (h : Http) (k : Cluster h) where
  -- The cluster took the object: it made one of its name where it had none, or changed the one that it
  -- had, as of its version.
  abbrev pub Taken : ObjectKind → Object → h.World → h.World → Type 0
  Taken kind object w w' =
      ((x : Error) × (k.get_object kind object.namespace object.name w ≡ err x)
        × (k.is_not_found x ≡ true)
        × (k.create kind object w ≡ (ok tt, w')))
      ⊎ ((existing : Object) × (k.get_object kind object.namespace object.name w ≡ ok existing)
          × (k.update kind (record object { resource_version = existing.resource_version }) w
              ≡ (ok tt, w')))

  -- From the world in which the document came to the end: the object that the template makes of it was
  -- taken, of the kind of the pull, in its namespace, and of its name where it has none of its own; then
  -- the status of the pull was updated with the version of the document.
  pub record Synced (pull : HubPull) (env : Envelope) (w w' : h.World) : Type 0 where
    pub rendered : Text
    pub template : k.Template
    pub parses : k.parse_template pull.template ≡ ok template
    pub renders :
        k.execute template env.document (k.unmarshal_any env.document) env.metadata ≡ ok rendered
    pub kind : ObjectKind
    pub of_kind : target_kind (k.to_lower pull.kind) (k.quote pull.kind) ≡ ok kind
    pub object : Object
    pub read : k.unmarshal_object kind rendered ≡ ok object
    pub name : Text
    pub named :
        ((object.name ≡ []) × (name ≡ pull.name)) ⊎ ((object.name ≢ []) × (name ≡ object.name))
    pub changed : h.World
    pub taken : Taken kind (record object { namespace = pull.namespace; name = name }) w changed
    pub status :
        (k.update_status
          (record pull { observed_version = env.metadata.version; last_sync_time = k.now changed })
          changed).1
        ≡ w'

  sync_pull-interval :
      (pull : HubPull) (w w' : h.World) (d : Int64)
      → sync_pull h k pull w ≡ (ok d, w')
      → d ≡ interval_of h k pull
  unfolding sync_pull sync_document
  sync_pull-interval pull w w' d e =
      let (tok, w1, token, e1) = after-eq-ok (token_for h k pull w, w) _ e in
      let (env, w2, got, e2) =
        after-eq-ok (get h (new_client pull.server tok) pull.document_path w1) _ e1 in
      let (rendered, w3, renders, e3) =
        after-eq-ok (render_target h k pull.template env, w2) _ e2 in
      let (u, w4, applied, e4) = after-eq-ok (apply_rendered h k pull rendered w3) _ e3 in cc

  -- What a reconciliation of a pull went through.
  pub record Reconciled (pull : HubPull) (w w' : h.World) : Type 0 where
    pub tok : Text
    pub token : token_for h k pull w ≡ ok tok
    pub env : Envelope
    pub got_at : h.World
    pub got : get h (new_client pull.server tok) pull.document_path w ≡ (ok env, got_at)
    pub synced : Synced pull env got_at w'

  -- If Reconcile succeeds, then the pull was not found, nothing changed and it is not called again, or
  -- the pull is there and is looked at again: after two minutes where it is watched and asks for more
  -- than that, and otherwise after the interval that it asks for, which is five minutes where its text
  -- is empty or cannot be read.
  pub reconcile-interval :
      (namespace name : Text) (w w' : h.World) (d : Int64)
      → reconcile h k namespace name w ≡ (ok d, w')
      → ((x : Error) × (k.get_pull namespace name w ≡ err x)
          × (k.is_not_found x ≡ true)
          × (d ≡ 0)
          × (w' ≡ w))
        ⊎ ((pull : HubPull) × (k.get_pull namespace name w ≡ ok pull) × Due h k pull d)
  unfolding reconcile
  reconcile-interval namespace name w w' d e = elim (Result-cases (k.get_pull namespace name w)) [
    | inr (x, z) ↦ elim (Bool-cases (k.is_not_found x)) [
      | inl gone ↦ (let f = rw (z, gone, reconcile) at e in inl (x, z, gone, cc, cc))
      | inr n ↦ (let f = rw (z, n, reconcile) at e in cc)
    ]
    | inl (pull, z) ↦
        let again = sync_pull-interval pull w w' d (rw (z, reconcile) at e) in
        inr (pull, z, subst (Due h k pull) (sym again) (interval_of-Due h k pull))
  ]
