-- ===== src/Pocket/Uploaded.antt =====
-- What a backup that succeeded sent.
use sealhub.Base.{◌⊎◌, [], ◌∷◌, ◌≡◌, ◌≢◌, refl, sym, ap, Bool, true, false, if◌then◌else◌}
use sealhub.Base.Text.{Text, codes}
use sealhub.Base.Action.{after-eq-ok}
use sealhub.Base.Result.{Result, ok, err}
use sealhub.Document.{Envelope}
use sealhub.Client.Types.{Http, Client}
use sealhub.Client.Calls.{apply}
use sealhub.Backup.{encode_backup, db_document_path, env_document_path}
use sealhub.Pocket.Machine.{
  Options, Machine, data_dir, db_file, stop_pocket_id, start_pocket_id, compose_run,
  snapshot_database,
}
use sealhub.Pocket.Transfer.{env_request, db_request, with_stopped, told}

module _ (h : Http) (m : Machine h) where
  pub told-eq-ok :
      {A : Type 0} (t : Text) (r : Result A × h.World) {a : A} {w : h.World}
      → told h m t r ≡ (ok a, w)
      → r ≡ (ok a, w)
  told-eq-ok t (err x, w) e = cc
  told-eq-ok t (ok a, w) e = e

  -- What a write and a removal do to the files.
  pub record IsDisk : Type 0 where
    pub reads_written :
        (p t : Text) (w w' : h.World) → m.write_file p t w ≡ (ok tt, w') → m.read_file p w' ≡ ok t
    pub leaves :
        (p q t : Text) (w : h.World)
        → q ≢ p
        → m.read_file q (m.write_file p t w).1 ≡ m.read_file q w
    pub removes :
        (p q : Text) (w : h.World) → q ≢ p → m.read_file q (m.remove p w) ≡ m.read_file q w

  -- What a copy and its upload went through, from the world in which the copy was begun to the one in
  -- which both documents were sent.
  pub record Uploaded (c : Client) (opt : Options) (env copied : Text) (taken behind : h.World)
      : Type 0 where
    pub db : Text
    pub doc : Text
    pub snapped : h.World
    pub copies :
        snapshot_database h m (data_dir opt.home) copied opt.stop_compose taken ≡ (ok tt, snapped)
    pub as_taken : opt.stop_compose ≡ true → m.read_file (db_file opt.home) taken ≡ ok db
    pub copied_db : m.read_file copied snapped ≡ ok db
    pub encoded : encode_backup m.formats (m.now snapped) db opt.home ≡ ok doc
    pub between : h.World
    pub env_kept : Envelope
    pub db_kept : Envelope
    pub env_sent :
        apply h c (env_document_path opt.instance_name) (env_request env) snapped
        ≡ (ok env_kept, between)
    pub db_sent :
        apply h c (db_document_path opt.instance_name) (db_request doc) between
        ≡ (ok db_kept, behind)

  pub with_stopped-eq-ok :
      (stop : Bool) (home : Text) (body : h.World → Result (Unit {0}) × h.World) (w w' : h.World)
      → with_stopped h m stop home body w ≡ (ok tt, w')
      → (w1 w2 : h.World) × (body w1 ≡ (ok tt, w2))
        × (w' ≡ (if stop then (start_pocket_id h m home w2).1 else w2))
  unfolding with_stopped
  with_stopped-eq-ok false home body w w' e = (w, w', e, refl)
  with_stopped-eq-ok true home body w w' e =
      let (u, w1, stopped, e1) = after-eq-ok (stop_pocket_id h m home w) _ e in
      let good : (body w1).0 ≡ ok tt = ap (λ p. p.0) e1 in
      (w1, (body w1).1, ap (λ r. (r, (body w1).1)) good, sym (ap (λ p. p.1) e1))

  -- What a backup went through, from the world in which it was begun to the one in which it ended.
  pub record BackedUp (c : Client) (opt : Options) (env : Text) (w w' : h.World) : Type 0 where
    pub quiet : h.World
    pub stopped :
        ((opt.stop_compose ≡ true)
          × (compose_run h m opt.home (codes "stop" ∷ codes "pocket-id" ∷ []) w ≡ (ok tt, quiet)))
        ⊎ ((opt.stop_compose ≡ false) × (quiet ≡ w))
    pub copied : Text
    pub taken : h.World
    pub made : m.create_temp quiet ≡ (ok copied, taken)
    pub behind : h.World
    pub uploaded : Uploaded c opt env copied taken behind
    pub again :
        ((opt.stop_compose ≡ true)
          × ((compose_run h m opt.home
                (codes "up" ∷ codes "-d" ∷ codes "pocket-id" ∷ [])
                (m.remove copied behind)).1
              ≡ w'))
        ⊎ ((opt.stop_compose ≡ false) × (m.remove copied behind ≡ w'))
