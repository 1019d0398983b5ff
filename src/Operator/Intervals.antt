-- ===== src/Operator/Intervals.antt =====
-- When a pull is looked at again, by what it asks for.
use sealhub.Base.{
  ◌≡◌, ◌≢◌, ◌⊎◌, inl, inr, refl, Bool, true, false, Option, none, some, [], Bool-cases,
}
use sealhub.Base.Text.{◌==◌, eq_iff}
use sealhub.Base.Int.{Int64, lt_int}
use sealhub.Base.Result.{Error, ok, err, Result-cases}
use sealhub.Client.Types.{Http}
use sealhub.Operator.Reconcile.{
  HubPull, Cluster, two_minutes, five_minutes, is_watched, asked_interval, interval_of,
}

-- The interval that a pull asks for: the one of its text, or five minutes where there is none that can
-- be read.
pub data Asks (h : Http) (k : Cluster h) (pull : HubPull) : Int64 → Type 0 where
  none_given : pull.refresh_interval ≡ [] → Asks h k pull five_minutes
  unreadable :
      {x : Error}
      → pull.refresh_interval ≢ []
      → k.parse_duration pull.refresh_interval ≡ err x
      → Asks h k pull five_minutes
  readable :
      {d : Int64}
      → pull.refresh_interval ≢ []
      → k.parse_duration pull.refresh_interval ≡ ok d
      → Asks h k pull d

-- A pull is watched, unless it says that it is not.
abbrev pub Watched : HubPull → Type 0
Watched pull = pull.watch ≢ some false

module _ (h : Http) (k : Cluster h) where
  asked_interval-Asks : (pull : HubPull) → Asks h k pull (asked_interval h k pull)
  unfolding asked_interval
  asked_interval-Asks pull = elim (Bool-cases (pull.refresh_interval == [])) [
    | inl e ↦ rw (e, asked_interval) (none_given ((eq_iff pull.refresh_interval []).0 e))
    | inr e ↦
        let given : pull.refresh_interval ≢ [] =
          λ z. let f = (eq_iff pull.refresh_interval []).1 z in cc in
        elim (Result-cases (k.parse_duration pull.refresh_interval)) [
          | inl (d, z) ↦ rw (e, z, asked_interval) (readable given z)
          | inr (x, z) ↦ rw (e, z, asked_interval) (unreadable given z)
        ]
  ]

  is_watched-Watched :
      (pull : HubPull)
      → ((is_watched pull ≡ true) × Watched pull) ⊎ ((is_watched pull ≡ false) × ¬ Watched pull)
  is_watched-Watched pull = go pull.watch
    where
      go :
          (b : Option Bool)
          → (((elim b as (λ _. Bool) [ none ↦ true | some c ↦ c ]) ≡ true) × (b ≢ some false))
            ⊎ (((elim b as (λ _. Bool) [ none ↦ true | some c ↦ c ]) ≡ false) × ¬ (b ≢ some false))
      go none = inl (refl, (λ z. cc))
      go (some true) = inl (refl, (λ z. let f : true ≡ false = cc in cc))
      go (some false) = inr (refl, (λ n. n refl))

  -- When a pull is looked at again: after two minutes where it is watched and asks for more, and
  -- otherwise when it asks.
  abbrev pub Due : HubPull → Int64 → Type 0
  Due pull d =
      (asked : Int64) × Asks h k pull asked
      × ((Watched pull × (lt_int two_minutes asked ≡ true) × (d ≡ two_minutes))
          ⊎ (¬ (Watched pull × (lt_int two_minutes asked ≡ true)) × (d ≡ asked)))

  pub interval_of-Due : (pull : HubPull) → Due pull (interval_of h k pull)
  unfolding interval_of
  interval_of-Due pull =
      (asked_interval h k pull, asked_interval-Asks pull, due (is_watched-Watched pull))
    where
      due :
          ((is_watched pull ≡ true) × Watched pull) ⊎ ((is_watched pull ≡ false) × ¬ Watched pull)
          → (Watched pull
              × (lt_int two_minutes (asked_interval h k pull) ≡ true)
              × (interval_of h k pull ≡ two_minutes))
            ⊎ (¬ (Watched pull × (lt_int two_minutes (asked_interval h k pull) ≡ true))
                × (interval_of h k pull ≡ asked_interval h k pull))
      due (inr (e, n)) = inr ((λ z. n z.0), rw (e, interval_of) refl)
      due (inl (e, y)) = elim (Bool-cases (lt_int two_minutes (asked_interval h k pull))) [
        | inl long ↦ inl (y, long, rw (e, long, interval_of) refl)
        | inr short ↦ inr ((λ z. cc), rw (e, short, interval_of) refl)
      ]
