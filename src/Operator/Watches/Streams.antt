-- ===== src/Operator/Watches/Streams.antt =====
-- The streams of the table.
use sealhub.Base.{ℕ, ◌≡◌, ◌<◌, true, false, Option, some, arith}
use sealhub.Base.Text.{Text}
use sealhub.Operator.Watches.{WatchManager, new_manager, stream_of}

-- The streams that are not cancelled are those of the table, under their pulls.
pub record IsTable (w : WatchManager) : Type 0 where
  pub listed :
      (key : Text) (id : ℕ)
      → stream_of key w ≡ some id
      → (id < w.made) × (w.done id ≡ false) × (w.of_pull id ≡ key)
  pub kept : (id : ℕ) → id < w.made → w.done id ≡ false → stream_of (w.of_pull id) w ≡ some id
  pub fresh : (id : ℕ) → w.done id ≡ true → id < w.made

pub new_manager-IsTable : IsTable new_manager
new_manager-IsTable = record {
  listed = λ key id h. cc;
  kept = λ id h k. absurd (omega arith);
  fresh = λ id h. cc;
}

-- A stream that Sync began and has not cancelled.
abbrev pub IsKept : ℕ → WatchManager → Type 0
IsKept id w = (id < w.made) × (w.done id ≡ false)
