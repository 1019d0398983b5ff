-- ===== src/Pocket/Machine.antt =====
-- compose.go, sqlite.go and the options of pocket.go, over a machine.
use sealhub.Base.{
  Bool, true, false, not, ◌&&◌, Option, none, some, List, [], ◌∷◌, ◌++◌, if◌then◌else◌, ltb, length,
  take,
}
use sealhub.Base.Text.{Text, codes, ◌==◌}
use sealhub.Base.FilePath.{clean, join}
use sealhub.Base.Result.{Result, Error, ok, err, foreign}
use sealhub.Client.Types.{Http}
use sealhub.Backup.{Formats}

pub record Options : Type 0 where
  pub home : Text
  pub instance_name : Text
  pub stop_compose : Bool

-- os, os/exec and time, and the text of an error. `stat` is the error of os.Stat; `run` runs a program
-- with arguments in a directory, and `combined_output` gives what it writes too.
pub record Machine (h : Http) : Type 0 where
  pub getenv : Text → Text
  pub read_file : Text → h.World → Result Text
  pub write_file : Text → Text → h.World → Result (Unit {0}) × h.World
  pub mkdir_all : Text → h.World → Result (Unit {0}) × h.World
  pub remove : Text → h.World → h.World
  pub create_temp : h.World → Result Text × h.World
  pub stat : Text → h.World → Option Error
  pub look_path : Text → h.World → Bool
  pub run : Text → List Text → Text → h.World → Result (Unit {0}) × h.World
  pub combined_output : Text → List Text → h.World → (Text × Option Error) × h.World
  pub now : h.World → Text
  pub error_text : Error → Text
  pub formats : Formats

-- A directory of one developer stands in the code.
abbrev pub fallback_home : Text
fallback_home = codes "/Users/raghavendiran/Desktop/Home-Lab/Pocket_ID_Mac/pocket-id"

abbrev pub db_name : Text
db_name = codes "pocket-id.db"

abbrev pub data_dir : Text → Text
data_dir home = join home (codes "data")

abbrev pub env_file : Text → Text
env_file home = join home (codes ".env")

abbrev pub db_file : Text → Text
db_file home = join (data_dir home) db_name

-- strings.Join(args, " ")
unfoldable pub join_space : List Text → Text
join_space [] = []
join_space (a ∷ []) = a
join_space (a ∷ args) = a ++ codes " " ++ join_space args

unfoldable pub strings_trim : Text → Text
strings_trim s = if ltb 512 (length s) then take 512 s ++ codes "..." else s

module _ (h : Http) (m : Machine h) where
  abbrev pub exists : Text → h.World → Bool
  exists p w = elim (m.stat p w) [ none ↦ true | some x ↦ false ]

  -- fmt.Errorf("...: %w", err)
  abbrev pub wrapped : Text → Error → Error
  wrapped t x = foreign (t ++ codes ": " ++ m.error_text x)

  unfoldable pub default_home : Text
  default_home =
      let v = m.getenv (codes "POCKET_ID_HOME") in if not (v == []) then v else fallback_home

  unfoldable pub normalize : Options → Options
  unfolding clean default_home
  normalize o = record o {
    home = clean (if o.home == [] then default_home else o.home);
    instance_name = if o.instance_name == [] then codes "homelab" else o.instance_name;
  }

  unfoldable pub compose_cmd : Text → h.World → Text × List Text
  unfolding join
  compose_cmd dir w =
      let yml =
        not (exists (join dir (codes "docker-compose.yaml")) w)
        && exists (join dir (codes "docker-compose.yml")) w in
      let args =
        codes "compose"
        ∷ codes "-f"
        ∷ (if yml then codes "docker-compose.yml" else codes "docker-compose.yaml")
        ∷ [] in
      if m.look_path (codes "docker") w
      then (codes "docker", args)
      else if m.look_path (codes "podman") w
      then (codes "podman", args)
      else (codes "docker", args)

  unfoldable pub compose_run : Text → List Text → h.World → Result (Unit {0}) × h.World
  unfolding compose_cmd join_space
  compose_run dir args w =
      let (bin, before) = compose_cmd dir w in
      let (res, w') = m.run bin (before ++ args) dir w in
      elim res [
        | err x ↦ (err (wrapped (bin ++ codes " " ++ join_space (before ++ args)) x), w')
        | ok _ ↦ (ok tt, w')
      ]

  abbrev pub stop_pocket_id : Text → h.World → Result (Unit {0}) × h.World
  stop_pocket_id dir w = compose_run dir (codes "stop" ∷ codes "pocket-id" ∷ []) w

  abbrev pub start_pocket_id : Text → h.World → Result (Unit {0}) × h.World
  start_pocket_id dir w = compose_run dir (codes "up" ∷ codes "-d" ∷ codes "pocket-id" ∷ []) w

  unfoldable pub copy : Text → Text → h.World → Result (Unit {0}) × h.World
  copy src dest w = elim (m.read_file src w) [
    | err x ↦ (err x, w)
    | ok bytes ↦ m.write_file dest bytes w
  ]

  unfoldable pub sqlite_backup : Text → Text → h.World → Result (Unit {0}) × h.World
  unfolding strings_trim
  sqlite_backup src dest w =
      let (out, w') =
        m.combined_output (codes "sqlite3") (src ∷ (codes ".backup '" ++ dest ++ codes "'") ∷ [])
          w in
      elim out.1 [
        | some x ↦ (err (wrapped (codes "sqlite3 backup: " ++ strings_trim out.0) x), w')
        | none ↦ (ok tt, w')
      ]

  unfoldable pub snapshot_database : Text → Text → Bool → h.World → Result (Unit {0}) × h.World
  unfolding join copy sqlite_backup
  snapshot_database dir dest raw_copy w =
      let src = join dir db_name in
      elim (m.stat src w) [
        | some x ↦ (err (wrapped (codes "database " ++ src) x), w)
        | none ↦
            if raw_copy
            then copy src dest w
            else if m.look_path (codes "sqlite3") w
            then sqlite_backup src dest w
            else copy src dest w
      ]
