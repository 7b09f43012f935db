-- ===== src/Adb/Binary.antt =====
-- The search for the adb binary (rust/phonecam-desktop/src-tauri/src/adb.rs). Paths, files and
-- processes are a parameter, `Machine`.
pub mod Search
use phone_cam.Prelude.{
  ℕ, Bool, true, false, ◌&&◌, ◌||◌, not, Option, none, some, List, [], ◌∷◌, ◌++◌, Result, ok, err,
  ◌==◌, PartialEq, contains, if◌then◌else◌,
}
use phone_cam.Text.{Text}
use phone_cam.Text.Split.{codes, starts_with}
use phone_cam.Adb.Devices.{AdbError, not_found}

-- `std::process::Output`, with the bytes of its two streams.
pub record Output : Type 0 where
  pub success : Bool
  pub code : Option ℕ  -- an `i32` by its 32 bits
  pub stdout : List ℕ
  pub stderr : List ℕ

-- The program's surroundings. `Outside` is what processes see and change: the adb server and the
-- phones. `execute` is `none` if the process cannot be run.
pub record Machine : Type 1 where
  pub PathBuf : Type 0
  pub path_eq : PartialEq PathBuf
  pub from_str : Text → PathBuf
  pub join : PathBuf → Text → PathBuf
  pub parent : PathBuf → Option PathBuf
  pub exists : PathBuf → Bool
  pub Outside : Type 0
  pub execute : PathBuf → List Text → Outside → Outside × Option Output
  pub from_utf8 : List ℕ → Option Text
  pub from_utf8_lossy : List ℕ → Text

-- `str::contains`
unfoldable pub has_infix : Text → Text → Bool
unfolding starts_with
has_infix p [] = starts_with p []
has_infix p (c ∷ cs) = starts_with p (c ∷ cs) || has_infix p cs

module _ (M : Machine) where
  open M use {PathBuf, Outside}

  -- The variables of the environment, and the path of the running program.
  pub record Environment : Type 0 where
    pub adb_path : Option PathBuf
    pub android_home : Option PathBuf
    pub android_sdk_root : Option PathBuf
    pub home : Option PathBuf
    pub userprofile : Option PathBuf
    pub local_app_data : Option PathBuf
    pub current_exe : Option PathBuf
    pub is_windows : Bool

  unfoldable pub push_candidate : List PathBuf → PathBuf → List PathBuf
  push_candidate candidates candidate =
      if contains ⦃eq = M.path_eq⦄ candidates candidate
      then candidates
      else candidates ++ candidate ∷ []

  unfoldable pub push_all : List PathBuf → List PathBuf → List PathBuf
  unfolding push_candidate
  push_all candidates [] = candidates
  push_all candidates (p ∷ ps) = push_all (push_candidate candidates p) ps

  abbrev from_option : (PathBuf → List PathBuf) → Option PathBuf → List PathBuf
  from_option f none = []
  from_option f (some p) = f p

  abbrev pub adb_binary_name : Environment → Text
  adb_binary_name e = if e.is_windows then codes "adb.exe" else codes "adb"

  -- `home_dir`
  abbrev pub home_dir : Environment → Option PathBuf
  home_dir e = elim e.home [ some p ↦ some p | none ↦ e.userprofile ]

  abbrev pub platform_tools : Environment → PathBuf → PathBuf
  platform_tools e p = M.join (M.join p (codes "platform-tools")) (adb_binary_name e)

  abbrev pub beside_program : Environment → PathBuf → List PathBuf
  beside_program e exe_dir =
      M.join exe_dir (adb_binary_name e)
      ∷ platform_tools e exe_dir
      ∷ platform_tools e (M.join exe_dir (codes "resources"))
      ∷ from_option (λ p. platform_tools e (M.join p (codes "Resources")) ∷ []) (M.parent exe_dir)

  abbrev pub in_sdk : Environment → PathBuf → PathBuf
  in_sdk e p = platform_tools e (M.join (M.join p (codes "Android")) (codes "Sdk"))

  -- The paths in the order in which they are pushed.
  abbrev pub named_paths : Environment → List PathBuf
  named_paths e =
      M.from_str (codes "adb") ∷ from_option (λ p. p ∷ M.join p (adb_binary_name e) ∷ []) e.adb_path
      ++ (from_option (λ p. platform_tools e p ∷ []) e.android_home
          ++ (from_option (λ p. platform_tools e p ∷ []) e.android_sdk_root
              ++ (from_option (λ p. in_sdk e p ∷ []) (home_dir e)
                  ++ ((if e.is_windows
                        then from_option (λ p. in_sdk e p ∷ []) e.local_app_data
                        else [])
                      ++ from_option (λ x. from_option (beside_program e) (M.parent x))
                          e.current_exe))))

  unfoldable pub candidates_of : Environment → List PathBuf
  unfolding push_all
  candidates_of e = push_all [] (named_paths e)

  unfoldable pub says_adb : Option Output → Bool
  unfolding has_infix
  says_adb none = false
  says_adb (some o) =
      o.success
      && (has_infix (codes "Android Debug Bridge") (M.from_utf8_lossy o.stdout)
          || has_infix (codes "Android Debug Bridge") (M.from_utf8_lossy o.stderr))

  -- `probe_adb_binary`
  unfoldable pub probe_adb_binary : PathBuf → Outside → Outside × Bool
  unfolding says_adb
  probe_adb_binary candidate outside =
      let r = M.execute candidate (codes "version" ∷ []) outside in (r.0, says_adb r.1)

  -- A candidate that is neither `adb` itself nor a file is not tried.
  abbrev pub is_tried : PathBuf → Bool
  is_tried p = M.path_eq.same p (M.from_str (codes "adb")) || M.exists p

  -- The loop over the candidates.
  unfoldable pub search :
      List PathBuf → List PathBuf → Outside → Outside × Result (AdbError PathBuf) PathBuf
  unfolding probe_adb_binary
  search [] searched outside = (outside, err (not_found searched))
  search (p ∷ ps) searched outside =
      let seen = searched ++ p ∷ [] in
      elim (contains ⦃eq = M.path_eq⦄ searched p) [
        | true ↦ search ps searched outside
        | false ↦ elim (is_tried p) [
          | false ↦ search ps seen outside
          | true ↦
              let r = probe_adb_binary p outside in
              elim r.1 [ true ↦ (r.0, ok p) | false ↦ search ps seen r.0 ]
        ]
      ]

  unfoldable pub discover_adb_binary :
      Environment → Outside → Outside × Result (AdbError PathBuf) PathBuf
  unfolding search candidates_of
  discover_adb_binary e outside = search (candidates_of e) [] outside
