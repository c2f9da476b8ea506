-- ===== src/Core/Application/Observed.antt =====
-- What is observed of a world: the two pointers to generations, and the file of the state. The laws
-- say what each port does to it.
use xrayctl.Common.{ℕ, String, Bool, true, false, Option, none, some, ◌≡◌, ◌⊎◌, if◌then◌else◌}
use xrayctl.Core.Error.{Result, ok, is_ok}
use xrayctl.Core.Domain.{ManagerState}
use xrayctl.Core.Config.{ManagerConfig}
use xrayctl.Core.Events.{ManagerEvent}
use xrayctl.Core.Backends.{Location, ◌/◌, ManagerPaths, XrayTestRequest, Action}
use xrayctl.Core.Application.{Manager}

pub record Observed : Type 0 where
  pub current : Option Location
  pub previous : Option Location
  pub saved : Option String
  -- Whether `state.json` can be written.
  pub writable : Bool

abbrev pub or_kept : Option Location → Option Location → Option Location
or_kept none kept = kept
or_kept (some x) kept = some x

abbrev pub switched : Location → Observed → Observed
switched target o = record o { current = some target; previous = or_kept o.current o.previous }

abbrev pub pointed : Option Location → Option Location → Observed → Observed
pointed current previous o = record o { current = current; previous = previous }

abbrev pub stored : String → Observed → Observed
stored bytes o = record o { saved = some bytes }

module _ {W : Type 0} (m : Manager W) (p : ManagerPaths) (observe : W → Observed) where
  -- The port changes nothing that is observed.
  abbrev pub IsQuiet : {T : Type 0} → Action W T → Type 0
  IsQuiet action = (w : W) → observe (action w).1 ≡ observe w

  abbrev pub state_file : Location
  state_file = p.state_dir / "state.json"

  abbrev pub generations : Location
  generations = p.state_dir / "generations"

  abbrev pub Writes : String → W → Result (Unit {0}) × W → Type 0
  Writes bytes w (r, w') =
      (is_ok r ≡ (observe w).writable)
      × (observe w' ≡ (if (observe w).writable then stored bytes (observe w) else observe w))

  abbrev pub Switches : Location → W → Result (Unit {0}) × W → Type 0
  Switches target w (r, w') =
      ((is_ok r ≡ true) × (observe w' ≡ switched target (observe w)))
      ⊎ ((is_ok r ≡ false) × (observe w' ≡ observe w))

  abbrev pub Points : Option Location → Option Location → W → Result (Unit {0}) × W → Type 0
  Points current previous w (r, w') =
      (is_ok r ≡ true) × (observe w' ≡ pointed current previous (observe w))

  abbrev pub Refuses : W → Result (Unit {0}) × W → Type 0
  Refuses w (r, w') = (is_ok r ≡ false) × (observe w' ≡ observe w)

  -- The paths are constant; the state can be encoded; `state.json` is written if it can be written;
  -- the pointers are switched entirely or not at all, and can always be put back and, if there are
  -- two, rolled back; and nothing else touches the pointers or the file.
  pub record Laws : Type 0 where
    pub paths : (w : W) → m.backends.paths w ≡ (ok p, w)
    pub encodes : (s : ManagerState) → is_ok (m.formats.write_state s) ≡ true
    pub writes_state :
        (bytes : String) (mode : Option ℕ) (w : W)
        → Writes bytes w (m.backends.write_atomic state_file bytes mode w)
    pub switches :
        (target : Location) (w : W)
        → Switches target w (
            m.backends.switch_generation
              (p.state_dir / "current")
              (p.state_dir / "previous")
              target
              w)
    pub restores :
        (current previous : Option Location) (w : W)
        → Points current previous w (
            m.backends.restore_generation
              (p.state_dir / "current")
              (p.state_dir / "previous")
              current
              previous
              w)
    pub rolls_back :
        (w : W) {current previous : Location}
        → (observe w).current ≡ some current
        → (observe w).previous ≡ some previous
        → Points
            (some previous)
            (some current)
            w
            (m.backends.rollback_generation (p.state_dir / "current") (p.state_dir / "previous") w)
    pub cannot_roll_back :
        (w : W)
        → (observe w).previous ≡ none
        → Refuses w
            (m.backends.rollback_generation (p.state_dir / "current") (p.state_dir / "previous") w)
    pub reads : (path : Location) → IsQuiet (m.backends.read path)
    pub lists : (path : Location) → IsQuiet (m.backends.list_files path)
    pub looks : (path : Location) → IsQuiet (m.backends.exists path)
    pub creates : (path : Location) → IsQuiet (m.backends.create_dir_all path)
    pub permits : (path : Location) (mode : ℕ) → IsQuiet (m.backends.set_permissions path mode)
    pub writes_files :
        (generation name bytes : String) (mode : Option ℕ)
        → IsQuiet (m.backends.write_atomic (generations / generation / "conf.d" / name) bytes mode)
    pub removes :
        (generation : String)
        → IsQuiet (m.backends.remove_owned (generations / generation) generations)
    pub owns :
        (path : Location) (user group : String) (recursive : Bool)
        → IsQuiet (m.backends.set_ownership path user group recursive)
    pub tests : (request : XrayTestRequest) → IsQuiet (m.backends.test_config request)
    pub checks_health : (config : ManagerConfig) → IsQuiet (m.backends.healthcheck config)
    pub enables : (service : String) → IsQuiet (m.backends.enable service)
    pub disables : (service : String) → IsQuiet (m.backends.disable service)
    pub starts : (service : String) → IsQuiet (m.backends.start service)
    pub stops : (service : String) → IsQuiet (m.backends.stop service)
    pub restarts : (service : String) → IsQuiet (m.backends.restart service)
    pub unroutes : (config : ManagerConfig) → IsQuiet (m.backends.disable_routing config)
    pub opens_firewall : IsQuiet m.backends.disable_firewall
    pub prunes :
        (keep : ℕ)
        → IsQuiet (
            m.backends.prune_generations generations
              (p.state_dir / "current")
              (p.state_dir / "previous")
              keep)
    pub emits : (event : ManagerEvent) (w : W) → observe (m.backends.emit event w) ≡ observe w
