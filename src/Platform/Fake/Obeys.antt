-- ===== src/Platform/Fake/Obeys.antt =====
-- The adapters in memory obey the laws that the application relies on.
use xrayctl.Common.{
  ℕ, String, true, false, not, Option, none, some, List, ◌≡◌, inl, inr, refl, sym, subst, ap, arith,
  ◌∙◌, ◌||◌, Bool-cases, if◌then◌else◌,
}
use xrayctl.Common.Assoc.{get, insert, get-insert, get-remove, get-retain}
use xrayctl.Core.Config.{ManagerConfig}
use xrayctl.Core.Json.{Value}
use xrayctl.Core.Routing.{RoutingConfig}
use xrayctl.Core.Error.{Result, is_ok}
use xrayctl.Core.Domain.{Node, ManagerState}
use xrayctl.Core.Backends.{Location, ◌/◌, ManagerPaths}
use xrayctl.Core.Backends.Locations.{
  same_path, same_path_iff, same_path-length, starts_with, starts_with-length,
}
use xrayctl.Core.Application.{Manager, Formats}
use xrayctl.Core.Application.Observed.{Observed, switched, pointed, or_kept, Laws, Points, Refuses}
use xrayctl.Platform.Fake.{
  FakeWorld, found, read, list_files, write_atomic, exists, remove_owned, switch_generation,
  rollback_generation, restore_generation, test_config, fake_backends, move_on, swap, put,
}

module _ (p : ManagerPaths) where
  abbrev pub look : FakeWorld → Observed
  look w = record {
    current = get same_path (p.state_dir / "current") w.generations;
    previous = get same_path (p.state_dir / "previous") w.generations;
    saved = get same_path (p.state_dir / "state.json") w.files;
    writable = true;
  }

  quiet_files :
      (k : Location) (bytes : String) (mode : Option ℕ) (w : FakeWorld)
      → same_path k (p.state_dir / "state.json") ≡ false
      → look (write_atomic k bytes mode w).1 ≡ look w
  unfolding write_atomic
  quiet_files k bytes mode w f =
      ap (λ s. record (look w) { saved = s })
        (get-insert same_path same_path_iff k (p.state_dir / "state.json") bytes w.files
          ∙ rw f refl)

  quiet_removal :
      (k root : Location) (w : FakeWorld)
      → starts_with (p.state_dir / "state.json") k ≡ false
      → look (remove_owned k root w).1 ≡ look w
  unfolding remove_owned
  quiet_removal k root w f = elim (Bool-cases (not (starts_with k root) || same_path k root)) [
    | inl t ↦ rw t refl
    | inr g ↦ rw g (
        ap (λ s. record (look w) { saved = s })
          (get-retain same_path same_path_iff (λ c. not (starts_with c k))
            (p.state_dir / "state.json") w.files (rw f refl)))
  ]

  same_path_self : (k : Location) → same_path k k ≡ true
  same_path_self k = (same_path_iff k k).1 refl

  writes :
      (bytes : String) (mode : Option ℕ) (w : FakeWorld)
      → look (write_atomic (p.state_dir / "state.json") bytes mode w).1
        ≡ record (look w) { saved = some bytes }
  unfolding write_atomic
  writes bytes mode w =
      ap (λ s. record (look w) { saved = s })
        (get-insert same_path same_path_iff (p.state_dir / "state.json")
            (p.state_dir / "state.json") bytes w.files
          ∙ rw (same_path_self (p.state_dir / "state.json")) refl)

  get-put :
      (k j : Location) (o : Option Location) (g : List (Location × Location))
      → get same_path j (put k o g) ≡ (if same_path k j then o else get same_path j g)
  get-put k j none g = get-remove same_path same_path_iff k j g
  get-put k j (some t) g = get-insert same_path same_path_iff k j t g

  get-move_on :
      (k j : Location) (o : Option Location) (g : List (Location × Location))
      → get same_path j (move_on k o g)
        ≡ (if same_path k j then or_kept o (get same_path j g) else get same_path j g)
  get-move_on k j none g = ground arith
  get-move_on k j (some t) g = get-insert same_path same_path_iff k j t g

  seen-eq :
      (a b c d : Option Location) (s : Option String)
      → a ≡ c
      → b ≡ d
      → Path Observed
          (record { current = a; previous = b; saved = s; writable = true })
          (record { current = c; previous = d; saved = s; writable = true })
  seen-eq a b c d s h k = rw (h, k) refl

  switches :
      (t : Location) (w : FakeWorld)
      → look (switch_generation (p.state_dir / "current") (p.state_dir / "previous") t w).1
        ≡ switched t (look w)
  unfolding switch_generation same_path
  switches t w =
      seen-eq _ _ _ _ _
        (get-insert same_path same_path_iff (p.state_dir / "current") (p.state_dir / "current") t _
          ∙ rw (same_path_self p.state_dir) refl)
        (get-insert same_path same_path_iff (p.state_dir / "current") (p.state_dir / "previous") t _
          ∙ (get-move_on (p.state_dir / "previous") (p.state_dir / "previous") _ w.generations
              ∙ rw (same_path_self p.state_dir) refl))

  restores :
      (c q : Option Location) (w : FakeWorld)
      → look (restore_generation (p.state_dir / "current") (p.state_dir / "previous") c q w).1
        ≡ pointed c q (look w)
  unfolding restore_generation same_path
  restores c q w =
      seen-eq _ _ _ _ _
        (get-put (p.state_dir / "previous") (p.state_dir / "current") q _
          ∙ (get-put (p.state_dir / "current") (p.state_dir / "current") c w.generations
              ∙ rw (same_path_self p.state_dir) refl))
        (get-put (p.state_dir / "previous") (p.state_dir / "previous") q _
          ∙ rw (same_path_self p.state_dir) refl)

  swaps :
      (w : FakeWorld) (c q : Location)
      → look (record w {
        generations =
            insert same_path
              (p.state_dir / "previous")
              c
              (insert same_path (p.state_dir / "current") q w.generations);
      })
        ≡ pointed (some q) (some c) (look w)
  unfolding same_path
  swaps w c q =
      seen-eq _ _ _ _ _
        (get-insert same_path same_path_iff (p.state_dir / "previous") (p.state_dir / "current") c _
          ∙ (get-insert same_path same_path_iff (p.state_dir / "current") (p.state_dir / "current")
                q w.generations
              ∙ rw (same_path_self p.state_dir) refl))
        (get-insert same_path same_path_iff (p.state_dir / "previous") (p.state_dir / "previous") c
            _
          ∙ rw (same_path_self p.state_dir) refl)

  module _ (config : ManagerConfig) (formats : Formats) (error : Option String) (now : ℕ)
      (render : Option Node → RoutingConfig → List Value → Result (List (String × Value))) where
    abbrev pub fake_manager : Manager FakeWorld
    fake_manager = record {
      config = config;
      backends = fake_backends p error now;
      formats = formats;
      render = render;
    }

    rolls_back :
        (w : FakeWorld) {c q : Location}
        → (look w).current ≡ some c
        → (look w).previous ≡ some q
        → Points fake_manager p look
            (some q)
            (some c)
            w
            (rollback_generation (p.state_dir / "current") (p.state_dir / "previous") w)
    unfolding rollback_generation
    rolls_back w {c} {q} h k = rw (h, k) (refl, swaps w c q)

    swap-Refuses :
        (w : FakeWorld) (c : Option Location)
        → Refuses fake_manager p look w
            (swap (p.state_dir / "current") (p.state_dir / "previous") w c none)
    swap-Refuses w none = (refl, refl)
    swap-Refuses w (some c) = (refl, refl)

    refuses :
        (w : FakeWorld)
        → (look w).previous ≡ none
        → Refuses fake_manager p look w
            (rollback_generation (p.state_dir / "current") (p.state_dir / "previous") w)
    unfolding rollback_generation
    refuses w h =
        subst
          (λ q. Refuses fake_manager p look w (
            swap (p.state_dir / "current") (p.state_dir / "previous") w
              (get same_path (p.state_dir / "current") w.generations) q))
          (sym h) (swap-Refuses w _)

    test_quiet : (e : Option String) (w : FakeWorld) → look (test_config e w).1 ≡ look w
    test_quiet none w = refl
    test_quiet (some e) w = refl

    found_quiet :
        (path : Location) (w : FakeWorld) (r : Option String) → look (found path w r).1 ≡ look w
    unfolding found
    found_quiet path w none = refl
    found_quiet path w (some bytes) = refl

    pub fake_manager-Laws :
        ((s : ManagerState) → is_ok (formats.write_state s) ≡ true) → Laws fake_manager p look
    unfolding read list_files exists write_atomic switch_generation restore_generation
    fake_manager-Laws encodes = record {
      paths = λ w. refl;
      encodes = encodes;
      writes_state = λ bytes mode w. (refl, writes bytes mode w);
      switches = λ t w. inl (refl, switches t w);
      restores = λ c q w. (refl, restores c q w);
      rolls_back = λ w h k. rolls_back w h k;
      cannot_roll_back = refuses;
      reads = λ path w. found_quiet path w (get same_path path w.files);
      lists = λ path w. refl;
      looks = λ path w. refl;
      creates = λ path w. refl;
      permits = λ path mode w. refl;
      writes_files = λ g name bytes mode w.
          quiet_files _ bytes mode w
            (same_path-length _ (p.state_dir / "state.json") (omega arith));
      removes = λ g w.
          quiet_removal _ _ w (starts_with-length (p.state_dir / "state.json") _ (omega arith));
      owns = λ path user group recursive w. refl;
      tests = λ request w. test_quiet error w;
      checks_health = λ c w. refl;
      enables = λ service w. refl;
      disables = λ service w. refl;
      starts = λ service w. refl;
      stops = λ service w. refl;
      restarts = λ service w. refl;
      unroutes = λ c w. refl;
      opens_firewall = λ w. refl;
      prunes = λ keep w. refl;
      emits = λ event w. refl;
    }
